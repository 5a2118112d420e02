-- ===== src/SlabQueue/Contents.antt =====
-- The bytes that a queue of core/src/slab_queue.cpp holds, and what holds of its chunks and of its
-- pool between two calls.
use mod_audio_fork.Common.{
  ℕ, suc, ◌+◌, ◌≤◌, ◌<◌, ◌≡◌, refl, sym, ◌∙◌, ap, true, false, List, [], ◌∷◌, ◌++◌, append-nil,
  append_assoc, length, take, drop, length-append, length-take, length-drop, drop-take,
  take-drop-append, arith,
}
use mod_audio_fork.SlabPool.{SlabPool}
use mod_audio_fork.SlabPool.Accounting.{IsValid}
use mod_audio_fork.SlabQueue.{
  Chunk, SlabQueue, chunk_size, fresh_chunk, write_chunk, write_tail, tail_room, tail_full,
}

abbrev pub chunk_bytes : Chunk → List ℕ
chunk_bytes c = take (chunk_size c) (drop c.begin c.storage)

-- Oldest byte first.
abbrev pub contents : List Chunk → List ℕ
contents [] = []
contents (c ∷ cs) = chunk_bytes c ++ contents cs

abbrev pub front_size : List Chunk → ℕ
front_size [] = 0
front_size (c ∷ cs) = chunk_size c

-- A chunk of a slab of `n` bytes that has a byte to give or room for one.
abbrev pub Fits : ℕ → Chunk → Type 0
Fits n c = (length c.storage ≡ n) × (c.begin ≤ c.end) × (c.end ≤ n) × (c.begin < n)

-- Every chunk but the last is written to its end.
abbrev pub IsChunks : ℕ → List Chunk → Type 0
IsChunks n [] = Unit {0}
IsChunks n (c ∷ []) = Fits n c
IsChunks n (c ∷ d ∷ cs) = Fits n c × (c.end ≡ n) × IsChunks n (d ∷ cs)

-- A valid pool with a queue that leases some of its slabs.
pub record Holds (p : SlabPool) (q : SlabQueue) : Type 0 where
  pub valid : IsValid p
  pub leases : length q.chunks ≤ p.leased_slabs
  pub chunks : IsChunks p.slab_size_bytes q.chunks
  pub sized : q.size ≡ length (contents q.chunks)

-- From one state to another no slab is lost to the pool's other users.
pub record Keeps (p p' : SlabPool) (cs cs' : List Chunk) : Type 0 where
  pub options : p'.options ≡ p.options
  pub others : p'.leased_slabs + length cs ≡ p.leased_slabs + length cs'

pub Keeps-trans :
    {p p' p'' : SlabPool} {cs cs' cs'' : List Chunk}
    → Keeps p p' cs cs'
    → Keeps p' p'' cs' cs''
    → Keeps p p'' cs cs''
Keeps-trans h k = ground arith

pub length-chunk_bytes : (n : ℕ) (c : Chunk) → Fits n c → length (chunk_bytes c) ≡ chunk_size c
length-chunk_bytes n c h =
    omega
      (arith, length-take (chunk_size c) (drop c.begin c.storage), length-drop c.begin c.storage)

write_chunk-bytes :
    (n : ℕ) (bs : List ℕ) (c : Chunk)
    → Fits n c
    → c.end + length bs ≤ n
    → chunk_bytes (write_chunk bs c) ≡ chunk_bytes c ++ bs
write_chunk-bytes n bs c h room =
    take-drop-append c.begin (c.end + length bs) (take c.end c.storage) bs
      (drop (c.end + length bs) c.storage) (omega (arith, length-take c.end c.storage))
      (omega (arith, length-take c.end c.storage))
    ∙ ap (λ t. t ++ bs) (drop-take c.begin c.end c.storage)

write_chunk-Fits :
    (n : ℕ) (bs : List ℕ) (c : Chunk) → Fits n c → c.end + length bs ≤ n → Fits n (write_chunk bs c)
write_chunk-Fits n bs c h room = (
  omega (
    arith,
    length-append (take c.end c.storage) (bs ++ drop (c.end + length bs) c.storage),
    length-append bs (drop (c.end + length bs) c.storage),
    length-take c.end c.storage,
    length-drop (c.end + length bs) c.storage,
  ),
  omega arith,
  omega arith,
  omega arith,
)

module _ (n : ℕ) where
  pub contents-write_tail :
      (bs : List ℕ) (cs : List Chunk)
      → IsChunks n cs
      → length bs ≤ tail_room cs
      → contents (write_tail bs cs) ≡ contents cs ++ bs
  unfolding tail_room write_tail
  contents-write_tail [] [] h l = refl
  contents-write_tail (b ∷ bs) [] h l = absurd (omega arith)
  contents-write_tail bs (c ∷ []) h l =
      append-nil (chunk_bytes (write_chunk bs c))
      ∙ write_chunk-bytes n bs c h (omega arith)
      ∙ ap (λ t. t ++ bs) (sym (append-nil (chunk_bytes c)))
  contents-write_tail bs (c ∷ d ∷ cs) h l =
      ap (λ t. chunk_bytes c ++ t) (contents-write_tail bs (d ∷ cs) h.2 l)
      ∙ sym (append_assoc (chunk_bytes c) (contents (d ∷ cs)) bs)

  pub write_tail-IsChunks :
      (bs : List ℕ) (cs : List Chunk)
      → IsChunks n cs
      → length bs ≤ tail_room cs
      → IsChunks n (write_tail bs cs)
  unfolding tail_room write_tail
  write_tail-IsChunks bs [] h l = tt
  write_tail-IsChunks bs (c ∷ []) h l = write_chunk-Fits n bs c h (omega arith)
  write_tail-IsChunks bs (c ∷ d ∷ []) h l = (h.0, h.1, write_tail-IsChunks bs (d ∷ []) h.2 l)
  write_tail-IsChunks bs (c ∷ d ∷ e ∷ cs) h l =
      (h.0, h.1, write_tail-IsChunks bs (d ∷ e ∷ cs) h.2 l)

  pub length-write_tail : (bs : List ℕ) (cs : List Chunk) → length (write_tail bs cs) ≡ length cs
  unfolding write_tail
  length-write_tail bs [] = refl
  length-write_tail bs (c ∷ []) = refl
  length-write_tail bs (c ∷ d ∷ cs) = ap suc (length-write_tail bs (d ∷ cs))

  pub fresh-IsChunks :
      (s : List ℕ) (cs : List Chunk)
      → 0 < n
      → length s ≡ n
      → IsChunks n cs
      → tail_full cs ≡ true
      → IsChunks n (cs ++ fresh_chunk s ∷ [])
  unfolding tail_full
  fresh-IsChunks s [] pos l h f = omega arith
  fresh-IsChunks s (c ∷ []) pos l h f = ground arith
  fresh-IsChunks s (c ∷ d ∷ cs) pos l h f = (h.0, h.1, fresh-IsChunks s (d ∷ cs) pos l h.2 f)

  pub tail_room_pos : (cs : List Chunk) → IsChunks n cs → tail_full cs ≡ false → 0 < tail_room cs
  unfolding tail_full tail_room
  tail_room_pos [] h f = cc
  tail_room_pos (c ∷ []) h f = ground arith
  tail_room_pos (c ∷ d ∷ cs) h f = tail_room_pos (d ∷ cs) h.2 f

pub contents-fresh :
    (s : List ℕ) (cs : List Chunk) → contents (cs ++ fresh_chunk s ∷ []) ≡ contents cs
contents-fresh s [] = refl
contents-fresh s (c ∷ cs) = ap (λ t. chunk_bytes c ++ t) (contents-fresh s cs)

pub tail_room-fresh :
    (s : List ℕ) (cs : List Chunk) → tail_room (cs ++ fresh_chunk s ∷ []) ≡ length s
unfolding tail_room
tail_room-fresh s [] = omega arith
tail_room-fresh s (c ∷ []) = omega arith
tail_room-fresh s (c ∷ d ∷ cs) = tail_room-fresh s (d ∷ cs)

pub tail-IsChunks : (n : ℕ) (c : Chunk) (cs : List Chunk) → IsChunks n (c ∷ cs) → IsChunks n cs
tail-IsChunks n c [] h = tt
tail-IsChunks n c (d ∷ cs) h = h.2

pub front-Fits : (n : ℕ) (c : Chunk) (cs : List Chunk) → IsChunks n (c ∷ cs) → Fits n c
front-Fits n c [] h = h
front-Fits n c (d ∷ cs) h = h.0
