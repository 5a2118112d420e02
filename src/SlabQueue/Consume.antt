-- ===== src/SlabQueue/Consume.antt =====
-- `Consume` of core/src/slab_queue.cpp: the oldest bytes go.
use mod_audio_fork.Common.{
  ℕ, zero, suc, ◌+◌, ◌-◌, min, ◌≤◌, ◌<◌, ◌≡◌, refl, sym, ◌∙◌, ap, List, [], ◌∷◌, ◌++◌, length, take,
  drop, length-append, length-drop, take_cong, drop-take, drop-drop, drop_cong, drop-append_le,
  drop-min, arith,
}
use mod_audio_fork.SlabPool.{SlabPool}
use mod_audio_fork.SlabPool.Accounting.{IsValid}
use mod_audio_fork.SlabQueue.{Chunk, SlabQueue, chunk_size, consume_loop, consume}
use mod_audio_fork.SlabQueue.Contents.{
  chunk_bytes, contents, Fits, IsChunks, Holds, Keeps, length-chunk_bytes, front-Fits,
}
use mod_audio_fork.SlabQueue.Pop.{Loose, Pops, pop-Pops}

-- The queue and the pool once the `r` oldest bytes are gone.
record Consumes (r : ℕ) (p : SlabPool) (cs : List Chunk) (p' : SlabPool) (q' : SlabQueue)
    : Type 0 where
  holds : Holds p' q'
  left : contents q'.chunks ≡ drop r (contents cs)
  keeps : Keeps p p' cs q'.chunks

-- What one round of the loop starts from.
record Loop (fuel r : ℕ) (p : SlabPool) (size : ℕ) (cs : List Chunk) : Type 0 where
  valid : IsValid p
  leases : length cs ≤ p.leased_slabs
  chunks : IsChunks p.slab_size_bytes cs
  sized : size ≡ length (contents cs)
  within : r ≤ size
  fuelled : 0 < r → length cs < fuel

done-Consumes :
    (fuel r : ℕ) (p : SlabPool) (size : ℕ) (cs : List Chunk)
    → Loop fuel r p size cs
    → r ≡ 0
    → Consumes r p cs p (record { size = size; chunks = cs })
done-Consumes fuel r p size cs h e = record {
  holds = record { valid = h.valid; leases = h.leases; chunks = h.chunks; sized = h.sized };
  left = drop_cong (contents cs) (sym e);
  keeps = record { options = refl; others = refl };
}

abbrev advance : ℕ → Chunk → Chunk
advance n c = record c { begin = c.begin + n }

advance-bytes : (n : ℕ) (c : Chunk) → chunk_bytes (advance n c) ≡ drop n (chunk_bytes c)
advance-bytes n c =
    take_cong (drop (c.begin + n) c.storage) (omega arith)
    ∙ ap (take (chunk_size c - n)) (sym (drop-drop n c.begin c.storage))
    ∙ sym (drop-take n (chunk_size c) (drop c.begin c.storage))

advance-Loose :
    (n k : ℕ) (c : Chunk) (cs : List Chunk)
    → k ≤ chunk_size c
    → IsChunks n (c ∷ cs)
    → Loose n (advance k c ∷ cs)
advance-Loose n k c [] l h = (h.0, omega arith, h.2)
advance-Loose n k c (d ∷ cs) l h = (h.0.0, omega arith, h.1, h.2)

contents_pos : (cs : List Chunk) → 0 < length (contents cs) → 0 < length cs
contents_pos [] h = h
contents_pos (c ∷ cs) h = omega arith

module _ (fuel r : ℕ) (p : SlabPool) (size : ℕ) (c : Chunk) (cs : List Chunk)
    (h : Loop (suc fuel) (suc r) p size (c ∷ cs)) where
  abbrev taken : ℕ
  taken = min (chunk_size c) (suc r)

  fits : Fits p.slab_size_bytes c
  fits = front-Fits p.slab_size_bytes c cs h.chunks

  -- While bytes remain to go, another chunk holds them.
  others : 0 < suc r - taken → 1 < length (advance taken c ∷ cs)
  others more = omega (arith, contents_pos cs more_bytes)
    where
      more_bytes : 0 < length (contents cs)
      more_bytes = omega (
        arith,
        h.within,
        h.sized,
        length-chunk_bytes p.slab_size_bytes c fits,
        length-append (chunk_bytes c) (contents cs),
      )

  advanced : contents (advance taken c ∷ cs) ≡ drop taken (contents (c ∷ cs))
  advanced =
      ap (λ t. t ++ contents cs) (advance-bytes taken c)
      ∙ sym (
          drop-append_le taken (chunk_bytes c) (contents cs)
            (omega (arith, length-chunk_bytes p.slab_size_bytes c fits)))

  module _ (p' : SlabPool) (cs' : List Chunk) (pops : Pops p (advance taken c ∷ cs) p' cs') where
    left_after : contents cs' ≡ drop taken (contents (c ∷ cs))
    left_after = pops.same ∙ advanced

    next_Loop : Loop fuel (suc r - taken) p' (size - taken) cs'
    next_Loop = record {
      valid = pops.valid;
      leases = pops.leases;
      chunks = pops.chunks;
      sized = omega (arith, ap length left_after, length-drop taken (contents (c ∷ cs)), h.sized);
      within = omega (arith, h.within);
      fuelled = λ more. omega (arith, pops.shrinks (omega arith) (others more), h.fuelled);
    }

    round-Consumes :
        (p'' : SlabPool) (q' : SlabQueue)
        → Consumes (suc r - taken) p' cs' p'' q'
        → Consumes (suc r) p (c ∷ cs) p'' q'
    round-Consumes p'' q' k = record {
      holds = k.holds;
      left =
          k.left
          ∙ ap (drop (suc r - taken)) left_after
          ∙ drop-drop (suc r - taken) taken (contents (c ∷ cs))
          ∙ drop_cong {n = suc r} (contents (c ∷ cs)) (omega arith);
      keeps = record {
        options = k.keeps.options ∙ pops.keeps.options;
        others = omega (arith, k.keeps.others, pops.keeps.others);
      };
    }

consume_loop-Consumes :
    (fuel r : ℕ) (p : SlabPool) (size : ℕ) (cs : List Chunk)
    → Loop fuel r p size cs
    → let k = consume_loop fuel r p size cs in Consumes r p cs k.0 k.1
unfolding consume_loop
consume_loop-Consumes zero zero p size cs h = done-Consumes zero zero p size cs h refl
consume_loop-Consumes zero (suc r) p size cs h = absurd (omega (arith, h.fuelled))
consume_loop-Consumes (suc fuel) zero p size cs h = done-Consumes (suc fuel) zero p size cs h refl
consume_loop-Consumes (suc fuel) (suc r) p size [] h = absurd (omega (arith, h.within, h.sized))
consume_loop-Consumes (suc fuel) (suc r) p size (c ∷ cs) h =
    let n = min (chunk_size c) (suc r) in
    let pops =
      pop-Pops p (advance n c ∷ cs) h.valid h.leases
        (advance-Loose p.slab_size_bytes n c cs (omega arith) h.chunks) in
    round-Consumes fuel r p size c cs h _ _ pops _ _ (
      consume_loop-Consumes fuel (suc r - n) _ (size - n) _
        (next_Loop fuel r p size c cs h _ _ pops))

-- With a valid pool and queue, `Consume` drops the oldest bytes, as many as asked for or all, and
-- its loop ends within its fuel; the slabs of the chunks that are done with go back to the pool,
-- which keeps every other lease.
pub consume_drops :
    (n : ℕ) (p : SlabPool) (q : SlabQueue)
    → Holds p q
    → let (p', q') = consume n p q in
      (contents q'.chunks ≡ drop n (contents q.chunks))
      × (q'.size ≡ q.size - n)
      × Holds p' q'
      × Keeps p p' q.chunks q'.chunks
unfolding consume
consume_drops n p q h = (
  gone,
  omega (arith, k.holds.sized, ap length gone, length-drop n (contents q.chunks), h.sized),
  k.holds,
  k.keeps,
)
  where
    k :
        let r = consume_loop (suc (length q.chunks)) (min n q.size) p q.size q.chunks in
        Consumes (min n q.size) p q.chunks r.0 r.1
    k = consume_loop-Consumes (suc (length q.chunks)) (min n q.size) p q.size q.chunks (record {
      valid = h.valid;
      leases = h.leases;
      chunks = h.chunks;
      sized = h.sized;
      within = omega arith;
      fuelled = λ _. omega arith;
    })

    gone : contents (consume n p q).1.chunks ≡ drop n (contents q.chunks)
    gone = k.left ∙ drop-min n (contents q.chunks) h.sized
