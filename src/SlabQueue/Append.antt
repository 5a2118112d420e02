-- ===== src/SlabQueue/Append.antt =====
-- `Append` of core/src/slab_queue.cpp: it stores the bytes in order until the pool refuses a slab.
use mod_audio_fork.Common.{
  ℕ, zero, suc, ◌+◌, ◌-◌, min, ◌≤◌, ◌<◌, ◌≡◌, refl, sym, subst, take_all, take-append_le, ◌∙◌, ap,
  ◌⊎◌, inl, inr, true, Option, none, some, List, [], ◌∷◌, ◌++◌, append-nil, append_assoc, length,
  take, drop, length-append, length-take, length-drop, take-append-drop, Bool-cases, arith,
}
use mod_audio_fork.SlabPool.{SlabPool, SlabPoolOptions, Acquired, lease, refused, threw, acquire}
use mod_audio_fork.SlabPool.Accounting.{IsValid, Acquires, acquire-Acquires}
use mod_audio_fork.SlabPool.Traffic.{acquire_fits}
use mod_audio_fork.SlabQueue.{
  Chunk, SlabQueue, fresh_chunk, leased_chunk, acquire_chunk, tail_full, tail_room, write_tail,
  make_room, Rest, append_round, append_loop, append,
}
use mod_audio_fork.SlabQueue.Contents.{
  contents, IsChunks, Holds, Keeps, contents-write_tail, write_tail-IsChunks, length-write_tail,
  fresh-IsChunks, tail_room_pos, contents-fresh, tail_room-fresh,
}

abbrev Makes : SlabPool → List Chunk → Option (SlabPool × List Chunk) → Type 0
Makes p cs none = acquire true p ≡ refused
Makes p cs (some (p', cs')) =
    IsValid p'
    × IsChunks p.slab_size_bytes cs'
    × (0 < tail_room cs')
    × (contents cs' ≡ contents cs)
    × Keeps p p' cs cs'

leased_chunk-Makes :
    (p : SlabPool) (cs : List Chunk) (r : Acquired)
    → IsValid p
    → IsChunks p.slab_size_bytes cs
    → tail_full cs ≡ true
    → acquire true p ≡ r
    → Acquires p r
    → Makes p cs (leased_chunk cs r)
leased_chunk-Makes p cs (lease s q) v h f e a = (
  a.0,
  fresh-IsChunks p.slab_size_bytes s cs v.sized a.1 h f,
  omega (arith, tail_room-fresh s cs, v.sized, a.1),
  contents-fresh s cs,
  record { options = a.3; others = omega (arith, a.2, length-append cs (fresh_chunk s ∷ [])) },
)
leased_chunk-Makes p cs refused v h f e a = e
leased_chunk-Makes p cs (threw q) v h f e a = absurd (acquire_fits p q e)

make_room-Makes :
    (p : SlabPool) (cs : List Chunk)
    → IsValid p
    → IsChunks p.slab_size_bytes cs
    → Makes p cs (make_room p cs)
unfolding make_room acquire_chunk
make_room-Makes p cs v h = elim (Bool-cases (tail_full cs)) [
  | inl t ↦ rw t (leased_chunk-Makes p cs (acquire true p) v h t refl (acquire-Acquires p v true))
  | inr t ↦
      rw t (
        v,
        h,
        tail_room_pos p.slab_size_bytes cs h t,
        refl,
        record { options = refl; others = refl },
      )
]

-- What `Append` leaves when `rest` of the bytes was not stored.
pub record Appends (bytes : List ℕ) (p : SlabPool) (q : SlabQueue) (rest : List ℕ) (p' : SlabPool)
    (q' : SlabQueue) : Type 0 where
  pub stored : List ℕ
  pub split : bytes ≡ stored ++ rest
  pub written : contents q'.chunks ≡ contents q.chunks ++ stored
  pub holds : Holds p' q'
  pub keeps : Keeps p p' q.chunks q'.chunks
  pub dry : (rest ≡ []) ⊎ (acquire true p' ≡ refused)

nothing-Appends :
    (bytes : List ℕ) (p : SlabPool) (q : SlabQueue)
    → Holds p q
    → (bytes ≡ []) ⊎ (acquire true p ≡ refused)
    → Appends bytes p q bytes p q
nothing-Appends bytes p q h d = record {
  stored = [];
  split = refl;
  written = sym (append-nil (contents q.chunks));
  holds = h;
  keeps = record { options = refl; others = refl };
  dry = d;
}

-- One round: the chunk at the end takes what it has room for.
module _ (bytes : List ℕ) (p : SlabPool) (q : SlabQueue) (p' : SlabPool) (cs : List Chunk)
    (h : Holds p q) (m : Makes p q.chunks (some (p', cs))) where
  abbrev taken : ℕ
  taken = min (tail_room cs) (length bytes)

  abbrev next : SlabQueue
  next = record { size = q.size + taken; chunks = write_tail (take taken bytes) cs }

  fits : length (take taken bytes) ≤ tail_room cs
  fits = omega (arith, length-take taken bytes)

  chunks' : IsChunks p'.slab_size_bytes cs
  chunks' = subst (λ (o : SlabPoolOptions). IsChunks o.slab_size_bytes cs) (sym m.4.options) m.1

  next_contents : contents next.chunks ≡ contents q.chunks ++ take taken bytes
  next_contents =
      contents-write_tail p'.slab_size_bytes (take taken bytes) cs chunks' fits
      ∙ ap (λ t. t ++ take taken bytes) m.3

  next-Holds : Holds p' next
  next-Holds = record {
    valid = m.0;
    leases =
        omega
          (arith, length-write_tail p'.slab_size_bytes (take taken bytes) cs, m.4.others, h.leases);
    chunks = write_tail-IsChunks p'.slab_size_bytes (take taken bytes) cs chunks' fits;
    sized = omega (
      arith,
      ap length next_contents,
      length-append (contents q.chunks) (take taken bytes),
      length-take taken bytes,
      h.sized,
    );
  }

  round-Appends :
      (rest : List ℕ) (p'' : SlabPool) (q'' : SlabQueue)
      → Appends (drop taken bytes) p' next rest p'' q''
      → Appends bytes p q rest p'' q''
  round-Appends rest p'' q'' a = record {
    stored = take taken bytes ++ a.stored;
    split =
        sym (take-append-drop taken bytes)
        ∙ ap (λ t. take taken bytes ++ t) a.split
        ∙ sym (append_assoc (take taken bytes) a.stored rest);
    written =
        a.written
        ∙ ap (λ t. t ++ a.stored) next_contents
        ∙ append_assoc (contents q.chunks) (take taken bytes) a.stored;
    holds = a.holds;
    keeps = record {
      options = a.keeps.options ∙ m.4.options;
      others = omega (
        arith,
        a.keeps.others,
        m.4.others,
        length-write_tail p'.slab_size_bytes (take taken bytes) cs,
      );
    };
    dry = a.dry;
  }

append_round-Appends :
    (loop : List ℕ → SlabPool → SlabQueue → Rest) (fuel : ℕ) (b : ℕ) (bs : List ℕ) (p : SlabPool)
    (q : SlabQueue)
    → length bs ≤ fuel
    → Holds p q
    → ((rest : List ℕ) (p' : SlabPool) (q' : SlabQueue)
        → length rest ≤ fuel
        → Holds p' q'
        → let r = loop rest p' q' in Appends rest p' q' r.0 r.1 r.2)
    → (o : Option (SlabPool × List Chunk)) → Makes p q.chunks o
    → let r = append_round loop (b ∷ bs) p q o in Appends (b ∷ bs) p q r.0 r.1 r.2
append_round-Appends loop fuel b bs p q l h ih none m = nothing-Appends (b ∷ bs) p q h (inr m)
append_round-Appends loop fuel b bs p q l h ih (some (p', cs)) m =
    round-Appends (b ∷ bs) p q p' cs h m _ _ _ (
      ih _ _ _ (omega (arith, m.2, length-drop (min (tail_room cs) (length (b ∷ bs))) (b ∷ bs)))
        (next-Holds (b ∷ bs) p q p' cs h m))

append_loop-Appends :
    (fuel : ℕ) (bytes : List ℕ) (p : SlabPool) (q : SlabQueue)
    → length bytes ≤ fuel
    → Holds p q
    → let r = append_loop fuel bytes p q in Appends bytes p q r.0 r.1 r.2
unfolding append_loop
append_loop-Appends zero [] p q l h = nothing-Appends [] p q h (inl refl)
append_loop-Appends zero (b ∷ bs) p q l h = absurd (omega arith)
append_loop-Appends (suc fuel) [] p q l h = nothing-Appends [] p q h (inl refl)
append_loop-Appends (suc fuel) (b ∷ bs) p q l h =
    append_round-Appends (append_loop fuel) fuel b bs p q (omega arith) h (append_loop-Appends fuel)
      (make_room p q.chunks) (make_room-Makes p q.chunks h.valid h.chunks)

module _ {bytes : List ℕ} {p p' : SlabPool} {q q' : SlabQueue} {rest : List ℕ}
    (a : Appends bytes p q rest p' q') where
  split_length : length bytes ≡ length a.stored + length rest
  split_length = omega (arith, ap length a.split, length-append a.stored rest)

  take-stored : take (length bytes - length rest) bytes ≡ a.stored
  take-stored =
      ap (take (length bytes - length rest)) a.split
      ∙ take-append_le (length bytes - length rest) a.stored rest (omega (arith, split_length))
      ∙ take_all (length bytes - length rest) a.stored (omega (arith, split_length))

  refused_if_short : length bytes - length rest < length bytes → acquire true p' ≡ refused
  refused_if_short l = elim a.dry [ inl e ↦ absurd (omega (arith, ap length e)) | inr r ↦ r ]

-- The `n` bytes that `Append` says it stored, and no others, follow what the queue held, in order;
-- it stores fewer than it was given only if the pool refuses a slab; the queue and the pool stay
-- valid, and no slab of another user of the pool is touched.
pub append_stores :
    (bytes : List ℕ) (p : SlabPool) (q : SlabQueue)
    → Holds p q
    → let (n, p', q') = append bytes p q in
      (contents q'.chunks ≡ contents q.chunks ++ take n bytes)
      × (n ≤ length bytes)
      × (n < length bytes → acquire true p' ≡ refused)
      × Holds p' q'
      × Keeps p p' q.chunks q'.chunks
unfolding append
append_stores bytes p q h =
    let a = append_loop-Appends (length bytes) bytes p q (omega arith) h in
    (
      a.written ∙ ap (λ t. contents q.chunks ++ t) (sym (take-stored a)),
      omega arith,
      refused_if_short a,
      a.holds,
      a.keeps,
    )
