-- ===== src/SlabQueue/Pop.antt =====
-- `PopFrontIfDrained` of core/src/slab_queue.cpp.
use mod_audio_fork.Common.{
  ℕ, ◌≤◌, ◌<◌, ◌≡◌, refl, sym, ◌∙◌, ap, inl, inr, ◌&&◌, ◌==◌, List, [], ◌∷◌, ◌++◌, length, drop,
  take_cong, Bool-cases, arith,
}
use mod_audio_fork.SlabPool.{SlabPool, release}
use mod_audio_fork.SlabPool.Accounting.{IsValid, release-IsValid}
use mod_audio_fork.SlabQueue.{Chunk, chunk_size, pop_front_if_drained}
use mod_audio_fork.SlabQueue.Contents.{chunk_bytes, contents, front_size, IsChunks, Keeps}

-- As `IsChunks`, but the front chunk may be spent.
abbrev pub Loose : ℕ → List Chunk → Type 0
Loose n [] = Unit {0}
Loose n (c ∷ []) = (length c.storage ≡ n) × (c.begin ≤ c.end) × (c.end ≤ n)
Loose n (c ∷ d ∷ cs) =
    (length c.storage ≡ n) × (c.begin ≤ c.end) × (c.end ≡ n) × IsChunks n (d ∷ cs)

IsChunks-Loose : (n : ℕ) (cs : List Chunk) → IsChunks n cs → Loose n cs
IsChunks-Loose n [] h = tt
IsChunks-Loose n (c ∷ []) h = (h.0, h.1, h.2)
IsChunks-Loose n (c ∷ d ∷ cs) h = (h.0.0, h.0.1, h.1, h.2)

pub record Pops (p : SlabPool) (cs : List Chunk) (p' : SlabPool) (cs' : List Chunk) : Type 0 where
  pub valid : IsValid p'
  pub leases : length cs' ≤ p'.leased_slabs
  pub chunks : IsChunks p'.slab_size_bytes cs'
  pub same : contents cs' ≡ contents cs
  pub keeps : Keeps p p' cs cs'
  pub fewer : length cs' ≤ length cs
  pub shrinks : front_size cs ≡ 0 → 1 < length cs → length cs' < length cs

spent_bytes : (c : Chunk) (bs : List ℕ) → chunk_size c ≡ 0 → bs ≡ chunk_bytes c ++ bs
spent_bytes c bs e = ap (λ t. t ++ bs) (take_cong {m = 0} (drop c.begin c.storage) (sym e))

-- Nothing is popped.
stay-Pops :
    (p : SlabPool) (cs : List Chunk)
    → IsValid p
    → length cs ≤ p.leased_slabs
    → IsChunks p.slab_size_bytes cs
    → (front_size cs ≡ 0 → 1 < length cs → ⊥)
    → Pops p cs p cs
stay-Pops p cs v l h s = record {
  valid = v;
  leases = l;
  chunks = h;
  same = refl;
  keeps = record { options = refl; others = refl };
  fewer = omega arith;
  shrinks = λ a b. absurd (s a b);
}

-- The spent chunk at the front is popped, and `cs'` is what is left of the others.
spent-Pops :
    (p : SlabPool) (c : Chunk) (cs : List Chunk) (p' : SlabPool) (cs' : List Chunk)
    → IsValid p
    → length (c ∷ cs) ≤ p.leased_slabs
    → length c.storage ≡ p.slab_size_bytes
    → chunk_size c ≡ 0
    → Pops (release c.storage p) cs p' cs'
    → Pops p (c ∷ cs) p' cs'
unfolding release
spent-Pops p c cs p' cs' v l s z r = record {
  valid = r.valid;
  leases = r.leases;
  chunks = r.chunks;
  same = r.same ∙ spent_bytes c (contents cs) z;
  keeps = record {
    options = r.keeps.options;
    others = omega (arith, r.keeps.others, release-IsValid p v c.storage s (omega arith));
  };
  fewer = omega (arith, r.fewer);
  shrinks = λ a b. omega (arith, r.fewer);
}

pub pop-Pops :
    (p : SlabPool) (cs : List Chunk)
    → IsValid p
    → length cs ≤ p.leased_slabs
    → Loose p.slab_size_bytes cs
    → let r = pop_front_if_drained p cs in Pops p cs r.0 r.1
unfolding pop_front_if_drained release
pop-Pops p [] v l h = stay-Pops p [] v l tt (λ a b. omega arith)
pop-Pops p (c ∷ []) v l h = elim (Bool-cases ((chunk_size c == 0) && (c.end == length c.storage))) [
  | inl t ↦
      let z : chunk_size c ≡ 0 = ground arith in
      let w = release-IsValid p v c.storage h.0 (omega arith) in
      rw t (
        spent-Pops p c [] _ [] v l h.0 z
          (stay-Pops (release c.storage p) [] w.0 (omega arith) tt (λ a b. omega arith)))
  | inr t ↦ rw t (stay-Pops p (c ∷ []) v l (ground arith) (λ a b. omega arith))
]
pop-Pops p (c ∷ d ∷ cs) v l h = elim (Bool-cases (chunk_size c == 0)) [
  | inl t ↦
      let z : chunk_size c ≡ 0 = ground arith in
      let w = release-IsValid p v c.storage h.0 (omega arith) in
      rw t (
        spent-Pops p c (d ∷ cs) _ _ v l h.0 z (
          pop-Pops (release c.storage p) (d ∷ cs) w.0 (omega (arith, w.1))
            (IsChunks-Loose p.slab_size_bytes (d ∷ cs) h.3)))
  | inr t ↦ rw t (
      stay-Pops p (c ∷ d ∷ cs) v l ((h.0, h.1, omega arith, ground arith), h.2, h.3)
        (λ a b. ground arith))
]
