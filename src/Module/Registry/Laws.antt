-- ===== src/Module/Registry/Laws.antt =====
-- The registry of module/mod_audio_fork.cpp is a map from calls to their forks.
use mod_audio_fork.Common.{
  ℕ, ◌≤◌, ◌<◌, ◌≡◌, refl, sym, ap, subst, ◌∙◌, true, false, Bool-cases, inl, inr, List, [], ◌∷◌,
  ◌++◌, if◌then◌else◌, if_ind, leb, length, Text, same_text, arith,
}
use mod_audio_fork.Config.{is_empty}
use mod_audio_fork.Module.Registry.{
  Registry, forks_for, removed, kept, forget_fork, register, is_full,
}

pub same_text_refl : (t : Text) → same_text t t ≡ true
same_text_refl [] = refl
same_text_refl (x ∷ xs) = ground (arith, same_text_refl xs)

pub same_text-eq : (s t : Text) → same_text s t ≡ true → s ≡ t
same_text-eq [] [] h = refl
same_text-eq [] (y ∷ ys) h = cc
same_text-eq (x ∷ xs) [] h = cc
same_text-eq (x ∷ xs) (y ∷ ys) h = ground (arith, same_text-eq xs ys)

-- No call has two entries, and no entry is empty.
abbrev pub Absent : Text → Registry → Type 0
Absent uuid [] = Unit
Absent uuid ((k, fs) ∷ r) = (same_text k uuid ≡ false) × Absent uuid r

abbrev pub IsMap : Registry → Type 0
IsMap [] = Unit
IsMap ((k, fs) ∷ r) = (is_empty fs ≡ false) × Absent k r × IsMap r

forks_for-Absent : (uuid : Text) (r : Registry) → Absent uuid r → forks_for uuid r ≡ []
unfolding forks_for
forks_for-Absent uuid [] h = refl
forks_for-Absent uuid ((k, fs) ∷ r) h = rw h.0 (forks_for-Absent uuid r h.1)

same_key : (k uuid j : Text) → same_text k uuid ≡ true → same_text uuid j ≡ same_text k j
same_key k uuid j h = sym (ap (λ t. same_text t j) (same_text-eq k uuid h))

same_text-sym : (s t : Text) → same_text s t ≡ true → same_text t s ≡ true
same_text-sym s t h = ap (same_text t) (same_text-eq s t h) ∙ same_text_refl t

same_text-false : (k uuid : Text) → same_text k uuid ≡ false → same_text uuid k ≡ false
same_text-false k uuid h = elim (Bool-cases (same_text uuid k)) [
  | inl same ↦ cc (h, same_text-sym uuid k same)
  | inr other ↦ other
]

apart :
    (k uuid j : Text) → same_text k uuid ≡ false → same_text k j ≡ true → same_text uuid j ≡ false
apart k uuid j h e = ap (same_text uuid) (sym (same_text-eq k j e)) ∙ same_text-false k uuid h

Absent-key : (k j : Text) (r : Registry) → same_text k j ≡ true → Absent k r → Absent j r
Absent-key k j r e h = subst (λ t. Absent t r) (same_text-eq k j e) h

forks_for-kept :
    (j k : Text) (fs : List ℕ) (r : Registry)
    → same_text k j ≡ true
    → forks_for j r ≡ []
    → forks_for j (kept k fs r) ≡ fs
unfolding forks_for
forks_for-kept j k [] r e n = n
forks_for-kept j k (f ∷ fs) r e n = rw e

forks_for-kept_other :
    (j k : Text) (fs : List ℕ) (r : Registry)
    → same_text k j ≡ false
    → forks_for j (kept k fs r) ≡ forks_for j r
unfolding forks_for
forks_for-kept_other j k [] r e = refl
forks_for-kept_other j k (f ∷ fs) r e = rw e

below : (limit n : ℕ) → leb limit n ≡ false → n < limit
below limit n h = ground arith

-- A registration adds the fork to its call, and touches no other.
pub forks_for-register :
    (j uuid : Text) (fork : ℕ) (r : Registry)
    → forks_for j (register uuid fork r)
      ≡ (if same_text uuid j then forks_for j r ++ fork ∷ [] else forks_for j r)
unfolding forks_for register
forks_for-register j uuid fork [] = refl
forks_for-register j uuid fork ((k, fs) ∷ r) = elim (Bool-cases (same_text k uuid)) [
  | inl here ↦
      rw (here, same_key k uuid j here)
        (elim (Bool-cases (same_text k j)) [ inl asked ↦ rw asked | inr other ↦ rw other ])
  | inr there ↦ rw there (elim (Bool-cases (same_text k j)) [
    | inl asked ↦ rw (asked, apart k uuid j there asked)
    | inr other ↦ rw other (forks_for-register j uuid fork r)
  ])
]

pub forks_for-forget :
    (j uuid : Text) (fork : ℕ) (r : Registry)
    → IsMap r
    → forks_for j (forget_fork uuid fork r)
      ≡ (if same_text uuid j then removed fork (forks_for j r) else forks_for j r)
unfolding forks_for forget_fork removed
forks_for-forget j uuid fork [] m = elim (Bool-cases (same_text uuid j)) [
  | inl same ↦ rw same
  | inr other ↦ rw other
]
forks_for-forget j uuid fork ((k, fs) ∷ r) m = elim (Bool-cases (same_text k uuid)) [
  | inl here ↦
      rw (here, same_key k uuid j here)
        (elim (Bool-cases (same_text k j)) [
          | inl asked ↦ rw asked (
              forks_for-kept j k (removed fork fs) r asked
                (forks_for-Absent j r (Absent-key k j r asked m.1)))
          | inr other ↦ rw other (forks_for-kept_other j k (removed fork fs) r other)
        ])
  | inr there ↦ rw there (elim (Bool-cases (same_text k j)) [
    | inl asked ↦ rw (asked, apart k uuid j there asked)
    | inr other ↦ rw other (forks_for-forget j uuid fork r m.2)
  ])
]

register-Absent :
    (k uuid : Text) (fork : ℕ) (r : Registry)
    → same_text uuid k ≡ false
    → Absent k r
    → Absent k (register uuid fork r)
unfolding register
register-Absent k uuid fork [] d h = (d, tt)
register-Absent k uuid fork ((j, fs) ∷ r) d h =
    if_ind (Absent k) (same_text j uuid) (λ _. h) (λ _. (h.0, register-Absent k uuid fork r d h.1))

full-append : (fs : List ℕ) (f : ℕ) → is_empty (fs ++ f ∷ []) ≡ false
full-append [] f = refl
full-append (x ∷ xs) f = refl

pub register-IsMap :
    (uuid : Text) (fork : ℕ) (r : Registry) → IsMap r → IsMap (register uuid fork r)
unfolding register
register-IsMap uuid fork [] m = (refl, tt, tt)
register-IsMap uuid fork ((k, fs) ∷ r) m =
    if_ind IsMap (same_text k uuid) (λ _. (full-append fs fork, m.1, m.2))
      (λ other. (
        m.0,
        register-Absent k uuid fork r (same_text-false k uuid other) m.1,
        register-IsMap uuid fork r m.2,
      ))

kept-Absent :
    (j k : Text) (fs : List ℕ) (r : Registry)
    → same_text k j ≡ false
    → Absent j r
    → Absent j (kept k fs r)
kept-Absent j k [] r d h = h
kept-Absent j k (f ∷ fs) r d h = (d, h)

kept-IsMap : (k : Text) (fs : List ℕ) (r : Registry) → Absent k r → IsMap r → IsMap (kept k fs r)
kept-IsMap k [] r a m = m
kept-IsMap k (f ∷ fs) r a m = (refl, a, m)

forget_fork-Absent :
    (k uuid : Text) (fork : ℕ) (r : Registry) → Absent k r → Absent k (forget_fork uuid fork r)
unfolding forget_fork
forget_fork-Absent k uuid fork [] h = tt
forget_fork-Absent k uuid fork ((j, fs) ∷ r) h =
    if_ind (Absent k) (same_text j uuid) (λ _. kept-Absent k j (removed fork fs) r h.0 h.1)
      (λ _. (h.0, forget_fork-Absent k uuid fork r h.1))

pub forget_fork-IsMap :
    (uuid : Text) (fork : ℕ) (r : Registry) → IsMap r → IsMap (forget_fork uuid fork r)
unfolding forget_fork
forget_fork-IsMap uuid fork [] m = tt
forget_fork-IsMap uuid fork ((k, fs) ∷ r) m =
    if_ind IsMap (same_text k uuid) (λ _. kept-IsMap k (removed fork fs) r m.1 m.2)
      (λ _. (m.0, forget_fork-Absent k uuid fork r m.1, forget_fork-IsMap uuid fork r m.2))

-- A fork that finishes leaves its call, and no other call changes; a call without forks has no entry.
pub forget_fork-Forgets :
    (j uuid : Text) (fork : ℕ) (r : Registry)
    → IsMap r
    → IsMap (forget_fork uuid fork r)
      × (forks_for j (forget_fork uuid fork r)
          ≡ (if same_text uuid j then removed fork (forks_for j r) else forks_for j r))
forget_fork-Forgets j uuid fork r m =
    (forget_fork-IsMap uuid fork r m, forks_for-forget j uuid fork r m)

-- The guard of `StartFork` looks at the number of the call's forks.
pub is_full-forks_for :
    (limit : ℕ) (uuid : Text) (r : Registry)
    → is_full limit uuid r ≡ false
    → 1 ≤ limit
    → length (forks_for uuid r) < limit
unfolding is_full forks_for
is_full-forks_for limit uuid [] h l = omega arith
is_full-forks_for limit uuid ((k, fs) ∷ r) h l = elim (Bool-cases (same_text k uuid)) [
  | inl here ↦ rw here (let g = rw here at h in below limit (length fs) g)
  | inr other ↦ rw other (is_full-forks_for limit uuid r (rw other at h) l)
]

removed-le : (fork : ℕ) (fs : List ℕ) → length (removed fork fs) ≤ length fs
unfolding removed
removed-le fork [] = omega arith
removed-le fork (f ∷ fs) = let ih = removed-le fork fs in ground arith

-- Forgetting adds to no call.
pub forget_fork-le :
    (j uuid : Text) (fork : ℕ) (r : Registry)
    → IsMap r
    → length (forks_for j (forget_fork uuid fork r)) ≤ length (forks_for j r)
forget_fork-le j uuid fork r m =
    subst (λ (fs : List ℕ). length fs ≤ length (forks_for j r))
      (sym (forks_for-forget j uuid fork r m))
      (if_ind (λ (fs : List ℕ). length fs ≤ length (forks_for j r)) (same_text uuid j)
        (λ _. removed-le fork (forks_for j r)) (λ _. omega arith))
