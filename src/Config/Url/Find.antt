-- ===== src/Config/Url/Find.antt =====
-- Where `find` and `rfind` of a `std::string_view` stop, for core/src/config.cpp.
use mod_audio_fork.Common.{
  ℕ, suc, ◌+◌, ◌==◌, ◌≡◌, refl, ap, ◌∙◌, true, false, Bool-cases, Option-cases, inl, inr, none,
  some, [], ◌∷◌, ◌++◌, length, take, drop, take-append_le, take_all, drop_cong, Text, arith,
}
use mod_audio_fork.Config.Url.{find, rfind}

-- A text without a character.
abbrev pub Free : ℕ → Text → Type 0
Free c [] = Unit
Free c (x ∷ xs) = ((x == c) ≡ false) × Free c xs

pub Free-append : (c : ℕ) (xs ys : Text) → Free c xs → Free c ys → Free c (xs ++ ys)
Free-append c [] ys h k = k
Free-append c (x ∷ xs) ys h k = (h.0, Free-append c xs ys h.1 k)

self : (c : ℕ) → (c == c) ≡ true
self c = ground arith

pub find-Free : (c : ℕ) (xs : Text) → Free c xs → find c xs ≡ none
unfolding find
find-Free c [] h = refl
find-Free c (x ∷ xs) h = rw (h.0, find-Free c xs h.1)

pub find-append : (c : ℕ) (xs ys : Text) → Free c xs → find c (xs ++ c ∷ ys) ≡ some (length xs)
unfolding find
find-append c [] ys h = rw (self c)
find-append c (x ∷ xs) ys h = rw (h.0, find-append c xs ys h.1)

pub find_skip :
    (c x n : ℕ) (xs : Text) → (x == c) ≡ false → find c xs ≡ some n → find c (x ∷ xs) ≡ some (suc n)
unfolding find
find_skip c x n xs h e = rw (h, e)

pub rfind-Free : (c : ℕ) (xs : Text) → Free c xs → rfind c xs ≡ none
unfolding rfind
rfind-Free c [] h = refl
rfind-Free c (x ∷ xs) h = rw (rfind-Free c xs h.1, h.0)

pub rfind-append : (c : ℕ) (xs ys : Text) → Free c ys → rfind c (xs ++ c ∷ ys) ≡ some (length xs)
unfolding rfind
rfind-append c [] ys h = rw (rfind-Free c ys h, self c)
rfind-append c (x ∷ xs) ys h = rw (rfind-append c xs ys h)

-- A text cut at the character, and behind it.
pub take-at : (xs ys : Text) → take (length xs) (xs ++ ys) ≡ xs
take-at xs ys =
    take-append_le (length xs) xs ys (omega arith) ∙ take_all (length xs) xs (omega arith)

pub drop-at : (xs ys : Text) → drop (length xs) (xs ++ ys) ≡ ys
drop-at [] ys = refl
drop-at (x ∷ xs) ys = drop-at xs ys

pub drop_past : (c : ℕ) (xs ys : Text) → drop (length xs + 1) (xs ++ c ∷ ys) ≡ ys
drop_past c [] ys = refl
drop_past c (x ∷ xs) ys =
    drop_cong {n = suc (length xs + 1)} (x ∷ (xs ++ c ∷ ys)) (omega arith) ∙ drop_past c xs ys

-- What stands around a character at a position.
pub record Cut (c : ℕ) (xs : Text) (i : ℕ) : Type 0 where
  pub before : Text
  pub behind : Text
  pub whole : xs ≡ before ++ c ∷ behind
  pub position : i ≡ length before

-- The text is cut there.
pub cut :
    {c : ℕ} {xs : Text} {i : ℕ} (k : Cut c xs i)
    → (take i xs ≡ k.before) × (drop (i + 1) xs ≡ k.behind)
cut {c} {xs} {i} k = (
  rw (k.position, k.whole) (take-at k.before (c ∷ k.behind)),
  rw (k.position, k.whole) (drop_past c k.before k.behind),
)

Cut-head :
    (c x : ℕ) (xs : Text) (i : ℕ)
    → (x == c) ≡ true
    → some 0 ≡ some i
    → (k : Cut c (x ∷ xs) i) × (k.before ≡ []) × (k.behind ≡ xs)
Cut-head c x xs i h e = (
  record {
    before = [];
    behind = xs;
    whole = ap (λ y. y ∷ xs) (ground arith);
    position = ground arith;
  },
  refl,
  refl,
)

Cut-tail : (c x i : ℕ) (xs : Text) {j : ℕ} → some (suc j) ≡ some i → Cut c xs j → Cut c (x ∷ xs) i
Cut-tail c x i xs {j} e k = record {
  before = x ∷ k.before;
  behind = k.behind;
  whole = ap (λ t. x ∷ t) k.whole;
  position = (let q : i ≡ suc j = ground arith in q) ∙ ap suc k.position;
}

pub find_found :
    (c : ℕ) (xs : Text) (i : ℕ) → find c xs ≡ some i → (k : Cut c xs i) × Free c k.before
unfolding find Cut-tail
find_found c [] i e = cc
find_found c (x ∷ xs) i e = elim (Bool-cases (x == c)) [
  | inl here ↦ let (k, empty, _) = Cut-head c x xs i here (rw here at e) in (k, rw empty tt)
  | inr other ↦ elim (Option-cases (find c xs)) [
    | inl missing ↦ cc (rw (other, missing) at e)
    | inr (j, found) ↦
        let (k, free) = find_found c xs j found in
        (Cut-tail c x i xs (rw (other, found) at e) k, (other, free))
  ]
]

pub rfind_missing : (c : ℕ) (xs : Text) → rfind c xs ≡ none → Free c xs
unfolding rfind
rfind_missing c [] e = tt
rfind_missing c (x ∷ xs) e = elim (Option-cases (rfind c xs)) [
  | inr (j, found) ↦ cc (rw found at e)
  | inl missing ↦ elim (Bool-cases (x == c)) [
    | inl here ↦ cc (rw (missing, here) at e)
    | inr other ↦ (other, rfind_missing c xs missing)
  ]
]

pub rfind_found :
    (c : ℕ) (xs : Text) (i : ℕ) → rfind c xs ≡ some i → (k : Cut c xs i) × Free c k.behind
unfolding rfind Cut-tail
rfind_found c [] i e = cc
rfind_found c (x ∷ xs) i e = elim (Option-cases (rfind c xs)) [
  | inr (j, found) ↦
      let (k, free) = rfind_found c xs j found in (Cut-tail c x i xs (rw found at e) k, free)
  | inl missing ↦ elim (Bool-cases (x == c)) [
    | inl here ↦
        let (k, _, all) = Cut-head c x xs i here (rw (missing, here) at e) in
        (k, rw all (rfind_missing c xs missing))
    | inr other ↦ cc (rw (missing, other) at e)
  ]
]

pub find_missing : (c : ℕ) (xs : Text) → find c xs ≡ none → Free c xs
unfolding find
find_missing c [] e = tt
find_missing c (x ∷ xs) e = elim (Bool-cases (x == c)) [
  | inl here ↦ cc (rw here at e)
  | inr other ↦ elim (Option-cases (find c xs)) [
    | inl missing ↦ (other, find_missing c xs missing)
    | inr (j, found) ↦ cc (rw (other, found) at e)
  ]
]
