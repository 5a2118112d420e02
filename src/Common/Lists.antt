-- ===== src/Common/Lists.antt =====
-- Lists measured and cut by native numbers, under the library's names.
use Prim.Native.Nat.{ℕ, zero, suc, ◌+◌, ◌-◌, ◌≤◌, min}
use mathlib.Core.Path.{◌≡◌, refl, sym, ap, ◌∙◌}
use mathlib.Core.Logic.{◌⊎◌, inl, inr}
use mathlib.Core.List.{List, [], ◌∷◌, ◌++◌}
use native.Mathlib.Decide.{dec_le}
use native.Mathlib.Omega.{arith}

module _ {ℓ} {A : Type ℓ} where
  abbrev pub length : List A → ℕ
  length [] = 0
  length (x ∷ xs) = suc (length xs)

  abbrev pub take : ℕ → List A → List A
  take zero xs = []
  take (suc n) [] = []
  take (suc n) (x ∷ xs) = x ∷ take n xs

  abbrev pub drop : ℕ → List A → List A
  drop zero xs = xs
  drop (suc n) [] = []
  drop (suc n) (x ∷ xs) = drop n xs

  abbrev pub replicate : ℕ → A → List A
  replicate zero a = []
  replicate (suc n) a = a ∷ replicate n a

  pub length-append : (xs ys : List A) → length (xs ++ ys) ≡ length xs + length ys
  length-append [] ys = omega arith
  length-append (x ∷ xs) ys = omega (arith, length-append xs ys)

  pub length-take : (n : ℕ) (xs : List A) → length (take n xs) ≡ min n (length xs)
  length-take zero xs = omega arith
  length-take (suc n) [] = omega arith
  length-take (suc n) (x ∷ xs) = omega (arith, length-take n xs)

  pub length-drop : (n : ℕ) (xs : List A) → length (drop n xs) ≡ length xs - n
  length-drop zero xs = omega arith
  length-drop (suc n) [] = omega arith
  length-drop (suc n) (x ∷ xs) = omega (arith, length-drop n xs)

  pub length-replicate : (n : ℕ) (a : A) → length (replicate n a) ≡ n
  length-replicate zero a = refl
  length-replicate (suc n) a = ap suc (length-replicate n a)

  pub take-append-drop : (n : ℕ) (xs : List A) → take n xs ++ drop n xs ≡ xs
  take-append-drop zero xs = refl
  take-append-drop (suc n) [] = refl
  take-append-drop (suc n) (x ∷ xs) = ap (λ t. x ∷ t) (take-append-drop n xs)

  pub take_all : (n : ℕ) (xs : List A) → length xs ≤ n → take n xs ≡ xs
  take_all zero [] h = refl
  take_all zero (x ∷ xs) h = absurd (omega arith)
  take_all (suc n) [] h = refl
  take_all (suc n) (x ∷ xs) h = ap (λ t. x ∷ t) (take_all n xs (omega arith))

  pub drop_all : (n : ℕ) (xs : List A) → length xs ≤ n → drop n xs ≡ []
  drop_all zero [] h = refl
  drop_all zero (x ∷ xs) h = absurd (omega arith)
  drop_all (suc n) [] h = refl
  drop_all (suc n) (x ∷ xs) h = drop_all n xs (omega arith)

  -- Equal numbers cut alike.
  pub drop_cong : {m n : ℕ} (xs : List A) → m ≡ n → drop m xs ≡ drop n xs
  drop_cong xs e = ap (λ k. drop k xs) e

  pub take_cong : {m n : ℕ} (xs : List A) → m ≡ n → take m xs ≡ take n xs
  take_cong xs e = ap (λ k. take k xs) e

  -- A cut within the left part.
  pub drop-append_le :
      (n : ℕ) (xs ys : List A) → n ≤ length xs → drop n (xs ++ ys) ≡ drop n xs ++ ys
  drop-append_le zero xs ys h = refl
  drop-append_le (suc n) [] ys h = absurd (omega arith)
  drop-append_le (suc n) (x ∷ xs) ys h = drop-append_le n xs ys (omega arith)

  -- A cut beyond the left part.
  pub drop-append_ge :
      (n : ℕ) (xs ys : List A) → length xs ≤ n → drop n (xs ++ ys) ≡ drop (n - length xs) ys
  drop-append_ge zero [] ys h = refl
  drop-append_ge zero (x ∷ xs) ys h = absurd (omega arith)
  drop-append_ge (suc n) [] ys h = drop_cong {m = suc n} ys (omega arith)
  drop-append_ge (suc n) (x ∷ xs) ys h =
      let e : n - length xs ≡ suc n - suc (length xs) = omega arith in
      drop-append_ge n xs ys (omega arith) ∙ ap (λ k. drop k ys) e

  pub take-append_le : (n : ℕ) (xs ys : List A) → n ≤ length xs → take n (xs ++ ys) ≡ take n xs
  take-append_le zero xs ys h = refl
  take-append_le (suc n) [] ys h = absurd (omega arith)
  take-append_le (suc n) (x ∷ xs) ys h = ap (λ t. x ∷ t) (take-append_le n xs ys (omega arith))

  pub take-append_ge :
      (n : ℕ) (xs ys : List A) → length xs ≤ n → take n (xs ++ ys) ≡ xs ++ take (n - length xs) ys
  take-append_ge n [] ys h = take_cong {m = n} ys (omega arith)
  take-append_ge zero (x ∷ xs) ys h = absurd (omega arith)
  take-append_ge (suc n) (x ∷ xs) ys h =
      let e : n - length xs ≡ suc n - suc (length xs) = omega arith in
      ap (λ t. x ∷ t) (take-append_ge n xs ys (omega arith) ∙ ap (λ k. xs ++ take k ys) e)

  pub drop-nil : (n : ℕ) → drop n [] ≡ []
  drop-nil zero = refl
  drop-nil (suc n) = refl

  pub take-nil : (n : ℕ) → take n [] ≡ []
  take-nil zero = refl
  take-nil (suc n) = refl

  pub take-take_le : (a b : ℕ) (xs : List A) → a ≤ b → take a (take b xs) ≡ take a xs
  take-take_le zero b xs h = refl
  take-take_le (suc a) zero xs h = absurd (omega arith)
  take-take_le (suc a) (suc b) [] h = refl
  take-take_le (suc a) (suc b) (x ∷ xs) h = ap (λ t. x ∷ t) (take-take_le a b xs (omega arith))

  -- A cut at the end or beyond it is the same.
  pub drop-min : (n : ℕ) {k : ℕ} (xs : List A) → k ≡ length xs → drop (min n k) xs ≡ drop n xs
  drop-min n {k} xs e = elim (dec_le n k) [
    | yes h ↦ drop_cong {n = n} xs (omega arith)
    | no h ↦ drop_all (min n k) xs (omega arith) ∙ sym (drop_all n xs (omega arith))
  ]

  pub eq-nil : (xs : List A) → length xs ≡ 0 → xs ≡ []
  eq-nil [] e = refl
  eq-nil (x ∷ xs) e = absurd (omega arith)

  -- Two cuts make one.
  pub drop-drop : (m n : ℕ) (xs : List A) → drop m (drop n xs) ≡ drop (n + m) xs
  drop-drop m zero xs = let e : m ≡ 0 + m = omega arith in ap (λ k. drop k xs) e
  drop-drop m (suc n) [] = drop-nil m ∙ sym (drop-nil (suc n + m))
  drop-drop m (suc n) (x ∷ xs) =
      let e : suc (n + m) ≡ suc n + m = omega arith in
      drop-drop m n xs ∙ ap (λ k. drop k (x ∷ xs)) e

  -- A cut of a cut, the other way round.
  pub drop-take : (b e : ℕ) (xs : List A) → drop b (take e xs) ≡ take (e - b) (drop b xs)
  drop-take zero e xs = take_cong {m = e} xs (omega arith)
  drop-take (suc b) zero xs =
      let e : 0 ≡ 0 - suc b = omega arith in take_cong {m = 0} (drop (suc b) xs) e
  drop-take (suc b) (suc e) [] = sym (take-nil (suc e - suc b))
  drop-take (suc b) (suc e) (x ∷ xs) =
      drop-take b e xs ∙ take_cong {m = e - b} (drop b xs) (omega arith)

  -- The bytes of a window that ends where a block begins, and of the block.
  pub take-drop-append :
      (b k : ℕ) (ws bs rs : List A)
      → b ≤ length ws
      → k ≡ length ws + length bs
      → take (k - b) (drop b (ws ++ (bs ++ rs))) ≡ drop b ws ++ bs
  take-drop-append b k ws bs rs h e =
      ap (take (k - b)) (drop-append_le b ws (bs ++ rs) h)
      ∙ take-append_ge (k - b) (drop b ws) (bs ++ rs) (omega (arith, length-drop b ws))
      ∙ ap (λ t. drop b ws ++ t) block
    where
      block : take (k - b - length (drop b ws)) (bs ++ rs) ≡ bs
      block =
          take_cong {n = length bs} (bs ++ rs) (omega (arith, length-drop b ws))
          ∙ take-append_le (length bs) bs rs (omega arith)
          ∙ take_all (length bs) bs (omega arith)

  -- A tail of one list followed by a tail of another is a tail of both, if the first list goes whole
  -- or the second stays whole.
  pub drop-append_split :
      (k s : ℕ) (xs ys : List A)
      → k ≤ length xs
      → (s ≡ 0) ⊎ (k ≡ length xs)
      → drop k xs ++ drop s ys ≡ drop (s + k) (xs ++ ys)
  drop-append_split k s xs ys h (inl e) =
      ap (λ t. drop k xs ++ t) (drop_cong {n = 0} ys e)
      ∙ sym (drop-append_le k xs ys h)
      ∙ drop_cong {m = k} {n = s + k} (xs ++ ys) (omega arith)
  drop-append_split k s xs ys h (inr e) =
      ap (λ t. t ++ drop s ys) (drop_all k xs (omega arith))
      ∙ drop_cong {m = s} {n = s + k - length xs} ys (omega arith)
      ∙ sym (drop-append_ge (s + k) xs ys (omega arith))
