-- ===== src/SpscRing/Slots.antt =====
-- The slots of the ring of core/include/audiofork/spsc_ring.hpp from an offset on, around its end.
use mod_audio_fork.Common.{
  ◌⊎◌, inl, inr, ℕ, zero, suc, ◌+◌, ◌-◌, ◌≤◌, ◌<◌, ◌≡◌, refl, ◌∙◌, ap, ap₂, ◌&&◌, List, [], ◌∷◌,
  ◌++◌, ltb, leb, if◌then◌else◌, length, take, drop, arith,
}
use mod_audio_fork.SpscRing.{overwrite}

-- The element at an index; 0 past the end, which no caller asks for.
unfoldable pub nth : ℕ → List ℕ → ℕ
nth i [] = 0
nth zero (x ∷ xs) = x
nth (suc i) (x ∷ xs) = nth i xs

-- The slot `i` places on from an offset of a ring of `c` slots.
abbrev pub slot : (c o i : ℕ) → ℕ
slot c o i = if ltb (o + i) c then o + i else o + i - c

-- `n` slots from an offset on.
unfoldable pub view : (o n : ℕ) → List ℕ → List ℕ
unfolding nth
view o zero s = []
view o (suc n) s = nth o s ∷ view (slot (length s) o 1) n s

pub length-view : (o n : ℕ) (s : List ℕ) → length (view o n s) ≡ n
unfolding view
length-view o zero s = refl
length-view o (suc n) s = ap suc (length-view (slot (length s) o 1) n s)

pub nth-view :
    (o n i : ℕ) (s : List ℕ)
    → i < n
    → n ≤ length s
    → o < length s
    → nth i (view o n s) ≡ nth (slot (length s) o i) s
unfolding view nth
nth-view o zero i s h l b = absurd (omega arith)
nth-view o (suc n) zero s h l b = ap (λ k. nth k s) (ground arith)
nth-view o (suc n) (suc i) s h l b =
    nth-view (slot (length s) o 1) n i s (omega arith) (omega arith) (ground arith)
    ∙ ap (λ k. nth k s) (ground arith)

pub nth_ext :
    (xs ys : List ℕ)
    → length xs ≡ length ys
    → ((i : ℕ) → i < length xs → nth i xs ≡ nth i ys)
    → xs ≡ ys
unfolding nth
nth_ext [] [] e h = refl
nth_ext [] (y ∷ ys) e h = absurd (omega arith)
nth_ext (x ∷ xs) [] e h = absurd (omega arith)
nth_ext (x ∷ xs) (y ∷ ys) e h =
    ap₂ (λ z zs. z ∷ zs) (h 0 (omega arith))
      (nth_ext xs ys (omega arith) (λ i l. h (suc i) (omega arith)))

pub nth-append :
    (i : ℕ) (xs ys : List ℕ)
    → nth i (xs ++ ys) ≡ (if ltb i (length xs) then nth i xs else nth (i - length xs) ys)
unfolding nth
nth-append i [] ys = ground arith
nth-append zero (x ∷ xs) ys = ground arith
nth-append (suc i) (x ∷ xs) ys = ground (arith, nth-append i xs ys)

pub nth-take : (i n : ℕ) (xs : List ℕ) → i < n → nth i (take n xs) ≡ nth i xs
unfolding nth
nth-take i zero xs h = absurd (omega arith)
nth-take i (suc n) [] h = refl
nth-take zero (suc n) (x ∷ xs) h = refl
nth-take (suc i) (suc n) (x ∷ xs) h = nth-take i n xs (omega arith)

pub nth-drop : (i n : ℕ) (xs : List ℕ) → nth i (drop n xs) ≡ nth (n + i) xs
unfolding nth
nth-drop i zero xs = ap (λ k. nth k xs) (let e : i ≡ 0 + i = omega arith in e)
nth-drop i (suc n) [] = refl
nth-drop i (suc n) (x ∷ xs) =
    nth-drop i n xs ∙ ap (λ k. nth k (x ∷ xs)) (let e : suc (n + i) ≡ suc n + i = omega arith in e)

pub length-overwrite : (i : ℕ) (xs ys : List ℕ) → length (overwrite i xs ys) ≡ length ys
unfolding overwrite
length-overwrite i xs [] = refl
length-overwrite zero [] (y ∷ ys) = refl
length-overwrite zero (x ∷ xs) (y ∷ ys) = ap suc (length-overwrite zero xs ys)
length-overwrite (suc i) xs (y ∷ ys) = ap suc (length-overwrite i xs ys)

pub nth-overwrite :
    (j i : ℕ) (xs ys : List ℕ)
    → j < length ys
    → nth j (overwrite i xs ys)
      ≡ (if leb i j && ltb j (i + length xs) then nth (j - i) xs else nth j ys)
unfolding overwrite nth
nth-overwrite j i xs [] h = absurd (omega arith)
nth-overwrite j zero [] (y ∷ ys) h = ground arith
nth-overwrite zero zero (x ∷ xs) (y ∷ ys) h = ground arith
nth-overwrite (suc j) zero (x ∷ xs) (y ∷ ys) h =
    ground (arith, nth-overwrite j zero xs ys (omega arith))
nth-overwrite zero (suc i) xs (y ∷ ys) h = ground arith
nth-overwrite (suc j) (suc i) xs (y ∷ ys) h = ground (arith, nth-overwrite j i xs ys (omega arith))

pub nth-append_before : (i : ℕ) (xs ys : List ℕ) → i < length xs → nth i (xs ++ ys) ≡ nth i xs
nth-append_before i xs ys h = nth-append i xs ys ∙ ground arith

pub nth-append_behind :
    (i : ℕ) (xs ys : List ℕ) → length xs ≤ i → nth i (xs ++ ys) ≡ nth (i - length xs) ys
nth-append_behind i xs ys h = nth-append i xs ys ∙ ground arith

pub nth-overwrite_inside :
    (j i : ℕ) (xs ys : List ℕ)
    → j < length ys
    → i ≤ j
    → j < i + length xs
    → nth j (overwrite i xs ys) ≡ nth (j - i) xs
nth-overwrite_inside j i xs ys h l u = nth-overwrite j i xs ys h ∙ ground arith

pub nth-overwrite_outside :
    (j i : ℕ) (xs ys : List ℕ)
    → j < length ys
    → (j < i) ⊎ (i + length xs ≤ j)
    → nth j (overwrite i xs ys) ≡ nth j ys
nth-overwrite_outside j i xs ys h (inl l) = nth-overwrite j i xs ys h ∙ ground arith
nth-overwrite_outside j i xs ys h (inr l) = nth-overwrite j i xs ys h ∙ ground arith
