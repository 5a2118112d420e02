-- ===== src/Protocol/Nesting.antt =====
-- The guard of core/src/protocol.cpp against deep nesting, on texts whose brackets match.
use mod_audio_fork.Common.{
  ℕ, suc, ◌+◌, max, ◌≤◌, ◌≡◌, refl, ◌∙◌, ap, Bool, true, false, not, ◌&&◌, List, [], ◌∷◌, ltb, ◌==◌,
  if◌then◌else◌, Text, Bool-cases, inl, inr, arith,
}
use mod_audio_fork.Protocol.{is_open, is_close, nesting_loop, nesting_too_deep}

abbrev is_plain : ℕ → Bool
is_plain c = not (c == 34) && not (c == 92)

abbrev is_other : ℕ → Bool
is_other c = not (c == 34) && not (is_open c) && not (is_close c)

-- Inside of a literal: a character, or a backslash with the character that it escapes.
pub data Quoted : Type 0 where
  plain : (c : ℕ) → is_plain c ≡ true → Quoted
  escape : (c : ℕ) → Quoted

-- A bracketed group with what stands in it, and what stands behind it, are two `Items`.
pub data Items : Type 0 where
  end : Items
  other : (c : ℕ) → is_other c ≡ true → Items → Items
  quoted : List Quoted → Items → Items
  group : (square : Bool) → (inside behind : Items) → Items

abbrev pub render_quoted : List Quoted → Text → Text
render_quoted [] rest = 34 ∷ rest
render_quoted (plain c h ∷ qs) rest = c ∷ render_quoted qs rest
render_quoted (escape c ∷ qs) rest = 92 ∷ c ∷ render_quoted qs rest

-- The text of the items before a text.
abbrev pub render : Items → Text → Text
render end rest = rest
render (other c h is) rest = c ∷ render is rest
render (quoted qs is) rest = 34 ∷ render_quoted qs (render is rest)
render (group square is js) rest =
    (if square then 91 else 123) ∷ render is ((if square then 93 else 125) ∷ render js rest)

abbrev pub depth : Items → ℕ
depth end = 0
depth (other c h is) = depth is
depth (quoted qs is) = depth is
depth (group square is js) = max (suc (depth is)) (depth js)

loop-quoted :
    (d : ℕ) (qs : List Quoted) (rest : Text)
    → nesting_loop d true false (render_quoted qs rest) ≡ nesting_loop d false false rest
unfolding nesting_loop
loop-quoted d [] rest = refl
loop-quoted d (plain c h ∷ qs) rest = ground (arith, loop-quoted d qs rest)
loop-quoted d (escape c ∷ qs) rest = loop-quoted d qs rest

-- A group, by what the loop makes of its inside and of what stands behind it.
in_group :
    (d : ℕ) (is js : Items) (rest : Text)
    → d ≤ 64
    → (closing : Text)
    → nesting_loop (d + 1) false false closing ≡ nesting_loop d false false (render js rest)
    → (d + 1 ≤ 64
        → nesting_loop (d + 1) false false (render is closing)
          ≡ (if ltb 64 (d + 1 + depth is) then true else nesting_loop (d + 1) false false closing))
    → nesting_loop d false false (render js rest)
      ≡ (if ltb 64 (d + depth js) then true else nesting_loop d false false rest)
    → (if ltb 64 (d + 1) then true else nesting_loop (d + 1) false false (render is closing)) ≡ (
        if ltb 64 (d + max (suc (depth is)) (depth js))
        then true
        else nesting_loop d false false rest)
in_group d is js rest h closing e inside behind = elim (Bool-cases (ltb 64 (d + 1))) [
  | inl t ↦ ground arith
  | inr t ↦ ground (arith, inside (ground arith))
]

loop-render :
    (d : ℕ) (is : Items) (rest : Text)
    → d ≤ 64
    → nesting_loop d false false (render is rest)
      ≡ (if ltb 64 (d + depth is) then true else nesting_loop d false false rest)
unfolding nesting_loop
loop-render d end rest h = ground arith
loop-render d (other c o is) rest h = ground (arith, loop-render d is rest h)
loop-render d (quoted qs is) rest h = loop-quoted d qs (render is rest) ∙ loop-render d is rest h
loop-render d (group true is js) rest h =
    in_group d is js rest h (93 ∷ render js rest)
      (ap (λ k. nesting_loop k false false (render js rest)) (omega arith))
      (λ l. loop-render (d + 1) is (93 ∷ render js rest) l) (loop-render d js rest h)
loop-render d (group false is js) rest h =
    in_group d is js rest h (125 ∷ render js rest)
      (ap (λ k. nesting_loop k false false (render js rest)) (omega arith))
      (λ l. loop-render (d + 1) is (125 ∷ render js rest) l) (loop-render d js rest h)

-- A text whose brackets outside of literals match is refused exactly when they nest more than 64
-- deep; those inside of literals, behind escaped quotation marks too, do not count.
pub nesting_too_deep-depth : (is : Items) → nesting_too_deep (render is []) ≡ ltb 64 (depth is)
unfolding nesting_too_deep nesting_loop
nesting_too_deep-depth is = loop-render 0 is [] (omega arith) ∙ ground arith
