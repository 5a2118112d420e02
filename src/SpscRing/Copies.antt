-- ===== src/SpscRing/Copies.antt =====
-- `CopyIn` and `CopyOut` of core/include/audiofork/spsc_ring.hpp against the slots of the ring.
use mod_audio_fork.Common.{
  ℕ, ◌+◌, ◌-◌, ◌≤◌, ◌<◌, ◌≡◌, sym, inl, inr, ◌∙◌, ap, List, ◌++◌, ltb, length, take, drop,
  length-take, length-drop, length-append, Bool-cases, arith,
}
use mod_audio_fork.SpscRing.{overwrite, copy_to, copy_from, first_part}
use mod_audio_fork.SpscRing.Slots.{
  nth, slot, view, length-view, nth-view, nth_ext, nth-append_before, nth-append_behind,
  nth-overwrite_inside, nth-overwrite_outside, nth-take, nth-drop, length-overwrite,
}

-- `CopyOut` reads the slots from the offset on.
pub copy_from-view :
    (o n : ℕ) (s : List ℕ) → o < length s → n ≤ length s → copy_from o n s ≡ view o n s
unfolding copy_from
copy_from-view o n s b h =
    nth_ext _ _ (omega (arith, size, length-view o n s))
      (λ i l. at i (omega (arith, size)) ∙ sym (nth-view o n i s (omega (arith, size)) h b))
  where
    c : ℕ
    c = length s

    f : ℕ
    f = first_part n o c

    size : length (take f (drop o s) ++ take (n - f) s) ≡ n
    size = omega (
      arith,
      length-append (take f (drop o s)) (take (n - f) s),
      length-take f (drop o s),
      length-drop o s,
      length-take (n - f) s,
    )

    front : length (take f (drop o s)) ≡ f
    front = omega (arith, length-take f (drop o s), length-drop o s)

    at : (i : ℕ) → i < n → nth i (take f (drop o s) ++ take (n - f) s) ≡ nth (slot c o i) s
    at i l = elim (Bool-cases (ltb i f)) [
      | inl t ↦
          nth-append_before i (take f (drop o s)) (take (n - f) s) (ground (arith, front))
          ∙ nth-take i f (drop o s) (ground arith)
          ∙ nth-drop i o s
          ∙ ap (λ k. nth k s) (ground arith)
      | inr t ↦
          nth-append_behind i (take f (drop o s)) (take (n - f) s) (ground (arith, front))
          ∙ nth-take (i - length (take f (drop o s))) (n - f) s (ground (arith, front))
          ∙ ap (λ k. nth k s) (ground (arith, front))
    ]

pub length-copy_to : (o : ℕ) (xs s : List ℕ) → length (copy_to o xs s) ≡ length s
unfolding copy_to
length-copy_to o xs s =
    length-overwrite 0 _ (overwrite o (take (first_part (length xs) o (length s)) xs) s)
    ∙ length-overwrite o _ s

-- `CopyIn` writes the bytes to the slots from the offset on, and to no other.
module _ (o i : ℕ) (xs s : List ℕ) (b : o < length s) (h : length xs ≤ length s)
    (l : i < length s) where
  abbrev c : ℕ
  c = length s

  abbrev f : ℕ
  f = first_part (length xs) o c

  abbrev j : ℕ
  j = slot c o i

  inner : j < length (overwrite o (take f xs) s)
  inner = ground (arith, length-overwrite o (take f xs) s)

  front : length (take f xs) ≡ f
  front = omega (arith, length-take f xs)

  pub nth-copy_to_inside : i < length xs → nth j (copy_to o xs s) ≡ nth i xs
  unfolding copy_to
  nth-copy_to_inside e = elim (Bool-cases (ltb (o + i) c)) [
    | inl t ↦
        nth-overwrite_outside j 0 (drop f xs) (overwrite o (take f xs) s) inner
          (inr (ground (arith, length-drop f xs)))
        ∙ nth-overwrite_inside j o (take f xs) s (ground arith) (ground arith)
            (ground (arith, front))
        ∙ ap (λ k. nth k (take f xs)) (ground arith)
        ∙ nth-take i f xs (ground arith)
    | inr t ↦
        nth-overwrite_inside j 0 (drop f xs) (overwrite o (take f xs) s) inner (omega arith)
          (ground (arith, length-drop f xs))
        ∙ nth-drop (j - 0) f xs
        ∙ ap (λ k. nth k xs) (ground arith)
  ]

  pub nth-copy_to_outside : length xs ≤ i → nth j (copy_to o xs s) ≡ nth j s
  unfolding copy_to
  nth-copy_to_outside e = elim (Bool-cases (ltb (o + i) c)) [
    | inl t ↦
        nth-overwrite_outside j 0 (drop f xs) (overwrite o (take f xs) s) inner
          (inr (ground (arith, length-drop f xs)))
        ∙ nth-overwrite_outside j o (take f xs) s (ground arith) (inr (ground (arith, front)))
    | inr t ↦
        nth-overwrite_outside j 0 (drop f xs) (overwrite o (take f xs) s) inner
          (inr (ground (arith, length-drop f xs)))
        ∙ nth-overwrite_outside j o (take f xs) s (ground arith) (inl (ground (arith, front)))
  ]

pub view-append :
    (o m k : ℕ) (s : List ℕ)
    → o < length s
    → m + k ≤ length s
    → view o (m + k) s ≡ view o m s ++ view (slot (length s) o m) k s
view-append o m k s b h =
    nth_ext _ _ (omega (arith, whole, size)) (λ i l. at i (omega (arith, whole)))
  where
    o' : ℕ
    o' = slot (length s) o m

    whole : length (view o (m + k) s) ≡ m + k
    whole = length-view o (m + k) s

    size : length (view o m s ++ view o' k s) ≡ m + k
    size =
        omega
          (arith, length-append (view o m s) (view o' k s), length-view o m s, length-view o' k s)

    at : (i : ℕ) → i < m + k → nth i (view o (m + k) s) ≡ nth i (view o m s ++ view o' k s)
    at i l =
        nth-view o (m + k) i s l h b
        ∙ sym (elim (Bool-cases (ltb i m)) [
          | inl t ↦
              nth-append_before i (view o m s) (view o' k s) (ground (arith, length-view o m s))
              ∙ nth-view o m i s (ground arith) (omega arith) b
          | inr t ↦
              nth-append_behind i (view o m s) (view o' k s) (ground (arith, length-view o m s))
              ∙ ap (λ x. nth (i - x) (view o' k s)) (length-view o m s)
              ∙ nth-view o' k (i - m) s (ground arith) (omega arith) (ground arith)
              ∙ ap (λ x. nth x s) (ground arith)
        ])

-- Bytes written behind `m` slots that are in use leave those as they were.
pub view-copy_to :
    (o m : ℕ) (xs s : List ℕ)
    → o < length s
    → m + length xs ≤ length s
    → view o (m + length xs) (copy_to (slot (length s) o m) xs s) ≡ view o m s ++ xs
view-copy_to o m xs s b h =
    nth_ext _ _ (omega (arith, whole, size)) (λ i l. at i (omega (arith, whole)))
  where
    o' : ℕ
    o' = slot (length s) o m

    s' : List ℕ
    s' = copy_to o' xs s

    n : ℕ
    n = length xs

    same : length s' ≡ length s
    same = length-copy_to o' xs s

    whole : length (view o (m + n) s') ≡ m + n
    whole = length-view o (m + n) s'

    size : length (view o m s ++ xs) ≡ m + n
    size = omega (arith, length-append (view o m s) xs, length-view o m s)

    -- The slot as it is counted from where the bytes are written.
    around : (i : ℕ) → i < m → slot (length s) o i ≡ slot (length s) o' (i + length s - m)
    around i l = ground arith

    ahead : (i : ℕ) → m ≤ i → i < length s → slot (length s) o i ≡ slot (length s) o' (i - m)
    ahead i l u = ground arith

    at : (i : ℕ) → i < m + n → nth i (view o (m + n) s') ≡ nth i (view o m s ++ xs)
    at i l =
        nth-view o (m + n) i s' l (omega (arith, same)) (omega (arith, same))
        ∙ ap (λ x. nth (slot x o i) s') same
        ∙ elim (Bool-cases (ltb i m)) [
          | inl t ↦
              ap (λ x. nth x s') (around i (ground arith))
              ∙ nth-copy_to_outside o' (i + length s - m) xs s (ground arith) (omega arith)
                  (ground arith) (omega arith)
              ∙ ap (λ x. nth x s) (sym (around i (ground arith)))
              ∙ sym (
                  nth-append_before i (view o m s) xs (ground (arith, length-view o m s))
                  ∙ nth-view o m i s (ground arith) (omega arith) b)
          | inr t ↦
              ap (λ x. nth x s') (ahead i (ground arith) (omega arith))
              ∙ nth-copy_to_inside o' (i - m) xs s (ground arith) (omega arith) (omega arith)
                  (ground arith)
              ∙ ap (λ x. nth (i - x) xs) (sym (length-view o m s))
              ∙ sym (nth-append_behind i (view o m s) xs (ground (arith, length-view o m s)))
        ]
