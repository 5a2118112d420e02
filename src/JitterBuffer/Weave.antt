-- ===== src/JitterBuffer/Weave.antt =====
-- The stream of a buffer of core/src/jitter_buffer.cpp, bytes with marks between them, and taking
-- bytes off its front.
use mod_audio_fork.Common.{
  ℕ, zero, suc, ◌+◌, ◌-◌, ◌≤◌, ◌<◌, ◌≡◌, refl, sym, ◌∙◌, ap, ap₂, inl, inr, leb, leb→le, List, [],
  ◌∷◌, ◌++◌, append_assoc, length, take, drop, length-take, length-drop, drop-drop, drop_cong,
  take_cong, drop-take, take-append_le, drop-append_le, Text, Bool-cases, arith,
}
use mod_audio_fork.JitterBuffer.{Mark, JitterBuffer}
use mod_audio_fork.JitterBuffer.Marks.{audio, Ascending, due, ahead, none_due}

pub data Item : Type 0 where
  byte : ℕ → Item
  mark : Text → Item

abbrev pub bytes_of : List ℕ → List Item
bytes_of [] = []
bytes_of (b ∷ bs) = byte b ∷ bytes_of bs

-- The audio from position `pos` on, with the marks at their offsets.
abbrev pub weave : ℕ → List ℕ → List Mark → List Item
weave pos bs [] = bytes_of bs
weave pos bs (m ∷ ms) =
    bytes_of (take (m.offset - pos) bs)
    ++ (mark m.name ∷ weave m.offset (drop (m.offset - pos) bs) ms)

abbrev pub view : JitterBuffer → List Item
view j = weave j.consumed_offset (audio j) j.marks

-- Taking `n` bytes off a stream: the marks met on the way and just behind, and what is left.
abbrev pub pull : ℕ → List Item → List Text × List Item
pull n [] = ([], [])
pull n (mark t ∷ is) = let (ts, rest) = pull n is in (t ∷ ts, rest)
pull zero (byte b ∷ is) = ([], byte b ∷ is)
pull (suc n) (byte b ∷ is) = pull n is

pub pull-bytes_of : (n : ℕ) (bs : List ℕ) → pull n (bytes_of bs) ≡ ([], bytes_of (drop n bs))
pull-bytes_of zero [] = refl
pull-bytes_of (suc n) [] = refl
pull-bytes_of zero (b ∷ bs) = refl
pull-bytes_of (suc n) (b ∷ bs) = pull-bytes_of n bs

-- Fewer bytes than stand before the next mark.
pub pull_short :
    (n : ℕ) (bs : List ℕ) (is : List Item)
    → n < length bs
    → pull n (bytes_of bs ++ is) ≡ ([], bytes_of (drop n bs) ++ is)
pull_short n [] is h = absurd (omega arith)
pull_short zero (b ∷ bs) is h = refl
pull_short (suc n) (b ∷ bs) is h = pull_short n bs is (omega arith)

pub pull_past :
    (n : ℕ) (bs : List ℕ) (is : List Item)
    → length bs ≤ n
    → pull n (bytes_of bs ++ is) ≡ pull (n - length bs) is
pull_past n [] is h = ap (λ k. pull k is) (let e : n ≡ n - 0 = omega arith in e)
pull_past zero (b ∷ bs) is h = absurd (omega arith)
pull_past (suc n) (b ∷ bs) is h =
    pull_past n bs is (omega arith)
    ∙ ap (λ k. pull k is) (let e : n - length bs ≡ suc n - suc (length bs) = omega arith in e)

abbrev pub emit : Text → List Text × List Item → List Text × List Item
emit t r = (t ∷ r.0, r.1)

pub pull-weave :
    (n pos hi : ℕ) (bs : List ℕ) (ms : List Mark)
    → Ascending pos hi ms
    → hi ≡ pos + length bs
    → n ≤ length bs
    → pull n (weave pos bs ms)
      ≡ (due (pos + n) ms, weave (pos + n) (drop n bs) (ahead (pos + n) ms))
pull-weave n pos hi bs [] h e l = pull-bytes_of n bs
pull-weave n pos hi bs (m ∷ ms) h e l = elim (Bool-cases (leb m.offset (pos + n))) [
  | inl t ↦
      let before : m.offset ≤ pos + n = leb→le m.offset (pos + n) t in
      rw t (
        pull_past n (take d bs) (mark m.name ∷ weave m.offset (drop d bs) ms) (omega (arith, size))
        ∙ ap (λ k. emit m.name (pull k (weave m.offset (drop d bs) ms)))
            (let q : n - length (take d bs) ≡ n - d = omega (arith, size) in q)
        ∙ ap (emit m.name) (
            rest
              (pull-weave (n - (m.offset - pos)) m.offset hi (drop (m.offset - pos) bs) ms h.2
                (omega (arith, length-drop (m.offset - pos) bs, h.0, h.1))
                (omega (arith, length-drop (m.offset - pos) bs, h.0, h.1)))
              before))
  | inr t ↦
      let behind : pos + n < m.offset = ground arith in
      let (nothing, whole) = none_due (pos + n) m.offset hi ms behind h.2 in
      rw (t, nothing, whole)
        (pull_short n (take d bs) (mark m.name ∷ weave m.offset (drop d bs) ms)
            (omega (arith, size))
          ∙ ap₂ (λ xs ys. ([], bytes_of xs ++ (mark m.name ∷ weave m.offset ys ms))) (cut behind)
              (left behind))
]
  where
    d : ℕ
    d = m.offset - pos

    size : length (take d bs) ≡ d
    size = omega (arith, length-take d bs, h.0, h.1)

    at : ℕ → List Text × List Item
    at k = (due k ms, weave k (drop n bs) (ahead k ms))

    rest :
        pull (n - d) (weave m.offset (drop d bs) ms) ≡ (
          due (m.offset + (n - d)) ms,
          weave (m.offset + (n - d)) (drop (n - d) (drop d bs)) (ahead (m.offset + (n - d)) ms),
        )
        → m.offset ≤ pos + n
        → pull (n - d) (weave m.offset (drop d bs) ms)
          ≡ (due (pos + n) ms, weave (pos + n) (drop n bs) (ahead (pos + n) ms))
    rest ih b =
        let same : drop (n - d) (drop d bs) ≡ drop n bs =
          drop-drop (n - d) d bs ∙ drop_cong {n = n} bs (omega (arith, h.0)) in
        let there : m.offset + (n - d) ≡ pos + n = omega (arith, h.0) in
        ih
        ∙ ap
            (λ xs. (
              due (m.offset + (n - d)) ms,
              weave (m.offset + (n - d)) xs (ahead (m.offset + (n - d)) ms),
            ))
            same
        ∙ ap at there

    cut : pos + n < m.offset → drop n (take d bs) ≡ take (m.offset - (pos + n)) (drop n bs)
    cut b = drop-take n d bs ∙ take_cong {m = d - n} (drop n bs) (omega arith)

    left : pos + n < m.offset → drop d bs ≡ drop (m.offset - (pos + n)) (drop n bs)
    left b = drop_cong {m = d} bs (omega arith) ∙ sym (drop-drop (m.offset - (pos + n)) n bs)

pub bytes_of-append : (xs ys : List ℕ) → bytes_of (xs ++ ys) ≡ bytes_of xs ++ bytes_of ys
bytes_of-append [] ys = refl
bytes_of-append (x ∷ xs) ys = ap (λ t. byte x ∷ t) (bytes_of-append xs ys)

pub weave-append :
    (pos hi : ℕ) (bs xs : List ℕ) (ms : List Mark)
    → Ascending pos hi ms
    → hi ≡ pos + length bs
    → weave pos (bs ++ xs) ms ≡ weave pos bs ms ++ bytes_of xs
weave-append pos hi bs xs [] h e = bytes_of-append bs xs
weave-append pos hi bs xs (m ∷ ms) h e =
    let d = m.offset - pos in
    rw
      (
        take-append_le d bs xs (omega (arith, h.0, h.1)),
        drop-append_le d bs xs (omega (arith, h.0, h.1)),
        weave-append m.offset hi (drop d bs) xs ms h.2 (omega (arith, length-drop d bs, h.0, h.1)),
      )
      (sym (
        append_assoc (bytes_of (take d bs)) (mark m.name ∷ weave m.offset (drop d bs) ms)
          (bytes_of xs)))
