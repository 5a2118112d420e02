-- ===== src/JitterBuffer/Stream.antt =====
-- What the operations of core/src/jitter_buffer.cpp do to the stream that the server sent.
use mod_audio_fork.Common.{
  ℕ, ◌+◌, ◌-◌, min, ◌≤◌, ◌<◌, ◌^◌, ◌≡◌, refl, sym, ◌∙◌, ap, ap₂, inl, inr, false, leb, leb→le, List,
  [], ◌∷◌, ◌++◌, append-nil, append_assoc, length, take, drop, length-drop, take_all, drop_all,
  eq-nil, Text, Bool-cases, arith,
}
use mod_audio_fork.SlabPool.{SlabPool}
use mod_audio_fork.JitterBuffer.{Mark, JitterBuffer, append, clear, add_mark, consume}
use mod_audio_fork.JitterBuffer.Admit.{append_admits}
use mod_audio_fork.JitterBuffer.Marks.{
  audio, Ascending, Ascending-lower, none_due, IsValid, consume-Consumed, add_mark-IsValid,
  clear-IsValid, Ascending-end,
}
use mod_audio_fork.JitterBuffer.Weave.{mark, bytes_of, weave, view, pull, pull-weave, weave-append}

lower :
    {p : SlabPool} (j : JitterBuffer)
    → IsValid p j
    → Ascending j.consumed_offset j.written_offset j.marks
lower j v =
    Ascending-lower (j.consumed_offset + 1) j.consumed_offset j.written_offset j.marks (omega arith)
      v.ordered

no_marks : (lo hi : ℕ) (ms : List Mark) → hi ≤ lo → Ascending (lo + 1) hi ms → ms ≡ []
no_marks lo hi [] l h = refl
no_marks lo hi (m ∷ ms) l h = absurd (omega (arith, h.0, h.1))

-- With a valid pool and buffer, `Consume` takes the bytes that it can off the stream: the marks met
-- on the way, and those that now stand at the front, are reached in their order, and the rest of
-- the stream is what the buffer holds.
pub consume-pull :
    (n : ℕ) (p : SlabPool) (j : JitterBuffer)
    → IsValid p j
    → let (p', j') = consume n p j in
      let (reached, rest) = pull (min n (length (audio j))) (view j) in
      (j'.reached_marks ≡ j.reached_marks ++ reached) × (view j' ≡ rest) × IsValid p' j'
consume-pull n p j v =
    let c = consume-Consumed p j v n in
    let k = min n (length (audio j)) in
    let e =
      pull-weave k j.consumed_offset j.written_offset (audio j) j.marks (lower j v) (sym v.counted)
        (omega arith) in
    (
      c.reached ∙ ap (λ r. j.reached_marks ++ r.0) (sym e),
      (λ i. weave (c.moved i) (c.left i) (c.marks i)) ∙ ap (λ r. r.1) (sym e),
      c.valid,
    )

-- With a valid pool and buffer, a barge-in empties the stream, marks and all, and until the next
-- mark every `Append` refuses all its bytes and changes nothing; the marks reached before stay
-- reached.
pub clear_mutes :
    (p : SlabPool) (j : JitterBuffer)
    → IsValid p j
    → let (p', j') = clear p j in
      IsValid p' j'
      × (view j' ≡ [])
      × (j'.reached_marks ≡ j.reached_marks)
      × ((bytes : List ℕ) → append bytes p' j' ≡ (length bytes, p', j'))
unfolding clear append
clear_mutes p j v =
    let (valid, silent, _, _, reached, _) = clear-IsValid p j v in
    (valid, (λ i. bytes_of (silent i)), reached, (λ bytes. refl))

-- With a valid pool and buffer, what `Append` stores goes to the end of the stream, behind every
-- mark, while the count of bytes written stays below 2 ^ 64.
pub append-view :
    (bytes : List ℕ) (p : SlabPool) (j : JitterBuffer)
    → IsValid p j
    → j.written_offset + length bytes < 2 ^ 64
    → let (refused, p', j') = append bytes p j in
      (view j' ≡ view j ++ bytes_of (take (length bytes - refused) bytes)) × IsValid p' j'
append-view bytes p j v small =
    let (stored, _, _, _, valid, marks, consumed, _, _, _) = append_admits p j v bytes small in
    (
      (λ i. weave (consumed i) (stored i) (marks i))
          ∙ weave-append j.consumed_offset j.written_offset (audio j) _ j.marks (lower j v)
              (sym v.counted),
      valid,
    )

weave-mark :
    (pos hi : ℕ) (bs : List ℕ) (name : Text) (ms : List Mark)
    → Ascending pos hi ms
    → hi ≡ pos + length bs
    → weave pos bs (ms ++ (record { offset = hi; name = name } ∷ []))
      ≡ weave pos bs ms ++ (mark name ∷ [])
weave-mark pos hi bs name [] h e =
    ap₂ (λ xs ys. bytes_of xs ++ (mark name ∷ bytes_of ys)) (take_all (hi - pos) bs (omega arith))
      (drop_all (hi - pos) bs (omega arith))
weave-mark pos hi bs name (m ∷ ms) h e =
    let d = m.offset - pos in
    rw (weave-mark m.offset hi (drop d bs) name ms h.2 (omega (arith, length-drop d bs, h.0, h.1)))
      (sym (
        append_assoc (bytes_of (take d bs)) (mark m.name ∷ weave m.offset (drop d bs) ms)
          (mark name ∷ [])))

-- While audio is to come, a mark put at the end waits.
pull-end :
    (name : Text) {p : SlabPool} (j : JitterBuffer)
    → IsValid p j
    → j.consumed_offset < j.written_offset
    → pull 0 (view j ++ (mark name ∷ [])) ≡ (
      [],
      weave j.consumed_offset
          (audio j)
          (j.marks ++ (record { offset = j.written_offset; name = name } ∷ [])),
    )
pull-end name j v l =
    let c = j.consumed_offset in
    let w = j.written_offset in
    let ms = j.marks ++ (record { offset = w; name = name } ∷ []) in
    let a : Ascending (c + 1) w ms = Ascending-end (c + 1) w name j.marks (omega arith) v.ordered in
    let (nothing, whole) = none_due (c + 0) (c + 1) w ms (omega arith) a in
    let here : c + 0 ≡ c = omega arith in
    ap (pull 0) (sym (weave-mark c w (audio j) name j.marks (lower j v) (sym v.counted)))
    ∙ pull-weave 0 c w (audio j) ms (Ascending-lower (c + 1) c w ms (omega arith) a) (sym v.counted)
        (omega arith)
    ∙ (λ i. (nothing i, weave (here i) (audio j) (whole i)))

-- In a valid buffer a mark goes to the end of the stream, and is reached at once if nothing stands
-- before it; it ends the muting.
pub add_mark-view :
    (name : Text) (p : SlabPool) (j : JitterBuffer)
    → IsValid p j
    → let j' = add_mark name j in
      let (reached, rest) = pull 0 (view j ++ (mark name ∷ [])) in
      (j'.reached_marks ≡ j.reached_marks ++ reached)
      × (view j' ≡ rest)
      × IsValid p j'
      × (j'.muted ≡ false)
unfolding add_mark
add_mark-view name p j v = elim (Bool-cases (leb j.written_offset j.consumed_offset)) [
  | inl t ↦
      let silent : audio j ≡ [] = eq-nil (audio j) (ground (arith, v.counted)) in
      let unmarked : j.marks ≡ [] =
        no_marks j.consumed_offset j.written_offset j.marks
          (leb→le j.written_offset j.consumed_offset t) v.ordered in
      let nothing : view j ≡ [] = λ i. weave j.consumed_offset (silent i) (unmarked i) in
      let pulled : pull 0 (view j ++ (mark name ∷ [])) ≡ (name ∷ [], []) =
        ap (λ s. pull 0 (s ++ (mark name ∷ []))) nothing in
      (
        rw (t, add_mark) (ap (λ r. j.reached_marks ++ r.0) (sym pulled)),
        rw (t, add_mark) (nothing ∙ ap (λ r. r.1) (sym pulled)),
        add_mark-IsValid p j v name,
        rw (t, add_mark) refl,
      )
  | inr t ↦
      let pulled = pull-end name j v (ground arith) in
      (
        rw (t, add_mark)
            (sym (append-nil j.reached_marks) ∙ ap (λ r. j.reached_marks ++ r.0) (sym pulled)),
        rw (t, add_mark) (ap (λ r. r.1) (sym pulled)),
        add_mark-IsValid p j v name,
        rw (t, add_mark) refl,
      )
]
