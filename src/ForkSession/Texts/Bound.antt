-- ===== src/ForkSession/Texts/Bound.antt =====
-- The queue of texts of core/src/fork_session.cpp is bounded.
use mod_audio_fork.Common.{
  ℕ, ◌+◌, ◌-◌, ◌%◌, ◌^◌, ◌≤◌, ◌<◌, ◌≡◌, sym, ◌∙◌, ap, leb, true, false, List, [], ◌∷◌, ◌++◌, length,
  drop, length-append, length-drop, drop-append_le, add64, Text, Bool-cases, inl, inr, arith,
}
use mod_audio_fork.ForkSession.{ForkSession}
use mod_audio_fork.ForkSession.Texts.{max_pending_texts, queue_text}

-- A queue of at most 64 texts keeps the newest 64 in their order, and counts the others.
pub queue_text_bounded :
    (text : Text) (s : ForkSession)
    → length s.pending_texts ≤ 64
    → let s' = queue_text text s in
      let lost = length s.pending_texts + 1 - 64 in
      (s'.pending_texts ≡ drop lost (s.pending_texts ++ (text ∷ [])))
      × (length s'.pending_texts ≤ 64)
      × (s'.pending_texts_dropped % 2 ^ 64 ≡ (s.pending_texts_dropped + lost) % 2 ^ 64)
unfolding queue_text
queue_text_bounded text s h = elim (Bool-cases (leb max_pending_texts (length s.pending_texts))) [
  | inl t ↦ rw t (full s.pending_texts s.pending_texts_dropped h t)
  | inr t ↦ rw t (room s.pending_texts s.pending_texts_dropped t)
]
  where
    full :
        (ts : List Text) (n : ℕ)
        → length ts ≤ 64
        → leb 64 (length ts) ≡ true
        → (drop 1 ts ++ (text ∷ []) ≡ drop (length ts + 1 - 64) (ts ++ (text ∷ [])))
          × (length (drop 1 ts ++ (text ∷ [])) ≤ 64)
          × (add64 n 1 % 2 ^ 64 ≡ (n + (length ts + 1 - 64)) % 2 ^ 64)
    full ts n a b =
        let e : 1 ≡ length ts + 1 - 64 = ground arith in
        (
          sym (drop-append_le 1 ts (text ∷ []) (omega (arith, e)))
              ∙ ap (λ (k : ℕ). drop k (ts ++ (text ∷ []))) e,
          omega (arith, length-append (drop 1 ts) (text ∷ []), length-drop 1 ts, e, a),
          omega (arith, e),
        )

    room :
        (ts : List Text) (n : ℕ)
        → leb 64 (length ts) ≡ false
        → (ts ++ (text ∷ []) ≡ drop (length ts + 1 - 64) (ts ++ (text ∷ [])))
          × (length (ts ++ (text ∷ [])) ≤ 64)
          × (n % 2 ^ 64 ≡ (n + (length ts + 1 - 64)) % 2 ^ 64)
    room ts n b =
        let l : length ts < 64 = ground arith in
        let e : 0 ≡ length ts + 1 - 64 = omega (arith, l) in
        (
          ap (λ (k : ℕ). drop k (ts ++ (text ∷ []))) e,
          omega (arith, length-append ts (text ∷ []), l),
          omega (arith, e),
        )
