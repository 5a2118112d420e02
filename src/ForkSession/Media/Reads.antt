-- ===== src/ForkSession/Media/Reads.antt =====
-- What the media thread gets out of `ReadPlayback` of core/src/fork_session.cpp.
use Prim.Native.Nat.{bit_and}
use mod_audio_fork.Common.{
  ℕ, zero, suc, ◌+◌, ◌-◌, min, ◌<◌, ◌%◌, ◌^◌, ◌≡◌, ◌≢◌, refl, sym, ◌∙◌, ap, subst, ◌==◌, not, true,
  false, List, [], if◌then◌else◌, length, take, drop, length-take, length-drop, add64, eq-nil,
  if_ind, Option, none, some, arith,
}
use mod_audio_fork.SpscRing
use mod_audio_fork.SpscRing.{SpscRing}
use mod_audio_fork.SpscRing.Slots.{length-view}
use mod_audio_fork.SpscRing.Fifo
use mod_audio_fork.SpscRing.Fifo.{pop_dequeues}
use mod_audio_fork.ForkSession.{ForkSession, Playback}
use mod_audio_fork.ForkSession.Media.{discard, read_from, read_playback}

discard-empties :
    (fuel room : ℕ) (r : SpscRing)
    → Fifo.IsValid r
    → 0 < room
    → length (Fifo.contents r) < fuel
    → Fifo.IsValid (discard fuel room r) × (Fifo.contents (discard fuel room r) ≡ [])
unfolding discard
discard-empties zero room r v p l = absurd (omega (arith, l))
discard-empties (suc fuel) room r v p l =
    let (valid, _, front, back) = pop_dequeues r v room in
    let out = (SpscRing.pop room r).0 in
    let r' = (SpscRing.pop room r).1 in
    let size : length out ≡ length (take room (Fifo.contents r)) = ap length front in
    let rest : length (Fifo.contents r') ≡ length (Fifo.contents r) - room =
      ap length back ∙ length-drop room (Fifo.contents r) in
    if_ind (λ x. Fifo.IsValid x × (Fifo.contents x ≡ [])) (length out == 0)
      (λ e. (
        valid,
        eq-nil (Fifo.contents r')
            (nothing (length out) _ _ e (size ∙ length-take room (Fifo.contents r)) rest),
      ))
      (λ e.
        discard-empties fuel room r' valid p
          (shorter (length out) _ _ e (size ∙ length-take room (Fifo.contents r)) rest l))
  where
    nothing : (m n k : ℕ) → (m == 0) ≡ true → m ≡ min room k → n ≡ k - room → n ≡ 0
    nothing m n k e x y = ground arith

    shorter :
        (m n k : ℕ) → (m == 0) ≡ false → m ≡ min room k → n ≡ k - room → k < suc fuel → n < fuel
    shorter m n k e x y u = ground arith

-- The ring after a read, and what else the read may not touch.
pub record Reads (s : ForkSession) (b : Playback) (left : List ℕ) (s' : ForkSession) : Type 0 where
  pub playback : Playback
  pub kept : s'.playback ≡ some playback
  pub buffer : playback.buffer ≡ b.buffer
  pub ring : Fifo.IsValid playback.ring
  pub contents : Fifo.contents playback.ring ≡ left
  pub generation : s'.media_playback_generation ≡ s.playback_generation
  pub state : s'.state ≡ s.state

-- With playback on, a valid ring and room for a byte: the first read after a barge-in gives nothing
-- and throws away all that the ring held, within the loop's fuel; any other gives the oldest bytes,
-- as many as fit or all. Either way the media thread is then at the session's generation.
pub read_playback-Reads :
    (room : ℕ) (s : ForkSession) (b : Playback)
    → s.playback ≡ some b
    → Fifo.IsValid b.ring
    → 0 < room
    → let (out, s') = read_playback room s in
      (s.playback_generation ≢ s.media_playback_generation → (out ≡ []) × Reads s b [] s')
      × (s.playback_generation ≡ s.media_playback_generation
          → (out ≡ take room (Fifo.contents b.ring))
            × Reads s b (drop room (Fifo.contents b.ring)) s'
            × (s'.playback_bytes_played % 2 ^ 64 ≡ (s.playback_bytes_played + length out) % 2 ^ 64))
unfolding read_playback read_from
read_playback-Reads room s b e v p =
    subst Claim (sym (ap from e)) (if_ind Claim (room == 0) (λ z. absurd (positive z)) (λ _. claim))
  where
    Claim : List ℕ × ForkSession → Type 0
    Claim (out, s') =
        (s.playback_generation ≢ s.media_playback_generation → (out ≡ []) × Reads s b [] s')
        × (s.playback_generation ≡ s.media_playback_generation
            → (out ≡ take room (Fifo.contents b.ring))
              × Reads s b (drop room (Fifo.contents b.ring)) s'
              × (s'.playback_bytes_played % 2 ^ 64
                  ≡ (s.playback_bytes_played + length out) % 2 ^ 64))

    from : Option Playback → List ℕ × ForkSession
    from o = elim o [ none ↦ ([], s) | some x ↦ if room == 0 then ([], s) else read_from room s x ]

    positive : (room == 0) ≡ true → ⊥
    positive z = ground arith

    same : (m n : ℕ) → not (m == n) ≡ false → m ≡ n
    same m n h = ground arith

    other : (m n : ℕ) → not (m == n) ≡ true → m ≢ n
    other m n h = ground arith

    claim : Claim (read_from room s b)
    claim =
        if_ind Claim (not (s.playback_generation == s.media_playback_generation))
          (λ t.
            let (valid, empty) = discard-empties (suc (SpscRing.size b.ring)) room b.ring v p (
              fits (
                length-view (bit_and b.ring.tail b.ring.mask) (SpscRing.size b.ring)
                  b.ring.storage)) in
            (
              (λ _. (
                refl,
                record {
                  playback = record b { ring = discard (suc (SpscRing.size b.ring)) room b.ring };
                  kept = refl;
                  buffer = refl;
                  ring = valid;
                  contents = empty;
                  generation = refl;
                  state = refl;
                },
              )),
              (λ g. absurd (other _ _ t g)),
            ))
          (λ t.
            let (valid, _, front, back) = pop_dequeues b.ring v room in
            ((λ n. absurd (n (same _ _ t))), (λ g. (front, read valid back g, counted))))
      where
        fits : {m n : ℕ} → m ≡ n → m < suc n
        fits x = omega arith

        filled : List ℕ
        filled = (SpscRing.pop room b.ring).0

        after : ForkSession
        after =
            (let s' : ForkSession = record s {
              playback = some (record b { ring = (SpscRing.pop room b.ring).1 });
            } in
              if length filled == 0
              then record s' { playback_underruns = add64 s'.playback_underruns 1 }
              else record s' {
                playback_bytes_played = add64 s'.playback_bytes_played (length filled);
              })

        read :
            Fifo.IsValid (SpscRing.pop room b.ring).1
            → Fifo.contents (SpscRing.pop room b.ring).1 ≡ drop room (Fifo.contents b.ring)
            → s.playback_generation ≡ s.media_playback_generation
            → Reads s b (drop room (Fifo.contents b.ring)) after
        read valid back g =
            if_ind (Reads s b (drop room (Fifo.contents b.ring))) (length filled == 0)
              (λ _. record {
                playback = record b { ring = (SpscRing.pop room b.ring).1 };
                kept = refl;
                buffer = refl;
                ring = valid;
                contents = back;
                generation = sym g;
                state = refl;
              })
              (λ _. record {
                playback = record b { ring = (SpscRing.pop room b.ring).1 };
                kept = refl;
                buffer = refl;
                ring = valid;
                contents = back;
                generation = sym g;
                state = refl;
              })

        none_filled : (m n : ℕ) → (n == 0) ≡ true → m % 2 ^ 64 ≡ (m + n) % 2 ^ 64
        none_filled m n z = ground arith

        some_filled : (m n : ℕ) → add64 m n % 2 ^ 64 ≡ (m + n) % 2 ^ 64
        some_filled m n = omega arith

        counted :
            after.playback_bytes_played % 2 ^ 64
            ≡ (s.playback_bytes_played + length filled) % 2 ^ 64
        counted =
            if_ind
              (λ (x : ForkSession).
                x.playback_bytes_played % 2 ^ 64
                ≡ (s.playback_bytes_played + length filled) % 2 ^ 64)
              (length filled == 0) (λ z. none_filled _ _ z)
              (λ _. some_filled s.playback_bytes_played (length filled))
