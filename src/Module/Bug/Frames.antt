-- ===== src/Module/Bug/Frames.antt =====
-- The frames that the media bug of module/mod_audio_fork.cpp writes into.
use mod_audio_fork.Common.{
  ℕ, ◌<◌, drop_cong, drop-min, min, Bool, true, false, ◌∷◌, ◌∙◌, ◌≤◌, ◌==◌, ◌≡◌, refl, sym, ap,
  subst, not, ◌||◌, inl, inr, Option, Option-cases, none, some, List, [], ◌++◌, if◌then◌else◌,
  if_ind, length, take, drop, length-take, arith,
}
use mod_audio_fork.Config.{is_empty}
use mod_audio_fork.SpscRing.Fifo
use mod_audio_fork.SpscRing.Fifo.{pop_dequeues}
use mod_audio_fork.ForkSession.{ForkSession, Playback}
use mod_audio_fork.ForkSession.Media.{read_from, read_playback, playback_format}
use mod_audio_fork.ForkSession.Media.Reads.{Reads, read_playback-Reads}
use mod_audio_fork.Module.Bug.{
  Resamplers, ForkBug, ensure_playback_resampler, overwrite_front, fill_frame, wanted_bytes,
  whole_samples, resample_frame, replace_frame, playback_enabled, on_write_replace,
}

-- The frame that is written begins with playback and goes on as it was.
pub record Replaces (frame : List ℕ) (out : List ℕ) : Type 0 where
  pub front : List ℕ
  pub fits : length front ≤ length frame
  pub whole : out ≡ front ++ drop (length front) frame

abbrev pub PlaybackValid : ForkSession → Type 0
PlaybackValid s = (b : Playback) → s.playback ≡ some b → Fifo.IsValid b.ring

same : (frame : List ℕ) → Replaces frame frame
same frame = record { front = []; fits = omega arith; whole = refl }

-- A read gives no more than there is room for.
read_from-le :
    (room : ℕ) (s : ForkSession) (b : Playback)
    → Fifo.IsValid b.ring
    → length (read_from room s b).0 ≤ room
unfolding read_from
read_from-le room s b v =
    if_ind (λ (r : List ℕ × ForkSession). length r.0 ≤ room)
      (not (s.playback_generation == s.media_playback_generation)) (λ _. omega arith)
      (λ _.
        let (ring, _, front, back) = pop_dequeues b.ring v room in
        omega (arith, ap length front, length-take room (Fifo.contents b.ring)))

read_playback-le :
    (room : ℕ) (s : ForkSession) → PlaybackValid s → length (read_playback room s).0 ≤ room
unfolding read_playback
read_playback-le room s v = elim (Option-cases s.playback) [
  | inl off ↦ subst (λ o. length (from o).0 ≤ room) (sym off) (omega arith)
  | inr (b, on) ↦
      subst (λ o. length (from o).0 ≤ room) (sym on)
        (if_ind (λ (r : List ℕ × ForkSession). length r.0 ≤ room) (room == 0) (λ _. omega arith)
          (λ _. read_from-le room s b (v b on)))
]
  where
    from : Option Playback → List ℕ × ForkSession
    from o = elim o [ none ↦ ([], s) | some b ↦ if room == 0 then ([], s) else read_from room s b ]

overwritten :
    (bytes frame : List ℕ)
    → length bytes ≤ length frame
    → Replaces frame (overwrite_front bytes frame)
overwritten bytes frame h = record { front = bytes; fits = h; whole = refl }

fill_frame-Replaces :
    (frame : List ℕ) (bug : ForkBug)
    → PlaybackValid bug.session
    → Replaces frame (fill_frame frame bug).1
unfolding fill_frame
fill_frame-Replaces frame bug v =
    overwritten (read_playback (length frame) bug.session).0 frame
      (read_playback-le (length frame) bug.session v)

resample_frame-Replaces :
    (w : Resamplers) (rate : ℕ) (frame : List ℕ) (bug : ForkBug)
    → Replaces frame (resample_frame w rate frame bug).1
unfolding resample_frame
resample_frame-Replaces w rate frame bug =
    let filled = (read_playback (wanted_bytes rate frame bug) bug.session).0 in
    let made = w.resample rate bug.session_rate (whole_samples filled) in
    if_ind (λ (r : ForkBug × List ℕ). Replaces frame r.1) (is_empty filled) (λ _. same frame)
      (λ _.
        overwritten (take (length frame) made) frame
          (omega (arith, length-take (length frame) made)))

ensure_session :
    (w : Resamplers) (rate : ℕ) (bug : ForkBug)
    → (ensure_playback_resampler w rate bug).0.session ≡ bug.session
unfolding ensure_playback_resampler
ensure_session w rate bug = ground arith

replace_frame-Replaces :
    (w : Resamplers) (frame : List ℕ) (bug : ForkBug)
    → PlaybackValid bug.session
    → Replaces frame (replace_frame w frame bug).1
unfolding replace_frame
replace_frame-Replaces w frame bug v =
    let rate = (playback_format bug.session).sample_rate in
    let r = ensure_playback_resampler w rate bug in
    if_ind (λ (x : ForkBug × List ℕ). Replaces frame x.1) (not r.1) (λ _. same frame)
      (λ _.
        either r.0 rate r.0.playback_resampler
          (subst PlaybackValid (sym (ensure_session w rate bug)) v))
  where
    either :
        (bug' : ForkBug) (rate : ℕ) (o : Option ℕ)
        → PlaybackValid bug'.session
        → Replaces frame
            (let x : ForkBug × List ℕ = elim o [
              | none ↦ fill_frame frame bug'
              | some r ↦ resample_frame w rate frame bug'
            ] in
              x).1
    either bug' rate none v' = fill_frame-Replaces frame bug' v'
    either bug' rate (some r) v' = resample_frame-Replaces w rate frame bug'

-- Whatever the resamplers make of it, and with a valid ring where playback is on: the frame that is
-- written begins with playback that fits into it, and goes on as the frame of the call was.
pub on_write_replace-Replaces :
    (w : Resamplers) (frame : List ℕ) (bug : ForkBug)
    → PlaybackValid bug.session
    → Replaces frame (on_write_replace w frame bug).1
unfolding on_write_replace
on_write_replace-Replaces w frame bug v =
    if_ind (λ (x : ForkBug × List ℕ). Replaces frame x.1)
      (not (playback_enabled bug.session) || is_empty frame) (λ _. same frame)
      (λ _. replace_frame-Replaces w frame bug v)

rate_kept :
    (w : Resamplers) (rate : ℕ) (bug : ForkBug)
    → rate ≡ bug.session_rate
    → ensure_playback_resampler w rate bug ≡ (record bug { playback_resampler = none }, true)
unfolding ensure_playback_resampler
rate_kept w rate bug e = let t : (rate == bug.session_rate) ≡ true = ground arith in rw t

replace_kept :
    (w : Resamplers) (frame : List ℕ) (bug : ForkBug)
    → bug.session.playback_rate ≡ bug.session_rate
    → replace_frame w frame bug ≡ fill_frame frame (record bug { playback_resampler = none })
unfolding replace_frame
replace_kept w frame bug e =
    ap (chosen (playback_format bug.session).sample_rate)
      (rate_kept w bug.session.playback_rate bug e)
  where
    chosen : ℕ → ForkBug × Bool → ForkBug × List ℕ
    chosen rate r = if not r.1 then (r.0, frame) else elim r.0.playback_resampler [
      | none ↦ fill_frame frame r.0
      | some from_rate ↦ resample_frame w rate frame r.0
    ]

plays_at :
    (w : Resamplers) (frame : List ℕ) (bug : ForkBug) (b : Playback)
    → bug.session.playback ≡ some b
    → 0 < length frame
    → bug.session.playback_rate ≡ bug.session_rate
    → on_write_replace w frame bug ≡ fill_frame frame (record bug { playback_resampler = none })
unfolding on_write_replace
plays_at w [] bug b on h e = absurd (omega arith)
plays_at w (x ∷ xs) bug b on h e =
    ap (λ o. if not (is_on o) || false then (bug, x ∷ xs) else replace_frame w (x ∷ xs) bug) on
    ∙ replace_kept w (x ∷ xs) bug e
  where
    is_on : Option Playback → Bool
    is_on o = elim o [ none ↦ false | some b ↦ true ]

-- With playback on, a valid ring, no barge-in since, and playback at the rate of the session: the
-- frame that is written begins with the oldest playback of the ring, as much as it has room for, and
-- goes on as the frame of the call was; the ring keeps the rest.
pub on_write_replace_plays :
    (w : Resamplers) (frame : List ℕ) (bug : ForkBug) (b : Playback)
    → bug.session.playback ≡ some b
    → Fifo.IsValid b.ring
    → 0 < length frame
    → bug.session.playback_rate ≡ bug.session_rate
    → bug.session.playback_generation ≡ bug.session.media_playback_generation
    → let held = Fifo.contents b.ring in
      let (bug', out) = on_write_replace w frame bug in
      (out ≡ take (length frame) held ++ drop (length held) frame)
      × Reads bug.session b (drop (length frame) held) bug'.session
unfolding fill_frame
on_write_replace_plays w frame bug b on v h e g =
    let held = Fifo.contents b.ring in
    let (out, reads, _) = (read_playback-Reads (length frame) bug.session b on v h).1 g in
    subst
      (λ (x : ForkBug × List ℕ).
        (x.1 ≡ take (length frame) held ++ drop (length held) frame)
        × Reads bug.session b (drop (length frame) held) x.0.session)
      (sym (plays_at w frame bug b on h e))
      (
        ap (λ bs. overwrite_front bs frame) out
            ∙ ap (λ xs. take (length frame) held ++ xs) (behind held),
        reads,
      )
  where
    behind :
        (held : List ℕ) → drop (length (take (length frame) held)) frame ≡ drop (length held) frame
    behind held =
        drop_cong {n = min (length held) (length frame)} frame
          (omega (arith, length-take (length frame) held))
        ∙ drop-min (length held) frame refl
