-- ===== src/Module/Status/Sums.antt =====
-- What the counters of `audio_fork_status_api` of module/mod_audio_fork.cpp add up to.
use mod_audio_fork.Common.{
  ℕ, ◌+◌, ◌%◌, ◌^◌, ◌<◌, max, ◌≡◌, refl, sym, ap, ◌∙◌, Bool, List, [], ◌∷◌, ◌++◌, if◌then◌else◌,
  length, length-append, add64, arith,
}
use mod_audio_fork.ForkSession.Stats.{Stats}
use mod_audio_fork.Module.Status.{
  Totals, no_totals, tally, tally_all, tally_call, tally_calls, status,
}

-- The forks of all calls.
abbrev pub all_forks : List (List Stats) → List Stats
all_forks [] = []
all_forks (c ∷ cs) = c ++ all_forks cs

abbrev pub sum : (Stats → ℕ) → List Stats → ℕ
sum f [] = 0
sum f (s ∷ ss) = f s + sum f ss

abbrev pub greatest : (Stats → ℕ) → List Stats → ℕ
greatest f [] = 0
greatest f (s ∷ ss) = max (f s) (greatest f ss)

abbrev pub count : (Stats → Bool) → List Stats → ℕ
count p ss = sum (λ s. if p s then 1 else 0) ss

-- The totals are those of all forks: the sums modulo 2 ^ 64.
pub record Adds (cs : List (List Stats)) (t : Totals) : Type 0 where
  pub calls : t.calls ≡ length cs
  pub forks : t.forks ≡ length (all_forks cs) % 2 ^ 64
  pub degraded : t.degraded_forks ≡ count (λ s. s.degraded) (all_forks cs) % 2 ^ 64
  pub paused : t.paused_forks ≡ count (λ s. s.paused) (all_forks cs) % 2 ^ 64
  pub media_dropped : t.media_dropped ≡ sum (λ s. s.media_dropped_bytes) (all_forks cs) % 2 ^ 64
  pub buffer_dropped : t.buffer_dropped ≡ sum (λ s. s.buffer_dropped_bytes) (all_forks cs) % 2 ^ 64
  pub sent : t.sent ≡ sum (λ s. s.sent_bytes) (all_forks cs) % 2 ^ 64
  pub reconnects : t.reconnects ≡ sum (λ s. s.reconnects) (all_forks cs) % 2 ^ 64
  pub buffered : t.buffered ≡ sum (λ s. s.buffered_bytes) (all_forks cs) % 2 ^ 64
  pub buffered_max : t.buffered_max ≡ greatest (λ s. s.buffered_bytes) (all_forks cs)
  pub playback_played :
      t.playback_played ≡ sum (λ s. s.playback_bytes_played) (all_forks cs) % 2 ^ 64
  pub playback_dropped :
      t.playback_dropped ≡ sum (λ s. s.playback_bytes_dropped) (all_forks cs) % 2 ^ 64
  pub playback_buffered :
      t.playback_buffered ≡ sum (λ s. s.playback_buffered_bytes) (all_forks cs) % 2 ^ 64
  pub playback_buffered_max :
      t.playback_buffered_max ≡ greatest (λ s. s.playback_buffered_bytes) (all_forks cs)
  pub barge_ins : t.barge_ins ≡ sum (λ s. s.barge_ins) (all_forks cs) % 2 ^ 64
  pub texts_dropped : t.texts_dropped ≡ sum (λ s. s.pending_texts_dropped) (all_forks cs) % 2 ^ 64

abbrev folded : {A : Type 0} → (A → Stats → A) → A → List Stats → A
folded put a [] = a
folded put a (s ∷ ss) = folded put (put a s) ss

folded-append :
    {A : Type 0} (put : A → Stats → A) (a : A) (ss rs : List Stats)
    → folded put a (ss ++ rs) ≡ folded put (folded put a ss) rs
folded-append put a [] rs = refl
folded-append put a (s ∷ ss) rs = folded-append put (put a s) ss rs

folded-add :
    (f : Stats → ℕ) (n : ℕ) (ss : List Stats)
    → n < 2 ^ 64
    → folded (λ k s. add64 k (f s)) n ss ≡ (n + sum f ss) % 2 ^ 64
folded-add f n [] l = omega arith
folded-add f n (s ∷ ss) l = folded-add f (add64 n (f s)) ss (omega arith) ∙ omega arith

folded-max :
    (f : Stats → ℕ) (n : ℕ) (ss : List Stats)
    → folded (λ k s. max k (f s)) n ss ≡ max n (greatest f ss)
folded-max f n [] = omega arith
folded-max f n (s ∷ ss) = folded-max f (max n (f s)) ss ∙ omega arith

-- What the loops over the calls and their forks make of one of the totals, if a fork does this to it
-- and the number of forks is another.
module _ (get : Totals → ℕ) (put : ℕ → Stats → ℕ)
    (step : (t : Totals) (s : Stats) → get (tally t s) ≡ put (get t) s)
    (apart : (t : Totals) (n : ℕ) → get (record t { forks = n }) ≡ get t) where
  tally_all-folded : (t : Totals) (ss : List Stats) → get (tally_all t ss) ≡ folded put (get t) ss
  unfolding tally_all
  tally_all-folded t [] = refl
  tally_all-folded t (s ∷ ss) =
      tally_all-folded (tally t s) ss ∙ ap (λ a. folded put a ss) (step t s)

  tally_calls-folded :
      (t : Totals) (cs : List (List Stats))
      → get (tally_calls t cs) ≡ folded put (get t) (all_forks cs)
  unfolding tally_calls tally_call
  tally_calls-folded t [] = refl
  tally_calls-folded t (c ∷ cs) =
      let counted : Totals = record t { forks = add64 t.forks (length c) } in
      tally_calls-folded (tally_all counted c) cs
      ∙ ap (λ a. folded put a (all_forks cs))
          (tally_all-folded counted c
            ∙ ap (λ a. folded put a c) (apart t (add64 t.forks (length c))))
      ∙ sym (folded-append put (get t) c (all_forks cs))

module _ (t : Totals) (cs : List (List Stats)) where
  adds :
      (get : Totals → ℕ) (f : Stats → ℕ)
      → ((u : Totals) (s : Stats) → get (tally u s) ≡ add64 (get u) (f s))
      → ((u : Totals) (n : ℕ) → get (record u { forks = n }) ≡ get u)
      → get t ≡ 0
      → get (tally_calls t cs) ≡ sum f (all_forks cs) % 2 ^ 64
  adds get f step apart zero' =
      tally_calls-folded get (λ k s. add64 k (f s)) step apart t cs
      ∙ folded-add f (get t) (all_forks cs) (omega (arith, zero'))
      ∙ omega (arith, zero')

  keeps_greatest :
      (get : Totals → ℕ) (f : Stats → ℕ)
      → ((u : Totals) (s : Stats) → get (tally u s) ≡ max (get u) (f s))
      → ((u : Totals) (n : ℕ) → get (record u { forks = n }) ≡ get u)
      → get t ≡ 0
      → get (tally_calls t cs) ≡ greatest f (all_forks cs)
  keeps_greatest get f step apart zero' =
      tally_calls-folded get (λ k s. max k (f s)) step apart t cs
      ∙ folded-max f (get t) (all_forks cs)
      ∙ omega (arith, zero')

tally_all-forks : (t : Totals) (ss : List Stats) → (tally_all t ss).forks ≡ t.forks
unfolding tally_all tally
tally_all-forks t [] = refl
tally_all-forks t (s ∷ ss) = tally_all-forks (tally t s) ss

tally_calls-forks :
    (t : Totals) (cs : List (List Stats))
    → t.forks < 2 ^ 64
    → (tally_calls t cs).forks ≡ (t.forks + length (all_forks cs)) % 2 ^ 64
unfolding tally_calls tally_call
tally_calls-forks t [] l = omega arith
tally_calls-forks t (c ∷ cs) l =
    let counted : Totals = record t { forks = add64 t.forks (length c) } in
    let same : (tally_all counted c).forks ≡ add64 t.forks (length c) = tally_all-forks counted c in
    tally_calls-forks (tally_all counted c) cs (omega (arith, same))
    ∙ omega (arith, same, length-append c (all_forks cs))

tally_all-calls : (t : Totals) (ss : List Stats) → (tally_all t ss).calls ≡ t.calls
unfolding tally_all tally
tally_all-calls t [] = refl
tally_all-calls t (s ∷ ss) = tally_all-calls (tally t s) ss

tally_calls-calls : (t : Totals) (cs : List (List Stats)) → (tally_calls t cs).calls ≡ t.calls
unfolding tally_calls tally_call
tally_calls-calls t [] = refl
tally_calls-calls t (c ∷ cs) =
    let counted : Totals = record t { forks = add64 t.forks (length c) } in
    tally_calls-calls (tally_all counted c) cs ∙ tally_all-calls counted c

-- The status counts the calls and their forks, and each of its totals is the sum of that counter over
-- all forks of all calls, modulo 2 ^ 64; the two maxima are the greatest of theirs, and the degraded
-- and the paused are counted.
pub status-Adds : (calls : List (List Stats)) → Adds calls (status calls)
unfolding status tally
status-Adds cs =
    let t : Totals = record no_totals { calls = length cs } in
    record {
      calls = tally_calls-calls t cs;
      forks = tally_calls-forks t cs (omega arith) ∙ omega arith;
      degraded =
          adds t cs (λ u. u.degraded_forks) (λ s. if s.degraded then 1 else 0) (λ u s. refl)
            (λ u n. refl) refl;
      paused =
          adds t cs (λ u. u.paused_forks) (λ s. if s.paused then 1 else 0) (λ u s. refl)
            (λ u n. refl) refl;
      media_dropped =
          adds t cs (λ u. u.media_dropped) (λ s. s.media_dropped_bytes) (λ u s. refl) (λ u n. refl)
            refl;
      buffer_dropped =
          adds t cs (λ u. u.buffer_dropped) (λ s. s.buffer_dropped_bytes) (λ u s. refl)
            (λ u n. refl) refl;
      sent = adds t cs (λ u. u.sent) (λ s. s.sent_bytes) (λ u s. refl) (λ u n. refl) refl;
      reconnects =
          adds t cs (λ u. u.reconnects) (λ s. s.reconnects) (λ u s. refl) (λ u n. refl) refl;
      buffered =
          adds t cs (λ u. u.buffered) (λ s. s.buffered_bytes) (λ u s. refl) (λ u n. refl) refl;
      buffered_max =
          keeps_greatest t cs (λ u. u.buffered_max) (λ s. s.buffered_bytes) (λ u s. refl)
            (λ u n. refl) refl;
      playback_played =
          adds t cs (λ u. u.playback_played) (λ s. s.playback_bytes_played) (λ u s. refl)
            (λ u n. refl) refl;
      playback_dropped =
          adds t cs (λ u. u.playback_dropped) (λ s. s.playback_bytes_dropped) (λ u s. refl)
            (λ u n. refl) refl;
      playback_buffered =
          adds t cs (λ u. u.playback_buffered) (λ s. s.playback_buffered_bytes) (λ u s. refl)
            (λ u n. refl) refl;
      playback_buffered_max =
          keeps_greatest t cs (λ u. u.playback_buffered_max) (λ s. s.playback_buffered_bytes)
            (λ u s. refl) (λ u n. refl) refl;
      barge_ins = adds t cs (λ u. u.barge_ins) (λ s. s.barge_ins) (λ u s. refl) (λ u n. refl) refl;
      texts_dropped =
          adds t cs (λ u. u.texts_dropped) (λ s. s.pending_texts_dropped) (λ u s. refl)
            (λ u n. refl) refl;
    }
