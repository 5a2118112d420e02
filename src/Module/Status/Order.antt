-- ===== src/Module/Status/Order.antt =====
-- The counters of `audio_fork_status_api` of module/mod_audio_fork.cpp do not depend on the order in
-- which a hash map yields its entries.
use mathlib.Core.List.{Permᴰ}
use mod_audio_fork.Common.{
  ℕ, suc, max, ◌≡◌, refl, sym, ap, ap₂, ◌∙◌, List, [], ◌∷◌, length, add64, arith,
}
use mod_audio_fork.ForkSession.Stats.{Stats}
use mod_audio_fork.Module.Status.{
  Totals, no_totals, one_if, tally, tally_all, tally_call, tally_calls, status,
}

add_swap : (t a b : ℕ) → add64 (add64 t a) b ≡ add64 (add64 t b) a
add_swap t a b = omega arith

max_swap : (t a b : ℕ) → max (max t a) b ≡ max (max t b) a
max_swap t a b = omega arith

tally-tally : (t : Totals) (a b : Stats) → tally (tally t a) b ≡ tally (tally t b) a
unfolding tally
tally-tally t a b = λ i. record {
  calls = t.calls;
  forks = t.forks;
  degraded_forks = add_swap t.degraded_forks (one_if a.degraded) (one_if b.degraded) i;
  paused_forks = add_swap t.paused_forks (one_if a.paused) (one_if b.paused) i;
  media_dropped = add_swap t.media_dropped a.media_dropped_bytes b.media_dropped_bytes i;
  buffer_dropped = add_swap t.buffer_dropped a.buffer_dropped_bytes b.buffer_dropped_bytes i;
  sent = add_swap t.sent a.sent_bytes b.sent_bytes i;
  reconnects = add_swap t.reconnects a.reconnects b.reconnects i;
  buffered = add_swap t.buffered a.buffered_bytes b.buffered_bytes i;
  buffered_max = max_swap t.buffered_max a.buffered_bytes b.buffered_bytes i;
  playback_played = add_swap t.playback_played a.playback_bytes_played b.playback_bytes_played i;
  playback_dropped =
      add_swap t.playback_dropped a.playback_bytes_dropped b.playback_bytes_dropped i;
  playback_buffered =
      add_swap t.playback_buffered a.playback_buffered_bytes b.playback_buffered_bytes i;
  playback_buffered_max =
      max_swap t.playback_buffered_max a.playback_buffered_bytes b.playback_buffered_bytes i;
  barge_ins = add_swap t.barge_ins a.barge_ins b.barge_ins i;
  texts_dropped = add_swap t.texts_dropped a.pending_texts_dropped b.pending_texts_dropped i;
}

tally_all-tally :
    (t : Totals) (s : Stats) (ss : List Stats) → tally_all (tally t s) ss ≡ tally (tally_all t ss) s
unfolding tally_all
tally_all-tally t s [] = refl
tally_all-tally t s (r ∷ rs) =
    ap (λ u. tally_all u rs) (tally-tally t s r) ∙ tally_all-tally (tally t r) s rs

tally_all-tally_all :
    (t : Totals) (as' bs : List Stats)
    → tally_all (tally_all t as') bs ≡ tally_all (tally_all t bs) as'
unfolding tally_all
tally_all-tally_all t [] bs = refl
tally_all-tally_all t (a ∷ as') bs =
    tally_all-tally_all (tally t a) as' bs ∙ ap (λ u. tally_all u as') (tally_all-tally t a bs)

abbrev add_forks : ℕ → Totals → Totals
add_forks n t = record t { forks = add64 t.forks n }

add_forks-tally_all :
    (n : ℕ) (t : Totals) (ss : List Stats)
    → add_forks n (tally_all t ss) ≡ tally_all (add_forks n t) ss
unfolding tally_all tally
add_forks-tally_all n t [] = refl
add_forks-tally_all n t (s ∷ ss) = add_forks-tally_all n (tally t s) ss

add_forks-add_forks :
    (m n : ℕ) (t : Totals) → add_forks n (add_forks m t) ≡ add_forks m (add_forks n t)
add_forks-add_forks m n t = λ i. record t { forks = add_swap t.forks m n i }

tally_call-tally_call :
    (t : Totals) (c d : List Stats) → tally_call (tally_call t c) d ≡ tally_call (tally_call t d) c
unfolding tally_call
tally_call-tally_call t c d =
    let m = length c in
    let n = length d in
    ap (λ u. tally_all u d) (add_forks-tally_all n (add_forks m t) c)
    ∙ tally_all-tally_all (add_forks n (add_forks m t)) c d
    ∙ ap (λ u. tally_all (tally_all u d) c) (add_forks-add_forks m n t)
    ∙ sym (ap (λ u. tally_all u c) (add_forks-tally_all m (add_forks n t) d))

tally_calls-perm :
    {cs ds : List (List Stats)} → Permᴰ cs ds → (t : Totals) → tally_calls t cs ≡ tally_calls t ds
unfolding tally_calls
tally_calls-perm Permᴰ.nil t = refl
tally_calls-perm (Permᴰ.cons {a = c} {l₁ = cs} {l₂ = ds} e p) t =
    tally_calls-perm p (tally_call t c) ∙ ap (λ x. tally_calls (tally_call t x) ds) e
tally_calls-perm (Permᴰ.swap {a = c} {b = d} {l = l} e f) t =
    ap (λ u. tally_calls u l) (tally_call-tally_call t c d)
    ∙ ap₂ (λ x y. tally_calls (tally_call (tally_call t x) y) l) f e
tally_calls-perm (Permᴰ.trans p q) t = tally_calls-perm p t ∙ tally_calls-perm q t

length-perm : {cs ds : List (List Stats)} → Permᴰ cs ds → length cs ≡ length ds
length-perm Permᴰ.nil = refl
length-perm (Permᴰ.cons e p) = ap suc (length-perm p)
length-perm (Permᴰ.swap e f) = refl
length-perm (Permᴰ.trans p q) = length-perm p ∙ length-perm q

-- The status is the same in whatever order the calls come.
pub status-perm : {cs ds : List (List Stats)} → Permᴰ cs ds → status cs ≡ status ds
unfolding status
status-perm {cs} {ds} p =
    ap (λ n. tally_calls (record no_totals { calls = n }) cs) (length-perm p)
    ∙ tally_calls-perm p (record no_totals { calls = length ds })
