-- ===== src/Module/Commands/Limit.antt =====
-- The commands of module/mod_audio_fork.cpp, one after another, keep the limit of forks per call.
use mod_audio_fork.Common.{
  ℕ, ◌/◌, ◌≤◌, ◌<◌, ◌≡◌, refl, sym, ap, subst, ◌∙◌, Bool, true, false, List, [], ◌∷◌, ◌++◌,
  if◌then◌else◌, if_ind, length, length-append, Text, codes, same_text, arith,
}
use mod_audio_fork.Module.Settings.{same_word}
use mod_audio_fork.Module.Registry.{Registry, forks_for, register, is_full}
use mod_audio_fork.Module.Registry.Laws.{
  IsMap, forks_for-register, register-IsMap, forget_fork-IsMap, forget_fork-le, is_full-forks_for,
  same_text-eq,
}
use mod_audio_fork.Module.Start.{Effect, dtmf_sent, ModuleState, Outcome, success, failed, Answers}
use mod_audio_fork.Module.Start.Outcomes.{running, AllBelow, IsFresh, Settles, start_fork-Settles}
use mod_audio_fork.Module.Commands.{on_recv_dtmf, on_finished, send_text_payload, nth_arg, dispatch}
use mod_audio_fork.Module.Commands.Keeps.{
  Keeps, each_fork-Keeps, stop_forks-Keeps, set_forks_paused-Keeps, modify_forks-Keeps,
  send_text_to_forks-Keeps,
}

-- No call has more forks than the limit, and the state of the registry and the numbers is sound.
pub record IsLimited (limit : ℕ) (s : ModuleState) : Type 0 where
  pub set : s.config.max_forks_per_call ≡ limit
  pub map : IsMap s.registry
  pub fresh : IsFresh s
  pub limited : (uuid : Text) → length (forks_for uuid s.registry) ≤ limit

IsLimited-Keeps :
    {limit : ℕ} {s s' : ModuleState} → Keeps s s' → IsLimited limit s → IsLimited limit s'
IsLimited-Keeps {limit} k v = record {
  set = ap (λ c. c.max_forks_per_call) k.config ∙ v.set;
  map = subst IsMap (sym k.registry) v.map;
  fresh = k.fresh v.fresh;
  limited =
      λ uuid. subst (λ r. length (forks_for uuid r) ≤ limit) (sym k.registry) (v.limited uuid);
}

le_trans : {a b c : ℕ} → a ≤ b → b ≤ c → a ≤ c
le_trans h k = omega arith

AllBelow-mono : (m n : ℕ) (fs : List ℕ) → m ≤ n → AllBelow m fs → AllBelow n fs
AllBelow-mono m n [] l h = tt
AllBelow-mono m n (f ∷ fs) l h = (omega (arith, h.0), AllBelow-mono m n fs l h.1)

registered-le :
    (limit : ℕ) (j uuid : Text) (fork : ℕ) (r : Registry)
    → length (forks_for uuid r) < limit
    → length (forks_for j r) ≤ limit
    → length (forks_for j (register uuid fork r)) ≤ limit
registered-le limit j uuid fork r room h =
    subst (λ (fs : List ℕ). length fs ≤ limit) (sym (forks_for-register j uuid fork r))
      (if_ind' (same_text uuid j) (λ same. omega (
        arith,
        room,
        length-append (forks_for j r) (fork ∷ []),
        ap (λ t. length (forks_for t r)) (same_text-eq uuid j same),
      )))
  where
    if_ind' :
        (b : Bool)
        → (b ≡ true → length (forks_for j r ++ fork ∷ []) ≤ limit)
        → length (if b then forks_for j r ++ fork ∷ [] else forks_for j r) ≤ limit
    if_ind' true f = f refl
    if_ind' false f = h

start_fork-IsLimited :
    {limit : ℕ} (uuid : Text) (s : ModuleState) (r : ModuleState × Outcome)
    → 1 ≤ limit
    → Settles uuid s r
    → IsLimited limit s
    → IsLimited limit r.0
start_fork-IsLimited {limit} uuid s (s', success) l t v =
    let room : length (forks_for uuid s.registry) < limit =
      is_full-forks_for limit uuid s.registry
        (ap (λ n. is_full n uuid s.registry) (sym v.set) ∙ t.room) l in
    record {
      set = ap (λ c. c.max_forks_per_call) t.config ∙ v.set;
      map = subst IsMap (sym t.registry) (register-IsMap uuid s.next s.registry v.map);
      fresh = subst (AllBelow s'.next) (sym t.forks) (
        omega (arith, t.next),
        AllBelow-mono s.next s'.next (running s.trace) (omega (arith, t.next)) v.fresh,
      );
      limited = λ j.
          subst (λ r. length (forks_for j r) ≤ limit) (sym t.registry)
            (registered-le limit j uuid s.next s.registry room (v.limited j));
    }
start_fork-IsLimited {limit} uuid s (s', failed error) l t v = record {
  set = ap (λ c. c.max_forks_per_call) t.config ∙ v.set;
  map = subst IsMap (sym t.registry) v.map;
  fresh =
      subst (AllBelow s'.next) (sym t.forks)
        (AllBelow-mono s.next s'.next (running s.trace) t.next v.fresh);
  limited = λ j. subst (λ r. length (forks_for j r) ≤ limit) (sym t.registry) (v.limited j);
}

-- What happens to the module: a command, a digit of a call, a fork that has finished.
pub data Move : Type 0 where
  commanded : Answers → (uuid subcommand cmd : Text) (args : List Text) → Move
  pressed : (uuid : Text) (digit duration : ℕ) → Move
  finished : (uuid : Text) (fork : ℕ) → Move

module _ (accepts : Text → Bool) (takes : List Effect → ℕ → Bool) where
  unfoldable pub move : Move → ModuleState → ModuleState
  unfolding dispatch on_recv_dtmf
  move (commanded a uuid subcommand cmd args) s =
      (dispatch accepts takes a uuid subcommand cmd args s).0
  move (pressed uuid digit duration) s = on_recv_dtmf uuid digit duration s
  move (finished uuid fork) s = on_finished uuid fork s

  unfoldable pub moves : List Move → ModuleState → ModuleState
  unfolding move
  moves [] s = s
  moves (m ∷ ms) s = moves ms (move m s)

  dispatch-IsLimited :
      {limit : ℕ} (a : Answers) (uuid subcommand cmd : Text) (args : List Text) (s : ModuleState)
      → 1 ≤ limit
      → IsLimited limit s
      → IsLimited limit (dispatch accepts takes a uuid subcommand cmd args s).0
  unfolding dispatch
  dispatch-IsLimited {limit} a uuid subcommand cmd args s l v =
      if_ind Fine (same_word subcommand (codes "start"))
        (λ _.
          start_fork-IsLimited uuid s _ l
            (start_fork-Settles a uuid (nth_arg 0 args) (nth_arg 1 args) (nth_arg 2 args)
              (nth_arg 3 args) s v.fresh)
            v)
        (λ _.
          if_ind Fine (same_word subcommand (codes "stop"))
            (λ _. IsLimited-Keeps (stop_forks-Keeps uuid s) v)
            (λ _.
              if_ind Fine (same_word subcommand (codes "modify"))
                (λ _. IsLimited-Keeps (modify_forks-Keeps takes uuid (nth_arg 0 args) s) v)
                (λ _.
                  if_ind Fine (same_word subcommand (codes "pause"))
                    (λ _. IsLimited-Keeps (set_forks_paused-Keeps true uuid s) v)
                    (λ _.
                      if_ind Fine (same_word subcommand (codes "resume"))
                        (λ _. IsLimited-Keeps (set_forks_paused-Keeps false uuid s) v)
                        (λ _.
                          if_ind Fine (same_word subcommand (codes "send_text"))
                            (λ _.
                              IsLimited-Keeps
                                (send_text_to_forks-Keeps accepts takes uuid (send_text_payload cmd)
                                  s)
                                v)
                            (λ _. v))))))
    where
      Fine : ModuleState × Outcome → Type 0
      Fine r = IsLimited limit r.0

  move-IsLimited :
      {limit : ℕ} (m : Move) (s : ModuleState)
      → 1 ≤ limit
      → IsLimited limit s
      → IsLimited limit (move m s)
  unfolding move on_recv_dtmf
  move-IsLimited (commanded a uuid subcommand cmd args) s l v =
      dispatch-IsLimited a uuid subcommand cmd args s l v
  move-IsLimited (pressed uuid digit duration) s l v =
      IsLimited-Keeps
        (each_fork-Keeps (λ fork. dtmf_sent fork digit (duration / 8)) (forks_for uuid s.registry) s
          (λ n fork es h. h))
        v
  move-IsLimited {limit} (finished uuid fork) s l v = record {
    set = v.set;
    map = forget_fork-IsMap uuid fork s.registry v.map;
    fresh = v.fresh;
    limited = λ j. le_trans (forget_fork-le j uuid fork s.registry v.map) (v.limited j);
  }

  -- Over any commands, digits and forks that finish, one after another, no call ever has more forks
  -- than `max_forks_per_call`, if that is at least one; the registry has one entry for a call with
  -- forks and none for another.
  pub moves-IsLimited :
      {limit : ℕ} (ms : List Move) (s : ModuleState)
      → 1 ≤ limit
      → IsLimited limit s
      → IsLimited limit (moves ms s)
  unfolding moves
  moves-IsLimited [] s l v = v
  moves-IsLimited (m ∷ ms) s l v = moves-IsLimited ms (move m s) l (move-IsLimited m s l v)
