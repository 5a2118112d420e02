-- ===== src/Module/Commands/Keeps.antt =====
-- The commands of module/mod_audio_fork.cpp that start no fork keep the registry.
use mod_audio_fork.Common.{
  ℕ, ◌==◌, ◌≡◌, refl, ◌∙◌, Bool, false, not, ◌||◌, Option, none, some, List, [], ◌∷◌, if_ind, Text,
}
use mod_audio_fork.Config.{is_empty}
use mod_audio_fork.Config.Url.{Parsed, parsed, refused}
use mod_audio_fork.Module.Registry.{forks_for, removed}
use mod_audio_fork.Module.Start.{
  Effect, fork_stopped, fork_paused, fork_modified, text_sent, ModuleState, log, Outcome,
  parse_endpoint,
}
use mod_audio_fork.Module.Start.Outcomes.{running, AllBelow, IsFresh}
use mod_audio_fork.Module.Commands.{
  each_fork, remove_bug, remove_hook, stop_forks, set_forks_paused, ask_forks, ask_all_forks,
  modify_at, modify_forks, send_text_to_forks,
}

-- The registry, the configuration and the numbers are as they were; no fork was started.
pub record Keeps (s s' : ModuleState) : Type 0 where
  pub config : s'.config ≡ s.config
  pub registry : s'.registry ≡ s.registry
  pub fresh : IsFresh s → IsFresh s'

keep : (s : ModuleState) → Keeps s s
keep s = record { config = refl; registry = refl; fresh = λ h. h }

keep_on : {s t u : ModuleState} → Keeps s t → Keeps t u → Keeps s u
keep_on k l = record {
  config = l.config ∙ k.config;
  registry = l.registry ∙ k.registry;
  fresh = λ h. l.fresh (k.fresh h);
}

removed-AllBelow : (n f : ℕ) (fs : List ℕ) → AllBelow n fs → AllBelow n (removed f fs)
unfolding removed
removed-AllBelow n f [] h = tt
removed-AllBelow n f (g ∷ fs) h =
    if_ind (AllBelow n) (g == f) (λ _. removed-AllBelow n f fs h.1)
      (λ _. (h.0, removed-AllBelow n f fs h.1))

-- An effect on forks that starts none.
abbrev pub StartsNone : (ℕ → Effect) → Type 0
StartsNone f =
    (n fork : ℕ) (es : List Effect) → AllBelow n (running es) → AllBelow n (running (f fork ∷ es))

pub each_fork-Keeps :
    (f : ℕ → Effect) (forks : List ℕ) (s : ModuleState)
    → StartsNone f
    → Keeps s (each_fork f forks s)
unfolding each_fork
each_fork-Keeps f [] s q = keep s
each_fork-Keeps f (fork ∷ forks) s q =
    keep_on (record { config = refl; registry = refl; fresh = λ h. q s.next fork s.trace h })
      (each_fork-Keeps f forks (log (f fork) s) q)

remove_bug-Keeps : (uuid : Text) (o : Option ℕ) (s : ModuleState) → Keeps s (remove_bug uuid o s)
unfolding remove_bug
remove_bug-Keeps uuid none s = keep s
remove_bug-Keeps uuid (some fork) s = record { config = refl; registry = refl; fresh = λ h. h }

remove_hook-Keeps : (uuid : Text) (s : ModuleState) → Keeps s (remove_hook uuid s)
unfolding remove_hook
remove_hook-Keeps uuid s =
    if_ind (Keeps s) (s.hooked uuid)
      (λ _. record { config = refl; registry = refl; fresh = λ h. h }) (λ _. keep s)

abbrev pub KeepsAt : ModuleState → ModuleState × Outcome → Type 0
KeepsAt s r = Keeps s r.0

pub stop_forks-Keeps : (uuid : Text) (s : ModuleState) → KeepsAt s (stop_forks uuid s)
unfolding stop_forks
stop_forks-Keeps uuid s =
    let forks = forks_for uuid s.registry in
    let stopped = each_fork fork_stopped forks s in
    keep_on
      (each_fork-Keeps fork_stopped forks s (λ n fork es h. removed-AllBelow n fork (running es) h))
      (keep_on (remove_bug-Keeps uuid (stopped.private_bug uuid) stopped)
        (remove_hook-Keeps uuid (remove_bug uuid (stopped.private_bug uuid) stopped)))

pub set_forks_paused-Keeps :
    (paused : Bool) (uuid : Text) (s : ModuleState) → KeepsAt s (set_forks_paused paused uuid s)
unfolding set_forks_paused
set_forks_paused-Keeps paused uuid s =
    if_ind (KeepsAt s) (is_empty (forks_for uuid s.registry)) (λ _. keep s)
      (λ _.
        each_fork-Keeps (λ fork. fork_paused fork paused) (forks_for uuid s.registry) s
          (λ n fork es h. h))

ask_forks-Keeps :
    (takes : List Effect → ℕ → Bool) (f : ℕ → Bool → Effect) (forks : List ℕ) (taken : Bool)
    (s : ModuleState)
    → ((b : Bool) → StartsNone (λ fork. f fork b))
    → Keeps s (ask_forks takes f forks taken s).0
unfolding ask_forks
ask_forks-Keeps takes f [] taken s q = keep s
ask_forks-Keeps takes f (fork ∷ forks) taken s q =
    let answer = takes s.trace fork in
    keep_on (record { config = refl; registry = refl; fresh = λ h. q answer s.next fork s.trace h })
      (ask_forks-Keeps takes f forks (answer || taken) (log (f fork answer) s) q)

ask_all_forks-Keeps :
    (takes : List Effect → ℕ → Bool) (f : ℕ → Bool → Effect) (forks : List ℕ) (s : ModuleState)
    → ((b : Bool) → StartsNone (λ fork. f fork b))
    → KeepsAt s (ask_all_forks takes f forks s)
unfolding ask_all_forks
ask_all_forks-Keeps takes f forks s q =
    if_ind (KeepsAt s) (is_empty forks) (λ _. keep s) (λ _. ask_forks-Keeps takes f forks false s q)

modify_at-Keeps :
    (takes : List Effect → ℕ → Bool) (uuid : Text) (url : Parsed) (s : ModuleState)
    → KeepsAt s (modify_at takes uuid url s)
modify_at-Keeps takes uuid (refused error) s = keep s
modify_at-Keeps takes uuid (parsed endpoint) s =
    ask_all_forks-Keeps takes (λ fork taken. fork_modified fork endpoint taken)
      (forks_for uuid s.registry) s (λ b n fork es h. h)

pub modify_forks-Keeps :
    (takes : List Effect → ℕ → Bool) (uuid : Text) (url : Option Text) (s : ModuleState)
    → KeepsAt s (modify_forks takes uuid url s)
unfolding modify_forks
modify_forks-Keeps takes uuid url s = modify_at-Keeps takes uuid (parse_endpoint url) s

pub send_text_to_forks-Keeps :
    (accepts : Text → Bool) (takes : List Effect → ℕ → Bool) (uuid payload : Text) (s : ModuleState)
    → KeepsAt s (send_text_to_forks accepts takes uuid payload s)
unfolding send_text_to_forks
send_text_to_forks-Keeps accepts takes uuid payload s =
    if_ind (KeepsAt s) (is_empty payload || not (accepts payload)) (λ _. keep s)
      (λ _.
        ask_all_forks-Keeps takes (λ fork taken. text_sent fork payload taken)
          (forks_for uuid s.registry) s (λ b n fork es h. h))
