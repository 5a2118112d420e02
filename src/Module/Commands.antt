-- ===== src/Module/Commands.antt =====
-- The commands of module/mod_audio_fork.cpp on the forks of a call: stop, pause, resume, modify and
-- send_text, the digits of a call, the fork that finishes, and the command line.
pub mod Payload
pub mod Keeps
pub mod Limit
use mod_audio_fork.Common.{
  ℕ, zero, suc, ◌/◌, ◌==◌, Bool, true, false, not, ◌||◌, Option, none, some, List, [], ◌∷◌, ◌++◌,
  if◌then◌else◌, Text, codes,
}
use mod_audio_fork.Config.{is_empty}
use mod_audio_fork.Config.Url.{Parsed, parsed, refused}
use mod_audio_fork.Module.Settings.{same_word}
use mod_audio_fork.Module.Registry.{forks_for, forget_fork}
use mod_audio_fork.Module.Start.{
  Effect, ModuleState, log, update, Outcome, parse_endpoint, Answers, start_fork, fork_stopped,
  fork_paused, fork_modified, text_sent, dtmf_sent, bug_removed, hook_removed, success, failed,
}

abbrev pub no_fork : Text
no_fork = codes "no fork running on this channel"

-- Each fork in turn, with the effect that it has.
unfoldable pub each_fork : (ℕ → Effect) → List ℕ → ModuleState → ModuleState
each_fork f [] s = s
each_fork f (fork ∷ forks) s = each_fork f forks (log (f fork) s)

unfoldable pub remove_bug : (uuid : Text) → Option ℕ → ModuleState → ModuleState
remove_bug uuid none s = s
remove_bug uuid (some fork) s =
    log (bug_removed fork) (record s { private_bug = update s.private_bug uuid none })

unfoldable pub remove_hook : (uuid : Text) → ModuleState → ModuleState
remove_hook uuid s =
    if s.hooked uuid
    then log (hook_removed uuid) (record s { hooked = update s.hooked uuid false })
    else s

-- `StopForks`, and the error that its caller sets.
unfoldable pub stop_forks : (uuid : Text) → ModuleState → ModuleState × Outcome
unfolding each_fork remove_bug remove_hook
stop_forks uuid s =
    let forks = forks_for uuid s.registry in
    let stopped = each_fork fork_stopped forks s in
    let s' = remove_hook uuid (remove_bug uuid (stopped.private_bug uuid) stopped) in
    (s', if is_empty forks then failed no_fork else success)

-- `SetForksPaused`.
unfoldable pub set_forks_paused : Bool → (uuid : Text) → ModuleState → ModuleState × Outcome
unfolding each_fork
set_forks_paused paused uuid s =
    let forks = forks_for uuid s.registry in
    if is_empty forks
    then (s, failed no_fork)
    else (each_fork (λ fork. fork_paused fork paused) forks s, success)

-- The forks that are asked one after another, and whether any took it. `takes` is the answer of a
-- fork, given all that was asked before.
unfoldable pub ask_forks :
    (takes : List Effect → ℕ → Bool)
    → (ℕ → Bool → Effect)
    → List ℕ
    → (taken : Bool) → ModuleState
    → ModuleState × Bool
ask_forks takes f [] taken s = (s, taken)
ask_forks takes f (fork ∷ forks) taken s =
    let answer = takes s.trace fork in
    ask_forks takes f forks (answer || taken) (log (f fork answer) s)

unfoldable pub ask_all_forks :
    (List Effect → ℕ → Bool) → (ℕ → Bool → Effect) → List ℕ → ModuleState → ModuleState × Outcome
unfolding ask_forks
ask_all_forks takes f forks s =
    if is_empty forks
    then (s, failed no_fork)
    else let (s', taken) = ask_forks takes f forks false s in
      (s', if taken then success else failed (codes "fork is stopping"))

-- `ModifyForks`.
abbrev pub modify_at :
    (List Effect → ℕ → Bool) → (uuid : Text) → Parsed → ModuleState → ModuleState × Outcome
modify_at takes uuid (refused error) s = (s, failed error)
modify_at takes uuid (parsed endpoint) s =
    ask_all_forks takes (λ fork taken. fork_modified fork endpoint taken)
      (forks_for uuid s.registry) s

unfoldable pub modify_forks :
    (List Effect → ℕ → Bool)
    → (uuid : Text) → (url : Option Text) → ModuleState
    → ModuleState × Outcome
unfolding parse_endpoint ask_all_forks
modify_forks takes uuid url s = modify_at takes uuid (parse_endpoint url) s

-- `SendTextToForks`; `accepts` is what the JSON library takes for JSON.
unfoldable pub send_text_to_forks :
    (accepts : Text → Bool)
    → (List Effect → ℕ → Bool)
    → (uuid payload : Text) → ModuleState
    → ModuleState × Outcome
unfolding ask_all_forks
send_text_to_forks accepts takes uuid payload s =
    if is_empty payload || not (accepts payload)
    then (s, failed (codes "send_text payload must be valid JSON"))
    else ask_all_forks takes (λ fork taken. text_sent fork payload taken)
        (forks_for uuid s.registry) s

-- `OnRecvDtmf`, with the duration in samples of a clock of 8 kHz.
unfoldable pub on_recv_dtmf : (uuid : Text) → (digit duration : ℕ) → ModuleState → ModuleState
unfolding each_fork
on_recv_dtmf uuid digit duration s =
    each_fork (λ fork. dtmf_sent fork digit (duration / 8)) (forks_for uuid s.registry) s

-- The callback of a fork that has finished.
abbrev pub on_finished : (uuid : Text) → (fork : ℕ) → ModuleState → ModuleState
on_finished uuid fork s = record s { registry = forget_fork uuid fork s.registry }

-- The loops of `SendTextPayload`.
unfoldable pub skip_spaces : Text → Text
skip_spaces [] = []
skip_spaces (c ∷ cs) = let rest = skip_spaces cs in if c == b' ' then rest else c ∷ cs

unfoldable pub skip_token : Text → Text
skip_token [] = []
skip_token (c ∷ cs) = let rest = skip_token cs in if c == b' ' then c ∷ cs else rest

unfoldable pub send_text_payload : Text → Text
unfolding skip_spaces skip_token
send_text_payload cmd = skip_spaces (skip_token (skip_spaces (skip_token (skip_spaces cmd))))

abbrev pub nth_arg : ℕ → List Text → Option Text
nth_arg i [] = none
nth_arg zero (a ∷ as') = some a
nth_arg (suc i) (a ∷ as') = nth_arg i as'

-- The subcommands of `uuid_audio_fork_api`, for the arguments behind the call and the subcommand.
unfoldable pub dispatch :
    (accepts : Text → Bool)
    → (List Effect → ℕ → Bool)
    → Answers
    → (uuid subcommand cmd : Text) → List Text
    → ModuleState
    → ModuleState × Outcome
unfolding start_fork stop_forks set_forks_paused modify_forks send_text_to_forks same_word
    send_text_payload
dispatch accepts takes a uuid subcommand cmd args s =
    if same_word subcommand (codes "start")
    then start_fork a uuid (nth_arg 0 args) (nth_arg 1 args) (nth_arg 2 args) (nth_arg 3 args) s
    else if same_word subcommand (codes "stop")
    then stop_forks uuid s
    else if same_word subcommand (codes "modify")
    then modify_forks takes uuid (nth_arg 0 args) s
    else if same_word subcommand (codes "pause")
    then set_forks_paused true uuid s
    else if same_word subcommand (codes "resume")
    then set_forks_paused false uuid s
    else if same_word subcommand (codes "send_text")
    then send_text_to_forks accepts takes uuid (send_text_payload cmd) s
    else (s, failed (codes "unknown subcommand"))

abbrev pub answer : Outcome → Text
answer success = codes "+OK\n"
answer (failed error) =
    codes "-ERR " ++ ((if is_empty error then codes "failed" else error) ++ codes "\n")

-- `uuid_audio_fork_api`: the command cut at its spaces by FreeSWITCH, into six arguments at most, and
-- `locate`, whether there is such a call.
unfoldable pub uuid_audio_fork_api :
    (usage : Text)
    → (locate : Text → Bool) → (accepts : Text → Bool) → (List Effect → ℕ → Bool)
    → Answers
    → (cmd : Text) → (argv : List Text) → ModuleState
    → ModuleState × Text
unfolding dispatch
uuid_audio_fork_api usage locate accepts takes a cmd (uuid ∷ subcommand ∷ args) s =
    if is_empty cmd
    then (s, usage)
    else if not (locate uuid)
    then (s, codes "-ERR no such channel " ++ (uuid ++ codes "\n"))
    else let (s', outcome) = dispatch accepts takes a uuid subcommand cmd args s in
      (s', answer outcome)
uuid_audio_fork_api usage locate accepts takes a cmd argv s = (s, usage)
