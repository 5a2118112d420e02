-- ===== src/Module/Registry.antt =====
-- The registry of module/mod_audio_fork.cpp: the forks of each call, which are known by their number.
pub mod Laws
use mod_audio_fork.Common.{
  ℕ, ◌==◌, Bool, true, false, List, [], ◌∷◌, ◌++◌, if◌then◌else◌, leb, length, Text, same_text,
}
use mod_audio_fork.Config.{is_empty}

abbrev pub Registry : Type 0
Registry = List (Text × List ℕ)

-- `ForksFor`.
unfoldable pub forks_for : (uuid : Text) → Registry → List ℕ
forks_for uuid [] = []
forks_for uuid ((k, forks) ∷ r) = if same_text k uuid then forks else forks_for uuid r

-- `erase(remove(...))`.
unfoldable pub removed : (fork : ℕ) → List ℕ → List ℕ
removed fork [] = []
removed fork (f ∷ fs) = if f == fork then removed fork fs else f ∷ removed fork fs

-- An entry that was changed, or erased when nothing is left of it.
abbrev pub kept : (uuid : Text) → List ℕ → Registry → Registry
kept uuid [] r = r
kept uuid (f ∷ fs) r = (uuid, f ∷ fs) ∷ r

-- `ForgetFork`.
unfoldable pub forget_fork : (uuid : Text) → (fork : ℕ) → Registry → Registry
unfolding removed
forget_fork uuid fork [] = []
forget_fork uuid fork ((k, forks) ∷ r) =
    if same_text k uuid then kept k (removed fork forks) r else (k, forks) ∷ forget_fork uuid fork r

-- `registry[uuid].push_back(fork)`.
unfoldable pub register : (uuid : Text) → (fork : ℕ) → Registry → Registry
register uuid fork [] = (uuid, fork ∷ []) ∷ []
register uuid fork ((k, forks) ∷ r) =
    if same_text k uuid then (k, forks ++ fork ∷ []) ∷ r else (k, forks) ∷ register uuid fork r

-- The guard of `StartFork`: the call has an entry, of so many forks already.
unfoldable pub is_full : (limit : ℕ) → (uuid : Text) → Registry → Bool
is_full limit uuid [] = false
is_full limit uuid ((k, forks) ∷ r) =
    if same_text k uuid then leb limit (length forks) else is_full limit uuid r
