-- ===== src/Common/Word.antt =====
-- `std::size_t` and `std::uint64_t` arithmetic, with the wrap-around written out, and `std::string`.
use Prim.Native.Char.{code}
use Prim.Native.String.{String}
use Prim.Native.Nat.{ℕ, ◌+◌, ◌-◌, ◌%◌, ◌^◌, ◌≤◌, ◌<◌}
use mathlib.Core.Path.{◌≡◌}
use mathlib.Core.Bool.{Bool, true, false, ◌&&◌}
use mathlib.Core.List.{List, [], ◌∷◌}
use mod_audio_fork.Common.Tests.{◌==◌}
use native.Mathlib.Omega.{arith}

abbrev pub add64 : ℕ → ℕ → ℕ
add64 a b = (a + b) % 2 ^ 64

-- `-` on ℕ stops at 0, so the modulus is added first.
abbrev pub sub64 : ℕ → ℕ → ℕ
sub64 a b = (a + 2 ^ 64 - b) % 2 ^ 64

-- A sum and a difference that stay in range do not wrap.
pub add64_of_lt : (a b : ℕ) → a + b < 2 ^ 64 → add64 a b ≡ a + b
add64_of_lt a b h = omega arith

pub sub64_of_le : (a b : ℕ) → b ≤ a → a < 2 ^ 64 → sub64 a b ≡ a - b
sub64_of_le a b h l = omega arith

-- `std::string`: its bytes.
abbrev pub Text : Type 0
Text = List ℕ

-- The bytes of a literal; `==` on texts.
abbrev pub codes : String → Text
codes String.[] = []
codes (String.◌∷◌ c s) = code c ∷ codes s

abbrev pub same_text : Text → Text → Bool
same_text [] [] = true
same_text (x ∷ xs) (y ∷ ys) = (x == y) && same_text xs ys
same_text _ _ = false
