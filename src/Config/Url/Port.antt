-- ===== src/Config/Url/Port.antt =====
-- `ParsePort` of core/src/config.cpp takes exactly the decimals of ports.
use mod_audio_fork.Common.{
  ℕ, suc, ◌+◌, ◌-◌, ◌*◌, ◌%◌, ◌^◌, ◌≤◌, ◌<◌, ◌==◌, ◌≡◌, sym, ap, ◌∙◌, ◌↔◌, false, ◌||◌, Bool-cases,
  Option-cases, inl, inr, Option, none, some, [], ◌∷◌, if◌then◌else◌, ltb, length, Text, arith,
}
use mod_audio_fork.Config.Url.{port_digits, parse_port}

-- The number that a decimal stands for: each digit has the weight of its place.
abbrev pub weight : Text → ℕ
weight [] = 1
weight (d ∷ ds) = 10 * weight ds

abbrev pub decimal : Text → ℕ
decimal [] = 0
decimal (d ∷ ds) = (d - b'0') * weight ds + decimal ds

abbrev pub Digits : Text → Type 0
Digits [] = Unit
Digits (d ∷ ds) = ((b'0' ≤ d) × (d ≤ b'9')) × Digits ds

-- At most five digits that stand for a number from 1 to 65535.
pub record IsPort (t : Text) (port : ℕ) : Type 0 where
  pub digits : Digits t
  pub short : length t ≤ 5
  pub value : port ≡ decimal t
  pub bounds : (1 ≤ port) × (port ≤ 65535)

weight_pos : (t : Text) → 1 ≤ weight t
weight_pos [] = omega arith
weight_pos (d ∷ ds) = omega (arith, weight_pos ds)

next_value : (v d w r : ℕ) → (v * 10 + d) * w + r ≡ v * (10 * w) + (d * w + r)
next_value v d w r = grind arith

next_below : (v d w m : ℕ) → d ≤ 9 → suc v * (10 * w) ≤ m → suc (v * 10 + d) * w ≤ m
next_below v d w m h k = grind arith

below : (v w m : ℕ) → 1 ≤ w → suc v * w ≤ m → v < m
below v w m h k = grind arith

is_digit : (d : ℕ) → b'0' ≤ d → d ≤ b'9' → (ltb d b'0' || ltb b'9' d) ≡ false
is_digit d h k = ground arith

digit_bounds : (d : ℕ) → (ltb d b'0' || ltb b'9' d) ≡ false → (b'0' ≤ d) × (d ≤ b'9')
digit_bounds d h = ground arith

-- The loop computes the decimal; nothing wraps while the number to come is below the modulus.
port_digits-decimal :
    (v : ℕ) (t : Text)
    → Digits t
    → suc v * weight t ≤ 2 ^ 32
    → port_digits v t ≡ some (v * weight t + decimal t)
unfolding port_digits
port_digits-decimal v [] h l = ap some (omega arith)
port_digits-decimal v (d ∷ ds) h l =
    let next = v * 10 + (d - b'0') in
    let small : suc next * weight ds ≤ 2 ^ 32 =
      next_below v (d - b'0') (weight ds) (2 ^ 32) (omega (arith, h.0.0, h.0.1)) l in
    let whole : next % 2 ^ 32 ≡ next =
      omega (arith, below next (weight ds) (2 ^ 32) (weight_pos ds) small) in
    let digit : (ltb d b'0' || ltb b'9' d) ≡ false = is_digit d h.0.0 h.0.1 in
    rw (digit, whole)
      (port_digits-decimal next ds h.1 small
        ∙ ap some (next_value v (d - b'0') (weight ds) (decimal ds)))

port_digits-Digits : (v : ℕ) (t : Text) {n : ℕ} → port_digits v t ≡ some n → Digits t
unfolding port_digits
port_digits-Digits v [] e = tt
port_digits-Digits v (d ∷ ds) e = elim (Bool-cases (ltb d b'0' || ltb b'9' d)) [
  | inl bad ↦ cc (rw bad at e)
  | inr good ↦
      (digit_bounds d good, port_digits-Digits ((v * 10 + (d - b'0')) % 2 ^ 32) ds (rw good at e))
]

weight-le : (t : Text) → length t ≤ 5 → weight t ≤ 100000
weight-le [] h = omega arith
weight-le (a ∷ []) h = omega arith
weight-le (a ∷ b ∷ []) h = omega arith
weight-le (a ∷ b ∷ c ∷ []) h = omega arith
weight-le (a ∷ b ∷ c ∷ d ∷ []) h = omega arith
weight-le (a ∷ b ∷ c ∷ d ∷ e ∷ []) h = omega arith
weight-le (a ∷ b ∷ c ∷ d ∷ e ∷ f ∷ t) h = absurd (omega arith)

digits_value : (t : Text) → Digits t → length t ≤ 5 → port_digits 0 t ≡ some (decimal t)
digits_value t h l =
    port_digits-decimal 0 t h (omega (arith, weight-le t l)) ∙ ap some (omega arith)

some-injective : {m n : ℕ} → some m ≡ some n → m ≡ n
some-injective e = cc

abbrev accepted : ℕ → Option ℕ
accepted value = if value == 0 || ltb 65535 value then none else some value

bounded : (n port : ℕ) → accepted n ≡ some port → (port ≡ n) × (1 ≤ port) × (port ≤ 65535)
bounded n port e = ground arith

in_range : (port : ℕ) → 1 ≤ port → port ≤ 65535 → accepted port ≡ some port
in_range port l h = ground arith

parse_port-IsPort : (t : Text) (port : ℕ) → parse_port t ≡ some port → IsPort t port
unfolding parse_port
parse_port-IsPort [] port e = cc
parse_port-IsPort (d ∷ ds) port e = elim (Bool-cases (ltb 5 (length (d ∷ ds)))) [
  | inl long ↦ cc (rw long at e)
  | inr short ↦
      let l : length (d ∷ ds) ≤ 5 = ground arith in
      elim (Option-cases (port_digits 0 (d ∷ ds))) [
        | inl bad ↦ cc (rw (short, bad) at e)
        | inr (n, good) ↦
            let digits = port_digits-Digits 0 (d ∷ ds) good in
            let n_is : n ≡ decimal (d ∷ ds) =
              some-injective (sym good ∙ digits_value (d ∷ ds) digits l) in
            let b = bounded n port (rw (short, good) at e) in
            record { digits = digits; short = l; value = b.0 ∙ n_is; bounds = (b.1, b.2) }
      ]
]

IsPort-parse_port : (t : Text) (port : ℕ) → IsPort t port → parse_port t ≡ some port
unfolding parse_port
IsPort-parse_port [] port v = absurd (omega (arith, v.value, v.bounds))
IsPort-parse_port (d ∷ ds) port v =
    let l = v.short in
    let short : ltb 5 (length (d ∷ ds)) ≡ false = ground arith in
    let e = v.value in
    let (low, high) = v.bounds in
    rw (short, digits_value (d ∷ ds) v.digits v.short, ← e) (in_range port low high)

-- `ParsePort` returns a port exactly for its decimals: at most five digits, leading zeros or not, that
-- stand for it, from 1 to 65535.
pub parse_port_iff : (t : Text) (port : ℕ) → (parse_port t ≡ some port) ↔ IsPort t port
parse_port_iff t port = (parse_port-IsPort t port, IsPort-parse_port t port)
