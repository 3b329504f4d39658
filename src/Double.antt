-- ===== src/Double.antt =====
-- All that the code does with a `float64`, over an abstract type of numbers, and with an `int64`.
-- An `int64` is its bit pattern, a number below 2 ^ 64 in two's complement.

use portfolio_dashboard.Prelude.{ℕ, ◌+◌, ◌%◌, ◌^◌, Bool, ◌&&◌, ◌||◌, not, ltb}

abbrev pub Int64 : Type 0
Int64 = ℕ

-- `+` on `int64`, which wraps around.
abbrev pub add64 : Int64 → Int64 → Int64
add64 a b = (a + b) % 2 ^ 64

-- `a > 0` on `int64`.
abbrev pub is_positive64 : Int64 → Bool
is_positive64 a = ltb 0 a && ltb a (2 ^ 63)

pub record Double (F : Type 0) : Type 0 where
  -- the constant m · 10 ^ -k
  pub literal : ℕ → ℕ → F
  pub add : F → F → F
  pub sub : F → F → F
  pub mul : F → F → F
  pub div : F → F → F
  pub neg : F → F
  pub lt : F → F → Bool
  pub eq : F → F → Bool
  -- math.Round, math.IsNaN, and math.IsInf with sign 0
  pub round_away : F → F
  pub is_nan : F → Bool
  pub is_inf : F → Bool
  -- the conversions `int64(x)` and `float64(n)`
  pub to_int64 : F → Int64
  pub of_int64 : Int64 → F

module _ {F : Type 0} ⦃d : Double F⦄ where
  open d use {literal, mul, div, lt, eq, round_away, to_int64, of_int64}

  abbrev pub nought : F
  nought = literal 0 0

  -- `a <= b`, which is false beside a NaN as `<` and `==` are.
  abbrev pub le : F → F → Bool
  le a b = lt a b || eq a b

  abbrev pub is_pos : F → Bool
  is_pos a = lt nought a

  abbrev pub is_neg : F → Bool
  is_neg a = lt a nought

  abbrev pub is_nonzero : F → Bool
  is_nonzero a = not (eq a nought)

  -- `AmountCents` of domain/dividend.go
  unfoldable pub amount_cents : F → Int64
  amount_cents amount = to_int64 (round_away (mul amount (literal 100 0)))

  -- `CentsToMoney`
  unfoldable pub cents_to_money : Int64 → F
  cents_to_money cents = div (of_int64 cents) (literal 100 0)

  -- `RoundCents`
  unfoldable pub round_cents : F → F
  unfolding amount_cents cents_to_money
  round_cents amount = cents_to_money (amount_cents amount)

  -- `round` of services/history.go
  unfoldable pub round : F → F
  round v = div (round_away (mul v (literal 100 0))) (literal 100 0)
