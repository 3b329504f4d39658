-- ===== src/Examples/Whole.antt =====
-- Whole numbers in place of `float64`: the sign laws can be met.
use portfolio_dashboard.Prelude.{
  ℕ, suc, ◌+◌, ◌-◌, ◌*◌, ◌/◌, ◌%◌, ◌^◌, ◌≡◌, Bool, true, false, arith, ltb, leb, nat_beq,
  if◌then◌else◌, ◌&&◌,
}
use portfolio_dashboard.Double.{Double, Int64}
use portfolio_dashboard.DoubleLaws.{IsSigned}

-- `negsuc n` is -(n + 1).
pub data ℤ : Type 0 where
  pos : ℕ → ℤ
  negsuc : ℕ → ℤ

abbrev pos_part : ℤ → ℕ
pos_part (pos n) = n
pos_part (negsuc n) = 0

abbrev neg_part : ℤ → ℕ
neg_part (pos n) = 0
neg_part (negsuc n) = suc n

abbrev sub_ℕ : ℕ → ℕ → ℤ
sub_ℕ a b = if leb b a then pos (a - b) else negsuc (b - a - 1)

abbrev add_ℤ : ℤ → ℤ → ℤ
add_ℤ a b = sub_ℕ (pos_part a + pos_part b) (neg_part a + neg_part b)

abbrev neg_ℤ : ℤ → ℤ
neg_ℤ a = sub_ℕ (neg_part a) (pos_part a)

abbrev diff_ℤ : ℤ → ℤ → ℤ
diff_ℤ a b = sub_ℕ (pos_part a + neg_part b) (neg_part a + pos_part b)

abbrev mul_ℤ : ℤ → ℤ → ℤ
mul_ℤ a b =
    sub_ℕ (pos_part a * pos_part b + neg_part a * neg_part b)
      (pos_part a * neg_part b + neg_part a * pos_part b)

-- Towards zero.
abbrev div_ℤ : ℤ → ℤ → ℤ
div_ℤ a b =
    sub_ℕ (pos_part a / pos_part b + neg_part a / neg_part b)
      (pos_part a / neg_part b + neg_part a / pos_part b)

abbrev lt_ℤ : ℤ → ℤ → Bool
lt_ℤ a b = ltb (pos_part a + neg_part b) (pos_part b + neg_part a)

abbrev eq_ℤ : ℤ → ℤ → Bool
eq_ℤ a b = nat_beq (pos_part a) (pos_part b) && nat_beq (neg_part a) (neg_part b)

abbrev to_int64_ℤ : ℤ → Int64
to_int64_ℤ (pos n) = n % 2 ^ 64
to_int64_ℤ (negsuc n) = 2 ^ 64 - 1 - n % 2 ^ 64

abbrev of_int64_ℤ : Int64 → ℤ
of_int64_ℤ w = if ltb w (2 ^ 63) then pos w else negsuc (2 ^ 64 - 1 - w)

instance abbrev pub whole_double : Double ℤ
whole_double = record {
  literal = λ m k. pos (m / 10 ^ k);
  add = add_ℤ;
  sub = diff_ℤ;
  mul = mul_ℤ;
  div = div_ℤ;
  neg = neg_ℤ;
  lt = lt_ℤ;
  eq = eq_ℤ;
  round_away = λ a. a;
  is_nan = λ a. false;
  is_inf = λ a. false;
  to_int64 = to_int64_ℤ;
  of_int64 = of_int64_ℤ;
}

lt_ℤ_irrefl : (a : ℤ) → lt_ℤ a a ≡ false
lt_ℤ_irrefl a = ground arith

add_ℤ_nonneg :
    (a b : ℤ) → lt_ℤ a (pos 0) ≡ false → lt_ℤ (pos 0) b ≡ true → lt_ℤ (add_ℤ a b) (pos 0) ≡ false
add_ℤ_nonneg a b h k = ground arith

diff_ℤ_nonneg : (a b : ℤ) → lt_ℤ a b ≡ false → lt_ℤ (diff_ℤ a b) (pos 0) ≡ false
diff_ℤ_nonneg a b h = ground arith

mul_ℤ_nonneg :
    (a b : ℤ) → lt_ℤ a (pos 0) ≡ false → lt_ℤ (pos 0) b ≡ true → lt_ℤ (mul_ℤ a b) (pos 0) ≡ false
mul_ℤ_nonneg (pos a) (pos b) h k = ground arith
mul_ℤ_nonneg (negsuc a) b h k = ground arith
mul_ℤ_nonneg (pos a) (negsuc b) h k = ground arith

pub Whole-IsSigned : IsSigned ℤ
Whole-IsSigned = record {
  lt_irrefl = lt_ℤ_irrefl;
  add_nonneg = add_ℤ_nonneg;
  sub_nonneg = diff_ℤ_nonneg;
  mul_nonneg = mul_ℤ_nonneg;
}
