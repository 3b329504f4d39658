-- ===== src/DoubleLaws.antt =====
-- What IEEE 754 arithmetic guarantees, NaN and the infinities included, as far as proofs use it.
use portfolio_dashboard.Prelude.{◌≡◌, false, true}
use portfolio_dashboard.Double.{Double, nought}

-- Signs. A NaN result is not below zero, since no comparison with a NaN holds.
pub record IsSigned (F : Type 0) ⦃d : Double F⦄ : Type 0 where
  pub lt_irrefl : (a : F) → d.lt a a ≡ false
  pub add_nonneg :
      (a b : F) → d.lt a nought ≡ false → d.lt nought b ≡ true → d.lt (d.add a b) nought ≡ false
  pub sub_nonneg : (a b : F) → d.lt a b ≡ false → d.lt (d.sub a b) nought ≡ false
  pub mul_nonneg :
      (a r : F) → d.lt a nought ≡ false → d.lt nought r ≡ true → d.lt (d.mul a r) nought ≡ false
