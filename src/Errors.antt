-- ===== src/Errors.antt =====
-- The errors that the services tell apart by `errors.Is`.
use portfolio_dashboard.Prelude.{Bool, true, false}

pub data Error : Type 0 where
  -- services: ErrOversell, ErrValidation, ErrInvalidDate, ErrInvalidRegions, *ErrConflict
  oversell validation invalid_date invalid_regions conflict : Error
  -- persistence: ErrNotFound, ErrCronProtected, an unnamed refusal, and any failure of the database
  not_found cron_protected bad_snapshot database : Error
  -- persistence: ErrDuplicate; a failure of the hashing or of the random source
  duplicate crypto : Error
  -- the unnamed error of a snapshot run for a user who is not stored
  unknown_user : Error

-- `errors.Is(err, persistence.ErrDuplicate)`
abbrev pub is_duplicate : Error → Bool
is_duplicate Error.duplicate = true
is_duplicate _ = false

-- `errors.Is(err, persistence.ErrNotFound)`
abbrev pub is_not_found : Error → Bool
is_not_found Error.not_found = true
is_not_found _ = false

pub data Result {ℓ} (A : Type ℓ) : Type ℓ where
  ok : A → Result A
  err : Error → Result A
