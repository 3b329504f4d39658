-- ===== src/Clock.antt =====
-- `time.Time` as the program uses it: nanoseconds in UTC since Go's zero time (1 January of year 1).
-- A calendar day written as text (YYYY-MM-DD) is its day number, which orders and tells days apart alike.
use portfolio_dashboard.Prelude.{ℕ, ◌+◌, ◌*◌, ◌/◌, ◌≤◌, ◌<◌, ◌≡◌, arith}

abbrev pub Time : Type 0
Time = ℕ

abbrev pub second : ℕ
second = 1_000_000_000

abbrev pub day_length : ℕ
day_length = 86_400 * second

-- `UTCDate` of domain/snapshot.go and `dateOnly` of services/gold_prices.go
unfoldable pub utc_date : Time → Time
utc_date t = t / day_length * day_length

-- `t.Format("2006-01-02")`
abbrev pub day_number : Time → ℕ
day_number t = t / day_length

-- `istDayOf` of services/clock.go: Indian time is UTC + 5:30
unfoldable pub ist_day_of : Time → Time
unfolding utc_date
ist_day_of instant = utc_date (instant + 19_800 * second)

pub utc_date-le : (t : Time) → utc_date t ≤ t
unfolding utc_date
utc_date-le t = omega arith

pub lt-utc_date-add : (t : Time) → t < utc_date t + day_length
unfolding utc_date
lt-utc_date-add t = omega arith

pub utc_date-utc_date : (t : Time) → utc_date (utc_date t) ≡ utc_date t
unfolding utc_date
utc_date-utc_date t = omega arith
