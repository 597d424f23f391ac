-- ===== src/Rows/Units.antt =====
-- The units of the rows. A `Decimal` is an exact count: quantities count a fixed part of a
-- contract, prices a fixed part of a point, and cash counts the product of the two, so that
-- price times quantity is exact. Instants are microseconds since the first instant, in UTC.
use tt_ledger.Base.{ℕ, ◌/◌, ◌+◌, ◌*◌}
use tt_ledger.Base.Int.{ℤ, pos}

abbrev pub Quantity : Type 0
Quantity = ℤ

abbrev pub Price : Type 0
Price = ℤ

abbrev pub Cash : Type 0
Cash = ℤ

abbrev pub Instant : Type 0
Instant = ℕ

abbrev pub Date : Type 0
Date = ℕ

-- `timedelta` values, in microseconds
abbrev pub seconds : ℕ → ℕ
seconds n = n * 1_000_000

abbrev pub day : ℕ
day = seconds 86_400

-- `at.date()`
abbrev pub date_of : Instant → Date
date_of at = at / day

-- `datetime.combine(d, datetime.min.time(), tzinfo=UTC).replace(hour=21, minute=15)`
abbrev pub evening_of : Date → Instant
evening_of d = d * day + seconds 76_500

-- `Decimal("0")`
abbrev pub zero_decimal : ℤ
zero_decimal = pos 0
