-- ===== src/DirSearch/Dates.antt =====
-- How the dates of SysOpy/lab2/src/zad2/zad2.c compare once `stringToDate` has made them times.
use semestr.Prelude.{ℕ, zero, suc, ◌+◌, ◌≤◌, ◌<◌, ◌≡◌, ◌⊎◌, inl, inr, some, arith, if◌then◌else◌}
use semestr.DirSearch.{Date, is_leap, month_length, month_start, year_start, string_to_date}

month_length-le : (y m : ℕ) → 28 ≤ month_length y m
month_length-le y m = ground arith

before_or_same : (m k : ℕ) → m ≤ k → (m < k) ⊎ (m ≡ k)
before_or_same m k h = ground arith

-- A month begins at least 28 days after any earlier one of its year.
month_start-le : (y m k : ℕ) → m < k → month_start y m + 28 ≤ month_start y k
unfolding month_start
month_start-le y m zero h = absurd (omega arith)
month_start-le y m (suc k) h = elim (before_or_same m k (omega arith)) [
  | inl before ↦ omega (arith, month_start-le y m k before)
  | inr same ↦ rw same (omega (arith, month_length-le y k))
]

-- A year begins with the end of the one before.
month_start_year : (y : ℕ) → month_start y 12 ≡ (if is_leap y then 366 else 365)
unfolding month_start
month_start_year y = ground arith

year_start-le : (y z : ℕ) → y < z → year_start y + month_start y 12 ≤ year_start z
unfolding year_start
year_start-le y zero h = absurd (omega arith)
year_start-le y (suc z) h = elim (before_or_same y z (omega arith)) [
  | inl before ↦ omega (arith, year_start-le y z before)
  | inr same ↦ rw (same, month_start_year z) (omega arith)
]

-- A month begins before or with December's successor.
month_start-le_end : (y m : ℕ) → m ≤ 12 → month_start y m ≤ month_start y 12
month_start-le_end y m h = elim (before_or_same m 12 h) [
  | inl before ↦ omega (arith, month_start-le y m 12 before)
  | inr same ↦ rw same (omega arith)
]

-- The first date is earlier in the calendar.
abbrev pub Earlier : Date → Date → Type 0
Earlier d e =
    (d.year < e.year)
    ⊎ ((d.year ≡ e.year) × (d.month < e.month))
    ⊎ ((d.year ≡ e.year) × (d.month ≡ e.month) × (d.day < e.day))

-- A date of the first 28 days of a month.
abbrev pub IsShort : Date → Type 0
IsShort d = (1 ≤ d.month) × (d.month ≤ 12) × (1 ≤ d.day) × (d.day ≤ 28)

-- Dates up to the 28th of their months compare as in the calendar, although `stringToDate` takes
-- each month for the next and each year for one 1900 years later.
pub string_to_date-Earlier :
    (d e : Date)
    → IsShort d
    → IsShort e
    → Earlier d e
    → string_to_date (some d) < string_to_date (some e)
unfolding string_to_date
string_to_date-Earlier d e hd he (inl year) = omega (
  arith,
  year_start-le (1900 + d.year) (1900 + e.year) (omega arith),
  month_start-le_end (1900 + d.year) d.month hd.1,
  month_start-le (1900 + e.year) 0 e.month (omega arith),
)
string_to_date-Earlier d e hd he (inr (inl (year, month))) =
    rw year (omega (arith, month_start-le (1900 + e.year) d.month e.month month))
string_to_date-Earlier d e hd he (inr (inr (year, month, day))) = rw (year, month) (omega arith)

-- In every year the 31st of January is made a later time than the 1st of February: as the 31st of
-- February it runs on into March.
pub january_after_february :
    (y : ℕ)
    → string_to_date (some (record { year = y; month = 2; day = 1 }))
      < string_to_date (some (record { year = y; month = 1; day = 31 }))
unfolding string_to_date month_start
january_after_february y = ground arith
