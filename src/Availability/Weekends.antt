-- ===== src/Availability/Weekends.antt =====
-- `enumerateWeekends` of src/fonio/fonio-availability.service.ts. `Date.UTC` counts days from
-- 1970-01-01, a Thursday.
use fonio_middleware.Base.{
  ◌∷◌, ◌==◌, zero, if◌then◌else◌, ◌/◌, ◌++◌, ◌%◌, map, [], ◌-◌, ◌+◌, ◌*◌, suc, Option, List, Bool,
  ℕ, some, none,
}
use fonio_middleware.Plan.Calendar.{month_length}

-- `Date.UTC(year, 0, 1)` in days, for years from 1970 on.
abbrev pub year_start : ℕ → ℕ
year_start year = 365 * (year - 1) + (year - 1) / 4 + (year - 1) / 400 - (year - 1) / 100 - 719162

-- `Date.UTC(year, month, 1)` in days, where months count from 0.
unfoldable pub month_start : ℕ → ℕ → ℕ
month_start year zero = year_start year
month_start year (suc month) = month_start year month + month_length year month

-- `getUTCDay() === 5`
abbrev pub is_friday : ℕ → Bool
is_friday day = (day + 4) % 7 == 5

-- The inner loop of `enumerateWeekends`, with the days of the month that are left.
unfoldable pub fridays : ℕ → ℕ → List ℕ
fridays zero day = []
fridays (suc left) day =
    let rest = fridays left (day + 1) in if is_friday day then day ∷ rest else rest

unfoldable pub fridays_of_month : ℕ → ℕ → List ℕ
fridays_of_month year month = fridays (month_length year month) (month_start year month)

-- The outer loop over the months from `month` on.
unfoldable pub fridays_of_months : ℕ → ℕ → ℕ → List ℕ
fridays_of_months year month zero = []
fridays_of_months year month (suc left) =
    fridays_of_month year month ++ fridays_of_months year (suc month) left

pub record Weekend : Type 0 where
  pub check_in : ℕ
  pub check_out : ℕ

abbrev pub weekend_of : ℕ → ℕ → Weekend
weekend_of nights day = record { check_in = day; check_out = day + nights }

-- The month that is asked for counts from 1, and 0 is no month.
unfoldable pub enumerate_weekends : ℕ → Option ℕ → ℕ → List Weekend
enumerate_weekends year none nights = map (weekend_of nights) (fridays_of_months year 0 12)
enumerate_weekends year (some zero) nights = map (weekend_of nights) (fridays_of_months year 0 12)
enumerate_weekends year (some (suc month)) nights =
    map (weekend_of nights) (fridays_of_month year month)
