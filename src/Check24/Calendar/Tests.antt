-- ===== src/Check24/Calendar/Tests.antt =====
-- Runs of the calendar functions, and the theorems at concrete inputs.
use fonio_middleware.Check24.Calendar.{
  continues, ranges_from, pricing_from, day_ms, ranges_of_sorted, pricing_of_sorted, nights_from,
  each_night_ymd, build_standard_pricing_ranges, build_availability_ranges, LocalCalendarDay,
}
use fonio_middleware.Check24.Calendar.Maximal.{build_availability_ranges-IsMaximal, IsMaximal}
use fonio_middleware.Base.{
  Bool, some, ◌-◌, true, refl, none, map, [], ◌≡◌, ◌∷◌, ◌*◌, false, ℕ, List,
}
use fonio_middleware.Check24.Calendar.Ranges.{build_availability_ranges-expand, facts, expand_all}
use fonio_middleware.Check24.Calendar.Nights.{each_night_ymd-eq-span, span}
use fonio_middleware.Base.Sort.{sort_by}
use fonio_middleware.Base.Int.{pos}

-- The days 10, 11 and 13 are open, day 12 is closed; they come in another order.
abbrev open_day : ℕ → LocalCalendarDay
open_day day = record {
  date = day * day_ms;
  is_available = true;
  min_nights = some 2;
  price = some (pos 9_000);
}

abbrev closed_day : ℕ → LocalCalendarDay
closed_day day = record (open_day day) { is_available = false; price = none }

abbrev four_days : List LocalCalendarDay
four_days = closed_day 12 ∷ open_day 10 ∷ open_day 13 ∷ open_day 11 ∷ []

three_ranges :
    map {B = ℕ × ℕ × Bool}
      (λ r. (r.date_from, r.date_to, r.open_for_booking))
      (build_availability_ranges four_days)
    ≡ (10, 11, true) ∷ (12, 12, false) ∷ (13, 13, true) ∷ []
unfolding build_availability_ranges ranges_of_sorted ranges_from continues sort_by
three_ranges = refl

two_prices :
    map {B = ℕ × ℕ} (λ r. (r.date_from, r.date_to)) (build_standard_pricing_ranges four_days)
    ≡ (10, 11) ∷ (13, 13) ∷ []
unfolding build_standard_pricing_ranges pricing_of_sorted pricing_from sort_by
two_prices = refl

three_nights : each_night_ymd 10 13 ≡ 10 ∷ 11 ∷ 12 ∷ []
unfolding each_night_ymd nights_from
three_nights = refl

each_night_ymd-eq-span_example : each_night_ymd 10 13 ≡ span 10 (13 - 10)
each_night_ymd-eq-span_example = each_night_ymd-eq-span 10 13

build_availability_ranges-expand_example :
    expand_all (build_availability_ranges four_days) ≡ map facts (sort_by (λ d. d.date) four_days)
build_availability_ranges-expand_example = build_availability_ranges-expand four_days

build_availability_ranges-IsMaximal_example : IsMaximal (build_availability_ranges four_days)
build_availability_ranges-IsMaximal_example = build_availability_ranges-IsMaximal four_days
