-- ===== src/Check24/Calendar/Maximal.antt =====
-- The availability ranges cannot be joined further: `buildAvailabilityRanges`.
use fonio_middleware.Base.{
  ap, ◌∙◌, sym, none, inr, ◌==◌, some, refl, inl, ◌+◌, true, false, [], Bool-cases, ◌≡◌, ◌∷◌, ℕ,
  Option, List, Bool, arith,
}
use fonio_middleware.Check24.Calendar.{
  add_days, flush, ymd, run_of, option_eq, ranges_of_sorted, bool_eq, ranges_from,
  build_availability_ranges, Run, Check24Availability, continues, LocalCalendarDay,
}
use fonio_middleware.Base.Sort.{sort_by}

-- The second range carries the first on.
abbrev pub Joins : Check24Availability → Check24Availability → Type 0
Joins r s =
    (s.open_for_booking ≡ r.open_for_booking)
    × (s.min_stay ≡ r.min_stay)
    × (s.date_from ≡ r.date_to + 1)

abbrev pub ApartFrom : Check24Availability → List Check24Availability → Type 0
ApartFrom r [] = Unit
ApartFrom r (s ∷ rs) = ¬ (Joins r s)

-- No range carries the one before it on.
abbrev pub IsMaximal : List Check24Availability → Type 0
IsMaximal [] = Unit
IsMaximal (r ∷ rs) = ApartFrom r rs × IsMaximal rs

option_eq_same : (a : Option ℕ) → option_eq a a ≡ true
option_eq_same none = refl
option_eq_same (some a) = ground arith

bool_eq_same : (b : Bool) → bool_eq b b ≡ true
bool_eq_same true = refl
bool_eq_same false = refl

continues_complete :
    (r : Run) (day : LocalCalendarDay)
    → day.is_available ≡ r.is_open
    → day.min_nights ≡ r.min_stay
    → ymd day.date ≡ ymd r.end_day.date + 1
    → continues r day ≡ true
unfolding continues
continues_complete r day is_open min_stay next =
    let here : (ymd day.date == ymd (add_days r.end_day.date 1)) ≡ true = ground (arith, next) in
    rw (here, is_open, min_stay, bool_eq_same r.is_open, option_eq_same r.min_stay) refl

abbrev StartsAt : Run → LocalCalendarDay → Type 0
StartsAt r day = (r.start ≡ day) × (r.is_open ≡ day.is_available) × (r.min_stay ≡ day.min_nights)

not_Joins :
    (s r : Run) (day : LocalCalendarDay)
    → continues s day ≡ false
    → StartsAt r day
    → ¬ (Joins (flush s) (flush r))
not_Joins s r day other (starts, is_open, min_stay) (same_open, same_stay, next) =
    let next_day : ymd day.date ≡ ymd s.end_day.date + 1 =
      ap (λ (d : LocalCalendarDay). ymd d.date) (sym starts) ∙ next in
    absurd (
      ground (
        arith,
        continues_complete s day (sym is_open ∙ same_open) (sym min_stay ∙ same_stay) next_day,
      ))

-- The first range begins where the run begins.
ranges_from-ApartFrom :
    (s r : Run) (day : LocalCalendarDay) (days : List LocalCalendarDay)
    → continues s day ≡ false
    → StartsAt r day
    → ApartFrom (flush s) (ranges_from r days)
unfolding ranges_from
ranges_from-ApartFrom s r day [] other starts = not_Joins s r day other starts
ranges_from-ApartFrom s r day (next_day ∷ days) other starts =
    elim (Bool-cases (continues r next_day)) [
      | inl same ↦
          rw same (ranges_from-ApartFrom s (record r { end_day = next_day }) day days other starts)
      | inr fresh ↦ rw fresh (not_Joins s r day other starts)
    ]

ranges_from-IsMaximal : (r : Run) (days : List LocalCalendarDay) → IsMaximal (ranges_from r days)
unfolding ranges_from
ranges_from-IsMaximal r [] = (tt, tt)
ranges_from-IsMaximal r (day ∷ days) = elim (Bool-cases (continues r day)) [
  | inl same ↦ rw same (ranges_from-IsMaximal (record r { end_day = day }) days)
  | inr other ↦ rw other (
    ranges_from-ApartFrom r (run_of day) day days other (refl, refl, refl),
    ranges_from-IsMaximal (run_of day) days,
  )
]

-- The availability ranges are as few as can be: of two ranges in a row, the second begins on the day
-- after the first only if it is open where the first is closed, closed where the first is open, or has
-- another shortest stay.
pub build_availability_ranges-IsMaximal :
    (days : List LocalCalendarDay) → IsMaximal (build_availability_ranges days)
unfolding build_availability_ranges ranges_of_sorted
build_availability_ranges-IsMaximal days = go (sort_by (λ d. d.date) days)
  where
    go : (sorted : List LocalCalendarDay) → IsMaximal (ranges_of_sorted sorted)
    go [] = tt
    go (day ∷ rest) = ranges_from-IsMaximal (run_of day) rest
