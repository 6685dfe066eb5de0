-- ===== src/Check24/Calendar/Ranges.antt =====
-- The availability ranges, against the days that they are made of: `buildAvailabilityRanges`.
use fonio_middleware.Base.{
  ap, ◌∙◌, refl, inr, inl, arith, ◌+◌, Bool-cases, ◌-◌, true, ◌≤◌, ◌≡◌, suc, [], ◌++◌, ◌∷◌, map,
  Option, ℕ, List, Bool,
}
use mathlib.Core.List.{append_assoc, map-append}
use fonio_middleware.Check24.Calendar.{
  run_of, ranges_of_sorted, build_availability_ranges, flush, Run, ymd, ranges_from, continues,
  LocalCalendarDay, Check24Availability,
}
use fonio_middleware.Check24.Calendar.Nights.{span-snoc, span}
use fonio_middleware.Base.Sort.{sort_by}

-- What CHECK24 is told of one day.
abbrev pub DayFacts : Type 0
DayFacts = ℕ × Bool × Option ℕ

abbrev pub facts : LocalCalendarDay → DayFacts
facts d = (ymd d.date, d.is_available, d.min_nights)

abbrev with_facts : Bool → Option ℕ → ℕ → DayFacts
with_facts is_open min_stay day = (day, is_open, min_stay)

-- What a range says of its days, both ends included.
abbrev pub expand : Check24Availability → List DayFacts
expand r =
    map (with_facts r.open_for_booking r.min_stay) (span r.date_from (suc r.date_to - r.date_from))

abbrev pub expand_all : List Check24Availability → List DayFacts
expand_all [] = []
expand_all (r ∷ rs) = expand r ++ expand_all rs

continues_sound :
    (r : Run) (day : LocalCalendarDay)
    → continues r day ≡ true
    → (day.is_available ≡ r.is_open)
      × (day.min_nights ≡ r.min_stay)
      × (ymd day.date ≡ ymd r.end_day.date + 1)
unfolding continues
continues_sound r day h = (ground arith, ground arith, ground arith)

-- A run that its next day carries on has that day behind it.
expand-snoc :
    (r : Run) (day : LocalCalendarDay)
    → continues r day ≡ true
    → ymd r.start.date ≤ ymd r.end_day.date
    → expand (flush (record r { end_day = day })) ≡ expand (flush r) ++ facts day ∷ []
expand-snoc r day h ordered =
    let (is_open, min_stay, next) = continues_sound r day h in
    let n : ℕ = suc (ymd r.end_day.date) - ymd r.start.date in
    let size : suc (ymd day.date) - ymd r.start.date ≡ suc n = omega (arith, next, ordered) in
    let last : ymd r.start.date + n ≡ ymd day.date = omega (arith, next, ordered) in
    let same : with_facts r.is_open r.min_stay (ymd r.start.date + n) ≡ facts day =
      rw (last, is_open, min_stay) refl in
    ap (λ (k : ℕ). map (with_facts r.is_open r.min_stay) (span (ymd r.start.date) k)) size
    ∙ ap (map (with_facts r.is_open r.min_stay)) (span-snoc (ymd r.start.date) n)
    ∙ map-append (with_facts r.is_open r.min_stay) (span (ymd r.start.date) n)
        ((ymd r.start.date + n) ∷ [])
    ∙ ap
        (λ (f : DayFacts).
          map (with_facts r.is_open r.min_stay) (span (ymd r.start.date) n) ++ f ∷ [])
        same

expand-run_of : (day : LocalCalendarDay) → expand (flush (run_of day)) ≡ facts day ∷ []
expand-run_of day = let size : suc (ymd day.date) - ymd day.date ≡ 1 = omega arith in rw size refl

ranges_from-expand :
    (r : Run) (days : List LocalCalendarDay)
    → ymd r.start.date ≤ ymd r.end_day.date
    → expand_all (ranges_from r days) ≡ expand (flush r) ++ map facts days
unfolding ranges_from
ranges_from-expand r [] h = refl
ranges_from-expand r (day ∷ days) h = elim (Bool-cases (continues r day)) [
  | inl same ↦ rw same (
      ranges_from-expand (record r { end_day = day }) days
        (omega (arith, h, (continues_sound r day same).2))
      ∙ ap (λ (fs : List DayFacts). fs ++ map facts days) (expand-snoc r day same h)
      ∙ append_assoc (expand (flush r)) (facts day ∷ []) (map facts days))
  | inr other ↦ rw other (
      ap (λ (fs : List DayFacts). expand (flush r) ++ fs)
        (ranges_from-expand (run_of day) days (omega arith)
          ∙ ap (λ (fs : List DayFacts). fs ++ map facts days) (expand-run_of day)))
]

ranges_of_sorted-expand :
    (days : List LocalCalendarDay) → expand_all (ranges_of_sorted days) ≡ map facts days
unfolding ranges_of_sorted
ranges_of_sorted-expand [] = refl
ranges_of_sorted-expand (day ∷ days) =
    ranges_from-expand (run_of day) days (omega arith)
    ∙ ap (λ (fs : List DayFacts). fs ++ map facts days) (expand-run_of day)

-- The ranges say of every day of the calendar what the calendar says of it, in the order of the dates:
-- whether it is open, its shortest stay, and no other day is in a range.
pub build_availability_ranges-expand :
    (days : List LocalCalendarDay)
    → expand_all (build_availability_ranges days) ≡ map facts (sort_by (λ d. d.date) days)
unfolding build_availability_ranges
build_availability_ranges-expand days = ranges_of_sorted-expand (sort_by (λ d. d.date) days)
