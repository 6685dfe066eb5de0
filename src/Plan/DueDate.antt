-- ===== src/Plan/DueDate.antt =====
-- Due dates of a payment plan: `advanceDueDate` and `rewindDueDate` of
-- src/automation/payment-plan.util.ts.
use fonio_middleware.Base.{
  ◌∙◌, refl, ap, ◌≤◌, ◌≡◌, none, ◌+◌, some, ltb, leb, ◌*◌, if◌then◌else◌, Option, ℕ, arith,
}
use fonio_middleware.Plan.Calendar.{
  next-last_month, normal_short, subtract_days-midnight, next_month, month_length-bounds,
  month_length, month_later, month_earlier, midnight, last_month, subtract_days, add_days, IsDate,
  Date,
}

-- The enumeration of the database; the `default` of the source is unreachable.
pub data PaymentPlanFrequency : Type 0 where
  weekly semi_monthly monthly custom : PaymentPlanFrequency

-- `customIntervalDays != null && customIntervalDays > 0 ? customIntervalDays : 30`
unfoldable pub interval : Option ℕ → ℕ
interval none = 30
interval (some n) = if ltb 0 n then n else 30

-- The clamp at the end of a month.
abbrev clamp_day : ℕ → Date → Date
clamp_day day d = if ltb d.day day then last_month d else d

unfoldable pub advance_due_date : Date → PaymentPlanFrequency → Option ℕ → Date
advance_due_date from weekly days = add_days 7 (midnight from)
advance_due_date from semi_monthly days = add_days 14 (midnight from)
advance_due_date from monthly days = clamp_day from.day (month_later (midnight from))
advance_due_date from custom days = add_days (interval days) (midnight from)

unfoldable pub rewind_due_date : Date → PaymentPlanFrequency → Option ℕ → Date
rewind_due_date from weekly days = subtract_days 7 (midnight from)
rewind_due_date from semi_monthly days = subtract_days 14 (midnight from)
rewind_due_date from monthly days = clamp_day from.day (month_earlier (midnight from))
rewind_due_date from custom days = subtract_days (interval days) (midnight from)

abbrev at_most : ℕ → ℕ → ℕ
at_most a b = if leb a b then a else b

-- The same day of the month that follows, or its last day.
abbrev pub MonthLater : Date → Date → Type 0
MonthLater from to =
    (to.year * 12 + to.month ≡ from.year * 12 + from.month + 1)
    × (to.month ≤ 11)
    × (to.day ≡ at_most from.day (month_length to.year to.month))
    × (to.clock ≡ 0)

-- A monthly plan is due a month after a day of the calendar: in the month that follows, on the same
-- day of the month, or on the last day if that month is shorter, at midnight.
pub advance_due_date-MonthLater :
    (from : Date) (days : Option ℕ)
    → IsDate from
    → MonthLater from (advance_due_date from monthly days)
unfolding advance_due_date
advance_due_date-MonthLater from days (month, day, long) =
    let january : (28 ≤ month_length (from.year + 1) 0) × (month_length (from.year + 1) 0 ≤ 31) =
      month_length-bounds (from.year + 1) 0 in
    let next : (28 ≤ month_length from.year (from.month + 1))
        × (month_length from.year (from.month + 1) ≤ 31) =
      month_length-bounds from.year (from.month + 1) in
    let here : (28 ≤ month_length from.year from.month) × (month_length from.year from.month ≤ 31) =
      month_length-bounds from.year from.month in
    (
      ground (arith, january.0, january.1, next.0, next.1, here.1),
      ground (arith, january.0, january.1, next.0, next.1, here.1),
      ground (arith, january.0, january.1, next.0, next.1, here.1),
      ground (arith, january.0, january.1, next.0, next.1, here.1),
    )

clamp_short : (day : ℕ) (d : Date) → d.day ≡ day → clamp_day day d ≡ d
clamp_short day d h = ground arith

monthly_back :
    (from : Date)
    → IsDate from
    → from.day ≤ 28
    → clamp_day
        (clamp_day from.day (month_later (midnight from))).day
        (month_earlier (midnight (clamp_day from.day (month_later (midnight from)))))
      ≡ midnight from
monthly_back from (month, first, long) short =
    let later : Date = record (next_month (midnight from)) { day = from.day } in
    let there : clamp_day from.day (month_later (midnight from)) ≡ later =
      ap (clamp_day from.day) (normal_short later short) ∙ clamp_short from.day later refl in
    let clocked : midnight later ≡ later = ground arith in
    let back : month_earlier later ≡ midnight from =
      normal_short (record (last_month later) { day = from.day }) short
      ∙ next-last_month (midnight from) month in
    ap (λ (d : Date). clamp_day d.day (month_earlier (midnight d))) there
    ∙ ap (λ (d : Date). clamp_day later.day (month_earlier d)) clocked
    ∙ ap (clamp_day later.day) back
    ∙ clamp_short from.day (midnight from) refl

-- A due date that is put forward and back again is what it was, at midnight. A monthly one has to be
-- on a day that every month has.
pub rewind_due_date-advance_due_date :
    (from : Date) (frequency : PaymentPlanFrequency) (days : Option ℕ)
    → IsDate from
    → (frequency ≡ monthly → from.day ≤ 28)
    → rewind_due_date (advance_due_date from frequency days) frequency days ≡ midnight from
unfolding advance_due_date rewind_due_date
rewind_due_date-advance_due_date from weekly days date short = subtract_days-midnight 7 from date
rewind_due_date-advance_due_date from semi_monthly days date short =
    subtract_days-midnight 14 from date
rewind_due_date-advance_due_date from monthly days date short = monthly_back from date (short refl)
rewind_due_date-advance_due_date from custom days date short =
    subtract_days-midnight (interval days) from date
