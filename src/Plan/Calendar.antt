-- ===== src/Plan/Calendar.antt =====
-- The `Date` methods in UTC that src/automation/payment-plan.util.ts calls. A date is the year, the month
-- from 0 on, the day of the month from 1 on, and the milliseconds of the day.
use fonio_middleware.Base.{
  true, sym, refl, not, ◌∙◌, ◌||◌, ◌-◌, ◌&&◌, ◌==◌, ◌+◌, ◌%◌, zero, ltb, leb, arith, ap, ◌≤◌, ◌≡◌,
  suc, if◌then◌else◌, Bool, ℕ,
}

pub record Date : Type 0 where
  pub year : ℕ
  pub month : ℕ
  pub day : ℕ
  pub clock : ℕ

abbrev pub is_leap : ℕ → Bool
is_leap year = year % 4 == 0 && (not (year % 100 == 0) || year % 400 == 0)

unfoldable pub month_length : ℕ → ℕ → ℕ
month_length year month =
    if month == 1
    then (if is_leap year then 29 else 28)
    else if month == 3 || (month == 5 || (month == 8 || month == 10))
    then 30
    else 31

-- A day of the calendar.
abbrev pub IsDate : Date → Type 0
IsDate d = (d.month ≤ 11) × (1 ≤ d.day) × (d.day ≤ month_length d.year d.month)

-- `setUTCHours(0, 0, 0, 0)`
abbrev pub midnight : Date → Date
midnight d = record d { clock = 0 }

-- The day 1 of the next month, and the last day of the month before.
abbrev pub next_month : Date → Date
next_month d =
    if d.month == 11
    then record d { year = d.year + 1; month = 0; day = 1 }
    else record d { month = d.month + 1; day = 1 }

-- `setUTCDate(0)`
abbrev pub last_month : Date → Date
last_month d =
    if d.month == 0
    then record d { year = d.year - 1; month = 11; day = month_length (d.year - 1) 11 }
    else record d { month = d.month - 1; day = month_length d.year (d.month - 1) }

abbrev pub next_day : Date → Date
next_day d =
    if ltb d.day (month_length d.year d.month) then record d { day = d.day + 1 } else next_month d

abbrev pub previous_day : Date → Date
previous_day d = if ltb 1 d.day then record d { day = d.day - 1 } else last_month d

-- `setUTCDate(getUTCDate() + n)` and `setUTCDate(getUTCDate() - n)`
abbrev pub add_days : ℕ → Date → Date
add_days zero d = d
add_days (suc n) d = next_day (add_days n d)

abbrev pub subtract_days : ℕ → Date → Date
subtract_days zero d = d
subtract_days (suc n) d = subtract_days n (previous_day d)

-- A day of the month that may be past its end, and then is in the month that follows.
abbrev pub normal : Date → Date
normal d =
    let long = month_length d.year d.month in
    if leb d.day long then d else record (next_month d) { day = d.day - long }

-- `setUTCMonth(getUTCMonth() + 1)` and `setUTCMonth(getUTCMonth() - 1)`
abbrev pub month_later : Date → Date
month_later d = normal (record (next_month d) { day = d.day })

abbrev pub month_earlier : Date → Date
month_earlier d = normal (record (last_month d) { day = d.day })

pub month_length-bounds :
    (year month : ℕ) → (28 ≤ month_length year month) × (month_length year month ≤ 31)
unfolding month_length
month_length-bounds year month = (ground arith, ground arith)

leb_of_le : (a b : ℕ) → a ≤ b → leb a b ≡ true
leb_of_le a b h = ground arith

pub next_day-IsDate : (d : Date) → IsDate d → IsDate (next_day d)
next_day-IsDate d (month, day, long) =
    let early : (28 ≤ month_length (d.year + 1) 0) × (28 ≤ month_length d.year (d.month + 1)) =
      ((month_length-bounds (d.year + 1) 0).0, (month_length-bounds d.year (d.month + 1)).0) in
    (ground arith, ground arith, ground (arith, early.0, early.1))

pub previous_day-next_day : (d : Date) → IsDate d → previous_day (next_day d) ≡ d
previous_day-next_day d (month, day, long) = ground arith

pub add_days-IsDate : (n : ℕ) (d : Date) → IsDate d → IsDate (add_days n d)
add_days-IsDate zero d h = h
add_days-IsDate (suc n) d h = next_day-IsDate (add_days n d) (add_days-IsDate n d h)

-- Going back as many days as forth leads to the day itself.
pub subtract_days-add_days : (n : ℕ) (d : Date) → IsDate d → subtract_days n (add_days n d) ≡ d
subtract_days-add_days zero d h = refl
subtract_days-add_days (suc n) d h =
    ap (subtract_days n) (previous_day-next_day (add_days n d) (add_days-IsDate n d h))
    ∙ subtract_days-add_days n d h

add_days-clock : (n : ℕ) (d : Date) → (add_days n d).clock ≡ d.clock
add_days-clock zero d = refl
add_days-clock (suc n) d = ground (arith, add_days-clock n d)

pub subtract_days-midnight :
    (n : ℕ) (d : Date)
    → IsDate d
    → subtract_days n (midnight (add_days n (midnight d))) ≡ midnight d
subtract_days-midnight n d h =
    let same : midnight (add_days n (midnight d)) ≡ add_days n (midnight d) =
      ap (λ (c : ℕ). let x : Date = record (add_days n (midnight d)) { clock = c } in x)
        (sym (add_days-clock n (midnight d))) in
    ap (subtract_days n) same ∙ subtract_days-add_days n (midnight d) h

-- A day that every month has is not moved.
pub normal_short : (d : Date) → d.day ≤ 28 → normal d ≡ d
normal_short d h =
    rw
      (leb_of_le d.day (month_length d.year d.month)
        (omega (arith, h, (month_length-bounds d.year d.month).0)))
      refl

pub next-last_month :
    (d : Date)
    → d.month ≤ 11
    → (let x : Date = record (last_month (next_month d)) { day = d.day } in x) ≡ d
next-last_month d h = ground arith
