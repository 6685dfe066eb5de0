-- ===== src/Availability/Weekly.antt =====
-- The weekends of a year: every seventh day from its first Friday on.
use fonio_middleware.Base.{
  ◌≢◌, inr, inl, ◌≤◌, Bool-cases, ◌∷◌, ◌∙◌, sym, ◌/◌, ◌++◌, ◌%◌, zero, refl, map, arith, ap, [],
  ◌≡◌, ◌-◌, ◌+◌, suc, if◌then◌else◌, List, ℕ, none,
}
use fonio_middleware.Availability.Weekends.{
  is_friday, weekend_of, year_start, month_start, fridays_of_month, fridays_of_months, fridays,
  enumerate_weekends,
}
use fonio_middleware.Plan.Calendar.{is_leap, month_length}

every_day : (a b : ℕ) (c d : ℕ) → a ≡ c → b ≡ d → fridays a b ≡ fridays c d
every_day a b c d e f = rw (e, f) refl

-- The days until the next Friday.
abbrev pub until_friday : ℕ → ℕ
until_friday day = (12 - (day + 4) % 7) % 7

abbrev pub every_week : ℕ → ℕ → List ℕ
every_week zero day = []
every_week (suc weeks) day = day ∷ every_week weeks (day + 7)

every_week-next :
    (weeks weeks' day day' : ℕ)
    → weeks ≡ weeks'
    → day ≡ day'
    → every_week weeks day ≡ every_week weeks' day'
every_week-next weeks weeks' day day' e f = rw (e, f) refl

fridays-eq-every_week :
    (n day : ℕ)
    → fridays n day ≡ every_week ((n + 6 - until_friday day) / 7) (day + until_friday day)
unfolding fridays
fridays-eq-every_week zero day =
    let none_left : (0 + 6 - until_friday day) / 7 ≡ 0 = omega arith in
    sym (every_week-next ((0 + 6 - until_friday day) / 7) 0 _ _ none_left refl)
fridays-eq-every_week (suc n) day =
    let weeks : ℕ = (n + 6 - until_friday (day + 1)) / 7 in
    let rest = fridays-eq-every_week n (day + 1) in
    elim (Bool-cases (is_friday day)) [
      | inl now ↦
          let today : (day + 4) % 7 ≡ 5 = ground (arith, now) in
          let taken : fridays (suc n) day ≡ day ∷ fridays n (day + 1) = ground (arith, now) in
          let one_more : suc weeks ≡ (suc n + 6 - until_friday day) / 7 = omega (arith, today) in
          let week_later : day + 1 + until_friday (day + 1) ≡ day + 7 = omega (arith, today) in
          let start : day ≡ day + until_friday day = omega (arith, today) in
          taken
          ∙ (ap (◌∷◌ day) (rest ∙ every_week-next weeks weeks _ _ refl week_later)
              ∙ every_week-next (suc weeks) _ day _ one_more start)
      | inr later ↦
          let other_day : (day + 4) % 7 ≢ 5 = ground (arith, later) in
          let left_out : fridays (suc n) day ≡ fridays n (day + 1) = ground (arith, later) in
          left_out
          ∙ (rest
              ∙ every_week-next weeks _ _ _ (omega (arith, other_day)) (omega (arith, other_day)))
    ]

fridays-add : (a b day : ℕ) → fridays (a + b) day ≡ fridays a day ++ fridays b (day + a)
unfolding fridays
fridays-add zero b day = every_day (0 + b) day b (day + 0) (omega arith) (omega arith)
fridays-add (suc a) b day =
    let both : suc a + b ≡ suc (a + b) = omega arith in
    let there : day + 1 + a ≡ day + suc a = omega arith in
    let rest : fridays (a + b) (day + 1) ≡ fridays a (day + 1) ++ fridays b (day + suc a) =
      fridays-add a b (day + 1) ∙ ap (λ (k : ℕ). fridays a (day + 1) ++ fridays b k) there in
    ap (λ (k : ℕ). fridays k day) both ∙ ground (arith, rest)

abbrev months_length : ℕ → ℕ → ℕ → ℕ
months_length year month zero = 0
months_length year month (suc left) = month_length year month + months_length year (suc month) left

-- The Fridays of months that follow one another are those of all their days.
fridays_of_months-eq-fridays :
    (year month left : ℕ)
    → fridays_of_months year month left
      ≡ fridays (months_length year month left) (month_start year month)
unfolding fridays_of_months fridays_of_month month_start fridays
fridays_of_months-eq-fridays year month zero = refl
fridays_of_months-eq-fridays year month (suc left) =
    ap (◌++◌ (fridays (month_length year month) (month_start year month)))
      (fridays_of_months-eq-fridays year (suc month) left)
    ∙ sym (
        fridays-add (month_length year month) (months_length year (suc month) left)
          (month_start year month))

abbrev pub year_length : ℕ → ℕ
year_length year = if is_leap year then 366 else 365

months_of_year : (year : ℕ) → months_length year 0 12 ≡ year_length year
unfolding month_length
months_of_year year = ground arith

-- How many Fridays a year has.
abbrev pub fridays_in : ℕ → ℕ
fridays_in year = (year_length year + 6 - until_friday (year_start year)) / 7

-- The weekends of a year for which no month is asked begin on every seventh day from the first Friday
-- of the year on, and last as long as asked. There are 52 or 53, so a search over a year has one.
pub enumerate_weekends-eq-every_week :
    (year nights : ℕ)
    → (enumerate_weekends year none nights
        ≡ map
            (weekend_of nights)
            (every_week (fridays_in year) (year_start year + until_friday (year_start year))))
      × (52 ≤ fridays_in year)
      × (fridays_in year ≤ 53)
unfolding enumerate_weekends month_start
enumerate_weekends-eq-every_week year nights =
    let all_days : fridays_of_months year 0 12 ≡ fridays (year_length year) (year_start year) =
      fridays_of_months-eq-fridays year 0 12
      ∙ ap (λ (n : ℕ). fridays n (year_start year)) (months_of_year year) in
    (
      ap (map (weekend_of nights))
          (all_days ∙ fridays-eq-every_week (year_length year) (year_start year)),
      ground arith,
      ground arith,
    )
