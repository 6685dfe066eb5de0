-- ===== src/Availability/Complete.antt =====
-- What it means that a stay is free: every night has an open row, and none wants a longer stay.
use fonio_middleware.Base.{
  not, ◌∙◌, ap, ◌-◌, or_else, leb, all, ◌<◌, ltb, inr, refl, inl, All, ◌↔◌, zero, [], Bool-cases,
  ◌≤◌, ◌∷◌, ◌+◌, arith, ◌≡◌, ◌&&◌, suc, ◌==◌, any, length, Bool, ℕ, List, false, true,
}
use fonio_middleware.Availability.{BookableListing, CalendarDay}
use fonio_middleware.Availability.Evaluate.{
  required_min, is_stay_available, enumerate_dates, days_of, evaluate_listing, is_night, dates_from,
}
use fonio_middleware.Availability.Calendar.{is_day, IsUnique}
use fonio_middleware.Base.Count.{
  count_cong, all-keep_iff, length-keep, count_both-le, any-iff-count, count_add, count, bit,
}
use fonio_middleware.Check24.Calendar.Nights.{span}

-- The nights of a stay are the days from its first on.
pub dates_from-eq-span :
    (rounds current last : ℕ)
    → current + rounds ≡ last
    → dates_from rounds current last ≡ span current rounds
unfolding dates_from
dates_from-eq-span zero current last e = refl
dates_from-eq-span (suc rounds) current last e =
    let inside : ltb current last ≡ true = ground (arith, e) in
    rw (inside, dates_from-eq-span rounds (current + 1) last (omega (arith, e))) refl

length-span : (day n : ℕ) → length (span day n) ≡ n
length-span day zero = refl
length-span day (suc n) = omega (arith, length-span (day + 1) n)

span_above : (day n date : ℕ) → is_night (span day n) date ≡ true → day ≤ date
span_above day zero date h = absurd (ground arith)
span_above day (suc n) date h = ground (arith, h, span_above (day + 1) n date)

-- The row of a listing and night that passes a test.
abbrev pub has_night : List CalendarDay → ℕ → (CalendarDay → Bool) → ℕ → Bool
has_night table listing_id test night = any (λ d. is_day listing_id night d && test d) table

none_counted :
    (l k : ℕ) (test : CalendarDay → Bool) (table : List CalendarDay)
    → any (is_day l k) table ≡ false
    → count (λ d. is_day l k d && test d) table ≡ 0
none_counted l k test [] h = refl
none_counted l k test (d ∷ table) h = ground (arith, h, none_counted l k test table)

-- A night is counted once at most.
one_counted :
    (l k : ℕ) (test : CalendarDay → Bool) (table : List CalendarDay)
    → IsUnique table
    → count (λ d. is_day l k d && test d) table ≤ 1
one_counted l k test [] h = omega arith
one_counted l k test (d ∷ table) h = elim (Bool-cases (is_day l k d)) [
  | inl here ↦
      let listing : l ≡ d.listing_id = ground (arith, here) in
      let date : k ≡ d.date = ground (arith, here) in
      let missing : any (is_day l k) table ≡ false = rw (listing, date) h.0 in
      ground (arith, here, none_counted l k test table missing)
  | inr elsewhere ↦ ground (arith, elsewhere, one_counted l k test table h.1)
]

abbrev in_span : ℕ → ℕ → ℕ → (CalendarDay → Bool) → CalendarDay → Bool
in_span l day n test d = (l == d.listing_id && is_night (span day n) d.date) && test d

bit_split :
    (l day n : ℕ) (test : CalendarDay → Bool) (d : CalendarDay)
    → bit (in_span l day (suc n) test d)
      ≡ bit (is_day l day d && test d) + bit (in_span l (day + 1) n test d)
bit_split l day n test d = ground (arith, span_above (day + 1) n d.date)

no_night :
    (l day : ℕ) (test : CalendarDay → Bool) (table : List CalendarDay)
    → count (in_span l day zero test) table ≡ 0
no_night l day test [] = refl
no_night l day test (d ∷ table) = ground (arith, no_night l day test table)

-- The rows of a span of nights: as many as there are nights exactly if each night has one.
count-span :
    (l day n : ℕ) (test : CalendarDay → Bool) (table : List CalendarDay)
    → IsUnique table
    → (count (in_span l day n test) table ≤ n)
      × ((count (in_span l day n test) table ≡ n)
          ↔ All (λ night. has_night table l test night ≡ true) (span day n))
count-span l day zero test table h =
    let nothing_left : count (in_span l day zero test) table ≡ 0 = no_night l day test table in
    (omega (arith, nothing_left), ((λ e. tt), (λ e. nothing_left)))
count-span l day (suc n) test table h =
    let split : count (in_span l day (suc n) test) table
        ≡ count (λ d. is_day l day d && test d) table + count (in_span l (day + 1) n test) table =
      count_add (in_span l day (suc n) test) (λ d. is_day l day d && test d)
        (in_span l (day + 1) n test) table (bit_split l day n test) in
    let one = one_counted l day test table h in
    let there = any-iff-count (λ d. is_day l day d && test d) table in
    let (most, rest) = count-span l (day + 1) n test table h in
    (
      omega (arith, split, one, most),
      (
        (λ full.
            let first : 0 < count (λ d. is_day l day d && test d) table =
              omega (arith, split, one, most, full) in
            (there.1 first, rest.0 (omega (arith, split, one, most, full)))),
        (λ all_there.
            let first : 0 < count (λ d. is_day l day d && test d) table = there.0 all_there.0 in
            let others : count (in_span l (day + 1) n test) table ≡ n = rest.1 all_there.1 in
            omega (arith, split, one, most, first, others)),
      ),
    )

-- A row that is open for a stay of `n` nights.
abbrev pub is_open_for : ℕ → CalendarDay → Bool
is_open_for n d = d.is_available && leb (or_else d.min_nights 1) n

all_open :
    (n : ℕ) (days : List CalendarDay)
    → 1 ≤ n
    → (all (λ d. d.is_available) days && leb (required_min days) n) ≡ all (is_open_for n) days
all_open n [] h = ground (arith, h)
all_open n (d ∷ days) h = ground (arith, all_open n days h)

module _ (table : List CalendarDay) (unique : IsUnique table) (check_in n : ℕ)
    (l : BookableListing) where
  read_count :
      length (days_of table (span check_in n) l.id)
      ≡ count (in_span l.id check_in n (λ d. true)) table
  read_count =
      length-keep (λ d. l.id == d.listing_id && is_night (span check_in n) d.date) table
      ∙ count_cong (λ d. l.id == d.listing_id && is_night (span check_in n) d.date)
          (in_span l.id check_in n (λ d. true)) table (λ d. ground arith)

  cache_complete_iff :
      (leb n (length (days_of table (span check_in n) l.id)) ≡ true)
      ↔ All (λ night. has_night table l.id (λ d. true) night ≡ true) (span check_in n)
  cache_complete_iff =
      let (most, full) = count-span l.id check_in n (λ d. true) table unique in
      (
        (λ h. full.0 (ground (arith, h, most, read_count))),
        (λ h.
            let as_many : count (in_span l.id check_in n (λ d. true)) table ≡ n = full.1 h in
            ground (arith, as_many, read_count)),
      )

  open_iff :
      1 ≤ n
      → ((leb n (length (days_of table (span check_in n) l.id))
            && is_stay_available (days_of table (span check_in n) l.id) n)
          ≡ true)
        ↔ All (λ night. has_night table l.id (is_open_for n) night ≡ true) (span check_in n)
  unfolding is_stay_available
  open_iff long =
      let days : List CalendarDay = days_of table (span check_in n) l.id in
      let inside : CalendarDay → Bool =
        λ d. l.id == d.listing_id && is_night (span check_in n) d.date in
      let (most, full) = count-span l.id check_in n (is_open_for n) table unique in
      let (most_read, any_full) = count-span l.id check_in n (λ d. true) table unique in
      let fewer : count (in_span l.id check_in n (is_open_for n)) table ≤ count inside table =
        count_both-le inside (is_open_for n) table in
      let read : length days ≡ count inside table = length-keep inside table in
      let at_most : count inside table ≤ n = omega (arith, read, read_count, most_read) in
      let opens = all_open n days long in
      let kept = all-keep_iff inside (is_open_for n) table in
      (
        (λ h.
            let as_many : length days ≡ n = ground (arith, h) in
            let all_there : all (is_open_for n) days ≡ true = ground (arith, h, opens) in
            let same : count (in_span l.id check_in n (is_open_for n)) table ≡ count inside table =
              kept.0 all_there in
            full.0 (omega (arith, same, as_many, read))),
        (λ h.
            let counted : count (in_span l.id check_in n (is_open_for n)) table ≡ n = full.1 h in
            let all_there : all (is_open_for n) days ≡ true =
              kept.1 (omega (arith, counted, fewer, at_most)) in
            let as_many : length days ≡ n = omega (arith, counted, fewer, at_most, read) in
            ground (arith, as_many, all_there, opens)),
      )

-- A listing is reported free for a stay exactly if the calendar has, for each night of the stay, a row of
-- the listing that is available and wants no longer stay; and without a live refresh its
-- availability is reported as known exactly if the calendar has a row for each night. The calendar has
-- one row for each listing and day, and the stay ends after it begins.
pub evaluate_listing_iff :
    (table : List CalendarDay) (check_in check_out : ℕ) (live : Bool) (l : BookableListing)
    → IsUnique table
    → check_in < check_out
    → (((evaluate_listing table (enumerate_dates check_in check_out) live l).available ≡ true)
        ↔ All
            (λ night. has_night table l.id (is_open_for (check_out - check_in)) night ≡ true)
            (span check_in (check_out - check_in)))
      × (((evaluate_listing table (enumerate_dates check_in check_out) false l).availability_unknown
            ≡ false)
          ↔ All
              (λ night. has_night table l.id (λ d. true) night ≡ true)
              (span check_in (check_out - check_in)))
unfolding evaluate_listing enumerate_dates
evaluate_listing_iff table check_in check_out live l unique later =
    let n : ℕ = check_out - check_in in
    let nights : dates_from n check_in check_out ≡ span check_in n =
      dates_from-eq-span n check_in check_out (omega (arith, later)) in
    let long : 1 ≤ n = omega (arith, later) in
    let size : length (span check_in n) ≡ n = length-span check_in n in
    let known = cache_complete_iff table unique check_in n l in
    rw (nights, size)
      (
        open_iff table unique check_in n l long,
        ((λ h. known.0 (ground (arith, h))), (λ h. ap not (known.1 h))),
      )
