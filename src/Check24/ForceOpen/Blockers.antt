-- ===== src/Check24/ForceOpen/Blockers.antt =====
-- The nights that a reservation holds, and the blockers that `forceOpenCalendarRange` takes for them.
use fonio_middleware.Check24.ForceOpen.{
  is_blocker, is_overlapping, exclude_ids, blocked_in, is_terminal_row, is_terminal_of,
  is_inactive_status, linked_ids, excluded_by_caller, blocked_nights, contains_id, CancelRow,
  SyncTables, CalendarStay,
}
use fonio_middleware.Base.{
  All-mono, map, All, inr, ◌∙◌, zero, refl, inl, ◌-◌, suc, [], Bool-cases, ◌∷◌, ◌+◌, not, none,
  arith, ◌||◌, ◌&&◌, true, some, leb, keep, ◌≡◌, ◌==◌, ◌++◌, ltb, false, any, Bool, ℕ, List,
}
use fonio_middleware.Check24.Calendar.{each_night_ymd}
use fonio_middleware.Check24.Calendar.Nights.{each_night_ymd-eq-span, span}

abbrev is_linked_row : ℕ → CancelRow → Bool
is_linked_row id row = elim row.hostaway_reservation_id [ none ↦ false | some other ↦ id == other ]

-- A reservation that is no longer one: the caller names it, or its CHECK24 booking has ended.
abbrev pub is_given_up : List CancelRow → List ℕ → ℕ → Bool
is_given_up bookings ids id =
    ltb 0 id
    && (contains_id ids id || any (λ row. is_linked_row id row && is_terminal_row row) bookings)

-- A reservation that takes a night of a listing.
abbrev pub holds : List CancelRow → List ℕ → ℕ → ℕ → CalendarStay → Bool
holds bookings ids listing_id night r =
    (listing_id == r.listing_id && (leb r.arrival_date night && ltb night r.departure_date))
    && (not (is_given_up bookings ids r.hostaway_id) && not (is_inactive_status r.status))

abbrev pub is_held : SyncTables → List ℕ → ℕ → ℕ → Bool
is_held t ids listing_id night = any (holds t.bookings ids listing_id night) t.stays

contains_id-append :
    (xs ys : List ℕ) (id : ℕ) → contains_id (xs ++ ys) id ≡ contains_id xs id || contains_id ys id
contains_id-append [] ys id = refl
contains_id-append (x ∷ xs) ys id = ground (arith, contains_id-append xs ys id)

contains_id-span : (day n id : ℕ) → contains_id (span day n) id ≡ leb day id && ltb id (day + n)
contains_id-span day zero id = ground arith
contains_id-span day (suc n) id = ground (arith, contains_id-span (day + 1) n id)

pub contains_id-each_night_ymd :
    (from to night : ℕ)
    → contains_id (each_night_ymd from to) night ≡ leb from night && ltb night to
contains_id-each_night_ymd from to night =
    rw (each_night_ymd-eq-span from to) (contains_id-span from (to - from) night ∙ ground arith)

contains_id-excluded_by_caller :
    (ids : List ℕ) (id : ℕ)
    → contains_id (excluded_by_caller ids) id ≡ ltb 0 id && contains_id ids id
contains_id-excluded_by_caller [] id = ground arith
contains_id-excluded_by_caller (x ∷ ids) id = ground (arith, contains_id-excluded_by_caller ids id)

-- An id of the reservations is excluded exactly if it is above 0 and a terminal row has it.
contains_id-linked_ids :
    (known : List ℕ) (bookings : List CancelRow) (id : ℕ)
    → contains_id known id ≡ true
    → contains_id (linked_ids (keep (is_terminal_of known) bookings)) id
      ≡ ltb 0 id && any (λ row. is_linked_row id row && is_terminal_row row) bookings
contains_id-linked_ids known [] id h = ground arith
contains_id-linked_ids known (row ∷ bookings) id h =
    ground (arith, h, contains_id-linked_ids known bookings id h)

blocked_nights_lem :
    (p : CalendarStay → Bool) (rs : List CalendarStay) (night : ℕ)
    → contains_id (blocked_nights (keep p rs)) night
      ≡ any (λ r. p r && (leb r.arrival_date night && ltb night r.departure_date)) rs
blocked_nights_lem p [] night = refl
blocked_nights_lem p (r ∷ rs) night = elim (Bool-cases (p r)) [
  | inl kept ↦
      let cut : keep p (r ∷ rs) ≡ r ∷ keep p rs = ground (arith, kept) in
      rw (cut, kept)
        (contains_id-append (each_night_ymd r.arrival_date r.departure_date)
            (blocked_nights (keep p rs)) night
          ∙ ground (
            arith,
            contains_id-each_night_ymd r.arrival_date r.departure_date night,
            blocked_nights_lem p rs night,
          ))
  | inr dropped ↦
      let cut : keep p (r ∷ rs) ≡ keep p rs = ground (arith, dropped) in
      rw (cut, dropped) (blocked_nights_lem p rs night)
]

-- The blockers are the reservations that hold the night.
known-All :
    (rs : List CalendarStay)
    → All (λ r. contains_id (map (λ s. s.hostaway_id) rs) r.hostaway_id ≡ true) rs
known-All [] = tt
known-All (r ∷ rs) = (ground arith, All-mono (λ s h. ground (arith, h)) rs (known-All rs))

every_stay :
    {P : CalendarStay → Type 0} → ((r : CalendarStay) → P r) → (rs : List CalendarStay) → All P rs
every_stay f [] = tt
every_stay f (r ∷ rs) = (f r, every_stay f rs)

any_cong :
    (p q : CalendarStay → Bool) (rs : List CalendarStay)
    → All (λ r. p r ≡ q r) rs
    → any p rs ≡ any q rs
any_cong p q [] h = refl
any_cong p q (r ∷ rs) h = ground (arith, h.0, any_cong p q rs h.1)

any-keep :
    (p q : CalendarStay → Bool) (rs : List CalendarStay)
    → any p (keep q rs) ≡ any (λ r. q r && p r) rs
any-keep p q [] = refl
any-keep p q (r ∷ rs) = ground (arith, any-keep p q rs)

-- Whom the code excludes is whom the definition above calls given up.
contains_id-exclude_ids :
    (bookings : List CancelRow) (ids : List ℕ) (rs : List CalendarStay) (r : CalendarStay)
    → contains_id (map (λ s. s.hostaway_id) rs) r.hostaway_id ≡ true
    → contains_id (exclude_ids ids rs bookings) r.hostaway_id
      ≡ is_given_up bookings ids r.hostaway_id
unfolding exclude_ids
contains_id-exclude_ids bookings ids rs r h =
    let known : List ℕ = map (λ s. s.hostaway_id) rs in
    contains_id-append (excluded_by_caller ids) (linked_ids (keep (is_terminal_of known) bookings))
      r.hostaway_id
    ∙ ground (
      arith,
      contains_id-excluded_by_caller ids r.hostaway_id,
      contains_id-linked_ids known bookings r.hostaway_id h,
    )

-- A night of the range is blocked exactly if a reservation holds it.
pub blocked-is_held :
    (t : SyncTables) (l from to : ℕ) (ids : List ℕ) (night : ℕ)
    → leb from night && ltb night to ≡ true
    → contains_id (blocked_in t l from to ids) night ≡ is_held t ids l night
unfolding blocked_in
blocked-is_held t l from to ids night inside =
    let overlapping : List CalendarStay = keep (is_overlapping l from to) t.stays in
    let exclude : List ℕ = exclude_ids ids overlapping t.bookings in
    let on_night : CalendarStay → Bool =
      λ r. leb r.arrival_date night && ltb night r.departure_date in
    let active : CalendarStay → Bool =
      λ r. not (is_given_up t.bookings ids r.hostaway_id) && not (is_inactive_status r.status) in
    blocked_nights_lem (is_blocker exclude) overlapping night
    ∙ any_cong (λ r. is_blocker exclude r && on_night r) (λ r. active r && on_night r) overlapping
        (All-mono (λ r h. ground (arith, contains_id-exclude_ids t.bookings ids overlapping r h))
          overlapping (known-All overlapping))
    ∙ any-keep (λ r. active r && on_night r) (is_overlapping l from to) t.stays
    ∙ any_cong (λ r. is_overlapping l from to r && (active r && on_night r))
        (holds t.bookings ids l night) t.stays (every_stay (λ r. ground (arith, inside)) t.stays)
