-- ===== src/Check24/Bookings/Terminal.antt =====
-- A booking that ends at CHECK24: `processBooking` with a terminal status.
use fonio_middleware.Base.{
  if◌then◌else◌, Bool, ap, sym, subst, inr, find_sound, inl, arith, Option-cases, ◌∷◌, refl, ◌≡◌,
  find, [], is_some, List, ℕ, Option, false, true, some, none,
}
use fonio_middleware.Check24.Bookings.{
  BookingOutcome, cancel_reservation, BookingConfig, already_cancelled, hostaway_cancel_failed,
  PropertyMapping, push_availability, ImportCall, MappedListing, LocalReservation, ForceOpenStay,
  BookingRow, BookingError, Outside, BookingStore, Booking,
}
use fonio_middleware.Base.Text.{lit, Text}
use fonio_middleware.Check24.Bookings.Store.{
  is_terminal_status, call_out, upsert_row, find_row, pushed, update_row, sync_single_reservation,
  mark_cancelled, update_reservations, mapped_listing, is_row, is_reservation, find_reservation,
  push_property, is_hostaway_cancelled,
}
use fonio_middleware.Check24.Bookings.Cancel.{
  reopen, cancel_imported_reservation, is_locally_cancelled, cancel_at_hostaway, cancel_linked,
  stay_of, settled_row, cancel_answered,
}
use fonio_middleware.Payments.Table.{find-update_where, update_where}
use fonio_middleware.Payments.Program.{err, ok, Result}
use fonio_middleware.Check24.Bookings.Process.{process_booking}
use fonio_middleware.Check24.Bookings.Links.{upsert_row-is_some, link_of}

-- The row of the booking has the status, and is processed.
abbrev pub IsSettledRow : Booking → BookingStore → Type 0
IsSettledRow b s =
    (r : BookingRow) × (find (is_row b.booking_id) s.bookings ≡ some r)
    × (r.status ≡ b.status)
    × (r.is_processed ≡ true)

abbrev pub excluded_of : Option ℕ → List ℕ
excluded_of none = []
excluded_of (some id) = id ∷ []

-- The stay is given up: the row is settled, the reservation that the booking is linked with is cancelled
-- here, and the last call has opened the days of the stay, if the property has a listing.
abbrev pub IsGivenUp : Booking → Option ℕ → BookingStore → BookingStore → Type 0
IsGivenUp b link s s' =
    IsSettledRow b s'
    × ((id : ℕ) (r : LocalReservation)
        → link ≡ some id
        → find_reservation id s' ≡ some r
        → is_hostaway_cancelled r.status ≡ true)
    × ((l : MappedListing)
        → mapped_listing b.property_id s.mappings ≡ some l
        → (earlier : List ImportCall) × (s'.calls
            ≡ push_availability l (some (stay_of b (excluded_of link))) ∷ earlier))

find-some :
    (k : Text) (rows : List BookingRow)
    → is_some (find (is_row k) rows) ≡ true
    → (r : BookingRow) × (find (is_row k) rows ≡ some r)
find-some k rows there = elim (Option-cases (find (is_row k) rows)) [
  | inl missing ↦ absurd (ground (arith, missing))
  | inr found ↦ found
]

settle_row-IsSettledRow :
    (b : Booking) (e : Option BookingError) (rows : List BookingRow)
    → is_some (find (is_row b.booking_id) rows) ≡ true
    → (r : BookingRow) × (find
          (is_row b.booking_id)
          (update_where (is_row b.booking_id) (settled_row b e) rows)
        ≡ some r)
      × (r.status ≡ b.status)
      × (r.is_processed ≡ true)
settle_row-IsSettledRow b e rows there =
    let (r, found) = find-some b.booking_id rows there in
    let kept : is_row b.booking_id r ≡ true = find_sound (is_row b.booking_id) rows r found in
    (
      settled_row b e r,
      find-update_where (is_row b.booking_id) (settled_row b e) rows r found kept,
      refl,
      refl,
    )

is_cancelled_now : is_hostaway_cancelled (lit "cancelled") ≡ true
unfolding is_hostaway_cancelled
is_cancelled_now = refl

mark_cancelled_marks :
    (id : ℕ) (rows : List LocalReservation) (r : LocalReservation)
    → find
        (is_reservation id)
        (update_reservations id (λ r. record r { status = lit "cancelled" }) rows)
      ≡ some r
    → r.status ≡ lit "cancelled"
mark_cancelled_marks id [] r e = absurd (ground arith)
mark_cancelled_marks id (x ∷ rows) r e = ground (arith, e, mark_cancelled_marks id rows r)

-- The last call of each branch.
opened :
    (b : Booking) (stay : ForceOpenStay) (mappings : List PropertyMapping) (calls : List ImportCall)
    (l : MappedListing)
    → mapped_listing b.property_id mappings ≡ some l
    → (earlier : List ImportCall) × (pushed
          (mapped_listing b.property_id mappings)
          (some stay)
          calls
        ≡ push_availability l (some stay) ∷ earlier)
opened b stay mappings calls l e = (calls, ap (λ o. pushed o (some stay) calls) e)

marked_cancelled :
    (id id' : ℕ) (rows : List LocalReservation) (r : LocalReservation)
    → ◌≡◌ {A = Option ℕ} (some id) (some id')
    → find
        (is_reservation id')
        (update_reservations id (λ r. record r { status = lit "cancelled" }) rows)
      ≡ some r
    → is_hostaway_cancelled r.status ≡ true
marked_cancelled id id' rows r same e =
    let equal : id ≡ id' = ground (arith, same) in
    let status : r.status ≡ lit "cancelled" = mark_cancelled_marks id rows r (
      subst
        (λ (n : ℕ).
          find (is_reservation n)
            (update_reservations id (λ r. record r { status = lit "cancelled" }) rows)
          ≡ some r)
        (sym equal) e) in
    subst (λ t. is_hostaway_cancelled t ≡ true) (sym status) is_cancelled_now

module _ (env : Outside) (b : Booking) (s : BookingStore) where
  cancel_answered-IsGivenUp :
      (id : ℕ) (answer : Result Text (Unit {0})) (t : BookingStore)
      → is_some (find (is_row b.booking_id) t.bookings) ≡ true
      → IsSettledRow b t
      → t.mappings ≡ s.mappings
      → IsGivenUp b (some id) s (cancel_answered env b id answer t).1
  unfolding cancel_answered push_property mark_cancelled sync_single_reservation find_reservation
      update_row
  cancel_answered-IsGivenUp id (ok done) t there settled same = (
    settled,
    λ id' r link e.
        marked_cancelled id id' (sync_single_reservation env id (mark_cancelled id t)).reservations
          r link e,
    λ l e.
        opened b (stay_of b (id ∷ [])) t.mappings
          (sync_single_reservation env id (mark_cancelled id t)).calls l (rw same e),
  )
  cancel_answered-IsGivenUp id (err e) t there settled same = (
    settle_row-IsSettledRow b (some (hostaway_cancel_failed e)) t.bookings there,
    λ id' r link e. marked_cancelled id id' t.reservations r link e,
    λ l e. opened b (stay_of b (id ∷ [])) t.mappings t.calls l (rw same e),
  )

  locally_cancelled_sound :
      (id id' : ℕ) (r : LocalReservation)
      → is_locally_cancelled id s ≡ true
      → ◌≡◌ {A = Option ℕ} (some id) (some id')
      → find (is_reservation id') s.reservations ≡ some r
      → is_hostaway_cancelled r.status ≡ true
  unfolding find_reservation
  locally_cancelled_sound id id' r gone same e =
      let equal : id' ≡ id = ground (arith, same) in
      let found : find (is_reservation id) s.reservations ≡ some r =
        subst (λ (n : ℕ). find (is_reservation n) s.reservations ≡ some r) equal e in
      ground (arith, gone, found)

  cancel_chosen-IsGivenUp :
      (id : ℕ) (gone : Bool)
      → is_locally_cancelled id s ≡ gone
      → is_some (find (is_row b.booking_id) s.bookings) ≡ true
      → IsGivenUp b
          (some id)
          s
          (if gone
            then reopen b
                (id ∷ [])
                (already_cancelled b.status id)
                (update_row b.booking_id (settled_row b none) s)
            else cancel_at_hostaway env b id s).1
  unfolding push_property find_reservation update_row cancel_at_hostaway
  cancel_chosen-IsGivenUp id true gone there = (
    settle_row-IsSettledRow b none s.bookings there,
    λ id' r link e. locally_cancelled_sound id id' r gone link e,
    opened b (stay_of b (id ∷ [])) s.mappings s.calls,
  )
  cancel_chosen-IsGivenUp id false still there =
      let asked : BookingStore =
        call_out (cancel_reservation id) (update_row b.booking_id (settled_row b none) s) in
      let settled : IsSettledRow b asked = settle_row-IsSettledRow b none s.bookings there in
      cancel_answered-IsGivenUp id (env.cancel_answer asked.calls) asked (ap is_some settled.1)
        settled refl

  cancel_linked-IsGivenUp :
      (link : Option ℕ)
      → is_some (find (is_row b.booking_id) s.bookings) ≡ true
      → IsGivenUp b link s (cancel_linked env b link s).1
  unfolding cancel_linked push_property find_reservation update_row
  cancel_linked-IsGivenUp none there = (
    settle_row-IsSettledRow b none s.bookings there,
    λ id r link e. absurd (ground arith),
    opened b (stay_of b []) s.mappings s.calls,
  )
  cancel_linked-IsGivenUp (some id) there =
      cancel_chosen-IsGivenUp id (is_locally_cancelled id s) refl there

-- A booking with a terminal status is given up, whatever is answered: `processBooking` returns and does
-- not throw, the row has the status and is processed, the reservation that the booking was linked with
-- is cancelled in the database also if Hostaway refuses to cancel it, and the last call pushes the
-- calendar of the listing with the days of the stay opened and that reservation left aside, if the
-- property has a listing.
pub process_booking_gives_up :
    (env : Outside) (cfg : BookingConfig) (b : Booking) (s : BookingStore)
    → is_terminal_status b.status ≡ true
    → ((o : BookingOutcome) × ((process_booking env cfg b s).0 ≡ ok o))
      × IsGivenUp b (link_of b.booking_id s) s (process_booking env cfg b s).1
unfolding process_booking cancel_imported_reservation find_row upsert_row
process_booking_gives_up env cfg b s ends =
    let saved : BookingStore = upsert_row b s in
    rw ends (
      (_, refl),
      cancel_linked-IsGivenUp env b saved (link_of b.booking_id s) (upsert_row-is_some b s),
    )
