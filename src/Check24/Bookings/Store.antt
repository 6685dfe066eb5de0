-- ===== src/Check24/Bookings/Store.antt =====
-- The reads and writes of src/check24/check24-booking.service.ts on its tables, and
-- `syncSingleReservation` of src/hostaway/hostaway-sync.service.ts.
use fonio_middleware.Base.{
  [], ◌==◌, map, any, ◌∷◌, if◌then◌else◌, find, List, Bool, ℕ, Option, false, some, none,
}
use fonio_middleware.Payments.Program.{ok, err}
use fonio_middleware.Check24.Bookings.{
  push_availability, PropertyMapping, get_reservation, LocalReservation, ForceOpenStay,
  RemoteReservation, Outside, MappedListing, ImportCall, BookingStore, BookingRow, Booking,
}
use fonio_middleware.Base.Text.{trim, to_lower, text_eq, is_empty, lit, Text}
use fonio_middleware.Payments.Table.{update_where}

abbrev pub is_row : Text → BookingRow → Bool
is_row id r = text_eq id r.booking_id

-- `findUnique`
unfoldable pub find_row : Text → List BookingRow → Option BookingRow
find_row id rows = find (is_row id) rows

-- The `update` of a row; its key is kept.
unfoldable pub update_row : Text → (BookingRow → BookingRow) → BookingStore → BookingStore
update_row id f s = record s { bookings = update_where (is_row id) f s.bookings }

abbrev pub new_row : Booking → BookingRow
new_row b = record {
  booking_id = b.booking_id;
  property_id = b.property_id;
  status = b.status;
  hostaway_reservation_id = none;
  is_processed = false;
  last_error = none;
}

abbrev pub seen_row : Booking → BookingRow → BookingRow
seen_row b r = record r { property_id = b.property_id; status = b.status }

-- `upsert`, of the row that `findUnique` has found.
unfoldable pub upserted : Option BookingRow → Booking → List BookingRow → List BookingRow
upserted none b rows = new_row b ∷ rows
upserted (some r) b rows = update_where (is_row b.booking_id) (seen_row b) rows

unfoldable pub upsert_row : Booking → BookingStore → BookingStore
upsert_row b s = record s { bookings = upserted (find_row b.booking_id s.bookings) b s.bookings }

-- `existing?.hostawayReservationId`, where 0 counts as none.
abbrev pub linked : Option BookingRow → Option ℕ
linked none = none
linked (some r) = elim r.hostaway_reservation_id [
  | none ↦ none
  | some id ↦ if id == 0 then none else some id
]

abbrev pub is_reservation : ℕ → LocalReservation → Bool
is_reservation id r = r.hostaway_id == id

unfoldable pub find_reservation : ℕ → BookingStore → Option LocalReservation
find_reservation id s = find (is_reservation id) s.reservations

-- `updateMany`
abbrev pub update_reservations :
    ℕ → (LocalReservation → LocalReservation) → List LocalReservation → List LocalReservation
update_reservations id f rows = map (λ r. if r.hostaway_id == id then f r else r) rows

unfoldable pub mark_cancelled : ℕ → BookingStore → BookingStore
mark_cancelled id s = record s {
  reservations = update_reservations id (λ r. record r { status = lit "cancelled" }) s.reservations;
}

unfoldable pub mapped_listing : Text → List PropertyMapping → Option MappedListing
mapped_listing property_id mappings =
    elim (find (λ (m : PropertyMapping). text_eq property_id m.property_id) mappings) [
      | none ↦ none
      | some m ↦ m.listing
    ]

abbrev pub or_old : Option Text → Option Text → Option Text
or_old none old = old
or_old (some t) old = some t

-- `x?.trim() || null`
abbrev pub trimmed : Option Text → Option Text
trimmed none = none
trimmed (some t) = if is_empty (trim t) then none else some (trim t)

-- `buildReservationData`: a contact that Hostaway does not have is kept.
abbrev pub synced : RemoteReservation → LocalReservation → LocalReservation
synced remote r = record r {
  status = remote.status;
  guest_email = or_old (trimmed remote.guest_email) r.guest_email;
  guest_phone = or_old (trimmed remote.phone) r.guest_phone;
  arrival_date = remote.arrival_date;
  departure_date = remote.departure_date;
}

abbrev pub upsert_reservation :
    ℕ → RemoteReservation → List LocalReservation → List LocalReservation
upsert_reservation id remote rows = elim (find (is_reservation id) rows) [
  | some r ↦ update_where (is_reservation id) (synced remote) rows
  | none ↦
      record {
        hostaway_id = id;
        status = remote.status;
        guest_email = trimmed remote.guest_email;
        guest_phone = trimmed remote.phone;
        arrival_date = remote.arrival_date;
        departure_date = remote.departure_date;
      }
      ∷ rows
]

-- `syncSingleReservation`
unfoldable pub sync_single_reservation : Outside → ℕ → BookingStore → BookingStore
sync_single_reservation env id s =
    let asked = get_reservation id ∷ s.calls in
    record s {
      calls = asked;
      reservations = elim (env.reservation_answer asked) [
        | err e ↦ s.reservations
        | ok remote ↦
            if any (λ listing. listing == remote.listing_map_id) s.listings
            then upsert_reservation id remote s.reservations
            else s.reservations
      ];
    }

abbrev pub call_out : ImportCall → BookingStore → BookingStore
call_out c s = record s { calls = c ∷ s.calls }

-- `pushAvailabilityAfterBookingChange`; a failed push is only logged.
abbrev pub push_listing : MappedListing → Option ForceOpenStay → BookingStore → BookingStore
push_listing l stay s = call_out (push_availability l stay) s

abbrev pub pushed : Option MappedListing → Option ForceOpenStay → List ImportCall → List ImportCall
pushed none stay calls = calls
pushed (some l) stay calls = push_availability l stay ∷ calls

-- `pushAvailabilityForProperty`
unfoldable pub push_property : Text → Option ForceOpenStay → BookingStore → BookingStore
push_property property_id stay s = record s {
  calls = pushed (mapped_listing property_id s.mappings) stay s.calls;
}

-- `isTerminalStatus`
unfoldable pub is_terminal_status : Text → Bool
is_terminal_status status =
    any (text_eq (to_lower status))
      (lit "declined" ∷ lit "canceled" ∷ lit "cancelled" ∷ lit "failed" ∷ [])

unfoldable pub is_hostaway_cancelled : Text → Bool
is_hostaway_cancelled status =
    any (text_eq (to_lower status))
      (lit "cancelled" ∷ lit "canceled" ∷ lit "declined" ∷ lit "expired" ∷ [])
