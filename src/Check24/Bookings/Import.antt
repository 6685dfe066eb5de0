-- ===== src/Check24/Bookings/Import.antt =====
-- The import of a booking into Hostaway: the part of `processBooking` in
-- src/check24/check24-booking.service.ts behind its first guards.
use fonio_middleware.Base.{
  ◌&&◌, ◌==◌, ◌+◌, ltb, ◌∷◌, ◌++◌, max, length, if◌then◌else◌, any, [], not, find, ℕ, take, or_else,
  Bool, Option, List, false, true, some, none,
}
use fonio_middleware.Check24.Bookings.{
  imported, send_welcome, no_local_mapping, update_reservation, no_children, accept_failed,
  create_reservation, aged, accept_booking, request_payment, get_custom_fields, BookingOutcome,
  listed, FieldValue, BookingStore, BookingRow, ReservationPayload, PaymentRequest, MappedListing,
  CustomField, BookingError, Outside, Guest, Children, BookingConfig, Booking,
}
use fonio_middleware.Base.Text.{trim, to_lower, is_empty, includes, text_eq, lit, Text}
use fonio_middleware.Payments.Program.{settle, pure, err, continue, ok, Result, Program}
use fonio_middleware.Check24.Bookings.Store.{
  push_listing, update_row, sync_single_reservation, or_old, mapped_listing, update_reservations,
  call_out, trimmed,
}
use fonio_middleware.Base.Int.{ℤ}

-- `countChildren`
abbrev pub count_children : Children → ℕ
count_children no_children = 0
count_children (listed ages) = length ages
count_children (aged none) = 0
count_children (aged (some ages)) = length ages

-- `a?.trim() || b?.trim() || default`
unfoldable pub name_part : Option Text → Option Text → Text → Text
name_part a b default = or_else (trimmed a) (or_else (trimmed b) default)

abbrev pub no_guest : Guest
no_guest = record { first_name = none; last_name = none; email = none; phone = none }

abbrev pub guest_of : Booking → Guest
guest_of b = or_else b.guest no_guest

abbrev pub booker_of : Booking → Guest
booker_of b = or_else b.booker no_guest

unfoldable pub host_note_of : Booking → Text
host_note_of b = take 500 (
    lit "[CHECK24 "
    ++ (b.booking_id
        ++ (lit "] status="
            ++ (b.status ++ elim b.comments [
              | none ↦ []
              | some t ↦ if is_empty t then [] else lit " — " ++ t
            ]))))

unfoldable pub payload_of :
    BookingConfig → MappedListing → Booking → List FieldValue → ReservationPayload
payload_of cfg l b values =
    let first = name_part (guest_of b).first_name (booker_of b).first_name (lit "CHECK24") in
    let last = name_part (guest_of b).last_name (booker_of b).last_name (lit "Guest") in
    let adults = max 1 (or_else b.number_adults 1) in
    let children = count_children b.children in
    record {
      channel_id = or_else cfg.channel_id 2000;
      listing_map_id = l.listing_hostaway_id;
      guest_first_name = first;
      guest_last_name = last;
      guest_name = trim (first ++ (32 ∷ last));
      number_of_guests = adults + children;
      adults = adults;
      children_count = if children == 0 then none else some children;
      arrival_date = b.date_from;
      departure_date = b.date_to;
      total_price = b.total_price;
      currency = or_else b.currency_code (lit "EUR");
      host_note = host_note_of b;
      guest_note = elim b.comments [ none ↦ none | some t ↦ some (take 500 t) ];
      custom_field_values = values;
    }

-- `findCustomField`
unfoldable pub find_custom_field : List CustomField → List Text → Option CustomField
find_custom_field fields needles =
    find
      (λ (f : CustomField).
        any (includes (to_lower (or_else f.name [] ++ (32 ∷ or_else f.var_name [])))) needles)
      fields

abbrev pub value_for : Option CustomField → Text → List FieldValue
value_for none value = []
value_for (some f) value = record { custom_field_id = f.field_id; value = value } ∷ []

abbrev pub portal_field : BookingConfig → List CustomField → Option CustomField
portal_field cfg fields =
    let configured = or_else cfg.custom_field_id 0 in
    let by_name =
      find_custom_field fields (lit "buchungsportal" ∷ lit "reservation_buchungsportal" ∷ []) in
    if ltb 0 configured
    then elim (find (λ (f : CustomField). f.field_id == configured) fields) [
      | some f ↦ some f
      | none ↦ by_name
    ]
    else by_name

abbrev pub external_field : List CustomField → Option CustomField
external_field fields = find_custom_field fields (
    lit "externe buchungsnummer"
    ∷ lit "externe_buchungsnummer"
    ∷ lit "reservation_externe_buchungsnummer"
    ∷ [])

-- The labels of the booking, by the answer of `getCustomFields`.
abbrev pub field_values :
    BookingConfig → Text → Result Text (List CustomField) → Result Text (List FieldValue)
field_values cfg booking_id (err e) = err e
field_values cfg booking_id (ok fields) = ok (
    value_for (portal_field cfg fields) (or_else cfg.portal_value (lit "CHECK24"))
    ++ value_for (external_field fields) booking_id)

-- What Hostaway has after the answer of `createReservation`.
abbrev pub with_creation : Text → BookingStore → Result Text ℕ → Result Text ℕ × BookingStore
with_creation booking_id s (ok id) = (ok id, record s { created = (booking_id, id) ∷ s.created })
with_creation booking_id s (err e) = (err e, s)

-- The contact stays in the database only.
unfoldable pub store_contact : Booking → ℕ → BookingStore → BookingStore
store_contact b id s =
    let email = trimmed (guest_of b).email in
    let phone = trimmed (guest_of b).phone in
    record s {
      reservations =
          update_reservations id
            (λ r. record r {
              guest_email = or_old email r.guest_email;
              guest_phone = or_old phone r.guest_phone;
            })
            s.reservations;
    }

abbrev pub no_request : PaymentRequest
no_request = record { is_sent = false; guest_portal_url = none; deadline_at = none }

abbrev pub imported_row : Booking → ℕ → BookingRow → BookingRow
imported_row b id r = record r {
  hostaway_reservation_id = some id;
  is_processed = true;
  last_error = none;
  status = b.status;
}

-- The row after the answer of `acceptBooking`.
abbrev pub accepted_row : ℕ → Result Text (Unit {0}) → BookingRow → BookingRow
accepted_row id answer r = record r {
  status = elim answer [ ok done ↦ lit "booked" | err e ↦ r.status ];
  last_error = elim answer [ ok done ↦ r.last_error | err e ↦ some (accept_failed id e) ];
}

abbrev pub failed_row : BookingError → BookingRow → BookingRow
failed_row e r = record r { last_error = some e }

module _ (env : Outside) (cfg : BookingConfig) where
  -- `resolveCheck24CustomFieldValues`
  unfoldable pub resolve_custom_field_values : Text → Program BookingStore Text (List FieldValue)
  resolve_custom_field_values booking_id s =
      let asked = call_out get_custom_fields s in
      (field_values cfg booking_id (env.fields_answer asked.calls), asked)

  -- `createReservation`: Hostaway has the reservation from its answer on.
  unfoldable pub create_at_hostaway : Text → ReservationPayload → Program BookingStore Text ℕ
  create_at_hostaway booking_id payload s =
      let asked = call_out (create_reservation payload) s in
      with_creation booking_id asked (env.create_answer asked.calls)

  -- The handler of the first creation: once more without the custom fields.
  unfoldable pub second_try :
      Text
      → ReservationPayload
      → Result Text ℕ × BookingStore
      → Result Text (ℕ × Bool) × BookingStore
  second_try booking_id payload =
      settle
        (λ e s.
          continue (λ id. pure (id, false))
            (create_at_hostaway booking_id (record payload { custom_field_values = [] }) s))
        (λ id. pure (id, true))

  -- The creation, and whether Hostaway took the custom fields.
  unfoldable pub create_with_labels :
      Text → ReservationPayload → Program BookingStore Text (ℕ × Bool)
  create_with_labels booking_id payload s = elim payload.custom_field_values [
    | [] ↦ continue (λ id. pure (id, false)) (create_at_hostaway booking_id payload s)
    | v ∷ vs ↦ second_try booking_id payload (create_at_hostaway booking_id payload s)
  ]

  -- `applyHostawayCheck24Labels`; its errors are only logged.
  unfoldable pub apply_labels : ℕ → Text → BookingStore → BookingStore
  apply_labels id booking_id s =
      let asked = get_custom_fields ∷ s.calls in
      record s {
        calls = elim (resolve_custom_field_values booking_id s).0 [
          | err e ↦ asked
          | ok [] ↦ asked
          | ok (v ∷ vs) ↦ update_reservation id (v ∷ vs) ∷ asked
        ];
      }

  -- `requestPaymentOnImport` and `sendImportWelcome`
  unfoldable pub write_to_guest : Booking → Text → ℕ → BookingStore → BookingStore
  write_to_guest b host_note id s =
      let asked = request_payment id host_note (trimmed (guest_of b).email) ∷ s.calls in
      let request : PaymentRequest = elim (env.payment_answer asked) [
        | err e ↦ no_request
        | ok r ↦ r
      ] in
      let amount : Option ℤ = if request.is_sent then b.total_price else none in
      record s {
        calls =
            send_welcome id b.booking_id request.guest_portal_url request.deadline_at amount
              (or_else b.currency_code (lit "EUR"))
            ∷ asked;
      }

  abbrev pub accepts_enquiries : Bool
  accepts_enquiries =
      not (text_eq (to_lower (or_else cfg.auto_accept_enquiry (lit "true"))) (lit "false"))

  unfoldable pub accept_enquiry : Booking → ℕ → BookingStore → BookingStore
  accept_enquiry b id s =
      let asked = call_out (accept_booking b.booking_id) s in
      update_row b.booking_id (accepted_row id (env.accept_answer asked.calls)) asked

  -- What is done with the new reservation before the row of the booking is linked with it: the labels,
  -- if the creation did not take them, the local copy, the contact, and the messages to the guest.
  unfoldable pub equip_reservation : Booking → Text → ℕ × Bool → BookingStore → BookingStore
  equip_reservation b host_note (id, labelled) s =
      let labels = if labelled then s else apply_labels id b.booking_id s in
      write_to_guest b host_note id (store_contact b id (sync_single_reservation env id labels))

  unfoldable pub accept_if_requested : Booking → ℕ → BookingStore → BookingStore
  accept_if_requested b id s =
      if text_eq b.status (lit "requested") && accepts_enquiries then accept_enquiry b id s else s

  -- All that follows on the creation of the reservation. Nothing in it throws.
  unfoldable pub after_creation :
      Booking → Text → MappedListing → ℕ × Bool → BookingStore → BookingStore
  after_creation b host_note l made s = push_listing l none (
      accept_if_requested b made.0
        (update_row b.booking_id (imported_row b made.0) (equip_reservation b host_note made s)))

  -- With a listing: the labels are read, and then the reservation is made.
  unfoldable pub import_for : Booking → MappedListing → Program BookingStore Text BookingOutcome
  import_for b l s =
      continue
        (λ values s.
          continue
            (λ made s. (ok (imported made.0 b.status), after_creation b (host_note_of b) l made s))
            (create_with_labels b.booking_id (payload_of cfg l b values) s))
        (resolve_custom_field_values b.booking_id s)

  unfoldable pub import_mapped :
      Booking → Option MappedListing → Program BookingStore Text BookingOutcome
  import_mapped b none s = (
    err (lit "No local mapping for CHECK24 property " ++ b.property_id),
    update_row b.booking_id (failed_row (no_local_mapping b.property_id)) s,
  )
  import_mapped b (some l) s = import_for b l s

  unfoldable pub import_booking : Booking → Program BookingStore Text BookingOutcome
  import_booking b s = import_mapped b (mapped_listing b.property_id s.mappings) s
