-- ===== src/Check24/Bookings/Tests.antt =====
-- Runs of the service of CHECK24 bookings, and the theorems at concrete inputs.
use fonio_middleware.Base.{arith, ◌∷◌, refl, length, ◌≡◌, suc, [], true, some, none}
use fonio_middleware.Check24.Bookings.{
  aged, Outside, BookingStore, BookingOutcome, BookingConfig, Booking,
}
use fonio_middleware.Check24.Bookings.Refinement.{Imports, Agrees, Refines, IsNumbering}
use fonio_middleware.Check24.Bookings.History.{
  process_booking-Refines, polled, starts, then_call, BookingHistory-IsOnce, IsOnce,
}
use fonio_middleware.Check24.Bookings.Store.{
  push_property, mapped_listing, find_row, upserted, upsert_row, update_row,
  sync_single_reservation, is_terminal_status,
}
use fonio_middleware.Base.Text.{trim, includes, lit}
use fonio_middleware.Check24.Bookings.Process.{
  process_open, process_each, process_booking, poll_answered, poll_recent_bookings,
}
use fonio_middleware.Payments.Program.{err, ok}
use fonio_middleware.Check24.Bookings.Terminal.{process_booking_gives_up, IsGivenUp}
use fonio_middleware.Check24.Bookings.Links.{link_of}
use fonio_middleware.Base.Int.{pos}
use fonio_middleware.Check24.Bookings.Import.{
  host_note_of, name_part, payload_of, find_custom_field, store_contact, write_to_guest,
  apply_labels, accept_enquiry, accept_if_requested, equip_reservation, after_creation,
  create_at_hostaway, second_try, create_with_labels, resolve_custom_field_values, import_for,
  import_mapped, import_booking,
}
use fonio_middleware.Check24.Bookings.Cancel.{cancel_linked, cancel_imported_reservation}
use fonio_middleware.Payments.Table.{update_where}

abbrev stay : Booking
stay = record {
  booking_id = lit "B1";
  property_id = lit "ha-7";
  status = lit "requested";
  date_from = 20000;
  date_to = 20003;
  number_adults = some 2;
  children = aged (some (4 ∷ []));
  guest = some (record {
    first_name = some (lit " Eva ");
    last_name = none;
    email = some (lit "eva@mail.de");
    phone = none;
  });
  booker =
      some
        (record { first_name = none; last_name = some (lit "Berg"); email = none; phone = none });
  comments = none;
  currency_code = none;
  total_price = some (pos 30000);
}

abbrev fresh : BookingStore
fresh = record {
  bookings = [];
  reservations = [];
  listings = 7 ∷ [];
  mappings =
      record {
        property_id = lit "ha-7";
        listing = some (record { listing_id = 1; listing_hostaway_id = 7 });
      }
      ∷ [];
  created = [];
  calls = [];
}

abbrev settings : BookingConfig
settings = record {
  is_configured = true;
  channel_id = none;
  portal_value = none;
  custom_field_id = none;
  auto_accept_enquiry = none;
}

-- Hostaway numbers by its calls, has the reservations, and refuses to cancel; the rest answers.
abbrev stubborn : Outside
stubborn = record {
  booking_answer = λ cs. ok stay;
  bookings_answer = λ cs. ok (stay ∷ stay ∷ []);
  fields_answer =
      λ cs. ok (record { field_id = 5; name = some (lit "Buchungsportal"); var_name = none } ∷ []);
  create_answer = λ cs. ok (suc (length cs));
  reservation_answer = λ cs. ok (record {
    listing_map_id = 7;
    status = lit "new";
    guest_email = none;
    phone = none;
    arrival_date = 20000;
    departure_date = 20003;
  });
  cancel_answer = λ cs. err (lit "busy");
  payment_answer = λ cs. err (lit "down");
  accept_answer = λ cs. ok tt;
  cancel_booking_answer = λ cs. ok tt;
}

stubborn-IsNumbering : IsNumbering stubborn
stubborn-IsNumbering cs id e = let same : suc (length cs) ≡ id = cc in omega (arith, same)

abbrev after_poll : BookingStore
after_poll = (poll_recent_bookings stubborn settings fresh).1

-- The poll brings the booking twice, and it is imported once.
imports_once :
    ((poll_recent_bookings stubborn settings fresh).0 ≡ ok (1, []))
    × (after_poll.created ≡ (lit "B1", 4) ∷ [])
unfolding poll_recent_bookings poll_answered process_each process_booking process_open
    import_booking import_mapped import_for resolve_custom_field_values create_with_labels
    second_try create_at_hostaway after_creation equip_reservation accept_if_requested
    accept_enquiry apply_labels write_to_guest store_contact sync_single_reservation update_row
    upsert_row upserted find_row mapped_listing is_terminal_status find_custom_field payload_of
    name_part host_note_of cancel_imported_reservation cancel_linked push_property update_where
    includes trim
imports_once = (refl, refl)

BookingHistory-IsOnce_example : IsOnce after_poll
BookingHistory-IsOnce_example =
    BookingHistory-IsOnce after_poll
      (then_call (starts fresh (refl, refl)) (polled stubborn settings stubborn-IsNumbering fresh))

process_booking-Refines_example :
    Refines (lit "B1") fresh (process_booking stubborn settings stay fresh).1
    × Agrees (process_booking stubborn settings stay fresh).1
    × Imports [] (process_booking stubborn settings stay fresh).1.created
process_booking-Refines_example =
    process_booking-Refines stubborn settings stubborn-IsNumbering stay fresh (λ k. refl)

abbrev cancelled_stay : Booking
cancelled_stay = record stay { status = lit "Cancelled" }

cancelled_ends : is_terminal_status (lit "Cancelled") ≡ true
unfolding is_terminal_status
cancelled_ends = refl

process_booking_gives_up_example :
    ((o : BookingOutcome) × ((process_booking stubborn settings cancelled_stay after_poll).0
        ≡ ok o))
    × IsGivenUp cancelled_stay
        (link_of (lit "B1") after_poll)
        after_poll
        (process_booking stubborn settings cancelled_stay after_poll).1
process_booking_gives_up_example =
    process_booking_gives_up stubborn settings cancelled_stay after_poll cancelled_ends
