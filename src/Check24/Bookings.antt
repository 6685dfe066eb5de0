-- ===== src/Check24/Bookings.antt =====
-- The bookings that come from CHECK24 (src/check24/check24-booking.service.ts): the data of a booking,
-- the rows that the service keeps, the reservations that it has made at Hostaway, and the calls that
-- leave the program. The text of a day is the number of that day, and amounts are whole cents.
pub mod Store
pub mod Import
pub mod Cancel
pub mod Process
pub mod Links
pub mod Refinement
pub mod Once
pub mod History
pub mod Terminal
mod Tests
use fonio_middleware.Base.{true, ℕ, false, Option, List, Bool}
use fonio_middleware.Payments.Program.{Result}
use fonio_middleware.Base.Text.{Text}
use fonio_middleware.Base.Int.{ℤ}

pub data Children : Type 0 where
  no_children : Children
  listed : List ℕ → Children
  aged : Option (List ℕ) → Children

pub record Guest : Type 0 where
  pub first_name : Option Text
  pub last_name : Option Text
  pub email : Option Text
  pub phone : Option Text

-- `Check24Booking`
pub record Booking : Type 0 where
  pub booking_id : Text
  pub property_id : Text
  pub status : Text
  pub date_from : ℕ
  pub date_to : ℕ
  pub number_adults : Option ℕ
  pub children : Children
  pub guest : Option Guest
  pub booker : Option Guest
  pub comments : Option Text
  pub currency_code : Option Text
  pub total_price : Option ℤ

pub record CustomField : Type 0 where
  pub field_id : ℕ
  pub name : Option Text
  pub var_name : Option Text

pub record FieldValue : Type 0 where
  pub custom_field_id : ℕ
  pub value : Text

-- The body of `createReservation`.
pub record ReservationPayload : Type 0 where
  pub channel_id : ℕ
  pub listing_map_id : ℕ
  pub guest_first_name : Text
  pub guest_last_name : Text
  pub guest_name : Text
  pub number_of_guests : ℕ
  pub adults : ℕ
  pub children_count : Option ℕ
  pub arrival_date : ℕ
  pub departure_date : ℕ
  pub total_price : Option ℤ
  pub currency : Text
  pub host_note : Text
  pub guest_note : Option Text
  pub custom_field_values : List FieldValue

-- `forceOpenStay`
pub record ForceOpenStay : Type 0 where
  pub date_from : ℕ
  pub date_to : ℕ
  pub excluded_reservations : List ℕ

pub record MappedListing : Type 0 where
  pub listing_id : ℕ
  pub listing_hostaway_id : ℕ

-- `Check24PropertyMapping`
pub record PropertyMapping : Type 0 where
  pub property_id : Text
  pub listing : Option MappedListing

-- The messages that `lastError` holds.
pub data BookingError : Type 0 where
  no_local_mapping : Text → BookingError
  accept_failed : ℕ → Text → BookingError
  hostaway_cancel_failed : Text → BookingError
  check24_cancel_failed : Text → BookingError

-- A row of `check24Booking`; `processedAt` is kept as whether it is set.
pub record BookingRow : Type 0 where
  pub booking_id : Text
  pub property_id : Text
  pub status : Text
  pub hostaway_reservation_id : Option ℕ
  pub is_processed : Bool
  pub last_error : Option BookingError

-- What the service reads and writes of a row of `reservation`.
pub record LocalReservation : Type 0 where
  pub hostaway_id : ℕ
  pub status : Text
  pub guest_email : Option Text
  pub guest_phone : Option Text
  pub arrival_date : ℕ
  pub departure_date : ℕ

-- A reservation as Hostaway has it.
pub record RemoteReservation : Type 0 where
  pub listing_map_id : ℕ
  pub status : Text
  pub guest_email : Option Text
  pub phone : Option Text
  pub arrival_date : ℕ
  pub departure_date : ℕ

-- `guestPortalUrl`, `deadlineAt` and `ok` of the result of `requestPaymentOnImport`.
pub record PaymentRequest : Type 0 where
  pub is_sent : Bool
  pub guest_portal_url : Option Text
  pub deadline_at : Option ℕ

pub data ImportCall : Type 0 where
  get_booking : Text → ImportCall
  list_bookings : ImportCall
  get_custom_fields : ImportCall
  create_reservation : ReservationPayload → ImportCall
  update_reservation : ℕ → List FieldValue → ImportCall
  get_reservation : ℕ → ImportCall
  cancel_reservation : ℕ → ImportCall
  request_payment : ℕ → Text → Option Text → ImportCall
  send_welcome : ℕ → Text → Option Text → Option ℕ → Option ℤ → Text → ImportCall
  accept_booking : Text → ImportCall
  cancel_booking : Text → Text → Text → ImportCall
  push_availability : MappedListing → Option ForceOpenStay → ImportCall

-- `created` is Hostaway's: the reservations that were made there for bookings. The last call is first.
pub record BookingStore : Type 0 where
  pub bookings : List BookingRow
  pub reservations : List LocalReservation
  pub listings : List ℕ
  pub mappings : List PropertyMapping
  pub created : List (Text × ℕ)
  pub calls : List ImportCall

-- The answers of the other systems and of the services that send messages. Each may depend on all
-- calls so far, and `err` is an exception.
pub record Outside : Type 0 where
  pub booking_answer : List ImportCall → Result Text Booking
  pub bookings_answer : List ImportCall → Result Text (List Booking)
  pub fields_answer : List ImportCall → Result Text (List CustomField)
  pub create_answer : List ImportCall → Result Text ℕ
  pub reservation_answer : List ImportCall → Result Text RemoteReservation
  pub cancel_answer : List ImportCall → Result Text (Unit {0})
  pub payment_answer : List ImportCall → Result Text PaymentRequest
  pub accept_answer : List ImportCall → Result Text (Unit {0})
  pub cancel_booking_answer : List ImportCall → Result Text (Unit {0})

-- The settings that the service reads.
pub record BookingConfig : Type 0 where
  pub is_configured : Bool
  pub channel_id : Option ℕ
  pub portal_value : Option Text
  pub custom_field_id : Option ℕ
  pub auto_accept_enquiry : Option Text

-- What `processBooking` returns.
pub data BookingOutcome : Type 0 where
  missing_booking_id : BookingOutcome
  already_imported : ℕ → BookingOutcome
  unsupported_status : Text → BookingOutcome
  imported : ℕ → Text → BookingOutcome
  ignored_terminal_status : Text → BookingOutcome
  already_cancelled : Text → ℕ → BookingOutcome
  cancelled_in_hostaway : Text → ℕ → BookingOutcome
  cancel_failed : Text → ℕ → Text → BookingOutcome

abbrev pub is_processed_outcome : BookingOutcome → Bool
is_processed_outcome missing_booking_id = false
is_processed_outcome (already_imported id) = false
is_processed_outcome (unsupported_status status) = false
is_processed_outcome (imported id status) = true
is_processed_outcome (ignored_terminal_status status) = true
is_processed_outcome (already_cancelled status id) = true
is_processed_outcome (cancelled_in_hostaway status id) = true
is_processed_outcome (cancel_failed status id e) = false

-- What `propagateHostawayCancellation` returns.
pub data Propagated : Type 0 where
  check24_not_configured not_check24_booking : Propagated
  already_terminal cancelled_on_check24 : Text → Propagated
  check24_refused : Text → Text → Propagated
