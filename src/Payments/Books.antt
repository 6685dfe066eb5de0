-- ===== src/Payments/Books.antt =====
-- What the payment services read and write: the reservations and notified charges of the database, the
-- guest charges at Hostaway, and the calls that leave the program.
use fonio_middleware.Base.{
  none, true, ◌||◌, [], some, not, any, ◌==◌, map, keep, if◌then◌else◌, find, false, ◌∷◌, Option,
  List, Bool, ℕ,
}
use fonio_middleware.Payments.Table.{update_where}
use fonio_middleware.Plan.Ledger.{record_payment_reversed, record_payment_applied, PaymentPlan}
use fonio_middleware.Plan.Calendar.{Date}
use fonio_middleware.Base.Text.{Text}
use fonio_middleware.Base.Int.{◌+ℤ◌, pos, ℤ}
use fonio_middleware.Schedule.{PaymentPhase}

pub data ListingStatus : Type 0 where
  live draft hidden unknown : ListingStatus

-- `ListingOfflineFields`
pub record Listing : Type 0 where
  pub status : ListingStatus
  pub is_bookable : Bool

unfoldable pub is_listing_offline : Option Listing → Bool
is_listing_offline none = false
is_listing_offline (some l) =
    not l.is_bookable || elim l.status [ hidden ↦ true | draft ↦ true | _ ↦ false ]

pub record Reservation : Type 0 where
  pub id : ℕ
  pub hostaway_id : ℕ
  pub status : Text
  pub host_note : Option Text
  pub guest_email : Option Text
  pub is_paid : Option Bool
  pub payment_phase : Option PaymentPhase
  pub total_price : Option ℤ
  pub listing : Option Listing
  pub payment_plan : Option PaymentPlan

-- A guest charge at Hostaway, where `reservation` is the Hostaway id, and a notified charge of the
-- database, where it is the id of the row.
pub record Charge : Type 0 where
  pub charge_id : ℕ
  pub reservation : ℕ
  pub amount : ℤ

-- The calls of other systems and of services that only send messages.
pub data Call : Type 0 where
  create_charge : Text → Text → ℕ → ℤ → Call
  cancel_charge : ℕ → ℕ → Call
  post_inbox : ℕ → ℤ → Call
  update_status : ℕ → Call
  release_checkin alert_applied : ℕ → Call
  alert_review : ℕ → Call
  remember_booking_code : ℕ → Call

pub record Books : Type 0 where
  pub reservations : List Reservation
  pub notified : List Charge
  pub charges : List Charge
  pub calls : List Call

-- `findUnique({ where: { hostawayId } })` and `findUnique({ where: { id } })`
abbrev pub by_hostaway_id : ℕ → Books → Option Reservation
by_hostaway_id hostaway_id b = find (λ r. r.hostaway_id == hostaway_id) b.reservations

abbrev pub by_id : ℕ → Books → Option Reservation
by_id id b = find (λ r. r.id == id) b.reservations

abbrev pub charges_of : ℕ → Books → List ℤ
charges_of id b = map (λ c. c.amount) (keep (λ c. c.reservation == id) b.notified)

abbrev pub total_of : List ℤ → ℤ
total_of [] = pos 0
total_of (a ∷ as_left) = a +ℤ total_of as_left

abbrev pub call : Call → Books → Books
call c b = record b { calls = c ∷ b.calls }

-- `deleteMany({ where: { hostawayChargeId } })`, and the cancelling at Hostaway.
abbrev pub without_charge : ℕ → List Charge → List Charge
without_charge id = keep (λ c. not (c.charge_id == id))

-- `notifiedGuestCharge.upsert`: a row that is there keeps its amount.
abbrev pub upsert_charge : Charge → List Charge → List Charge
upsert_charge c cs = if any (λ d. d.charge_id == c.charge_id) cs then cs else c ∷ cs

-- `recordPaymentApplied` and `recordPaymentReversed` on the row of the reservation.
unfoldable pub plan_applied : Date → ℕ → ℤ → Books → Books
plan_applied today id amount b = record b {
  reservations =
      update_where (λ r. r.id == id)
        (λ r.
          elim (record_payment_applied r.payment_plan r.total_price (charges_of id b) today
            amount) [ none ↦ r | some plan ↦ record r { payment_plan = some plan } ])
        b.reservations;
}

unfoldable pub plan_reversed : ℕ → ℤ → Books → Books
plan_reversed id amount b = record b {
  reservations =
      update_where (λ r. r.id == id)
        (λ r. elim (record_payment_reversed r.payment_plan r.total_price (charges_of id b) amount) [
          | none ↦ r
          | some plan ↦ record r { payment_plan = some plan }
        ])
        b.reservations;
}
