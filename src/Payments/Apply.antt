-- ===== src/Payments/Apply.antt =====
-- src/automation/payment-apply.service.ts: a payment is applied to a reservation, as a guest charge at
-- Hostaway, or in the database alone if the listing is offline. An error is the message that
-- `formatApplyError` makes of it. The database, and the services whose errors are logged only, do not
-- fail.
use fonio_middleware.Base.{
  ◌==◌, ◌+◌, ◌*◌, leb, ◌&&◌, take, ◌∷◌, none, ◌||◌, [], true, or_else, if◌then◌else◌, some, false,
  Option, List, Bool, ℕ,
}
use fonio_middleware.Payments.Books.{
  charges_of, total_of, upsert_charge, is_listing_offline, without_charge, alert_applied,
  update_status, release_checkin, post_inbox, plan_applied, create_charge, cancel_charge, call,
  by_hostaway_id, Call, Reservation, Books,
}
use fonio_middleware.Payments.Program.{pure, modify, ◌>>=◌, ◌>>◌, err, ok, Result, Program}
use fonio_middleware.Base.Text.{trim, text_eq, is_empty, to_lower, starts_with, lit, includes, Text}
use fonio_middleware.Base.Int.{◌-ℤ◌, pos_part, pos, ◌+ℤ◌, or_zero, ltb_ℤ, ℤ}
use fonio_middleware.Schedule.{deposit_amount, PaymentPhase}
use fonio_middleware.Portal.Rule.{share, PortalPaymentRule}
use fonio_middleware.Plan.Calendar.{Date}
use fonio_middleware.Portal.Matching.{match_portal_rule, no_hints}
use fonio_middleware.Payments.Table.{update_where}

-- The answers of Hostaway to a call, which may depend on all calls so far, and what the program reads
-- beside the books.
pub record External : Type 0 where
  pub create_answer : List Call → Result Text ℕ
  pub inbox_answer : List Call → Result Text (Option ℕ)
  pub cancel_answer : List Call → Result Text (Unit {0})
  pub status_answer : List Call → Result Text (Unit {0})
  pub portal_rules : List PortalPaymentRule
  pub today : Date

pub data ExternalPaymentSource : Type 0 where
  qonto paypal manual : ExternalPaymentSource

pub record ApplyParams : Type 0 where
  pub reservation_hostaway_id : ℕ
  pub amount : ℤ
  pub source : ExternalPaymentSource
  pub reference : Option Text
  pub description_override : Option Text

pub record Applied : Type 0 where
  pub applied_charge : Option ℕ
  pub is_offline : Bool

-- `isFonioOfferReservation`
unfoldable pub is_fonio_offer_reservation : Reservation → Bool
is_fonio_offer_reservation r = includes (to_lower (or_else r.host_note [])) (lit "fonio.ai")

-- `isInquiryReservationStatus`
unfoldable pub is_inquiry_reservation_status : Text → Bool
is_inquiry_reservation_status status = starts_with (to_lower (trim status)) (lit "inquiry")

-- `(paymentPhase ?? '').toLowerCase() === 'deposit_paid'`
abbrev is_deposit_paid : Option PaymentPhase → Bool
is_deposit_paid (some PaymentPhase.deposit_paid) = true
is_deposit_paid (some (PaymentPhase.other t)) = text_eq (to_lower t) (lit "deposit_paid")
is_deposit_paid _ = false

-- `needed` of `hasFonioDepositPaid`
needed_deposit : List PortalPaymentRule → Reservation → ℕ
needed_deposit rules r =
    let total = or_zero r.total_price in
    let hints = record no_hints { host_note = r.host_note; guest_email = r.guest_email } in
    let deposit : ℕ = elim (match_portal_rule none rules hints) [
      | none ↦ 0
      | some rule ↦ deposit_amount total rule
    ] in
    if leb deposit 100 then share total 30 else deposit

unfoldable pub has_fonio_deposit_paid : List PortalPaymentRule → Reservation → ℤ → Bool
unfolding needed_deposit
has_fonio_deposit_paid rules r paid =
    let needed = needed_deposit rules r in
    or_else r.is_paid false
    || (is_deposit_paid r.payment_phase
        || (ltb_ℤ (pos 50) paid && (leb needed 100 || leb (9 * needed) (10 * (pos_part paid + 1)))))

-- `isPartial`, from the balance that is due before the payment.
unfoldable pub is_partial : Option ℤ → List ℤ → ℤ → Bool
is_partial none charges amount = false
is_partial (some total) charges amount =
    ltb_ℤ (amount +ℤ pos 50) (pos (pos_part (total -ℤ total_of charges)))

abbrev charge_title : Bool → ExternalPaymentSource → Text
charge_title true paypal = lit "Teilzahlung (PayPal)"
charge_title true qonto = lit "Teilzahlung (Qonto)"
charge_title true manual = lit "Teilzahlung (Zahlung)"
charge_title false paypal = lit "PayPal-Zahlung (automatisch)"
charge_title false qonto = lit "Banküberweisung (Qonto, automatisch)"
charge_title false manual = lit "Zahlung (automatisch)"

-- `a || b` on texts
abbrev or_text : Option Text → Text → Text
or_text none b = b
or_text (some a) b = if is_empty a then b else a

abbrev charge_description : Bool → ApplyParams → Text
charge_description partial p =
    or_text (elim p.description_override [ none ↦ none | some t ↦ some (take 500 t) ])
      (or_text (elim p.reference [ none ↦ none | some t ↦ some (take 500 t) ])
        (if partial
          then lit "Teilzahlung — Buchung bleibt teilweise offen"
          else lit "Automatisch zugeordnet"))

module _ (env : External) where
  -- `createOfflineCharge`: Hostaway has the charge from its answer on.
  unfoldable pub create_offline_charge : Text → Text → ℕ → ℤ → Program Books Text ℕ
  create_offline_charge title description hostaway_id amount b =
      let asked = call (create_charge title description hostaway_id amount) b in
      elim (env.create_answer asked.calls) [
        | ok id ↦ (
          ok id,
          record asked {
            charges =
                record { charge_id = id; reservation = hostaway_id; amount = amount }
                ∷ asked.charges;
          },
        )
        | err e ↦ (err e, asked)
      ]

  -- `cancelGuestCharge`
  unfoldable pub cancel_guest_charge : ℕ → ℕ → Program Books Text (Unit {0})
  cancel_guest_charge hostaway_id id b =
      let asked = call (cancel_charge hostaway_id id) b in
      elim (env.cancel_answer asked.calls) [
        | ok done ↦ (ok tt, record asked { charges = without_charge id asked.charges })
        | err e ↦ (err e, asked)
      ]

  -- `notifyPaymentReceived`
  unfoldable pub notify_payment_received : ℕ → ℤ → Program Books Text (Option ℕ)
  notify_payment_received hostaway_id amount b =
      let asked = call (post_inbox hostaway_id amount) b in (env.inbox_answer asked.calls, asked)

  -- `recordNotifiedCharge`
  unfoldable pub record_notified_charge : ℕ → ℕ → ℤ → Books → Books
  record_notified_charge hostaway_id id amount b = elim (by_hostaway_id hostaway_id b) [
    | none ↦ b
    | some r ↦ record b {
      notified =
          upsert_charge (record { charge_id = id; reservation = r.id; amount = amount }) b.notified;
    }
  ]

  -- `confirmFonioInquiryAfterDeposit`: an offer is confirmed at Hostaway and then in the database.
  unfoldable pub confirm_fonio_inquiry : ℕ → Books → Books
  confirm_fonio_inquiry hostaway_id b =
      let asked = call (update_status hostaway_id) b in
      elim (by_hostaway_id hostaway_id b) [
        | none ↦ b
        | some r ↦
            if is_fonio_offer_reservation r
              && (starts_with (to_lower r.status) (lit "inquiry")
                  && has_fonio_deposit_paid env.portal_rules r (total_of (charges_of r.id b)))
            then elim (env.status_answer asked.calls) [
              | ok done ↦ record asked {
                reservations =
                    update_where (λ s. s.id == r.id) (λ s. record s { status = lit "new" })
                      b.reservations;
              }
              | err e ↦ asked
            ]
            else b
      ]

  -- `paymentPlans.recordPaymentApplied`, if there is a reservation.
  abbrev pub advance_plan : Option Reservation → ℤ → Books → Books
  advance_plan none amount b = b
  advance_plan (some r) amount b = plan_applied env.today r.id amount b

  -- What follows a payment that Hostaway has taken.
  unfoldable pub settled : Option Reservation → ℕ → ℕ → ℤ → Books → Books
  settled r hostaway_id id amount b = confirm_fonio_inquiry hostaway_id (
      call (release_checkin hostaway_id) (
        call (alert_applied hostaway_id)
          (advance_plan r amount (record_notified_charge hostaway_id id amount b))))

  -- The charge at Hostaway, the message to the guest, and what follows both.
  unfoldable pub charge_and_notify :
      Option Reservation → Text → Text → ApplyParams → Program Books Text Applied
  charge_and_notify r title description p = do
    id ← create_offline_charge title description p.reservation_hostaway_id p.amount
    message ← notify_payment_received p.reservation_hostaway_id p.amount
    modify (settled r p.reservation_hostaway_id id p.amount)
    pure (record { applied_charge = some id; is_offline = false })

  unfoldable pub apply_online : Option Reservation → ApplyParams → Program Books Text Applied
  apply_online r p b =
      let partial : Bool = elim r [
        | none ↦ false
        | some s ↦ is_partial s.total_price (charges_of s.id b) p.amount
      ] in
      charge_and_notify r (charge_title partial p.source) (charge_description partial p) p b

  unfoldable pub apply_offline : Reservation → ApplyParams → Program Books Text Applied
  apply_offline r p = do
    modify (λ b. confirm_fonio_inquiry p.reservation_hostaway_id (
        call (alert_applied p.reservation_hostaway_id) (
          call (release_checkin p.reservation_hostaway_id)
            (plan_applied env.today r.id p.amount b))))
    pure (record { applied_charge = none; is_offline = true })

  unfoldable pub apply_to_reservation : ApplyParams → Program Books Text Applied
  apply_to_reservation p b = elim (by_hostaway_id p.reservation_hostaway_id b) [
    | none ↦ apply_online none p b
    | some r ↦
        if is_listing_offline r.listing then apply_offline r p b else apply_online (some r) p b
  ]
