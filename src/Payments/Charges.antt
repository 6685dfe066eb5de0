-- ===== src/Payments/Charges.antt =====
-- What an application does to the charges at Hostaway: `applyToReservation`.
use fonio_middleware.Base.{
  false, ap, Bool-cases, refl, Option-cases, inl, inr, ◌≤◌, ◌⊎◌, ◌∷◌, none, List, some, ◌∙◌, Option,
  ◌≡◌, ℕ, arith,
}
use fonio_middleware.Payments.Books.{
  is_listing_offline, release_checkin, by_hostaway_id, alert_applied, call, post_inbox,
  create_charge, update_status, Call, Reservation, plan_applied, Charge, Books,
}
use fonio_middleware.Payments.Apply.{
  advance_plan, charge_and_notify, Applied, notify_payment_received, create_offline_charge,
  apply_offline, settled, record_notified_charge, confirm_fonio_inquiry, apply_to_reservation,
  apply_online, ApplyParams, External,
}
use fonio_middleware.Payments.Program.{Result-cases, err, ok, Result}
use fonio_middleware.Base.Int.{ℤ}
use fonio_middleware.Base.Text.{Text}

module _ (env : External) where
  pub confirm_fonio_inquiry_charges :
      (hostaway_id : ℕ) (b : Books) → (confirm_fonio_inquiry env hostaway_id b).charges ≡ b.charges
  unfolding confirm_fonio_inquiry
  confirm_fonio_inquiry_charges hostaway_id b = ground arith

  record_notified_charge_charges :
      (hostaway_id id : ℕ) (amount : ℤ) (b : Books)
      → (record_notified_charge env hostaway_id id amount b).charges ≡ b.charges
  unfolding record_notified_charge
  record_notified_charge_charges hostaway_id id amount b = ground arith

  pub settled_charges :
      (r : Option Reservation) (hostaway_id id : ℕ) (amount : ℤ) (b : Books)
      → (settled env r hostaway_id id amount b).charges ≡ b.charges
  unfolding settled plan_applied
  settled_charges none hostaway_id id amount b =
      confirm_fonio_inquiry_charges hostaway_id _
      ∙ record_notified_charge_charges hostaway_id id amount b
  settled_charges (some r) hostaway_id id amount b =
      confirm_fonio_inquiry_charges hostaway_id _
      ∙ record_notified_charge_charges hostaway_id id amount b

  -- The charge of an application.
  abbrev pub charge_of : ApplyParams → ℕ → Charge
  charge_of p id = record {
    charge_id = id;
    reservation = p.reservation_hostaway_id;
    amount = p.amount;
  }

  module _ (next : List Call → ℕ)
      (mono : (c : Call) (cs : List Call) → next cs ≤ next (c ∷ cs)) where
    confirm_fonio_inquiry_calls :
        (hostaway_id : ℕ) (b : Books)
        → next b.calls ≤ next (confirm_fonio_inquiry env hostaway_id b).calls
    unfolding confirm_fonio_inquiry
    confirm_fonio_inquiry_calls hostaway_id b =
        ground (arith, mono (update_status hostaway_id) b.calls)

    record_notified_charge_calls :
        (hostaway_id id : ℕ) (amount : ℤ) (b : Books)
        → next (record_notified_charge env hostaway_id id amount b).calls ≡ next b.calls
    unfolding record_notified_charge
    record_notified_charge_calls hostaway_id id amount b = ground arith

    advance_plan_calls :
        (r : Option Reservation) (amount : ℤ) (b : Books)
        → (advance_plan env r amount b).calls ≡ b.calls
    unfolding plan_applied
    advance_plan_calls none amount b = refl
    advance_plan_calls (some r) amount b = refl

    settled_calls :
        (r : Option Reservation) (hostaway_id id : ℕ) (amount : ℤ) (b : Books)
        → next b.calls ≤ next (settled env r hostaway_id id amount b).calls
    unfolding settled
    settled_calls r hostaway_id id amount b =
        let noted : Books = record_notified_charge env hostaway_id id amount b in
        let planned : Books = advance_plan env r amount noted in
        let alerted : Books = call (alert_applied hostaway_id) planned in
        omega (
          arith,
          record_notified_charge_calls hostaway_id id amount b,
          ap next (advance_plan_calls r amount noted),
          mono (alert_applied hostaway_id) planned.calls,
          mono (release_checkin hostaway_id) alerted.calls,
          confirm_fonio_inquiry_calls hostaway_id (call (release_checkin hostaway_id) alerted),
        )

    -- The charge that an application reports is the answer to its first call.
    abbrev pub Charged : ApplyParams → Books → Books → Option ℕ → Type 0
    Charged p b after (some id) =
        (c : Call) × (env.create_answer (c ∷ b.calls) ≡ ok id)
        × (next (c ∷ b.calls) ≤ next after.calls)
        × (after.charges ≡ charge_of p id ∷ b.charges)
    Charged p b after none = after.charges ≡ b.charges

    -- How an application ends: with a charge more at Hostaway, which is the answer to its first call,
    -- or with no charge, or with the error of a message that could not be sent.
    abbrev pub Ends : ApplyParams → Books → Result Text Applied × Books → Type 0
    Ends p b (ok a, after) = (next b.calls ≤ next after.calls) × Charged p b after a.applied_charge
    Ends p b (err e, after) =
        (next b.calls ≤ next after.calls)
        × ((after.charges ≡ b.charges) ⊎ ((cs : List Call) × (env.inbox_answer cs ≡ err e)))

    charge_and_notify-Ends :
        (r : Option Reservation) (title description : Text) (p : ApplyParams) (b : Books)
        → Ends p b (charge_and_notify env r title description p b)
    unfolding charge_and_notify create_offline_charge notify_payment_received
    charge_and_notify-Ends r title description p b =
        let c : Call = create_charge title description p.reservation_hostaway_id p.amount in
        let inbox : List Call = post_inbox p.reservation_hostaway_id p.amount ∷ c ∷ b.calls in
        elim (Result-cases (env.create_answer (c ∷ b.calls))) [
          | inr (e, refused) ↦
              rw (refused, charge_and_notify, create_offline_charge) (mono c b.calls, inl refl)
          | inl (id, taken) ↦ elim (Result-cases (env.inbox_answer inbox)) [
            | inr (e, refused) ↦
                rw
                  (
                    taken, refused, charge_and_notify, create_offline_charge,
                    notify_payment_received,
                  )
                  (
                    omega (
                      arith,
                      mono c b.calls,
                      mono (post_inbox p.reservation_hostaway_id p.amount) (c ∷ b.calls),
                    ),
                    inr (inbox, refused),
                  )
            | inl (m, sent) ↦
                rw (taken, sent, charge_and_notify, create_offline_charge, notify_payment_received)
                  (let taken_b : Books = record b {
                    charges = charge_of p id ∷ b.charges;
                    calls = inbox;
                  } in
                    let later : next inbox
                        ≤ next (settled env r p.reservation_hostaway_id id p.amount taken_b).calls =
                      settled_calls r p.reservation_hostaway_id id p.amount taken_b in
                    let sooner : next (c ∷ b.calls) ≤ next inbox =
                      mono (post_inbox p.reservation_hostaway_id p.amount) (c ∷ b.calls) in
                    (
                      omega (arith, later, sooner, mono c b.calls),
                      (
                        c,
                        taken,
                        omega (arith, later, sooner),
                        settled_charges r p.reservation_hostaway_id id p.amount taken_b,
                      ),
                    ))
          ]
        ]

    apply_offline_calls :
        (r : Reservation) (p : ApplyParams) (b : Books)
        → next b.calls ≤ next (apply_offline env r p b).1.calls
    unfolding apply_offline plan_applied
    apply_offline_calls r p b =
        let id : ℕ = p.reservation_hostaway_id in
        let released : Books = call (release_checkin id) (plan_applied env.today r.id p.amount b) in
        omega (
          arith,
          mono (release_checkin id) b.calls,
          mono (alert_applied id) released.calls,
          confirm_fonio_inquiry_calls id (call (alert_applied id) released),
        )

    apply_offline_charges :
        (r : Reservation) (p : ApplyParams) (b : Books)
        → (apply_offline env r p b).1.charges ≡ b.charges
    unfolding apply_offline plan_applied
    apply_offline_charges r p b = confirm_fonio_inquiry_charges p.reservation_hostaway_id _

    pub apply_to_reservation-Ends :
        (p : ApplyParams) (b : Books) → Ends p b (apply_to_reservation env p b)
    unfolding apply_to_reservation apply_offline apply_online
    apply_to_reservation-Ends p b =
        elim (Option-cases (by_hostaway_id p.reservation_hostaway_id b)) [
          | inl e ↦ rw (e, apply_to_reservation) (charge_and_notify-Ends none _ _ p b)
          | inr (r, e) ↦ elim (Bool-cases (is_listing_offline r.listing)) [
            | inr live ↦
                rw (e, live, apply_to_reservation) (charge_and_notify-Ends (some r) _ _ p b)
            | inl offline ↦
                rw (e, offline, apply_to_reservation)
                  (apply_offline_calls r p b, apply_offline_charges r p b)
          ]
        ]

  charged_refused :
      (r : Option Reservation) (title description : Text) (p : ApplyParams) (b : Books) (id : ℕ)
      (message : Text)
      → ((cs : List Call) → env.create_answer cs ≡ ok id)
      → ((cs : List Call) → env.inbox_answer cs ≡ err message)
      → (after : Books) × (charge_and_notify env r title description p b ≡ (err message, after))
        × (after.charges ≡ charge_of p id ∷ b.charges)
  unfolding charge_and_notify create_offline_charge notify_payment_received
  charged_refused r title description p b id message takes refuses =
      let charging : Call = create_charge title description p.reservation_hostaway_id p.amount in
      let posting : Call = post_inbox p.reservation_hostaway_id p.amount in
      let after : Books = record b {
        charges = charge_of p id ∷ b.charges;
        calls = posting ∷ charging ∷ b.calls;
      } in
      (
        after,
        rw (takes (charging ∷ b.calls), charge_and_notify, create_offline_charge)
            (rw (refuses (posting ∷ charging ∷ b.calls), notify_payment_received) refl),
        refl,
      )

  online_refused :
      (r : Reservation) (p : ApplyParams) (b : Books) (id : ℕ) (message : Text)
      → ((cs : List Call) → env.create_answer cs ≡ ok id)
      → ((cs : List Call) → env.inbox_answer cs ≡ err message)
      → (after : Books) × (apply_online env (some r) p b ≡ (err message, after))
        × (after.charges ≡ charge_of p id ∷ b.charges)
  unfolding apply_online
  online_refused r p b id message = charged_refused (some r) _ _ p b id message

  -- Hostaway takes the charge and refuses the message.
  pub apply_leaves_charge :
      (p : ApplyParams) (b : Books) (r : Reservation) (id : ℕ) (message : Text)
      → by_hostaway_id p.reservation_hostaway_id b ≡ some r
      → is_listing_offline r.listing ≡ false
      → ((cs : List Call) → env.create_answer cs ≡ ok id)
      → ((cs : List Call) → env.inbox_answer cs ≡ err message)
      → (after : Books) × (apply_to_reservation env p b ≡ (err message, after))
        × (after.charges ≡ charge_of p id ∷ b.charges)
  unfolding apply_to_reservation
  apply_leaves_charge p b r id message known live takes refuses =
      let (after, refused, grown) = online_refused r p b id message takes refuses in
      (after, rw (known, live, apply_to_reservation) refused, grown)
