-- ===== src/Payments/Taken.antt =====
-- Applications that Hostaway does not refuse: `applyToReservation`.
use fonio_middleware.Base.{
  refl, Bool-cases, inr, sym, true, subst, ◌∷◌, inl, some, false, Option-cases, none, ◌≡◌, Option,
  List, ℕ, Bool,
}
use fonio_middleware.Payments.Apply.{
  settled, Applied, notify_payment_received, create_offline_charge, apply_offline,
  charge_and_notify, apply_to_reservation, apply_online, ApplyParams, External,
}
use fonio_middleware.Payments.Books.{
  post_inbox, create_charge, is_listing_offline, plan_applied, Reservation, Charge, by_hostaway_id,
  Call, Books,
}
use fonio_middleware.Base.Text.{Text}
use fonio_middleware.Payments.Program.{ok}
use fonio_middleware.Payments.Charges.{confirm_fonio_inquiry_charges, settled_charges, charge_of}

-- Hostaway refuses no charge and no message.
abbrev pub TakesAll : External → Type 0
TakesAll env =
    ((cs : List Call) → (id : ℕ) × (env.create_answer cs ≡ ok id))
    × ((cs : List Call) → (m : Option ℕ) × (env.inbox_answer cs ≡ ok m))

-- The reservation is known, and its listing is offline.
abbrev pub is_offline_stay : ℕ → Books → Bool
is_offline_stay hostaway_id b = elim (by_hostaway_id hostaway_id b) [
  | none ↦ false
  | some r ↦ is_listing_offline r.listing
]

-- What became of the charges at Hostaway: one of the whole amount was added, and it is the one that was
-- reported; or, for a listing that is offline, none was, and none was reported.
abbrev pub IsBooked : Bool → ApplyParams → Option ℕ → List Charge → List Charge → Type 0
IsBooked true p charge before after = (charge ≡ none) × (after ≡ before)
IsBooked false p charge before after =
    (id : ℕ) × (charge ≡ some id)
    × (after
        ≡ record { charge_id = id; reservation = p.reservation_hostaway_id; amount = p.amount }
          ∷ before)

module _ (env : External) where
  charged_taken :
      (r : Option Reservation) (title description : Text) (p : ApplyParams) (b : Books)
      → TakesAll env
      → (id : ℕ) × (after : Books) × (charge_and_notify env r title description p b
          ≡ (ok (record { applied_charge = some id; is_offline = false }), after))
        × (after.charges ≡ charge_of env p id ∷ b.charges)
  unfolding charge_and_notify create_offline_charge notify_payment_received
  charged_taken r title description p b (takes, sends) =
      let charging : Call = create_charge title description p.reservation_hostaway_id p.amount in
      let posting : Call = post_inbox p.reservation_hostaway_id p.amount in
      let (id, taken) = takes (charging ∷ b.calls) in
      let (m, sent) = sends (posting ∷ charging ∷ b.calls) in
      let noted : Books = record b {
        charges = charge_of env p id ∷ b.charges;
        calls = posting ∷ charging ∷ b.calls;
      } in
      (
        id,
        settled env r p.reservation_hostaway_id id p.amount noted,
        rw (taken, charge_and_notify, create_offline_charge)
            (rw (sent, notify_payment_received) refl),
        settled_charges env r p.reservation_hostaway_id id p.amount noted,
      )

  online_taken :
      (r : Option Reservation) (p : ApplyParams) (b : Books)
      → TakesAll env
      → (id : ℕ) × (after : Books) × (apply_online env r p b
          ≡ (ok (record { applied_charge = some id; is_offline = false }), after))
        × (after.charges ≡ charge_of env p id ∷ b.charges)
  unfolding apply_online
  online_taken r p b all = charged_taken r _ _ p b all

  -- Hostaway takes whatever it is asked: an application is made, with a charge of the whole amount, or,
  -- if the listing is offline, with none.
  pub apply_is_made :
      (p : ApplyParams) (b : Books)
      → TakesAll env
      → (a : Applied) × (after : Books) × (apply_to_reservation env p b ≡ (ok a, after))
        × IsBooked
            (is_offline_stay p.reservation_hostaway_id b)
            p
            a.applied_charge
            b.charges
            after.charges
  unfolding apply_to_reservation apply_offline plan_applied
  apply_is_made p b all = elim (Option-cases (by_hostaway_id p.reservation_hostaway_id b)) [
    | inl e ↦
        let (id, after, made, grown) = online_taken none p b all in
        (
          record { applied_charge = some id; is_offline = false },
          after,
          rw (e, apply_to_reservation) made,
          let known : is_offline_stay p.reservation_hostaway_id b ≡ false =
                rw (e, is_offline_stay) refl in
              subst (λ (o : Bool). IsBooked o p (some id) b.charges after.charges) (sym known)
                (id, refl, grown),
        )
    | inr (r, e) ↦ elim (Bool-cases (is_listing_offline r.listing)) [
      | inr live ↦
          let (id, after, made, grown) = online_taken (some r) p b all in
          (
            record { applied_charge = some id; is_offline = false },
            after,
            rw (e, live, apply_to_reservation) made,
            let known : is_offline_stay p.reservation_hostaway_id b ≡ false =
                  rw (e, is_offline_stay) live in
                subst (λ (o : Bool). IsBooked o p (some id) b.charges after.charges) (sym known)
                  (id, refl, grown),
          )
      | inl offline ↦ (
        record { applied_charge = none; is_offline = true },
        (apply_offline env r p b).1,
        rw (e, offline, apply_to_reservation) refl,
        let known : is_offline_stay p.reservation_hostaway_id b ≡ true =
              rw (e, is_offline_stay) offline in
            subst (λ (o : Bool). IsBooked o p none b.charges (apply_offline env r p b).1.charges)
              (sym known) (refl, confirm_fonio_inquiry_charges env p.reservation_hostaway_id _),
      )
    ]
  ]
