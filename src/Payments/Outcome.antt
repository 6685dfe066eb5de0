-- ===== src/Payments/Outcome.antt =====
-- What becomes of a payment: `reconcile` where the match is certain.
use fonio_middleware.Base.{
  [], ◌++◌, none, ◌∷◌, ◌∙◌, ap, refl, find_sound, false, true, some, Bool, ◌≡◌, ℕ,
}
use fonio_middleware.Payments.Desk.{
  skipped, modify_books, auto_applied, is_applied, update_payment, has_id, find_payment, Best,
  Match, ExternalPayment, Matcher, Desk, unambiguous,
}
use fonio_middleware.Payments.Apply.{apply_to_reservation, Applied, External}
use fonio_middleware.Payments.Reconcile.{
  auto_params, settle_match, reconcile_open, reconcile, auto_apply,
}
use fonio_middleware.Payments.Filing.{
  allocation_of, applied_row, prior_apply_failed, matched_listing_offline, auto_target,
}
use fonio_middleware.Payments.Books.{remember_booking_code, call, Books}
use fonio_middleware.Payments.Program.{ok}
use fonio_middleware.Base.Text.{Text}
use fonio_middleware.Payments.Table.{find-update_where}
use fonio_middleware.Payments.Taken.{TakesAll, is_offline_stay, IsBooked, apply_is_made}
use fonio_middleware.Payments.Review.{skip_review}
use fonio_middleware.Payments.Consistency.{update_payment_found}

-- Reconciliation finds a reservation for certain, and nothing speaks against applying it.
pub record IsCertain (matcher : Matcher) (id : ℕ) (p : ExternalPayment) (m : Match) (best : Best)
    (d : Desk) : Type 0 where
  pub found : find_payment id d ≡ some p
  pub is_open : is_applied p.status ≡ false
  pub matched : matcher.find_match p d.books ≡ ok m
  pub certain : m.decision ≡ unambiguous
  pub candidate : m.best ≡ some best
  pub untried : prior_apply_failed p.error ≡ false

module _ (env : External) (matcher : Matcher) (id : ℕ) (p : ExternalPayment) (m : Match)
    (best : Best) (d : Desk) (c : IsCertain matcher id p m best d) where
  target : (offline : Bool) → auto_target true false p m offline ≡ some best
  unfolding auto_target
  target offline = rw (c.certain, c.untried) c.candidate

  reconcile-eq-auto_apply :
      reconcile env matcher true false id d
      ≡ auto_apply env matcher p m best (matched_listing_offline m d.books) d
  unfolding reconcile reconcile_open settle_match
  reconcile-eq-auto_apply =
      rw
        (
          c.found,
          c.is_open,
          c.matched,
          target (matched_listing_offline m d.books),
          reconcile,
          reconcile_open,
          settle_match,
        )
        refl

  -- An application that is made is stored.
  reconcile_stores :
      (a : Applied) (b : Books)
      → apply_to_reservation env (auto_params p best) d.books ≡ (ok a, b)
      → ((reconcile env matcher true false id d).0 ≡ ok auto_applied)
        × (find_payment id (reconcile env matcher true false id d).1
            ≡ some (applied_row p m best a.applied_charge p))
        × ((reconcile env matcher true false id d).1.books.charges ≡ b.charges)
  unfolding auto_apply applied_row
  reconcile_stores a b applied =
      let after : Desk =
        modify_books (call (remember_booking_code best.reservation_id))
          (update_payment p.id (applied_row p m best a.applied_charge) (record d { books = b })) in
      let result : reconcile env matcher true false id d ≡ (ok auto_applied, after) =
        reconcile-eq-auto_apply ∙ rw (applied, auto_apply) refl in
      (
        ap (λ r. r.0) result,
        ap (λ r. find_payment id r.1) result
            ∙ update_payment_found id p (applied_row p m best a.applied_charge) d
                (record d { books = b }) c.found refl refl,
        ap (λ r. r.1.books.charges) result,
      )

  -- If Hostaway refuses no charge and no message, a payment that is not applied, whose match is certain
  -- and of which no earlier application failed, is applied at its next reconciliation. Its row is then
  -- marked as automatically applied, without an error, and has one allocation more than before, of
  -- the whole amount, to the reservation of the match. Hostaway has one charge more, of the whole
  -- amount for that reservation, which the row and the allocation name; if its listing is offline there
  -- is no new charge, and they name none.
  pub reconcile_applies :
      TakesAll env
      → let after : Desk = (reconcile env matcher true false id d).1 in
        ((reconcile env matcher true false id d).0 ≡ ok auto_applied)
        × (row : ExternalPayment) × (find_payment id after ≡ some row)
        × (row.status ≡ auto_applied)
        × (row.error ≡ none)
        × (row.allocations
            ≡ p.allocations
              ++ record {
                reservation_id = best.reservation_id;
                amount = p.amount;
                charge = row.hostaway_charge_id;
              }
                ∷ [])
        × IsBooked
            (is_offline_stay best.hostaway_id d.books)
            (auto_params p best)
            row.hostaway_charge_id
            d.books.charges
            after.books.charges
  unfolding applied_row
  reconcile_applies all =
      let (a, b, made, booked) = apply_is_made env (auto_params p best) d.books all in
      let (told, found, charged) = reconcile_stores a b made in
      (told, applied_row p m best a.applied_charge p, found, refl, refl, refl, rw charged booked)

abbrev pub skipped_row : ExternalPayment → ExternalPayment
skipped_row p = record p { status = skipped }

-- A payment that was applied, then skipped and reconciled once more is booked a second time, if it is
-- matched for certain again and Hostaway takes the charge: its row keeps the allocations of the first
-- time, and has a new one of the whole amount.
pub skip_review_rebooks :
    (env : External) (matcher : Matcher) (id : ℕ) (p : ExternalPayment) (m : Match) (best : Best)
    (d : Desk) (a : Applied) (b : Books)
    → find_payment id d ≡ some p
    → is_applied p.status ≡ true
    → matcher.find_match (skipped_row p) d.books ≡ ok m
    → m.decision ≡ unambiguous
    → m.best ≡ some best
    → p.error ≡ none
    → apply_to_reservation env (auto_params p best) d.books ≡ (ok a, b)
    → let row : ExternalPayment =
        applied_row (skipped_row p) m best a.applied_charge (skipped_row p) in
      (find_payment id (reconcile env matcher true false id (skip_review id d).1).1 ≡ some row)
      × (row.status ≡ auto_applied)
      × (row.allocations ≡ p.allocations ++ allocation_of best p a.applied_charge ∷ [])
unfolding skip_review applied_row prior_apply_failed
skip_review_rebooks env matcher id p m best d a b found applied matched certain candidate fresh
      taken =
    let skip_desk : Desk = update_payment id skipped_row d in
    let after_skip : (skip_review id d).1 ≡ skip_desk = rw (found, skip_review) refl in
    let key_kept : has_id id p ≡ true = find_sound (has_id id) d.payments p found in
    let found_again : find_payment id skip_desk ≡ some (skipped_row p) =
      find-update_where (has_id id) skipped_row d.payments p found key_kept in
    let untried : prior_apply_failed p.error ≡ false = rw fresh refl in
    let c : IsCertain matcher id (skipped_row p) m best skip_desk = record {
      found = found_again;
      is_open = refl;
      matched = matched;
      certain = certain;
      candidate = candidate;
      untried = untried;
    } in
    (
      ap (λ (s : Desk). find_payment id (reconcile env matcher true false id s).1) after_skip
          ∙ (reconcile_stores env matcher id (skipped_row p) m best skip_desk c a b taken).1,
      refl,
      refl,
    )
