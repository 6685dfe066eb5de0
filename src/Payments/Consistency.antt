-- ===== src/Payments/Consistency.antt =====
-- What holds of the rows of `ExternalPayment` whatever the services do: the money that a payment was
-- split into is the money that came in.
use fonio_middleware.Base.{
  ◌==◌, true, none, sym, inr, inl, ◌||◌, Option-cases, refl, Option, Bool-cases, Bool, ◌∙◌, find,
  ap, ◌≢◌, map, find_sound, [], ==_iff, ◌∷◌, some, false, ◌≡◌, All, List, ℕ, arith,
}
use fonio_middleware.Payments.Desk.{
  update_payment, unambiguous, on_books, Best, failed, skipped, pending_review, received, has_id,
  Match, find_payment, Matcher, Allocation, is_applied, ExternalPaymentStatus, Desk,
  ExternalPayment, auto_applied, manually_applied,
}
use fonio_middleware.Payments.Apply.{apply_to_reservation, External}
use fonio_middleware.Base.Int.{◌<ℤ◌, pos, ℤ}
use fonio_middleware.Payments.Table.{find-update_where, All-update_where, update_where, All_found}
use fonio_middleware.Payments.Books.{Books, total_of}
use fonio_middleware.Payments.Reconcile.{
  auto_params, settle_match, reconcile_open, reconcile, file, auto_apply,
}
use fonio_middleware.Payments.Filing.{
  matched_listing_offline, looks_like_archived_listing_api_error, is_skipped, allocation_of,
  auto_target, review_row, applied_row, filed_status, filed_row,
}
use fonio_middleware.Payments.Review.{differs_by_cents}
use fonio_middleware.Payments.Program.{err, Result, ok, Result-cases, Program, settle_keeps}

abbrev pub allocated : List Allocation → ℤ
allocated rows = total_of (map (λ a. a.amount) rows)

-- An automatic application books the whole payment, once, and only money that came in; a manual one
-- books the payment up to a cent, on one reservation at least; and no other payment is booked.
abbrev pub Settled : ExternalPaymentStatus → ExternalPayment → Type 0
Settled auto_applied p =
    (a : Allocation) × (p.allocations ≡ a ∷ []) × (a.amount ≡ p.amount) × (pos 0 <ℤ p.amount)
Settled manually_applied p =
    (p.allocations ≢ []) × (differs_by_cents (allocated p.allocations) p.amount ≡ false)
Settled received p = p.allocations ≡ []
Settled pending_review p = p.allocations ≡ []
Settled skipped p = p.allocations ≡ []
Settled failed p = p.allocations ≡ []

abbrev pub IsConsistent : ExternalPayment → Type 0
IsConsistent p = Settled p.status p

abbrev pub AllConsistent : Desk → Type 0
AllConsistent d = All IsConsistent d.payments

pub not_applied-eq-nil :
    (p : ExternalPayment) → is_applied p.status ≡ false → IsConsistent p → p.allocations ≡ []
not_applied-eq-nil p open_row h = go p.status open_row h
  where
    go : (s : ExternalPaymentStatus) → is_applied s ≡ false → Settled s p → p.allocations ≡ []
    go received e h = h
    go pending_review e h = h
    go auto_applied e h = cc
    go manually_applied e h = cc
    go skipped e h = h
    go failed e h = h

-- The row of a payment is found by its own id.
pub found_by_id :
    (id : ℕ) (p : ExternalPayment) (d : Desk)
    → find_payment id d ≡ some p
    → find_payment p.id d ≡ some p
found_by_id id p d found =
    let same : p.id ≡ id = (==_iff p.id id).0 (find_sound (has_id id) d.payments p found) in
    ap (λ (k : ℕ). find (has_id k) d.payments) same ∙ found

-- The row that the services write is found in its place.
pub update_payment_found :
    (id : ℕ) (p : ExternalPayment) (f : ExternalPayment → ExternalPayment) (d after : Desk)
    → find_payment id d ≡ some p
    → after.payments ≡ d.payments
    → (f p).id ≡ p.id
    → find_payment id (update_payment p.id f after) ≡ some (f p)
update_payment_found id p f d after found same kept =
    let key : has_id id p ≡ true = find_sound (has_id id) d.payments p found in
    let still : has_id id (f p) ≡ true = ap (λ (k : ℕ). k == id) kept ∙ key in
    ap (λ (k : ℕ). find (has_id id) (update_where (has_id k) f after.payments))
      ((==_iff p.id id).0 key)
    ∙ rw same (find-update_where (has_id id) f d.payments p found still)

pub found-IsConsistent :
    (id : ℕ) (p : ExternalPayment) (d : Desk)
    → find_payment id d ≡ some p
    → AllConsistent d
    → IsConsistent p
found-IsConsistent id p d found h = All_found IsConsistent (has_id id) d.payments p found h

-- A row stays consistent if the services write a consistent row in its place.
pub update-AllConsistent :
    (p : ExternalPayment) (f : ExternalPayment → ExternalPayment) (d after : Desk)
    → find_payment p.id d ≡ some p
    → AllConsistent d
    → after.payments ≡ d.payments
    → IsConsistent (f p)
    → All IsConsistent (update_where (has_id p.id) f after.payments)
update-AllConsistent p f d after found h same new =
    rw same (All-update_where IsConsistent (has_id p.id) f d.payments p found h new)

-- A program over the books leaves the payments alone.
pub on_books_keeps :
    {E A : Type 0} (m : Program Books E A) (d after : Desk) (r : Result E A)
    → on_books m d ≡ (r, after)
    → after.payments ≡ d.payments
on_books_keeps m d after r e = ap (λ x. x.1.payments) (sym e)

auto_target_sound :
    (allow force offline : Bool) (p : ExternalPayment) (m : Match) (best : Best)
    → auto_target allow force p m offline ≡ some best
    → m.decision ≡ unambiguous
unfolding auto_target
auto_target_sound allow force offline p m best e = ground arith

module _ (env : External) (matcher : Matcher) (p : ExternalPayment) (d : Desk)
    (found : find_payment p.id d ≡ some p) (h : AllConsistent d)
    (unbooked : p.allocations ≡ []) where
  applied_row-IsConsistent :
      (m : Match) (best : Best) (charge : Option ℕ)
      → pos 0 <ℤ p.amount
      → IsConsistent (applied_row p m best charge p)
  unfolding applied_row
  applied_row-IsConsistent m best charge positive =
      (allocation_of best p charge, rw unbooked refl, refl, positive)

  auto_apply-AllConsistent :
      (m : Match) (best : Best) (offline : Bool)
      → pos 0 <ℤ p.amount
      → AllConsistent (auto_apply env matcher p m best offline d).1
  unfolding auto_apply review_row
  auto_apply-AllConsistent m best offline positive =
      settle_keeps (λ r. AllConsistent r.1) _ _
        (on_books (apply_to_reservation env (auto_params p best)) d)
        (λ e s at. elim (Bool-cases (offline || looks_like_archived_listing_api_error e)) [
          | inl archived ↦ rw archived (
              update-AllConsistent p _ d s found h
                (on_books_keeps (apply_to_reservation env (auto_params p best)) d s (err e) at)
                (applied_row-IsConsistent m best none positive))
          | inr live ↦ rw live (
              update-AllConsistent p _ d s found h
                (on_books_keeps (apply_to_reservation env (auto_params p best)) d s (err e) at)
                unbooked)
        ])
        (λ a s at.
          update-AllConsistent p _ d s found h
            (on_books_keeps (apply_to_reservation env (auto_params p best)) d s (ok a) at)
            (applied_row-IsConsistent m best a.applied_charge positive))

  filed_row-IsConsistent : (m : Match) → IsConsistent (filed_row m p)
  unfolding filed_row filed_status
  filed_row-IsConsistent m = elim (Bool-cases (is_skipped m.decision)) [
    | inl skip ↦ rw skip unbooked
    | inr keep_it ↦ rw keep_it unbooked
  ]

  file-AllConsistent : (m : Match) → AllConsistent (file env matcher p m d).1
  unfolding file
  file-AllConsistent m =
      update-AllConsistent p (filed_row m) d d found h refl (filed_row-IsConsistent m)

  settle_match-AllConsistent :
      (allow force : Bool) (m : Match)
      → matcher.find_match p d.books ≡ ok m
      → AllConsistent (settle_match env matcher allow force p m d).1
  unfolding settle_match
  settle_match-AllConsistent allow force m matched =
      elim (Option-cases (auto_target allow force p m (matched_listing_offline m d.books))) [
        | inl e ↦ rw (e, settle_match) (file-AllConsistent m)
        | inr (best, e) ↦
            rw (e, settle_match)
              (auto_apply-AllConsistent m best (matched_listing_offline m d.books) (
                matcher.unambiguous_positive p d.books m matched
                  (auto_target_sound allow force _ p m best e)))
      ]

  reconcile_open-AllConsistent :
      (allow force : Bool) → AllConsistent (reconcile_open env matcher allow force p d).1
  unfolding reconcile_open
  reconcile_open-AllConsistent allow force = elim (Result-cases (matcher.find_match p d.books)) [
    | inl (m, e) ↦ rw (e, reconcile_open) (settle_match-AllConsistent allow force m e)
    | inr (message, e) ↦ rw (e, reconcile_open) h
  ]

pub reconcile-AllConsistent :
    (env : External) (matcher : Matcher) (allow force : Bool) (id : ℕ) (d : Desk)
    → AllConsistent d
    → AllConsistent (reconcile env matcher allow force id d).1
unfolding reconcile
reconcile-AllConsistent env matcher allow force id d h = elim (Option-cases (find_payment id d)) [
  | inl e ↦ rw (e, reconcile) h
  | inr (p, e) ↦ elim (Bool-cases (is_applied p.status)) [
    | inl done ↦ rw (e, done, reconcile) h
    | inr open_row ↦
        rw (e, open_row, reconcile)
          (reconcile_open-AllConsistent env matcher p d (found_by_id id p d e) h
            (not_applied-eq-nil p open_row (found-IsConsistent id p d e h)) allow force)
  ]
]
