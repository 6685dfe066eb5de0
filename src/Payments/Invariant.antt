-- ===== src/Payments/Invariant.antt =====
-- Every history of the services keeps the payments consistent.
use fonio_middleware.Base.{
  ◌++◌, All, ◌∙◌, sym, ap, Bool-cases, refl, inr, subst, inl, find, map, Option-cases, true, ◌≢◌,
  false, ◌∷◌, some, [], Option, ◌≡◌, Bool, List, ℕ, arith,
}
use fonio_middleware.Payments.Desk.{
  Allocation, on_books, update_payment, has_id, is_applied, find_payment, Matcher, ExternalPayment,
  Desk,
}
use fonio_middleware.Payments.Review.{
  allocation_row, plan_lines, apply_all, lines_of, differs_by_cents, Target, Line, AppliedLine,
  skip_review, confirmed_row, confirm_review, confirm_pending,
}
use fonio_middleware.Payments.Reconcile.{
  rematch_pending_review, reconcile, rematch, ingest_and_reconcile,
}
use fonio_middleware.Payments.Undo.{
  undo_each, undo_auto_applied_for_reservation, undone_row, withdraw, undo_application,
}
use fonio_middleware.Payments.Apply.{External}
use fonio_middleware.Payments.Consistency.{
  on_books_keeps, update-AllConsistent, found_by_id, found-IsConsistent, not_applied-eq-nil,
  reconcile-AllConsistent, allocated, IsConsistent, AllConsistent,
}
use fonio_middleware.Base.Text.{Text}
use fonio_middleware.Payments.Lines.{
  plan_lines_sound, apply_all_amounts, line_amounts, target_amounts, applied_amounts,
}
use fonio_middleware.Payments.Program.{err, ok, Result-cases, modify, Result, continue_keeps}
use fonio_middleware.Payments.Filing.{is_pending, same_payment, counted}
use fonio_middleware.Payments.Books.{by_hostaway_id, Books, total_of}
use fonio_middleware.Payments.Table.{All-update_where}
use fonio_middleware.Base.Int.{ℤ}

after_keeps :
    {E A S : Type 0} (Q : S → Type 0) (x : Result E A × S) (r : Result E A) (s : S)
    → x ≡ (r, s)
    → Q x.1
    → Q s
after_keeps Q x r s at h = subst (λ y. Q y.1) at h

rematch-AllConsistent :
    (env : External) (matcher : Matcher) (force : Bool) (ids : List ℕ) (counts : ℕ × ℕ) (d : Desk)
    → AllConsistent d
    → AllConsistent (rematch env matcher force ids counts d).1
unfolding rematch
rematch-AllConsistent env matcher force [] counts d h = h
rematch-AllConsistent env matcher force (id ∷ ids) counts d h =
    continue_keeps (λ r. AllConsistent r.1)
      (λ status. rematch env matcher force ids (counted status counts))
      (reconcile env matcher true force id d)
      (λ status s at. rematch-AllConsistent env matcher force ids (counted status counts) s (
        after_keeps AllConsistent _ _ s at (reconcile-AllConsistent env matcher true force id d h)))
      (λ e s at.
        after_keeps AllConsistent _ _ s at (reconcile-AllConsistent env matcher true force id d h))

ingest-AllConsistent :
    (env : External) (matcher : Matcher) (fresh : ℕ) (p : ExternalPayment) (d : Desk)
    → AllConsistent d
    → AllConsistent (ingest_and_reconcile env matcher fresh p d).1
unfolding ingest_and_reconcile
ingest-AllConsistent env matcher fresh p d h =
    elim (Option-cases (find (same_payment p) d.payments)) [
      | inr (q, e) ↦ rw (e, ingest_and_reconcile) h
      | inl e ↦
          rw (e, ingest_and_reconcile)
            (continue_keeps (λ r. AllConsistent r.1) _ (reconcile env matcher true false fresh _)
              (λ status s at.
                after_keeps AllConsistent _ _ s at
                  (reconcile-AllConsistent env matcher true false fresh _ (refl, h)))
              (λ x s at.
                after_keeps AllConsistent _ _ s at
                  (reconcile-AllConsistent env matcher true false fresh _ (refl, h))))
    ]

allocated-allocation_row :
    (done : List AppliedLine) → map (λ a. a.amount) (map allocation_row done) ≡ applied_amounts done
allocated-allocation_row [] = refl
allocated-allocation_row (l ∷ done) = ap (◌∷◌ l.amount) (allocated-allocation_row done)

confirmed_row-IsConsistent :
    (p : ExternalPayment) (done : List AppliedLine)
    → p.allocations ≡ []
    → applied_amounts done ≢ []
    → differs_by_cents (total_of (applied_amounts done)) p.amount ≡ false
    → IsConsistent (confirmed_row done p)
unfolding confirmed_row
confirmed_row-IsConsistent p done unbooked some_line sum =
    let same : allocated (map allocation_row done) ≡ total_of (applied_amounts done) =
      ap total_of (allocated-allocation_row done) in
    (
      λ e. some_line (
          sym (allocated-allocation_row done)
          ∙ ap (map (λ a. a.amount))
              (ap (λ (l : List Allocation). l ++ map allocation_row done) (sym unbooked) ∙ e)),
      rw unbooked (ap (λ (a : ℤ). differs_by_cents a p.amount) same ∙ sum),
    )

confirm_pending-AllConsistent :
    (env : External) (p : ExternalPayment) (ts : List Target) (d : Desk)
    → find_payment p.id d ≡ some p
    → AllConsistent d
    → p.allocations ≡ []
    → target_amounts ts ≢ []
    → differs_by_cents (total_of (target_amounts ts)) p.amount ≡ false
    → AllConsistent (confirm_pending env p ts d).1
unfolding confirm_pending
confirm_pending-AllConsistent env p ts d found h unbooked some_line sum =
    continue_keeps (λ r. AllConsistent r.1)
      (λ done. modify (update_payment p.id (confirmed_row done))) (on_books (apply_all env p ts) d)
      (λ done s at.
        let amounts : applied_amounts done ≡ target_amounts ts =
          apply_all_amounts env p ts done d.books s.books (ap (λ r. (r.0, r.1.books)) at) in
        update-AllConsistent p (confirmed_row done) d s found h
          (on_books_keeps (apply_all env p ts) d s (ok done) at)
          (confirmed_row-IsConsistent p done unbooked (λ e. some_line (sym amounts ∙ e))
            (ap (λ (l : List ℤ). differs_by_cents (total_of l) p.amount) amounts ∙ sum)))
      (λ x s at.
        subst (All IsConsistent) (sym (on_books_keeps (apply_all env p ts) d s (err x) at)) h)

some_line_amounts :
    (p : ExternalPayment) (allocations : List Line) (reservation : Option ℕ) (remark : Option Text)
    → line_amounts (lines_of p allocations reservation remark) ≢ []
unfolding lines_of
some_line_amounts p [] reservation remark e = cc
some_line_amounts p (l ∷ ls) reservation remark e = cc

confirm_review-AllConsistent :
    (env : External) (id : ℕ) (allocations : List Line) (reservation : Option ℕ)
    (remark : Option Text) (d : Desk)
    → AllConsistent d
    → AllConsistent (confirm_review env id allocations reservation remark d).1
unfolding confirm_review
confirm_review-AllConsistent env id allocations reservation remark d h =
    elim (Option-cases (find_payment id d)) [
      | inl e ↦ rw (e, confirm_review) h
      | inr (p, e) ↦ elim (Bool-cases (is_pending p.status)) [
        | inr closed ↦ rw (e, closed, confirm_review) h
        | inl pending ↦ elim (Result-cases (plan_lines p allocations reservation remark d.books)) [
          | inr (x, wrong) ↦ rw (e, pending, wrong, confirm_review) h
          | inl (ts, planned) ↦
              let (amounts, sum) =
                plan_lines_sound p allocations reservation remark d.books ts planned in
              rw (e, pending, planned, confirm_review)
                (confirm_pending-AllConsistent env p ts d (found_by_id id p d e) h
                  (not_applied-eq-nil p (ground (arith, pending)) (found-IsConsistent id p d e h))
                  (λ none_left.
                    some_line_amounts p allocations reservation remark (sym amounts ∙ none_left))
                  sum)
        ]
      ]
    ]

skip_review-AllConsistent :
    (id : ℕ) (p : ExternalPayment) (d : Desk)
    → find_payment id d ≡ some p
    → is_applied p.status ≡ false
    → AllConsistent d
    → AllConsistent (skip_review id d).1
unfolding skip_review
skip_review-AllConsistent id p d found open_row h =
    rw (found, skip_review)
      (All-update_where IsConsistent (has_id id) _ d.payments p found h
        (not_applied-eq-nil p open_row (found-IsConsistent id p d found h)))

withdraw-AllConsistent :
    (env : External) (p : ExternalPayment) (d : Desk)
    → find_payment p.id d ≡ some p
    → AllConsistent d
    → AllConsistent (withdraw env p d)
unfolding withdraw undone_row
withdraw-AllConsistent env p d found h =
    All-update_where IsConsistent (has_id p.id) _ d.payments p found h refl

undo-AllConsistent :
    (env : External) (matcher : Matcher) (id : ℕ) (d : Desk)
    → AllConsistent d
    → AllConsistent (undo_application env matcher id d).1
unfolding undo_application
undo-AllConsistent env matcher id d h = elim (Option-cases (find_payment id d)) [
  | inl e ↦ rw (e, undo_application) h
  | inr (p, e) ↦ elim (Bool-cases (is_applied p.status)) [
    | inr closed ↦ rw (e, closed, undo_application) h
    | inl applied ↦
        rw (e, applied, undo_application)
          (reconcile-AllConsistent env matcher false false id (withdraw env p d)
            (withdraw-AllConsistent env p d (found_by_id id p d e) h))
  ]
]

undo_each-AllConsistent :
    (env : External) (matcher : Matcher) (ids : List ℕ) (d : Desk)
    → AllConsistent d
    → AllConsistent (undo_each env matcher ids d).1
unfolding undo_each
undo_each-AllConsistent env matcher [] d h = h
undo_each-AllConsistent env matcher (id ∷ ids) d h =
    undo_each-AllConsistent env matcher ids _ (undo-AllConsistent env matcher id d h)

undo_auto_applied-AllConsistent :
    (env : External) (matcher : Matcher) (hostaway_id : ℕ) (d : Desk)
    → AllConsistent d
    → AllConsistent (undo_auto_applied_for_reservation env matcher hostaway_id d).1
unfolding undo_auto_applied_for_reservation
undo_auto_applied-AllConsistent env matcher hostaway_id d h =
    elim (Option-cases (by_hostaway_id hostaway_id d.books)) [
      | inl e ↦ rw (e, undo_auto_applied_for_reservation) h
      | inr (r, e) ↦
          rw (e, undo_auto_applied_for_reservation) (undo_each-AllConsistent env matcher _ d h)
    ]

-- One call of the service, whether it returns or throws, with any answers of Hostaway and any matcher;
-- a payment is skipped only while it is not applied. Between the calls the books may change in any way.
pub data Step : Desk → Desk → Type 0 where
  ingests :
      (env : External) (matcher : Matcher) (fresh : ℕ) (p : ExternalPayment) (d : Desk)
      → Step d (ingest_and_reconcile env matcher fresh p d).1
  reconciles :
      (env : External) (matcher : Matcher) (allow force : Bool) (id : ℕ) (d : Desk)
      → Step d (reconcile env matcher allow force id d).1
  rematches :
      (env : External) (matcher : Matcher) (limit : ℕ) (force : Bool) (d : Desk)
      → Step d (rematch_pending_review env matcher limit force d).1
  confirms :
      (env : External) (id : ℕ) (allocations : List Line) (reservation : Option ℕ)
      (remark : Option Text) (d : Desk)
      → Step d (confirm_review env id allocations reservation remark d).1
  skips :
      (id : ℕ) (p : ExternalPayment) (d : Desk)
      → find_payment id d ≡ some p
      → is_applied p.status ≡ false
      → Step d (skip_review id d).1
  undoes :
      (env : External) (matcher : Matcher) (id : ℕ) (d : Desk)
      → Step d (undo_application env matcher id d).1
  undoes_all :
      (env : External) (matcher : Matcher) (hostaway_id : ℕ) (d : Desk)
      → Step d (undo_auto_applied_for_reservation env matcher hostaway_id d).1
  elsewhere : (b : Books) (d : Desk) → Step d (record d { books = b })

pub data Reach (start : Desk) : Desk → Type 0 where
  here : Reach start start
  next : {d e : Desk} → Reach start d → Step d e → Reach start e

Step-AllConsistent : {d e : Desk} → Step d e → AllConsistent d → AllConsistent e
unfolding rematch_pending_review
Step-AllConsistent (ingests env matcher fresh p d) h = ingest-AllConsistent env matcher fresh p d h
Step-AllConsistent (reconciles env matcher allow force id d) h =
    reconcile-AllConsistent env matcher allow force id d h
Step-AllConsistent (rematches env matcher limit force d) h =
    rematch-AllConsistent env matcher force _ (0, 0) d h
Step-AllConsistent (confirms env id allocations reservation remark d) h =
    confirm_review-AllConsistent env id allocations reservation remark d h
Step-AllConsistent (skips id p d found open_row) h =
    skip_review-AllConsistent id p d found open_row h
Step-AllConsistent (undoes env matcher id d) h = undo-AllConsistent env matcher id d h
Step-AllConsistent (undoes_all env matcher hostaway_id d) h =
    undo_auto_applied-AllConsistent env matcher hostaway_id d h
Step-AllConsistent (elsewhere b d) h = h

-- After any history of calls, from an empty table of payments: an automatically applied payment is
-- booked once, in full, and is money that came in; a manually applied one is booked on one reservation
-- at least, for amounts that add up to it but for a cent; and any other payment is not booked. The
-- calls may fail at any point, and only payments that are not applied are skipped.
pub Reach-AllConsistent :
    {b : Books} {d : Desk} → Reach (record { payments = []; books = b }) d → AllConsistent d
Reach-AllConsistent here = tt
Reach-AllConsistent (next r s) = Step-AllConsistent s (Reach-AllConsistent r)
