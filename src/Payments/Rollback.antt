-- ===== src/Payments/Rollback.antt =====
-- A confirmation that fails leaves no charge behind: the rollback of `confirmReview`.
use fonio_middleware.Base.{
  sym, Bool-cases, subst, ◌+◌, length, none, ◌∙◌, some, ap, Option, ◌≢◌, inr, inl, refl,
  Option-cases, ◌≡◌, [], ◌≤◌, ◌∷◌, ◌<◌, ◌++◌, All, List, ℕ, arith,
}
use fonio_middleware.Payments.Books.{
  plan_applied, cancel_charge, without_charge, Charge, Call, Books,
}
use fonio_middleware.Payments.Review.{
  plan_lines, confirmed_row, Line, confirm_review, confirm_pending, apply_all, line_is_offline,
  line_params, apply_lines, applied_line, take_back, Target, roll_back, AppliedLine,
}
use fonio_middleware.Payments.Apply.{
  apply_to_reservation, Applied, ApplyParams, cancel_guest_charge, External,
}
use fonio_middleware.Payments.Program.{
  Result-cases, modify, continue_keeps, pure, settle_keeps, err, ok,
}
use fonio_middleware.Base.Text.{Text}
use fonio_middleware.Payments.Desk.{
  on_books, update_payment, find_payment, Desk, internal, DeskError, ExternalPayment,
}
use fonio_middleware.Payments.Charges.{apply_to_reservation-Ends, Charged, charge_of, Ends}
use fonio_middleware.Payments.Filing.{is_pending}
use fonio_middleware.Payments.Consistency.{on_books_keeps}

-- What the rollback needs of Hostaway. Its ids are new: with `next`, a bound on the ids that were given
-- out before. It cancels every charge that it is asked to, and takes every message.
pub record IsReliable (env : External) : Type 0 where
  pub bound : List Call → ℕ
  pub bound_mono : (c : Call) (cs : List Call) → bound cs ≤ bound (c ∷ cs)
  pub new_id :
      (c : Call) (cs : List Call) (id : ℕ)
      → env.create_answer (c ∷ cs) ≡ ok id
      → (bound cs ≤ id) × (id < bound (c ∷ cs))
  pub cancels : (cs : List Call) → env.cancel_answer cs ≡ ok tt
  pub takes_messages : (cs : List Call) (e : Text) → env.inbox_answer cs ≢ err e

abbrev pub AllBelow : ℕ → List Charge → Type 0
AllBelow n = All (λ c. c.charge_id < n)

abbrev strip_one : Option ℕ → List Charge → List Charge
strip_one none cs = cs
strip_one (some id) cs = without_charge id cs

-- The charges without those of the lines.
abbrev strip : List AppliedLine → List Charge → List Charge
strip [] cs = cs
strip (l ∷ ls) cs = strip ls (strip_one l.charge cs)

abbrev IdBelow : ℕ → Option ℕ → Type 0
IdBelow n none = Unit
IdBelow n (some id) = id < n

abbrev LinesBelow : ℕ → List AppliedLine → Type 0
LinesBelow n = All (λ l. IdBelow n l.charge)

IdBelow-mono : (m n : ℕ) (o : Option ℕ) → m ≤ n → IdBelow m o → IdBelow n o
IdBelow-mono m n none le h = tt
IdBelow-mono m n (some id) le h = omega (arith, le, h)

LinesBelow-snoc :
    (m n : ℕ) (ls : List AppliedLine) (l : AppliedLine)
    → m ≤ n
    → LinesBelow m ls
    → IdBelow n l.charge
    → LinesBelow n (ls ++ l ∷ [])
LinesBelow-snoc m n [] l le h new = (new, tt)
LinesBelow-snoc m n (k ∷ ls) l le h new =
    (IdBelow-mono m n k.charge le h.0, LinesBelow-snoc m n ls l le h.1 new)

without_charge_below :
    (id n : ℕ) (cs : List Charge) → AllBelow n cs → n ≤ id → without_charge id cs ≡ cs
without_charge_below id n [] h le = refl
without_charge_below id n (c ∷ cs) h le = ground (arith, without_charge_below id n cs h.1 le)

strip-snoc :
    (ls : List AppliedLine) (l : AppliedLine) (cs : List Charge)
    → strip (ls ++ l ∷ []) cs ≡ strip_one l.charge (strip ls cs)
strip-snoc [] l cs = refl
strip-snoc (k ∷ ls) l cs = strip-snoc ls l (strip_one k.charge cs)

strip_one-cons :
    (o : Option ℕ) (n : ℕ) (c : Charge) (cs : List Charge)
    → IdBelow n o
    → n ≤ c.charge_id
    → strip_one o (c ∷ cs) ≡ c ∷ strip_one o cs
strip_one-cons none n c cs h le = refl
strip_one-cons (some id) n c cs h le = ground arith

-- A charge with a newer id is not stripped.
strip-cons :
    (ls : List AppliedLine) (n : ℕ) (c : Charge) (cs : List Charge)
    → LinesBelow n ls
    → n ≤ c.charge_id
    → strip ls (c ∷ cs) ≡ c ∷ strip ls cs
strip-cons [] n c cs h le = refl
strip-cons (l ∷ ls) n c cs h le =
    ap (strip ls) (strip_one-cons l.charge n c cs h.0 le)
    ∙ strip-cons ls n c (strip_one l.charge cs) h.1 le

without_charge_head :
    (id : ℕ) (c : Charge) (cs : List Charge)
    → c.charge_id ≡ id
    → without_charge id (c ∷ cs) ≡ without_charge id cs
without_charge_head id c cs e = ground arith

module _ (env : External) (h : IsReliable env) where
  take_back_charges :
      (hostaway_id id : ℕ) (b : Books)
      → (take_back env hostaway_id id b).charges ≡ without_charge id b.charges
  unfolding cancel_guest_charge
  take_back_charges hostaway_id id b =
      rw (h.cancels (cancel_charge hostaway_id id ∷ b.calls), take_back, cancel_guest_charge) refl

  roll_back_charges :
      (ls : List AppliedLine) (b : Books) → (roll_back env ls b).charges ≡ strip ls b.charges
  unfolding roll_back
  roll_back_charges [] b = refl
  roll_back_charges (l ∷ ls) b = elim (Option-cases l.charge) [
    | inl e ↦ rw (e, roll_back) (roll_back_charges ls b)
    | inr (id, e) ↦
        rw (e, roll_back)
          (roll_back_charges ls (take_back env l.line_hostaway_id id b)
            ∙ ap (strip ls) (take_back_charges l.line_hostaway_id id b))
  ]

  module _ (p : ExternalPayment) (start : List Charge) (limit : ℕ)
      (old : AllBelow limit start) where
    -- The lines that are applied made the charges that there are beside the old ones.
    abbrev IsAccounted : List AppliedLine → Books → Type 0
    IsAccounted done b =
        (LinesBelow (h.bound b.calls) done)
        × (strip done b.charges ≡ start)
        × (limit ≤ h.bound b.calls)

    step-IsAccounted :
        (t : Target) (params : ApplyParams) (done : List AppliedLine) (b after : Books)
        (a : Applied)
        → IsAccounted done b
        → Ends env h.bound h.bound_mono params b (ok a, after)
        → IsAccounted (done ++ applied_line env t a.applied_charge ∷ []) after
    step-IsAccounted t params done b after a i ends = go a.applied_charge ends.0 ends.1
      where
        go :
            (o : Option ℕ)
            → h.bound b.calls ≤ h.bound after.calls
            → Charged env h.bound h.bound_mono params b after o
            → IsAccounted (done ++ applied_line env t o ∷ []) after
        go none le same = (
          LinesBelow-snoc _ _ done _ le i.0 tt,
          strip-snoc done _ after.charges ∙ ap (strip done) same ∙ i.1,
          omega (arith, le, i.2),
        )
        go (some id) le (c, taken, later, grown) =
            let new : (h.bound b.calls ≤ id) × (id < h.bound (c ∷ b.calls)) =
              h.new_id c b.calls id taken in
            (
              LinesBelow-snoc _ _ done _ le i.0 (omega (arith, new, later)),
              strip-snoc done _ after.charges
                  ∙ ap (λ (cs : List Charge). without_charge id (strip done cs)) grown
                  ∙ ap (without_charge id) (
                      strip-cons done (h.bound b.calls) (charge_of env params id) b.charges i.0
                        new.0)
                  ∙ without_charge_head id (charge_of env params id) (strip done b.charges) refl
                  ∙ ap (without_charge id) i.1
                  ∙ without_charge_below id limit start old (omega (arith, new, i.2)),
              omega (arith, le, i.2),
            )

    apply_lines-strip :
        (ts : List Target) (done : List AppliedLine) (b after : Books) (e : Text × List AppliedLine)
        → IsAccounted done b
        → apply_lines env p ts done b ≡ (err e, after)
        → strip e.1 after.charges ≡ start
    unfolding apply_lines plan_applied
    apply_lines-strip [] done b after e i failed = cc
    apply_lines-strip (t ∷ ts) done b after e i failed =
        let params : ApplyParams =
          line_params env p (length done) (length done + length (t ∷ ts)) t in
        let ends : Ends env h.bound h.bound_mono params b (apply_to_reservation env params b) =
          apply_to_reservation-Ends env h.bound h.bound_mono params b in
        let go_on : (charge : Option ℕ) (s : Books)
            → IsAccounted (done ++ applied_line env t charge ∷ []) s
            → apply_lines env p ts (done ++ applied_line env t charge ∷ []) s ≡ (err e, after)
            → strip e.1 after.charges ≡ start =
          λ charge s. apply_lines-strip ts (done ++ applied_line env t charge ∷ []) s after e in
        settle_keeps (λ r. r ≡ (err e, after) → strip e.1 after.charges ≡ start) _ _
          (apply_to_reservation env params b)
          (λ message s at.
            let ended : Ends env h.bound h.bound_mono params b (err message, s) =
              subst (Ends env h.bound h.bound_mono params b) at ends in
            let same : s.charges ≡ b.charges = elim ended.1 [
              | inl e ↦ e
              | inr (cs, refused) ↦ absurd (h.takes_messages cs message refused)
            ] in
            elim (Bool-cases (line_is_offline env t message s)) [
              | inl offline ↦ rw offline (
                  go_on none (plan_applied env.today t.reservation.id t.amount s) (
                    LinesBelow-snoc _ _ done _ ended.0 i.0 tt,
                    strip-snoc done _ s.charges ∙ ap (strip done) same ∙ i.1,
                    omega (arith, ended.0, i.2),
                  ))
              | inr live ↦ rw live (λ thrown.
                  let books : s ≡ after = ap (λ r. r.1) thrown in
                  let failure : ◌≡◌ {A = Text × List AppliedLine} (message, done) e = cc in
                  ap (λ (x : Text × List AppliedLine). strip x.1 after.charges) (sym failure)
                  ∙ ap (λ (x : Books). strip done x.charges) (sym books)
                  ∙ ap (strip done) same
                  ∙ i.1)
            ])
          (λ a s at. go_on a.applied_charge s (
            step-IsAccounted t params done b s a i
              (subst (Ends env h.bound h.bound_mono params b) at ends)))
          failed

  apply_all_rolls_back :
      (p : ExternalPayment) (ts : List Target) (b after : Books) (e : DeskError)
      → AllBelow (h.bound b.calls) b.charges
      → apply_all env p ts b ≡ (err e, after)
      → after.charges ≡ b.charges
  unfolding apply_all
  apply_all_rolls_back p ts b after e old failed =
      settle_keeps (λ r. r ≡ (err e, after) → after.charges ≡ b.charges)
        (λ failure s. (err (internal failure.0), roll_back env failure.1 s)) pure
        (apply_lines env p ts [] b)
        (λ failure s at thrown.
          let books : roll_back env failure.1 s ≡ after = ap (λ r. r.1) thrown in
          ap (λ (x : Books). x.charges) (sym books)
          ∙ roll_back_charges failure.1 s
          ∙ apply_lines-strip p b.charges (h.bound b.calls) old ts [] b s failure
              (tt, refl, omega arith) at)
        (λ done s at thrown. cc) failed

  confirm_pending_rolls_back :
      (p : ExternalPayment) (ts : List Target) (d : Desk) (e : DeskError)
      → AllBelow (h.bound d.books.calls) d.books.charges
      → (confirm_pending env p ts d).0 ≡ err e
      → ((confirm_pending env p ts d).1.payments ≡ d.payments)
        × ((confirm_pending env p ts d).1.books.charges ≡ d.books.charges)
  unfolding confirm_pending
  confirm_pending_rolls_back p ts d e old =
      continue_keeps
        (λ r. r.0 ≡ err e → (r.1.payments ≡ d.payments) × (r.1.books.charges ≡ d.books.charges))
        (λ done. modify (update_payment p.id (confirmed_row done)))
        (on_books (apply_all env p ts) d) (λ done s at thrown. cc)
        (λ x s at thrown. (
          on_books_keeps (apply_all env p ts) d s (err x) at,
          apply_all_rolls_back p ts d.books s.books x old (ap (λ r. (r.0, r.1.books)) at),
        ))

  -- A confirmation that throws has left the payments as they were, and the charges at Hostaway too, if
  -- the ids of new charges are new, every charge can be cancelled and every message is taken.
  pub confirm_review_rolls_back :
      (id : ℕ) (allocations : List Line) (reservation : Option ℕ) (remark : Option Text) (d : Desk)
      (e : DeskError)
      → AllBelow (h.bound d.books.calls) d.books.charges
      → (confirm_review env id allocations reservation remark d).0 ≡ err e
      → let after : Desk = (confirm_review env id allocations reservation remark d).1 in
        (after.payments ≡ d.payments) × (after.books.charges ≡ d.books.charges)
  unfolding confirm_review
  confirm_review_rolls_back id allocations reservation remark d e old =
      elim (Option-cases (find_payment id d)) [
        | inl f ↦ rw (f, confirm_review) (λ thrown. (refl, refl))
        | inr (p, f) ↦ elim (Bool-cases (is_pending p.status)) [
          | inr closed ↦ rw (f, closed, confirm_review) (λ thrown. (refl, refl))
          | inl pending ↦
              elim (Result-cases (plan_lines p allocations reservation remark d.books)) [
                | inr (x, wrong) ↦ rw (f, pending, wrong, confirm_review) (λ thrown. (refl, refl))
                | inl (ts, planned) ↦
                    rw (f, pending, planned, confirm_review)
                      (confirm_pending_rolls_back p ts d e old)
              ]
        ]
      ]
