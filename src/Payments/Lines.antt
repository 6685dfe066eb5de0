-- ===== src/Payments/Lines.antt =====
-- The lines of a confirmed payment add up: `confirmReview`.
use mathlib.Core.List.{append-nil}
use fonio_middleware.Base.{
  sym, none, Bool-cases, ◌+◌, length, refl, ◌∙◌, ap, inr, false, inl, [], ◌∷◌, ◌++◌, ◌≡◌, map,
  Option, List, ℕ, arith,
}
use fonio_middleware.Payments.Apply.{apply_to_reservation, External}
use fonio_middleware.Payments.Review.{
  line_is_offline, roll_back, line_params, applied_line, has_twice, checked_targets, apply_all,
  differs_by_cents, lines_of, apply_lines, Target, Line, AppliedLine, targets, plan_lines,
  fall_back, check_lines,
}
use fonio_middleware.Payments.Desk.{internal, ExternalPayment}
use fonio_middleware.Payments.Books.{plan_applied, total_of, Books}
use fonio_middleware.Base.Text.{Text}
use fonio_middleware.Base.Int.{ℤ}
use fonio_middleware.Payments.Program.{pure, err, settle_keeps, Result-cases, ok}

abbrev pub line_amounts : List Line → List ℤ
line_amounts = map (λ l. l.amount)

abbrev pub checked_amounts : List (ℕ × Line) → List ℤ
checked_amounts = map (λ l. l.1.amount)

abbrev pub target_amounts : List Target → List ℤ
target_amounts = map (λ t. t.amount)

abbrev pub applied_amounts : List AppliedLine → List ℤ
applied_amounts = map (λ l. l.amount)

fall_back_amounts :
    (p : ExternalPayment) (ls out : List Line) (b : Books)
    → fall_back p ls b ≡ ok out
    → line_amounts out ≡ line_amounts ls
unfolding fall_back
fall_back_amounts p [] out b e = ground arith
fall_back_amounts p (l ∷ []) out b e = ground arith
fall_back_amounts p (l ∷ k ∷ ls) out b e = ground arith

check_lines_amounts :
    (remark : Option Text) (ls : List Line) (out : List (ℕ × Line))
    → check_lines remark ls ≡ ok out
    → checked_amounts out ≡ line_amounts ls
unfolding check_lines
check_lines_amounts remark [] out e = ground arith
check_lines_amounts remark (l ∷ ls) out e = elim (Result-cases (check_lines remark ls)) [
  | inl (rest, f) ↦ ground (arith, f, check_lines_amounts remark ls rest)
  | inr (x, f) ↦ ground (arith, f)
]

targets_amounts :
    (ls : List (ℕ × Line)) (b : Books) (out : List Target)
    → targets ls b ≡ ok out
    → target_amounts out ≡ checked_amounts ls
unfolding targets
targets_amounts [] b out e = ground arith
targets_amounts (l ∷ ls) b out e = elim (Result-cases (targets ls b)) [
  | inl (rest, f) ↦ ground (arith, f, targets_amounts ls b rest)
  | inr (x, f) ↦ ground (arith, f)
]

module _ (p : ExternalPayment) (b : Books) (ls : List Line) (ts : List Target)
    (remark : Option Text) where
  checked_sound :
      (checked : List (ℕ × Line))
      → check_lines remark ls ≡ ok checked
      → checked_targets p checked b ≡ ok ts
      → (target_amounts ts ≡ line_amounts ls)
        × (differs_by_cents (total_of (target_amounts ts)) p.amount ≡ false)
  unfolding checked_targets
  checked_sound checked c e =
      let twice : has_twice checked ≡ false = ground arith in
      let sum : differs_by_cents (total_of (checked_amounts checked)) p.amount ≡ false =
        ground (arith, twice) in
      let found : targets checked b ≡ ok ts = ground (arith, twice, sum) in
      let same : target_amounts ts ≡ checked_amounts checked = targets_amounts checked b ts found in
      (
        same ∙ check_lines_amounts remark ls checked c,
        ap (λ (l : List ℤ). differs_by_cents (total_of l) p.amount) same ∙ sum,
      )

-- What `confirmReview` has checked: the amounts are those of the lines, and add up to the payment.
pub plan_lines_sound :
    (p : ExternalPayment) (allocations : List Line) (reservation : Option ℕ) (remark : Option Text)
    (b : Books) (ts : List Target)
    → plan_lines p allocations reservation remark b ≡ ok ts
    → (target_amounts ts ≡ line_amounts (lines_of p allocations reservation remark))
      × (differs_by_cents (total_of (target_amounts ts)) p.amount ≡ false)
unfolding plan_lines
plan_lines_sound p allocations reservation remark b ts e =
    elim (Result-cases (fall_back p (lines_of p allocations reservation remark) b)) [
      | inr (x, f) ↦ absurd (ground (arith, f))
      | inl (ls, f) ↦ elim (Result-cases (check_lines remark ls)) [
        | inr (x, c) ↦ absurd (ground (arith, f, c))
        | inl (checked, c) ↦
            let (amounts, sum) = checked_sound p b ls ts remark checked c (ground (arith, f, c)) in
            (amounts ∙ fall_back_amounts p (lines_of p allocations reservation remark) ls b f, sum)
      ]
    ]

applied_amounts-snoc :
    (done : List AppliedLine) (l : AppliedLine) (rest : List ℤ)
    → applied_amounts (done ++ l ∷ []) ++ rest ≡ applied_amounts done ++ (l.amount ∷ rest)
applied_amounts-snoc [] l rest = refl
applied_amounts-snoc (d ∷ done) l rest = ap (◌∷◌ d.amount) (applied_amounts-snoc done l rest)

module _ (env : External) (p : ExternalPayment) where
  pub apply_lines_amounts :
      (ts : List Target) (done out : List AppliedLine) (b after : Books)
      → apply_lines env p ts done b ≡ (ok out, after)
      → applied_amounts out ≡ applied_amounts done ++ target_amounts ts
  unfolding apply_lines
  apply_lines_amounts [] done out b after e =
      let same : done ≡ out = cc in
      ap applied_amounts (sym same) ∙ sym (append-nil (applied_amounts done))
  apply_lines_amounts (t ∷ ts) done out b after e =
      let step : (charge : Option ℕ) (s : Books)
          → apply_lines env p ts (done ++ applied_line env t charge ∷ []) s ≡ (ok out, after)
          → applied_amounts out ≡ applied_amounts done ++ target_amounts (t ∷ ts) =
        λ charge s e'.
          apply_lines_amounts ts (done ++ applied_line env t charge ∷ []) out s after e'
          ∙ applied_amounts-snoc done (applied_line env t charge) (target_amounts ts) in
      settle_keeps
        (λ r.
          r ≡ (ok out, after)
          → applied_amounts out ≡ applied_amounts done ++ target_amounts (t ∷ ts))
        _ _
        (apply_to_reservation env
          (line_params env p (length done) (length done + length (t ∷ ts)) t) b)
        (λ message s at. elim (Bool-cases (line_is_offline env t message s)) [
          | inl offline ↦
              rw offline (step none (plan_applied env.today t.reservation.id t.amount s))
          | inr live ↦ rw live (λ e'. cc)
        ])
        (λ applied s at. step applied.applied_charge s) e

  -- A manual application books the amounts of the lines.
  pub apply_all_amounts :
      (ts : List Target) (out : List AppliedLine) (b after : Books)
      → apply_all env p ts b ≡ (ok out, after)
      → applied_amounts out ≡ target_amounts ts
  unfolding apply_all
  apply_all_amounts ts out b after e =
      settle_keeps (λ r. r ≡ (ok out, after) → applied_amounts out ≡ target_amounts ts)
        (λ failure s. (err (internal failure.0), roll_back env failure.1 s)) pure
        (apply_lines env p ts [] b) (λ failure s at e'. cc)
        (λ done s at e'.
          let same : done ≡ out = cc in
          ap applied_amounts (sym same) ∙ apply_lines_amounts ts [] done b s at)
        e
