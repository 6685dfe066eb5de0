-- ===== src/Split/Amounts.antt =====
-- How a combined deposit may be split: `suggestSplitAmounts` of
-- src/automation/payment-split-hint.util.ts. Amounts are whole cents; a payment is not negative.
use fonio_middleware.Base.{
  refl, false, true, true, Bool, none, is_some, ◌≤◌, ◌&&◌, zero, leb, ◌/◌, ◌*◌, some, ltb,
  if◌then◌else◌, ◌≡◌, ◌-◌, ◌+◌, suc, Option, ℕ, arith,
}
use fonio_middleware.Base.Int.{negsuc, pos, ℤ}

-- The two fields of a candidate that the split reads.
pub record Candidate : Type 0 where
  pub total_price : Option ℤ
  pub balance_due : Option ℤ

-- `Number.isFinite(v) && v > 0`, with the amount that it makes sure of.
abbrev pub positive : Option ℤ → ℕ
positive none = 0
positive (some (pos n)) = n
positive (some (negsuc n)) = 0

abbrev pub distance : ℕ → ℕ → ℕ
distance a b = (a - b) + (b - a)

-- `roundMoney(v * 0.25)`
abbrev quarter : ℕ → ℕ
quarter v = (v + 2) / 4

-- `roundMoney((payment * part) / sum)`
abbrev in_proportion : ℕ → ℕ → ℕ → ℕ
in_proportion payment part zero = 0
in_proportion payment part (suc sum) = (2 * payment * part + suc sum) / (2 * suc sum)

-- `roundMoney(payment / 2)`
abbrev halved : ℕ → ℕ
halved payment = (payment + 1) / 2

-- `second` is what `first` leaves, and both have to be a cent or more.
unfoldable pub split_at : ℕ → ℕ → Option (ℕ × ℕ)
split_at payment first =
    if leb 1 first && ltb first payment then some (first, payment - first) else none

unfoldable pub suggest_split_amounts : ℕ → Candidate → Candidate → Option (ℕ × ℕ)
suggest_split_amounts payment left right =
    let total_left = positive left.total_price in
    let total_right = positive right.total_price in
    let due_left = positive left.balance_due in
    let due_right = positive right.balance_due in
    let have_totals = ltb 0 total_left && ltb 0 total_right in
    let shares = in_proportion payment total_left (total_left + total_right) in
    if have_totals && leb (distance (quarter total_left + quarter total_right) payment) 201
    then some (quarter total_left, quarter total_right)
    else if (ltb 0 due_left && ltb 0 due_right) && leb (distance (due_left + due_right) payment) 101
    then some (due_left, due_right)
    else if have_totals && is_some (split_at payment shares)
    then split_at payment shares
    else split_at payment (halved payment)

split_at-sum :
    (payment first : ℕ) (parts : ℕ × ℕ)
    → split_at payment first ≡ some parts
    → parts.0 + parts.1 ≡ payment
unfolding split_at
split_at-sum payment first parts e = ground (arith, e)

-- The sum is at most 2.01 euros away from the payment.
abbrev pub IsNear : ℕ → ℕ × ℕ → Type 0
IsNear payment parts = (parts.0 + parts.1 ≤ payment + 201) × (payment ≤ parts.0 + parts.1 + 201)

split_at-IsNear :
    (payment first : ℕ) (parts : ℕ × ℕ) → split_at payment first ≡ some parts → IsNear payment parts
split_at-IsNear payment first parts e =
    let sum : parts.0 + parts.1 ≡ payment = split_at-sum payment first parts e in
    (omega (arith, sum), omega (arith, sum))

-- What holds of both branches of a choice holds of what it returns.
choose :
    {payment : ℕ} {parts : ℕ × ℕ} {a b : Option (ℕ × ℕ)} (t : Bool)
    → (t ≡ true → a ≡ some parts → IsNear payment parts)
    → (b ≡ some parts → IsNear payment parts)
    → (if t then a else b) ≡ some parts
    → IsNear payment parts
choose true yes_branch no_branch e = yes_branch refl e
choose false yes_branch no_branch e = no_branch e

sum_close :
    (payment a b : ℕ) (parts : ℕ × ℕ)
    → leb (distance (a + b) payment) 201 ≡ true
    → some (a, b) ≡ some parts
    → IsNear payment parts
sum_close payment a b parts near e = (ground (arith, near, e), ground (arith, near, e))

-- The two amounts that are suggested add up to the payment, but for 2.01 euros at most.
pub suggest_split_amounts-sum :
    (payment : ℕ) (left right : Candidate) (parts : ℕ × ℕ)
    → suggest_split_amounts payment left right ≡ some parts
    → IsNear payment parts
unfolding suggest_split_amounts
suggest_split_amounts-sum payment left right parts e =
    let total_left : ℕ = positive left.total_price in
    let total_right : ℕ = positive right.total_price in
    let due_left : ℕ = positive left.balance_due in
    let due_right : ℕ = positive right.balance_due in
    let have_totals : Bool = ltb 0 total_left && ltb 0 total_right in
    let shares : ℕ = in_proportion payment total_left (total_left + total_right) in
    choose (have_totals && leb (distance (quarter total_left + quarter total_right) payment) 201)
      (λ h. sum_close payment (quarter total_left) (quarter total_right) parts (ground (arith, h)))
      (choose
        ((ltb 0 due_left && ltb 0 due_right) && leb (distance (due_left + due_right) payment) 101)
        (λ h. sum_close payment due_left due_right parts (ground (arith, h)))
        (choose (have_totals && is_some (split_at payment shares))
          (λ h. split_at-IsNear payment shares parts)
          (split_at-IsNear payment (halved payment) parts)))
      e
