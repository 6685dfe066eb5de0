-- ===== src/Check24/Calendar/Nights.antt =====
-- The nights of a stay, and spans of days: `eachNightYmd` against the interval that it stands for.
use fonio_middleware.Check24.Calendar.{add_days, ymd, day_ms, nights_from, each_night_ymd}
use fonio_middleware.Base.{
  inr, true, inl, ltb, Bool-cases, ◌∙◌, refl, ap, zero, arith, ◌∷◌, ◌+◌, ◌-◌, ◌++◌, ◌*◌, [], ◌≡◌,
  suc, List, ℕ,
}

-- The `n` days from `day` on.
abbrev pub span : ℕ → ℕ → List ℕ
span day zero = []
span day (suc n) = day ∷ span (day + 1) n

pub span-snoc : (day n : ℕ) → span day (suc n) ≡ span day n ++ (day + n) ∷ []
span-snoc day zero = ground arith
span-snoc day (suc n) =
    ap (◌∷◌ day) (span-snoc (day + 1) n ∙ ap (λ (k : ℕ). span (day + 1) n ++ k ∷ []) (omega arith))

ymd_midnight : (d : ℕ) → ymd (d * day_ms) ≡ d
ymd_midnight d = omega arith

nights_from-eq-span :
    (fuel d to : ℕ)
    → d * day_ms + fuel * day_ms ≡ to
    → nights_from fuel (d * day_ms) to ≡ span d fuel
unfolding nights_from
nights_from-eq-span zero d to e = refl
nights_from-eq-span (suc fuel) d to e =
    let inside : ltb (d * day_ms) to ≡ true = ground (arith, e) in
    let next : d * day_ms + 1 * day_ms ≡ (d + 1) * day_ms = omega arith in
    let later : nights_from fuel (add_days (d * day_ms) 1) to ≡ span (d + 1) fuel =
      ap (λ (k : ℕ). nights_from fuel k to) next
      ∙ nights_from-eq-span fuel (d + 1) to (omega (arith, e)) in
    rw (inside, later, ymd_midnight d) refl

-- The nights of a stay are the days from its first on, without its last: as many as the stay is long,
-- and none if it does not end after it begins.
pub each_night_ymd-eq-span :
    (date_from date_to : ℕ)
    → each_night_ymd date_from date_to ≡ span date_from (date_to - date_from)
unfolding each_night_ymd
each_night_ymd-eq-span date_from date_to =
    elim (Bool-cases (ltb (date_from * day_ms) (date_to * day_ms))) [
      | inl before ↦ rw before (
          nights_from-eq-span (date_to - date_from) date_from (date_to * day_ms)
            (ground (arith, before)))
      | inr not_before ↦
          let none_left : date_to - date_from ≡ 0 = ground (arith, not_before) in
          rw (not_before, none_left) refl
    ]
