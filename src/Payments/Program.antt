-- ===== src/Payments/Program.antt =====
-- Programs that change a state and may throw: what was changed before an error stays changed.
use fonio_middleware.Base.{inr, inl, ◌⊎◌, refl, ◌≡◌, false, none, true, some, Option, Bool}

pub data Result (E A : Type 0) : Type 0 where
  ok : A → Result E A
  err : E → Result E A

abbrev pub Program : Type 0 → Type 0 → Type 0 → Type 0
Program S E A = S → Result E A × S

module _ {S E : Type 0} where
  abbrev pub pure : {A : Type 0} → A → Program S E A
  pure a s = (ok a, s)

  abbrev pub throw : {A : Type 0} → E → Program S E A
  throw e s = (err e, s)

  abbrev pub continue : {A B : Type 0} → (A → Program S E B) → Result E A × S → Result E B × S
  continue f (ok a, s) = f a s
  continue f (err e, s) = (err e, s)

  infixl 5 ◌>>=◌ ◌>>◌
  abbrev pub ◌>>=◌ : {A B : Type 0} → Program S E A → (A → Program S E B) → Program S E B
  ◌>>=◌ m f s = continue f (m s)

  abbrev pub ◌>>◌ : {B : Type 0} → Program S E (Unit {0}) → Program S E B → Program S E B
  m >> k = m >>= λ _. k

  -- A guard that throws.
  abbrev pub ensure : Bool → E → Program S E (Unit {0})
  ensure true e = pure tt
  ensure false e = throw e

  abbrev pub gets : {A : Type 0} → (S → A) → Program S E A
  gets f s = (ok (f s), s)

  abbrev pub modify : (S → S) → Program S E (Unit {0})
  modify f s = (ok tt, f s)

  -- `x ?? throw`
  abbrev pub from_option : {A : Type 0} → Option A → E → Program S E A
  from_option none e = throw e
  from_option (some a) e = pure a

-- `try { k(await m) } catch (e) { h(e) }`, where the handler sees the state at the error and does not
-- cover `k`.
module _ {S E F : Type 0} {A B : Type 0} where
  abbrev pub settle : (E → Program S F B) → (A → Program S F B) → Result E A × S → Result F B × S
  settle h k (ok a, s) = k a s
  settle h k (err e, s) = h e s

  abbrev pub catch : Program S E A → (E → Program S F B) → (A → Program S F B) → Program S F B
  catch m h k s = settle h k (m s)

  -- What holds after the handler and after the rest holds after both.
  pub settle_keeps :
      (P : Result F B × S → Type 0) (h : E → Program S F B) (k : A → Program S F B)
      (x : Result E A × S)
      → ((e : E) (s : S) → x ≡ (err e, s) → P (h e s))
      → ((a : A) (s : S) → x ≡ (ok a, s) → P (k a s))
      → P (settle h k x)
  settle_keeps P h k (ok a, s) failed done = done a s refl
  settle_keeps P h k (err e, s) failed done = failed e s refl

pub Result-cases :
    {E A : Type 0} (r : Result E A) → ((a : A) × (r ≡ ok a)) ⊎ ((e : E) × (r ≡ err e))
Result-cases (ok a) = inl (a, refl)
Result-cases (err e) = inr (e, refl)

pub continue_keeps :
    {S E A B : Type 0} (P : Result E B × S → Type 0) (k : A → Program S E B) (x : Result E A × S)
    → ((a : A) (s : S) → x ≡ (ok a, s) → P (k a s))
    → ((e : E) (s : S) → x ≡ (err e, s) → P (err e, s))
    → P (continue k x)
continue_keeps P k (ok a, s) done failed = done a s refl
continue_keeps P k (err e, s) done failed = failed e s refl
