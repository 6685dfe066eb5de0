-- ===== src/Base/Text.antt =====
-- Text as a list of UTF-16 code units, with the string methods that the middleware calls.
use fonio_middleware.Base.Tests.{leb, ◌==◌, if◌then◌else◌, Bool-cases}
use Prim.Native.Nat.{ℕ, ◌+◌}
use Prim.Native.Char.{code}
use Prim.Native.String.{String}
use mathlib.Core.Path.{◌≡◌, refl, ap}
use mathlib.Core.Bool.{Bool, true, false, not, ◌&&◌, ◌||◌}
use mathlib.Core.Logic.{◌↔◌, inl, inr}
use mathlib.Core.List.{List, [], ◌∷◌, ◌++◌, map, reverse}
use native.Mathlib.Omega.{arith}

abbrev pub Text : Type 0
Text = List ℕ

-- A literal of the source, whose characters are all below 0x10000.
abbrev pub lit : String → Text
lit String.[] = []
lit (String.◌∷◌ c s) = code c ∷ lit s

-- White space as `String.prototype.trim` reads it.
abbrev pub is_space : ℕ → Bool
is_space c =
    (leb 9 c && leb c 13)
    || c == 32
    || c == 160
    || c == 0x1680
    || (leb 0x2000 c && leb c 0x200a)
    || c == 0x2028
    || c == 0x2029
    || c == 0x202f
    || c == 0x205f
    || c == 0x3000
    || c == 0xfeff

-- `toLowerCase` on ASCII and Latin-1; any other code unit is left as it is.
abbrev lower_unit : ℕ → ℕ
lower_unit c =
    if (leb b'A' c && leb c b'Z') || (leb 0xc0 c && leb c 0xde && not (c == 0xd7))
    then c + 32
    else c

abbrev pub to_lower : Text → Text
to_lower = map lower_unit

drop_space : Text → Text
drop_space [] = []
drop_space (c ∷ s) = if is_space c then drop_space s else c ∷ s

unfoldable pub trim : Text → Text
unfolding drop_space
trim s = reverse (drop_space (reverse (drop_space s)))

abbrev pub text_eq : Text → Text → Bool
text_eq [] [] = true
text_eq [] (d ∷ t) = false
text_eq (c ∷ s) [] = false
text_eq (c ∷ s) (d ∷ t) = c == d && text_eq s t

abbrev pub is_empty : Text → Bool
is_empty [] = true
is_empty (c ∷ s) = false

unfoldable pub starts_with : Text → Text → Bool
starts_with s [] = true
starts_with [] (d ∷ t) = false
starts_with (c ∷ s) (d ∷ t) = c == d && starts_with s t

-- `s.includes(t)`
unfoldable pub includes : Text → Text → Bool
unfolding starts_with
includes [] t = is_empty t
includes (c ∷ s) t = starts_with (c ∷ s) t || includes s t

-- `parts.join(' ')`
unfoldable pub join_space : List Text → Text
join_space [] = []
join_space (s ∷ []) = s
join_space (s ∷ t ∷ r) = s ++ (32 ∷ join_space (t ∷ r))

pub text_eq_iff : (s t : Text) → (text_eq s t ≡ true) ↔ (s ≡ t)
text_eq_iff [] [] = ground arith
text_eq_iff [] (d ∷ t) = ground arith
text_eq_iff (c ∷ s) [] = ground arith
text_eq_iff (c ∷ s) (d ∷ t) = ground (arith, text_eq_iff s t)

-- A text that starts with `t` is `t` with a rest behind it.
starts_with_sound : (s t : Text) → starts_with s t ≡ true → (r : Text) × (s ≡ t ++ r)
unfolding starts_with
starts_with_sound s [] h = (s, refl)
starts_with_sound [] (d ∷ t) h = absurd (ground arith)
starts_with_sound (c ∷ s) (d ∷ t) h =
    let (r, e) = starts_with_sound s t (ground arith) in (r, ground arith)

-- A text that includes `t` is `t` with something before and behind it.
pub includes_sound :
    (s t : Text) → includes s t ≡ true → (l : Text) × (r : Text) × (s ≡ l ++ (t ++ r))
unfolding includes starts_with
includes_sound [] [] h = ([], [], refl)
includes_sound [] (d ∷ t) h = absurd (ground arith)
includes_sound (c ∷ s) t h = elim (Bool-cases (starts_with (c ∷ s) t)) [
  | inl here ↦ let (r, e) = starts_with_sound (c ∷ s) t here in ([], r, e)
  | inr later ↦ let (l, r, e) = includes_sound s t (ground arith) in (c ∷ l, r, ap (◌∷◌ c) e)
]

trims : trim (lit "  Airbnb\t") ≡ lit "Airbnb"
unfolding trim
trims = refl

finds : includes (to_lower (lit "Booking.COM Ä")) (lit "com ä") ≡ true
unfolding includes
finds = refl
