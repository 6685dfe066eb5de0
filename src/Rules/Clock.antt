-- ===== src/Rules/Clock.antt =====
-- Times of the day as text: `parseTimeToMinutes` and `formatMinutes` of
-- src/rules/approval-conditions.ts.
use fonio_middleware.Base.{
  inr, sym, ◌∙◌, ap, inl, Bool-cases, zero, suc, none, [], ◌%◌, suc, arith, ◌==◌, refl, ◌||◌, ◌&&◌,
  true, ◌*◌, leb, ◌++◌, ltb, ◌∷◌, false, if◌then◌else◌, ◌≡◌, ◌/◌, ◌<◌, ◌+◌, ◌-◌, some, Bool, Option,
  ℕ,
}
use fonio_middleware.Base.Text.{Text, trim}

abbrev is_digit : ℕ → Bool
is_digit c = leb b'0' c && leb c b'9'

-- The digits of `\d{1,2}` or `\d{2}` as a number.
abbrev digits : ℕ → ℕ → ℕ
digits tens ones = (tens - b'0') * 10 + (ones - b'0')

abbrev in_day : ℕ → ℕ → Option ℕ
in_day hours minutes = if ltb 23 hours || ltb 59 minutes then none else some (hours * 60 + minutes)

-- `/^(\d{1,2}):(\d{2})$/`, with the number of minutes that it stands for.
match_clock : Text → Option ℕ
match_clock (h ∷ c ∷ m ∷ n ∷ []) =
    if is_digit h && (c == b':' && (is_digit m && is_digit n))
    then in_day (digits b'0' h) (digits m n)
    else none
match_clock (g ∷ h ∷ c ∷ m ∷ n ∷ []) =
    if is_digit g && (is_digit h && (c == b':' && (is_digit m && is_digit n)))
    then in_day (digits g h) (digits m n)
    else none
match_clock s = none

-- `undefined` and blank text have no time.
unfoldable pub parse_time_to_minutes : Option Text → Option ℕ
unfolding match_clock
parse_time_to_minutes none = none
parse_time_to_minutes (some s) = match_clock (trim s)

-- `String(n).padStart(2, '0')` for a number below 100.
abbrev pad : ℕ → Text
pad n = (b'0' + n / 10) ∷ (b'0' + n % 10) ∷ []

unfoldable pub format_minutes : ℕ → Text
format_minutes total = pad (total / 60) ++ (b':' ∷ pad (total % 60))

same_time : Option ℕ → ℕ → Bool
same_time none t = false
same_time (some u) t = u == t

same_time_sound : (o : Option ℕ) (t : ℕ) → same_time o t ≡ true → o ≡ some t
unfolding same_time
same_time_sound none t h = ground arith
same_time_sound (some u) t h = ground arith

-- The minutes that come before `limit` are read back, one after the other.
reads_back : ℕ → Bool
reads_back zero = true
reads_back (suc t) = elim (same_time (parse_time_to_minutes (some (format_minutes t))) t) [
  | true ↦ reads_back t
  | false ↦ false
]

reads_back_sound :
    (limit t : ℕ)
    → t < limit
    → reads_back limit ≡ true
    → parse_time_to_minutes (some (format_minutes t)) ≡ some t
unfolding reads_back
reads_back_sound zero t inside all = absurd (omega (arith, inside))
reads_back_sound (suc last) t inside all =
    let read : same_time (parse_time_to_minutes (some (format_minutes last))) last ≡ true =
      ground arith in
    elim (Bool-cases (t == last)) [
      | inl here ↦
          let e : t ≡ last = ground (arith, here) in
          ap (λ m. parse_time_to_minutes (some (format_minutes m))) e
          ∙ same_time_sound _ last read
          ∙ ap some (sym e)
      | inr before ↦ reads_back_sound last t (ground (arith, inside, before)) (ground arith)
    ]

whole_day : reads_back 1440 ≡ true
unfolding reads_back same_time parse_time_to_minutes format_minutes trim
whole_day = refl

-- Every minute of the day is read back from the text that it is written as.
pub parse_time_to_minutes-format_minutes :
    (t : ℕ) → t < 1440 → parse_time_to_minutes (some (format_minutes t)) ≡ some t
parse_time_to_minutes-format_minutes t h = reads_back_sound 1440 t h whole_day

match_clock-lt : (s : Text) (t : ℕ) → match_clock s ≡ some t → t < 1440
unfolding match_clock
match_clock-lt (h ∷ c ∷ m ∷ n ∷ []) t e = ground arith
match_clock-lt (g ∷ h ∷ c ∷ m ∷ n ∷ []) t e = ground arith
match_clock-lt s t e = cc

-- A text that is read as a time is read as a minute of the day.
pub parse_time_to_minutes-lt :
    (s : Option Text) (t : ℕ) → parse_time_to_minutes s ≡ some t → t < 1440
unfolding parse_time_to_minutes
parse_time_to_minutes-lt none t h = cc
parse_time_to_minutes-lt (some s) t h = match_clock-lt (trim s) t h
