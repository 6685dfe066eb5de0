-- ===== src/Check24/ForceOpen/Opened.antt =====
-- Which nights the loop of `forceOpenCalendarRange` opens.
use fonio_middleware.Check24.ForceOpen.{open_night, open_nights, open_found, reopened, contains_id}
use fonio_middleware.Base.{
  ap, inr, ◌∙◌, refl, inl, [], Bool-cases, ◌∷◌, not, none, arith, ◌||◌, ◌&&◌, true, some, ◌≡◌, ◌==◌,
  find, false, any, Bool, ℕ, Option, List,
}
use fonio_middleware.Payments.Table.{update_where}
use fonio_middleware.Availability.{CalendarDay}
use fonio_middleware.Availability.Calendar.{is_day}

-- Whether the row of a listing and day says that it is available.
abbrev pub is_open_row : Option CalendarDay → Bool
is_open_row none = false
is_open_row (some d) = d.is_available

abbrev pub is_open : ℕ → ℕ → List CalendarDay → Bool
is_open listing_id night table = is_open_row (find (is_day listing_id night) table)

-- An opened row: the night itself is open from then on, and no other is touched.
is_open-update_where :
    (now k n l m : ℕ) (table : List CalendarDay)
    → is_open k n (update_where (is_day l m) (reopened now) table)
      ≡ is_open k n table || ((k == l && n == m) && any (is_day l m) table)
unfolding update_where
is_open-update_where now k n l m [] = ground arith
is_open-update_where now k n l m (d ∷ table) =
    ground (arith, is_open-update_where now k n l m table)

any-find :
    (p : CalendarDay → Bool) (table : List CalendarDay) (d : CalendarDay)
    → find p table ≡ some d
    → any p table ≡ true
any-find p [] d h = absurd (ground arith)
any-find p (x ∷ table) d h = elim (Bool-cases (p x)) [
  | inl here ↦ ground (arith, here)
  | inr later ↦ ground (arith, later, any-find p table d (ground (arith, h, later)))
]

-- What is known of the row of one day is known of the row of a day that is the same.
is_open_at :
    (k n l m : ℕ) (table : List CalendarDay)
    → k == l && n == m ≡ true
    → is_open k n table ≡ is_open l m table
is_open_at k n l m table h =
    let listing : k ≡ l = ground (arith, h) in
    let night : n ≡ m = ground (arith, h) in rw (listing, night) refl

is_open-open_found :
    (now k n l m : ℕ) (table : List CalendarDay) (o : Option CalendarDay)
    → find (is_day l m) table ≡ o
    → is_open k n (open_found now l m table o).1 ≡ is_open k n table || (k == l && n == m)
unfolding open_found
is_open-open_found now k n l m table none h = ground (arith, h)
is_open-open_found now k n l m table (some d) h = elim (Bool-cases d.is_available) [
  | inl available ↦ rw available (elim (Bool-cases (k == l && n == m)) [
    | inl here ↦
        let same = is_open_at k n l m table here in
        let row : is_open l m table ≡ true = ap is_open_row h ∙ available in
        ground (arith, here, same, row)
    | inr away ↦ ground (arith, away)
  ])
  | inr closed ↦
      rw closed
        (is_open-update_where now k n l m table ∙ ground (arith, any-find (is_day l m) table d h))
]

pub is_open_step :
    (now k n l m : ℕ) (blocked : List ℕ) (table : List CalendarDay)
    → is_open k n (open_night now l blocked m table).1
      ≡ is_open k n table || ((k == l && n == m) && not (contains_id blocked n))
is_open_step now k n l m blocked table = elim (Bool-cases (contains_id blocked m)) [
  | inl held ↦ rw held (ground (arith, held))
  | inr free ↦
      rw free
        (is_open-open_found now k n l m table (find (is_day l m) table) refl ∙ ground (arith, free))
]

-- What the loop has opened, and what it leaves as it is.
pub is_open-open_nights :
    (now k n l : ℕ) (blocked nights : List ℕ) (table : List CalendarDay)
    → is_open k n (open_nights now l blocked nights table).1
      ≡ is_open k n table || (k == l && (contains_id nights n && not (contains_id blocked n)))
unfolding open_nights
is_open-open_nights now k n l blocked [] table = ground arith
is_open-open_nights now k n l blocked (m ∷ nights) table =
    is_open-open_nights now k n l blocked nights (open_night now l blocked m table).1
    ∙ ground (arith, is_open_step now k n l m blocked table)
