-- ===== src/Check24/Bookings/Links.antt =====
-- The link of a booking with a reservation of Hostaway, under the updates of its row.
use fonio_middleware.Base.{
  find_sound, subst, ap, [], Bool-cases, inr, arith, ◌∷◌, inl, if◌then◌else◌, refl, ◌<◌, find, ◌≡◌,
  is_some, Option, List, ℕ, false, true, some, none,
}
use fonio_middleware.Check24.Bookings.{BookingStore, BookingRow, Booking}
use fonio_middleware.Base.Text.{text_eq_iff, text_eq, Text}
use fonio_middleware.Check24.Bookings.Store.{
  upserted, seen_row, is_row, linked, find_row, upsert_row, update_row,
}
use fonio_middleware.Payments.Table.{find-update_where, update_where}

abbrev pub link_of : Text → BookingStore → Option ℕ
link_of k s = linked (find (is_row k) s.bookings)

text_eq_refl : (k : Text) → text_eq k k ≡ true
text_eq_refl k = (text_eq_iff k k).1 refl

-- An update that keeps the key and the link of its row keeps the links of all rows.
pub linked-update_where :
    (k k' : Text) (f : BookingRow → BookingRow) (rows : List BookingRow)
    → ((r : BookingRow) → (f r).booking_id ≡ r.booking_id)
    → ((r : BookingRow) → (f r).hostaway_reservation_id ≡ r.hostaway_reservation_id)
    → linked (find (is_row k) (update_where (is_row k') f rows)) ≡ linked (find (is_row k) rows)
unfolding update_where
linked-update_where k k' f [] key link = refl
linked-update_where k k' f (x ∷ xs) key link =
    ground (arith, key x, link x, linked-update_where k k' f xs key link)

pub link_of-update_row :
    (k k' : Text) (f : BookingRow → BookingRow) (s : BookingStore)
    → ((r : BookingRow) → (f r).booking_id ≡ r.booking_id)
    → ((r : BookingRow) → (f r).hostaway_reservation_id ≡ r.hostaway_reservation_id)
    → link_of k (update_row k' f s) ≡ link_of k s
unfolding update_row
link_of-update_row k k' f s key link = linked-update_where k k' f s.bookings key link

not_same :
    (k k' : Text) (x : BookingRow) → is_row k' x ≡ false → is_row k x ≡ true → text_eq k k' ≡ false
not_same k k' x elsewhere mine = elim (Bool-cases (text_eq k k')) [
  | inr other ↦ other
  | inl same ↦
      let equal : k ≡ k' = (text_eq_iff k k').0 same in
      let there : is_row k' x ≡ true = subst (λ t. is_row t x ≡ true) equal mine in cc
]

-- An update that links its row links the booking of that row, and no other.
pub linked-link_where :
    (k k' : Text) (id : ℕ) (f : BookingRow → BookingRow) (rows : List BookingRow)
    → 0 < id
    → ((r : BookingRow) → (f r).booking_id ≡ r.booking_id)
    → ((r : BookingRow) → (f r).hostaway_reservation_id ≡ some id)
    → is_some (find (is_row k') rows) ≡ true
    → linked (find (is_row k) (update_where (is_row k') f rows))
      ≡ (if text_eq k k' then some id else linked (find (is_row k) rows))
unfolding update_where
linked-link_where k k' id f [] pos_id key link there = absurd (ground arith)
linked-link_where k k' id f (x ∷ xs) pos_id key link there = elim (Bool-cases (is_row k' x)) [
  | inl here ↦
      let same : k' ≡ x.booking_id = (text_eq_iff k' x.booking_id).0 here in
      ground (arith, key x, link x, here, ap (text_eq k) same)
  | inr elsewhere ↦ elim (Bool-cases (is_row k x)) [
    | inl mine ↦
        let same : k ≡ x.booking_id = (text_eq_iff k x.booking_id).0 mine in
        let other : text_eq k k' ≡ false = not_same k k' x elsewhere mine in
        ground (arith, elsewhere, mine, other)
    | inr not_mine ↦
        ground (arith, elsewhere, not_mine, linked-link_where k k' id f xs pos_id key link)
  ]
]

upserted_link :
    (k : Text) (b : Booking) (rows : List BookingRow) (o : Option BookingRow)
    → find (is_row b.booking_id) rows ≡ o
    → linked (find (is_row k) (upserted o b rows)) ≡ linked (find (is_row k) rows)
unfolding upserted
upserted_link k b rows none e = elim (Bool-cases (text_eq k b.booking_id)) [
  | inl mine ↦
      let same : k ≡ b.booking_id = (text_eq_iff k b.booking_id).0 mine in
      let missing : find (is_row k) rows ≡ none = rw same e in ground (arith, mine, missing)
  | inr other ↦ ground (arith, other)
]
upserted_link k b rows (some r) e =
    linked-update_where k b.booking_id (seen_row b) rows (λ r. refl) (λ r. refl)

-- A row that is seen again, or for the first time, brings no link.
pub link_of-upsert_row :
    (k : Text) (b : Booking) (s : BookingStore) → link_of k (upsert_row b s) ≡ link_of k s
unfolding upsert_row find_row
link_of-upsert_row k b s = upserted_link k b s.bookings (find (is_row b.booking_id) s.bookings) refl

upserted-is_some :
    (b : Booking) (rows : List BookingRow) (o : Option BookingRow)
    → find (is_row b.booking_id) rows ≡ o
    → is_some (find (is_row b.booking_id) (upserted o b rows)) ≡ true
unfolding upserted
upserted-is_some b rows none e = ground (arith, text_eq_refl b.booking_id)
upserted-is_some b rows (some r) e =
    let kept : is_row b.booking_id (seen_row b r) ≡ true =
      find_sound (is_row b.booking_id) rows r e in
    ap is_some (find-update_where (is_row b.booking_id) (seen_row b) rows r e kept)

-- The row of the booking is there afterwards.
pub upsert_row-is_some :
    (b : Booking) (s : BookingStore)
    → is_some (find (is_row b.booking_id) (upsert_row b s).bookings) ≡ true
unfolding upsert_row find_row
upsert_row-is_some b s = upserted-is_some b s.bookings (find (is_row b.booking_id) s.bookings) refl
