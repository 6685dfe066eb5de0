-- ===== src/Check24/Bookings/Refinement.antt =====
-- The rows against the reservations that were made at Hostaway: which booking was imported as what.
use fonio_middleware.Base.{
  ◌&&◌, arith, ◌⊎◌, sym, find, is_some, refl, ◌∙◌, ap, inr, inl, ◌<◌, if◌then◌else◌, [], ◌∷◌, ◌≡◌,
  Option, Bool, ℕ, List, false, true, some, none,
}
use fonio_middleware.Check24.Bookings.{
  accept_booking, MappedListing, BookingRow, BookingConfig, create_reservation, ReservationPayload,
  ImportCall, Outside, BookingStore, Booking,
}
use fonio_middleware.Base.Text.{lit, text_eq, Text}
use fonio_middleware.Payments.Program.{err, pure, ok, continue, Result}
use fonio_middleware.Check24.Bookings.Import.{
  accepts_enquiries, imported_row, apply_labels, store_contact, write_to_guest, accept_enquiry,
  equip_reservation, after_creation, accept_if_requested, accepted_row, with_creation, second_try,
  create_with_labels, create_at_hostaway,
}
use fonio_middleware.Check24.Bookings.Links.{linked-link_where, link_of-update_row, link_of}
use fonio_middleware.Check24.Bookings.Store.{sync_single_reservation, is_row, update_row, call_out}

-- The view: the bookings that have a reservation, each with the id of it.
abbrev pub made_for : Text → List (Text × ℕ) → Option ℕ
made_for k [] = none
made_for k ((booking_id, id) ∷ made) =
    let rest = made_for k made in if text_eq k booking_id then some id else rest

-- The step of the view: nothing, or a booking that has no reservation gets one.
pub data Imports : List (Text × ℕ) → List (Text × ℕ) → Type 0 where
  stays : {made next : List (Text × ℕ)} → next ≡ made → Imports made next
  imports :
      {made next : List (Text × ℕ)} (k : Text) (id : ℕ)
      → made_for k made ≡ none
      → next ≡ (k, id) ∷ made
      → Imports made next

-- The rows say of every booking what the view says.
abbrev pub Agrees : BookingStore → Type 0
Agrees s = (k : Text) → link_of k s ≡ made_for k s.created

-- Hostaway numbers reservations from 1 on.
abbrev pub IsNumbering : Outside → Type 0
IsNumbering env = (cs : List ImportCall) (id : ℕ) → env.create_answer cs ≡ ok id → 0 < id

-- Rows and view are as before.
abbrev pub IsSame : BookingStore → BookingStore → Type 0
IsSame s s' = ((k : Text) → link_of k s' ≡ link_of k s) × (s'.created ≡ s.created)

-- What a creation for the booking `k` has done, by how it ended.
abbrev pub HasCreated : Text → BookingStore → Result Text ℕ × BookingStore → Type 0
HasCreated k s (ok id, s') =
    (s'.bookings ≡ s.bookings) × (s'.created ≡ (k, id) ∷ s.created) × (0 < id)
HasCreated k s (err e, s') = (s'.bookings ≡ s.bookings) × (s'.created ≡ s.created)

abbrev pub HasCreatedLabelled : Text → BookingStore → Result Text (ℕ × Bool) × BookingStore → Type 0
HasCreatedLabelled k s (ok (id, labelled), s') = HasCreated k s (ok id, s')
HasCreatedLabelled k s (err e, s') = HasCreated k s (err e, s')

module _ (env : Outside) (cfg : BookingConfig) (numbering : IsNumbering env) (k : Text) where
  with_creation-HasCreated :
      (s t : BookingStore) (answer : Result Text ℕ)
      → (s.bookings ≡ t.bookings) × (s.created ≡ t.created)
      → ((id : ℕ) → answer ≡ ok id → 0 < id)
      → HasCreated k t (with_creation k s answer)
  with_creation-HasCreated s t (ok id) same positive =
      (same.0, ap (◌∷◌ (k, id)) same.1, positive id refl)
  with_creation-HasCreated s t (err e) same positive = same

  create_at_hostaway-HasCreated :
      (p : ReservationPayload) (s t : BookingStore)
      → (s.bookings ≡ t.bookings) × (s.created ≡ t.created)
      → HasCreated k t (create_at_hostaway env cfg k p s)
  unfolding create_at_hostaway
  create_at_hostaway-HasCreated p s t same =
      with_creation-HasCreated (call_out (create_reservation p) s) t
        (env.create_answer (create_reservation p ∷ s.calls)) same
        (numbering (create_reservation p ∷ s.calls))

  labelled-HasCreated :
      (labelled : Bool) (t : BookingStore) (x : Result Text ℕ × BookingStore)
      → HasCreated k t x
      → HasCreatedLabelled k t (continue (λ id. pure (id, labelled)) x)
  labelled-HasCreated labelled t (ok id, s') h = h
  labelled-HasCreated labelled t (err e, s') h = h

  second_try-HasCreated :
      (p : ReservationPayload) (t : BookingStore) (x : Result Text ℕ × BookingStore)
      → HasCreated k t x
      → HasCreatedLabelled k t (second_try env cfg k p x)
  unfolding second_try
  second_try-HasCreated p t (ok id, s') h = h
  second_try-HasCreated p t (err e, s') h =
      let plain : ReservationPayload = record p { custom_field_values = [] } in
      labelled-HasCreated false t (create_at_hostaway env cfg k plain s')
        (create_at_hostaway-HasCreated plain s' t h)

  pub create_with_labels-HasCreated :
      (p : ReservationPayload) (s t : BookingStore)
      → (s.bookings ≡ t.bookings) × (s.created ≡ t.created)
      → HasCreatedLabelled k t (create_with_labels env cfg k p s)
  unfolding create_with_labels
  create_with_labels-HasCreated p s t same =
      let made = create_at_hostaway-HasCreated p s t same in
      elim p.custom_field_values
        as (λ vs. HasCreatedLabelled k t (elim vs [
          | [] ↦ continue (λ id. pure (id, false)) (create_at_hostaway env cfg k p s)
          | v ∷ rest ↦ second_try env cfg k p (create_at_hostaway env cfg k p s)
        ])) [
          | [] ↦ labelled-HasCreated false t (create_at_hostaway env cfg k p s) made
          | v ∷ rest ↦ second_try-HasCreated p t (create_at_hostaway env cfg k p s) made
        ]

-- All updates of rows that keep links, in a row.
pub IsSame-trans : (s t u : BookingStore) → IsSame s t → IsSame t u → IsSame s u
IsSame-trans s t u a b = ((λ k. b.0 k ∙ a.0 k), b.1 ∙ a.1)

pub update_row-IsSame :
    (k' : Text) (f : BookingRow → BookingRow) (s : BookingStore)
    → ((r : BookingRow) → (f r).booking_id ≡ r.booking_id)
    → ((r : BookingRow) → (f r).hostaway_reservation_id ≡ r.hostaway_reservation_id)
    → IsSame s (update_row k' f s)
unfolding update_row
update_row-IsSame k' f s key link = ((λ k. link_of-update_row k k' f s key link), refl)

-- The row of a booking is there.
abbrev pub HasRow : Text → BookingStore → Type 0
HasRow k s = is_some (find (is_row k) s.bookings) ≡ true

-- The rows of `s'` have one link more than those of `s`.
abbrev pub HasLinked : Text → ℕ → BookingStore → BookingStore → Type 0
HasLinked k' id s s' = (k : Text) → link_of k s' ≡ (if text_eq k k' then some id else link_of k s)

module _ (env : Outside) (cfg : BookingConfig) where
  equip_reservation_frame :
      (b : Booking) (note : Text) (made : ℕ × Bool) (s : BookingStore)
      → ((equip_reservation env cfg b note made s).bookings ≡ s.bookings)
        × ((equip_reservation env cfg b note made s).created ≡ s.created)
  unfolding equip_reservation write_to_guest store_contact sync_single_reservation apply_labels
  equip_reservation_frame b note (id, true) s = (refl, refl)
  equip_reservation_frame b note (id, false) s = (refl, refl)

  accept_if_requested-IsSame :
      (b : Booking) (id : ℕ) (s : BookingStore) → IsSame s (accept_if_requested env cfg b id s)
  unfolding accept_if_requested accept_enquiry
  accept_if_requested-IsSame b id s =
      elim (text_eq b.status (lit "requested") && accepts_enquiries env cfg)
        as (λ t. IsSame s (if t then accept_enquiry env cfg b id s else s)) [
          | true ↦
              let asked : BookingStore = call_out (accept_booking b.booking_id) s in
              update_row-IsSame b.booking_id (accepted_row id (env.accept_answer asked.calls)) asked
                (λ r. refl) (λ r. refl)
          | false ↦ ((λ k. refl), refl)
        ]

  imported-HasLinked :
      (b : Booking) (id : ℕ) (s t : BookingStore)
      → HasRow b.booking_id t
      → 0 < id
      → s.bookings ≡ t.bookings
      → HasLinked b.booking_id id t (update_row b.booking_id (imported_row b id) s)
  unfolding update_row
  imported-HasLinked b id s t there positive same k = rw same (
      linked-link_where k b.booking_id id (imported_row b id) t.bookings positive (λ r. refl)
        (λ r. refl) there)

  -- What follows on the creation links the booking with the new reservation, and nothing else.
  pub after_creation-HasLinked :
      (b : Booking) (note : Text) (l : MappedListing) (made : ℕ × Bool) (s t : BookingStore)
      → HasRow b.booking_id t
      → 0 < made.0
      → s.bookings ≡ t.bookings
      → HasLinked b.booking_id made.0 t (after_creation env cfg b note l made s)
        × ((after_creation env cfg b note l made s).created ≡ s.created)
  unfolding after_creation update_row
  after_creation-HasLinked b note l made s t there positive same =
      let equipped : BookingStore = equip_reservation env cfg b note made s in
      let kept : BookingStore = update_row b.booking_id (imported_row b made.0) equipped in
      let frame = equip_reservation_frame b note made s in
      let (links, still) = accept_if_requested-IsSame b made.0 kept in
      let linked_now = imported-HasLinked b made.0 equipped t there positive (frame.0 ∙ same) in
      ((λ k. links k ∙ linked_now k), still ∙ frame.1)

-- What a call for the booking `k` has done to rows and view.
abbrev pub Refines : Text → BookingStore → BookingStore → Type 0
Refines k s s' =
    IsSame s s'
    ⊎ ((id : ℕ) × (link_of k s ≡ none)
        × ((k' : Text) → link_of k' s' ≡ (if text_eq k' k then some id else link_of k' s))
        × (s'.created ≡ (k, id) ∷ s.created))

-- A call that keeps or adds a link keeps the agreement, and is a step of the view.
pub Refines-Agrees : (k : Text) (s s' : BookingStore) → Refines k s s' → Agrees s → Agrees s'
Refines-Agrees k s s' (inl same) agrees k' = same.0 k' ∙ (agrees k' ∙ ap (made_for k') (sym same.1))
Refines-Agrees k s s' (inr (id, new, links, made)) agrees k' =
    let known : link_of k' s ≡ made_for k' s.created = agrees k' in
    links k' ∙ ground (arith, made, known)

pub Refines-Imports :
    (k : Text) (s s' : BookingStore) → Refines k s s' → Agrees s → Imports s.created s'.created
Refines-Imports k s s' (inl same) agrees = stays same.1
Refines-Imports k s s' (inr (id, new, links, made)) agrees =
    imports k id (sym (agrees k) ∙ new) made
