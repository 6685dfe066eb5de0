-- ===== src/Check24/Bookings/Once.antt =====
-- No booking is imported twice: each call of src/check24/check24-booking.service.ts is a step of the
-- view, and so is any history of calls.
use fonio_middleware.Base.{
  [], ◌∷◌, refl, if◌then◌else◌, not, List, ◌∙◌, inr, find, ap, inl, ◌≡◌, Bool, ℕ, Option, false,
  true, some, none,
}
use fonio_middleware.Check24.Bookings.{
  cancel_reservation, already_cancelled, get_custom_fields, unsupported_status, no_local_mapping,
  hostaway_cancel_failed, FieldValue, BookingError, imported, BookingStore, MappedListing,
  BookingConfig, Outside, Booking,
}
use fonio_middleware.Check24.Bookings.Refinement.{
  IsSame-trans, create_with_labels-HasCreated, update_row-IsSame, after_creation-HasLinked, Refines,
  HasCreatedLabelled, IsSame, HasRow, IsNumbering,
}
use fonio_middleware.Base.Text.{Text}
use fonio_middleware.Check24.Bookings.Cancel.{
  reopen, settled_row, is_locally_cancelled, cancel_at_hostaway, cancel_linked, cancel_answered,
}
use fonio_middleware.Check24.Bookings.Import.{
  field_values, payload_of, failed_row, create_with_labels, host_note_of, import_for, import_mapped,
  after_creation, resolve_custom_field_values, import_booking,
}
use fonio_middleware.Check24.Bookings.Store.{
  mapped_listing, call_out, sync_single_reservation, update_row, mark_cancelled, is_row, linked,
  push_property,
}
use fonio_middleware.Payments.Program.{err, ok, continue, Result}
use fonio_middleware.Check24.Bookings.Links.{link_of}
use fonio_middleware.Check24.Bookings.Process.{is_importable, process_open}

module _ (env : Outside) (cfg : BookingConfig) (numbering : IsNumbering env) where
  -- The branch behind the creation.
  created-Refines :
      (b : Booking) (note : Text) (l : MappedListing) (t : BookingStore)
      (x : Result Text (ℕ × Bool) × BookingStore)
      → HasRow b.booking_id t
      → link_of b.booking_id t ≡ none
      → HasCreatedLabelled b.booking_id t x
      → Refines b.booking_id t
          (continue
            (λ made s. (ok (imported made.0 b.status), after_creation env cfg b note l made s))
            x).1
  created-Refines b note l t (err e, s) there new done =
      inl ((λ k. ap (λ rows. linked (find (is_row k) rows)) done.0), done.1)
  created-Refines b note l t (ok (id, labelled), s) there new done =
      let (links, same) =
        after_creation-HasLinked env cfg b note l (id, labelled) s t there done.2 done.0 in
      inr (id, new, links, same ∙ done.1)

  fields-Refines :
      (b : Booking) (l : MappedListing) (s t : BookingStore) (r : Result Text (List FieldValue))
      → HasRow b.booking_id t
      → link_of b.booking_id t ≡ none
      → (s.bookings ≡ t.bookings) × (s.created ≡ t.created)
      → Refines b.booking_id t
          (continue
            (λ values s.
              continue
                (λ made s. (
                  ok (imported made.0 b.status),
                  after_creation env cfg b (host_note_of b) l made s,
                ))
                (create_with_labels env cfg b.booking_id (payload_of cfg l b values) s))
            (r, s)).1
  fields-Refines b l s t (err e) there new same =
      inl ((λ k. ap (λ rows. linked (find (is_row k) rows)) same.0), same.1)
  fields-Refines b l s t (ok values) there new same =
      created-Refines b (host_note_of b) l t
        (create_with_labels env cfg b.booking_id (payload_of cfg l b values) s) there new
        (create_with_labels-HasCreated env cfg numbering b.booking_id (payload_of cfg l b values) s
          t same)

  import_mapped-Refines :
      (b : Booking) (l : Option MappedListing) (s : BookingStore)
      → HasRow b.booking_id s
      → link_of b.booking_id s ≡ none
      → Refines b.booking_id s (import_mapped env cfg b l s).1
  unfolding import_mapped import_for resolve_custom_field_values
  import_mapped-Refines b none s there new = inl (
      update_row-IsSame b.booking_id (failed_row (no_local_mapping b.property_id)) s (λ r. refl)
        (λ r. refl))
  import_mapped-Refines b (some l) s there new =
      fields-Refines b l (call_out get_custom_fields s) s
        (field_values cfg b.booking_id (env.fields_answer (get_custom_fields ∷ s.calls))) there new
        (refl, refl)

  settle_row-IsSame :
      (b : Booking) (e : Option BookingError) (s : BookingStore)
      → IsSame s (update_row b.booking_id (settled_row b e) s)
  settle_row-IsSame b e s =
      update_row-IsSame b.booking_id (settled_row b e) s (λ r. refl) (λ r. refl)

  cancel_answered-IsSame :
      (b : Booking) (id : ℕ) (answer : Result Text (Unit {0})) (s : BookingStore)
      → IsSame s (cancel_answered env b id answer s).1
  unfolding cancel_answered push_property mark_cancelled sync_single_reservation
  cancel_answered-IsSame b id (ok done) s = ((λ k. refl), refl)
  cancel_answered-IsSame b id (err e) s =
      settle_row-IsSame b (some (hostaway_cancel_failed e)) (mark_cancelled id s)

  pub cancel_linked-IsSame :
      (b : Booking) (o : Option ℕ) (s : BookingStore) → IsSame s (cancel_linked env b o s).1
  unfolding cancel_linked push_property cancel_at_hostaway
  cancel_linked-IsSame b none s = settle_row-IsSame b none s
  cancel_linked-IsSame b (some id) s =
      elim (is_locally_cancelled id s)
        as (λ t.
          IsSame s
            (if t
              then reopen b (id ∷ []) (already_cancelled b.status id)
                  (update_row b.booking_id (settled_row b none) s)
              else cancel_at_hostaway env b id s).1) [
                | true ↦ settle_row-IsSame b none s
                | false ↦
                    let settled : BookingStore = update_row b.booking_id (settled_row b none) s in
                    let asked : BookingStore = call_out (cancel_reservation id) settled in
                    let after = cancel_answered-IsSame b id (env.cancel_answer asked.calls) asked in
                    IsSame-trans s settled
                      (cancel_answered env b id (env.cancel_answer asked.calls) asked).1
                      (settle_row-IsSame b none s) after
              ]

  pub process_open-Refines :
      (b : Booking) (o : Option ℕ) (s : BookingStore)
      → HasRow b.booking_id s
      → link_of b.booking_id s ≡ o
      → Refines b.booking_id s (process_open env cfg b o s).1
  unfolding process_open import_booking
  process_open-Refines b (some id) s there e = inl ((λ k. refl), refl)
  process_open-Refines b none s there e =
      elim (not (is_importable b.status))
        as (λ t.
          Refines b.booking_id s
            (if t then (ok (unsupported_status b.status), s) else import_booking env cfg b s).1) [
              | true ↦ inl ((λ k. refl), refl)
              | false ↦ import_mapped-Refines b (mapped_listing b.property_id s.mappings) s there e
            ]
