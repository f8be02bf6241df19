-- ===== src/Reservation/Calendar/Slots.antt =====
-- The slots of the calendar: which there are, and what a slot should tell.
use smart_classroom.Prelude.{
  ℕ, ◌+◌, ◌*◌, ◌<◌, ◌≡◌, refl, sym, subst, ◌⊎◌, inl, inr, true, false, List, [], ◌∷◌, map, Option,
  none, some, IsIn, All, min, IsIn-append, IsIn-append_left, IsIn-append_right, IsIn-map, map-IsIn,
}
use smart_classroom.Domain.Range.{bounded, overlaps}
use smart_classroom.Domain.Rows.{User, Reservation, is_active_status}
use smart_classroom.Domain.Db.{Db}
use smart_classroom.Reservation.Calendar.{
  Occupied, CalendarSlot, open_slot, occupied_slot, slot_at, slots_of, shown_user, host_ids_of,
}

pub slots_sound :
    (viewer : User) (delta : ℕ) (d : Occupied) (starts hids : List ℕ) (s : CalendarSlot)
    → IsIn s (slots_of viewer delta d starts hids)
    → (h c : ℕ) × IsIn h hids × IsIn c starts × (s ≡ slot_at viewer delta d h c)
unfolding slots_of
slots_sound viewer delta d starts [] s m = absurd m
slots_sound viewer delta d starts (h ∷ hids) s m =
    elim (IsIn-append s (map (slot_at viewer delta d h) starts) _ m) [
      | inl k ↦
          let (c, at, e) = IsIn-map (slot_at viewer delta d h) s starts k in (h, c, inl refl, at, e)
      | inr k ↦
          let (g, c, on, at, e) = slots_sound viewer delta d starts hids s k in
          (g, c, inr on, at, e)
    ]

pub slots_complete :
    (viewer : User) (delta : ℕ) (d : Occupied) (starts hids : List ℕ) (h c : ℕ)
    → IsIn h hids
    → IsIn c starts
    → IsIn (slot_at viewer delta d h c) (slots_of viewer delta d starts hids)
unfolding slots_of
slots_complete viewer delta d starts [] h c m at = absurd m
slots_complete viewer delta d starts (x ∷ hids) h c (inl e) at =
    IsIn-append_left _ (map (slot_at viewer delta d x) starts) _ (
      subst (λ g. IsIn (slot_at viewer delta d g c) (map (slot_at viewer delta d x) starts)) (sym e)
        (map-IsIn (slot_at viewer delta d x) c starts at))
slots_complete viewer delta d starts (x ∷ hids) h c (inr m) at =
    IsIn-append_right _ (map (slot_at viewer delta d x) starts) _
      (slots_complete viewer delta d starts hids h c m at)

-- An active reservation of the slot's host has an instant of the slot, as far as it is in the window.
abbrev pub IsFree : ℕ → CalendarSlot → Reservation → Type 0
IsFree to s r =
    is_active_status r.status ≡ true
    → r.host_id ≡ s.host_id
    → overlaps r.time_range (bounded s.starts_at (min s.ends_at to)) ≡ false

-- A slot tells the truth: it is open and no active reservation meets it, or it names one that does,
-- and its user to those who may know.
abbrev pub TellsHolder : User → ℕ → Db → CalendarSlot → Type 0
TellsHolder viewer to db s =
    ((s.status ≡ open_slot)
      × (s.reservation_id ≡ none)
      × (s.user_id ≡ none)
      × All (IsFree to s) db.reservations)
    ⊎ ((r : Reservation) × IsIn r db.reservations
        × (is_active_status r.status ≡ true)
        × (r.host_id ≡ s.host_id)
        × (overlaps r.time_range (bounded s.starts_at s.ends_at) ≡ true)
        × (s.status ≡ occupied_slot)
        × (s.reservation_id ≡ some r.id)
        × (s.user_id ≡ shown_user viewer r))

pub record Describes (viewer : User) (delta from to : ℕ) (host_id : Option ℕ) (db : Db)
    (s : CalendarSlot) : Type 0 where
  pub steps : ℕ
  pub on_grid : s.starts_at ≡ from + steps * delta
  pub in_window : s.starts_at < to
  pub long : s.ends_at ≡ s.starts_at + delta
  pub host : IsIn s.host_id (host_ids_of host_id db)
  pub holder : TellsHolder viewer to db s
