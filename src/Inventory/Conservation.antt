-- ===== src/Inventory/Conservation.antt =====
-- ApplyContainerClick of game/storage/InventoryClick.h: no click but a drop makes or loses items.
use gtnh_platform.Base.{
  ℕ, ◌+◌, ◌≡◌, refl, ◌≢◌, inl, inr, true, false, Option, none, some, List, [], ◌∷◌, arith,
  Option-cases, get_elem?, ◌==◌,
}
use gtnh_platform.Inventory.{
  Slot, InventoryRef, ContainerClick, InvActionType, click, quick_move, drop, drag_place,
  pickup_all, unknown, action_of_byte, slot_at,
}
use gtnh_platform.Inventory.Rules.{
  open_container, apply_quick_move, dispatch, apply_container_click,
}
use gtnh_platform.Inventory.Merge.{total, IsByte}
use gtnh_platform.Inventory.Held.{
  total_in, held, AreBytes, slot_at-All, apply_click-held, apply_drag_place-held,
  apply_pickup_all-held, to_container-total, to_player-total, within_player-total,
}

-- The array that a container id names, and where a click on it lands.
slot_at-player :
    (inv : InventoryRef) (cid k : ℕ) (s : Slot)
    → (cid == 0) ≡ true
    → slot_at inv cid k ≡ some s
    → get_elem? inv.player k ≡ some s
unfolding slot_at
slot_at-player inv cid k s z e = ground arith

slot_at-container :
    (inv : InventoryRef) (ss : List Slot) (cid k : ℕ) (s : Slot)
    → (cid == 0) ≡ false
    → inv.container ≡ some ss
    → slot_at inv cid k ≡ some s
    → get_elem? ss k ≡ some s
unfolding slot_at
slot_at-container inv ss cid k s z c e = ground arith

pub open_container-eq :
    (o : Option (List Slot)) (ss : List Slot) → open_container o ≡ some ss → o ≡ some ss
open_container-eq none ss e = cc
open_container-eq (some []) ss e = cc
open_container-eq (some (x ∷ xs)) ss e = e

module _ (i m : ℕ) (known : i ≢ 0) (inv : InventoryRef) (cursor : Slot) (c : ContainerClick) where
  apply_quick_move-total :
      AreBytes inv cursor
      → let r = (apply_quick_move inv c).1 in
        total i m r.player + total_in i m r.container
        ≡ total i m inv.player + total_in i m inv.container
  unfolding apply_quick_move
  apply_quick_move-total b = elim (Option-cases (slot_at inv c.container_id c.slot)) [
    | inl e ↦ ground arith
    | inr (s, e) ↦
        let bs = slot_at-All IsByte inv c.container_id c.slot s b.in_player b.in_container e in
        elim (Option-cases (open_container inv.container)) [
          | inl h ↦ ground (arith, within_player-total i m known inv c b.in_player)
          | inr (ss, h) ↦ ground (
            arith,
            open_container-eq inv.container ss h,
            to_container-total i m known inv ss c.slot s,
            to_player-total i m known inv ss c.slot s,
            slot_at-player inv c.container_id c.slot s,
            slot_at-container inv ss c.container_id c.slot s,
            bs,
          )
        ]
  ]

  dispatch-held :
      (a : InvActionType)
      → AreBytes inv cursor
      → a ≢ drop
      → let o = dispatch a inv cursor c in held i m o.inv o.cursor ≡ held i m inv cursor
  unfolding dispatch
  dispatch-held click b h = apply_click-held i m known inv cursor c b
  dispatch-held quick_move b h = omega (arith, apply_quick_move-total b)
  dispatch-held drop b h = absurd (h refl)
  dispatch-held drag_place b h = apply_drag_place-held i m known inv cursor c b
  dispatch-held pickup_all b h = apply_pickup_all-held i m known inv cursor b
  dispatch-held unknown b h = refl

  -- For every kind of item, a click whose action is not a drop leaves the number of items in the
  -- player's slots, the open container and the cursor together as it was, whatever the click's
  -- bytes are and whatever it returns; the counts before the click are bytes.
  pub apply_container_click-conserves :
      AreBytes inv cursor
      → action_of_byte c.action_type ≢ drop
      → let o = apply_container_click inv cursor c in held i m o.inv o.cursor ≡ held i m inv cursor
  unfolding apply_container_click
  apply_container_click-conserves b h = dispatch-held (action_of_byte c.action_type) b h
