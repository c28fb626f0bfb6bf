-- ===== src/Inventory/Unchanged.antt =====
-- What ApplyContainerClick's result says: a rule that returns false has changed nothing, except that
-- a quick move may have moved a part of its stack.
use gtnh_platform.Base.{
  ◌≡◌, refl, ◌≢◌, inl, inr, Bool, true, false, List, [], ◌∷◌, arith, Option-cases, All,
}
use gtnh_platform.Inventory.{
  Slot, InventoryRef, ContainerClick, InvActionType, click, quick_move, drop, drag_place,
  pickup_all, unknown, action_of_byte, merge_into,
}
use gtnh_platform.Inventory.Deal.{collect}
use gtnh_platform.Inventory.Rules.{
  Outcome, write_back, apply_click, apply_drag_place, apply_drop, apply_pickup_all, dispatch,
  apply_container_click,
}
use gtnh_platform.Inventory.Merge.{IsByte, merge_into-moved}
use gtnh_platform.Inventory.Held.{AreBytes}

collect-true : (ss : List Slot) (cursor : Slot) → (collect ss cursor true).changed ≡ true
unfolding collect
collect-true [] cursor = refl
collect-true (s ∷ ss) cursor =
    ground (arith, collect-true ss (merge_into cursor s).dst, collect-true ss cursor)

collect-unchanged :
    (ss : List Slot) (cursor : Slot) (changed : Bool)
    → All IsByte ss
    → (collect ss cursor changed).changed ≡ false
    → ((collect ss cursor changed).slots ≡ ss) × ((collect ss cursor changed).cursor ≡ cursor)
unfolding collect
collect-unchanged [] cursor changed b h = (refl, refl)
collect-unchanged (s ∷ ss) cursor changed b h = ground (
  arith,
  merge_into-moved cursor s b.0,
  collect-true ss (merge_into cursor s).dst,
  collect-unchanged ss cursor changed b.1,
)

collect-keeps_true :
    (ss : List Slot) (cursor : Slot) (changed : Bool)
    → (collect ss cursor changed).changed ≡ false
    → changed ≡ false
collect-keeps_true ss cursor true h = ground (arith, collect-true ss cursor)
collect-keeps_true ss cursor false h = refl

module _ (inv : InventoryRef) (cursor : Slot) where
  abbrev Same : Outcome → Type 0
  Same o = (o.inv ≡ inv) × (o.cursor ≡ cursor)

  apply_pickup_all-Same :
      AreBytes inv cursor
      → (apply_pickup_all inv cursor).changed ≡ false
      → Same (apply_pickup_all inv cursor)
  unfolding apply_pickup_all
  apply_pickup_all-Same b h = elim (Option-cases inv.container) [
    | inl e ↦ ground (arith, collect-unchanged inv.player cursor false b.in_player)
    | inr (ss, e) ↦
        let r = collect ss cursor false in
        ground (
          arith,
          collect-unchanged ss cursor false (rw e at b.in_container),
          collect-unchanged inv.player r.cursor r.changed b.in_player,
          collect-keeps_true inv.player r.cursor r.changed,
        )
  ]

  dispatch-Same :
      (a : InvActionType) (c : ContainerClick)
      → AreBytes inv cursor
      → a ≢ quick_move
      → (dispatch a inv cursor c).changed ≡ false
      → Same (dispatch a inv cursor c)
  unfolding dispatch apply_click apply_drag_place apply_drop write_back
  dispatch-Same click c b n h = ground arith
  dispatch-Same quick_move c b n h = absurd (n refl)
  dispatch-Same drop c b n h = ground arith
  dispatch-Same drag_place c b n h = ground arith
  dispatch-Same pickup_all c b n h = apply_pickup_all-Same b h
  dispatch-Same unknown c b n h = (refl, refl)

-- A click that is not a quick move and returns false leaves the slots and the cursor as they were;
-- the counts before the click are bytes.
pub apply_container_click-unchanged :
    (inv : InventoryRef) (cursor : Slot) (c : ContainerClick)
    → AreBytes inv cursor
    → action_of_byte c.action_type ≢ quick_move
    → (apply_container_click inv cursor c).changed ≡ false
    → ((apply_container_click inv cursor c).inv ≡ inv)
      × ((apply_container_click inv cursor c).cursor ≡ cursor)
unfolding apply_container_click
apply_container_click-unchanged inv cursor c b n h =
    dispatch-Same inv cursor (action_of_byte c.action_type) c b n h
