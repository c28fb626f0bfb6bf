-- ===== src/Inventory/Invariant.antt =====
-- ApplyContainerClick keeps the inventory well formed, and when it reports no change there is none,
-- a quick move excepted.
use gtnh_platform.Base.{
  ℕ, ◌≡◌, inl, inr, false, Option, none, some, List, arith, Option-cases, length, length-set, set,
  All, All-set,
}
use gtnh_platform.Inventory.{
  Slot, blank, InventoryRef, ContainerClick, InvActionType, click, quick_move, drop, drag_place,
  pickup_all, unknown, action_of_byte, slot_at, put_at, hotbar_count, inventory_slots,
}
use gtnh_platform.Inventory.Deal.{deal, collect}
use gtnh_platform.Inventory.Rules.{
  Outcome, write_back, apply_click, click_slots, drag_slots, apply_drag_place, apply_drop,
  to_container, to_player, within_player, open_container, apply_quick_move, apply_pickup_all,
  dispatch, apply_container_click,
}
use gtnh_platform.Inventory.Merge.{Fits, PairAll, click_slots-Fits, drag_slots-Fits}
use gtnh_platform.Inventory.Limits.{deal-Fits, move_stack_to_range-Fits, collect-Fits}
use gtnh_platform.Inventory.Held.{AllIn, slot_at-All}
use gtnh_platform.Inventory.Conservation.{open_container-eq}

abbrev pub length_in : Option (List Slot) → ℕ
length_in none = 0
length_in (some ss) = length ss

-- The player has 40 slots, the open container `n`, and no stack exceeds 64.
pub record IsValid (n : ℕ) (inv : InventoryRef) : Type 0 where
  pub player_size : length inv.player ≡ inventory_slots
  pub container_size : length_in inv.container ≡ n
  pub player_fits : All Fits inv.player
  pub container_fits : AllIn Fits inv.container

put_at-IsValid :
    (n : ℕ) (inv : InventoryRef) (cid k : ℕ) (v : Slot)
    → IsValid n inv
    → Fits v
    → IsValid n (put_at inv cid k v)
unfolding put_at
put_at-IsValid n inv cid k v h f = elim (Option-cases inv.container) [
  | inl e ↦ ground (arith, length-set inv.player k v, All-set Fits inv.player k v h.player_fits f)
  | inr (c, e) ↦ ground (
    arith,
    length-set inv.player k v,
    All-set Fits inv.player k v h.player_fits f,
    length-set c k v,
    All-set Fits c k v (rw e at h.container_fits) f,
  )
]

module _ (n : ℕ) (inv : InventoryRef) (h : IsValid n inv) where
  abbrev Kept : Outcome → Type 0
  Kept o = IsValid n o.inv × Fits o.cursor

  write_back-Kept :
      (cursor : Slot) (c : ContainerClick) (r : Option (Slot × Slot))
      → Fits cursor
      → PairAll Fits r
      → Kept (write_back inv cursor c r)
  unfolding write_back
  write_back-Kept cursor c none f p = (h, f)
  write_back-Kept cursor c (some (t, u)) f p =
      (put_at-IsValid n inv c.container_id c.slot t h p.0, p.1)

  apply_click-Kept :
      (cursor : Slot) (c : ContainerClick) → Fits cursor → Kept (apply_click inv cursor c)
  unfolding apply_click
  apply_click-Kept cursor c f = elim (Option-cases (slot_at inv c.container_id c.slot)) [
    | inl e ↦ rw (e, apply_click) (write_back-Kept cursor c none f tt)
    | inr (s, e) ↦
        let fs = slot_at-All Fits inv c.container_id c.slot s h.player_fits h.container_fits e in
        rw (e, apply_click)
          (write_back-Kept cursor c (click_slots c.button s cursor) f
            (click_slots-Fits s cursor fs f c.button))
  ]

  apply_drag_place-Kept :
      (cursor : Slot) (c : ContainerClick) → Fits cursor → Kept (apply_drag_place inv cursor c)
  unfolding apply_drag_place
  apply_drag_place-Kept cursor c f = elim (Option-cases (slot_at inv c.container_id c.slot)) [
    | inl e ↦ ground (arith, write_back-Kept cursor c none f tt)
    | inr (s, e) ↦
        let fs = slot_at-All Fits inv c.container_id c.slot s h.player_fits h.container_fits e in
        ground (
          arith,
          write_back-Kept cursor c none f tt,
          write_back-Kept cursor c (drag_slots s cursor) f,
          drag_slots-Fits s cursor fs f,
        )
  ]

  apply_drop-Kept :
      (cursor : Slot) (c : ContainerClick) → Fits cursor → Kept (apply_drop inv cursor c)
  unfolding apply_drop
  apply_drop-Kept cursor c f = elim (Option-cases (slot_at inv c.container_id c.slot)) [
    | inl e ↦ ground (arith, write_back-Kept cursor c none f tt)
    | inr (s, e) ↦ ground (
      arith,
      write_back-Kept cursor c none f tt,
      write_back-Kept cursor c (some (blank, cursor)) f (omega arith, f),
    )
  ]

  apply_pickup_all-Kept : (cursor : Slot) → Fits cursor → Kept (apply_pickup_all inv cursor)
  unfolding apply_pickup_all
  apply_pickup_all-Kept cursor f = elim (Option-cases inv.container) [
    | inl e ↦ ground (arith, collect-Fits inv.player cursor false h.player_fits f)
    | inr (ss, e) ↦
        let r = collect ss cursor false in
        let a = collect-Fits ss cursor false (rw e at h.container_fits) f in
        ground (arith, a, collect-Fits inv.player r.cursor r.changed h.player_fits a.1)
  ]

  to_container-IsValid :
      (container : List Slot) (k : ℕ) (s : Slot)
      → inv.container ≡ some container
      → Fits s
      → IsValid n (to_container inv container k s).1
  unfolding to_container
  to_container-IsValid container k s e f =
      let r = deal container s in
      let a = deal-Fits container s (rw e at h.container_fits) f in
      let b = All-set Fits inv.player k blank h.player_fits (omega arith) in
      ground (
        arith,
        a,
        b,
        length-set inv.player k blank,
        All-set Fits (set inv.player k blank) k r.stack b a.1,
        length-set (set inv.player k blank) k r.stack,
      )

  to_player-IsValid :
      (container : List Slot) (k : ℕ) (s : Slot)
      → inv.container ≡ some container
      → Fits s
      → IsValid n (to_player inv container k s).1
  unfolding to_player
  to_player-IsValid container k s e f =
      let r = deal inv.player s in
      let a = deal-Fits inv.player s h.player_fits f in
      let b = All-set Fits container k blank (rw e at h.container_fits) (omega arith) in
      ground (
        arith,
        a,
        b,
        length-set container k blank,
        All-set Fits (set container k blank) k r.stack b a.1,
        length-set (set container k blank) k r.stack,
      )

  within_player-IsValid : (c : ContainerClick) → IsValid n (within_player inv c).1
  unfolding within_player
  within_player-IsValid c = ground (
    arith,
    move_stack_to_range-Fits c.slot hotbar_count inventory_slots inv.player h.player_fits,
    move_stack_to_range-Fits c.slot 0 hotbar_count inv.player h.player_fits,
  )

  apply_quick_move-IsValid : (c : ContainerClick) → IsValid n (apply_quick_move inv c).1
  unfolding apply_quick_move
  apply_quick_move-IsValid c = elim (Option-cases (slot_at inv c.container_id c.slot)) [
    | inl e ↦ ground arith
    | inr (s, e) ↦
        let fs = slot_at-All Fits inv c.container_id c.slot s h.player_fits h.container_fits e in
        elim (Option-cases (open_container inv.container)) [
          | inl o ↦ ground (arith, within_player-IsValid c)
          | inr (ss, o) ↦
              let e' = open_container-eq inv.container ss o in
              ground
                (arith, to_container-IsValid ss c.slot s e' fs, to_player-IsValid ss c.slot s e' fs)
        ]
  ]

  dispatch-Kept :
      (a : InvActionType) (cursor : Slot) (c : ContainerClick)
      → Fits cursor
      → Kept (dispatch a inv cursor c)
  unfolding dispatch
  dispatch-Kept click cursor c f = apply_click-Kept cursor c f
  dispatch-Kept quick_move cursor c f = (apply_quick_move-IsValid c, f)
  dispatch-Kept drop cursor c f = apply_drop-Kept cursor c f
  dispatch-Kept drag_place cursor c f = apply_drag_place-Kept cursor c f
  dispatch-Kept pickup_all cursor c f = apply_pickup_all-Kept cursor f
  dispatch-Kept unknown cursor c f = (h, f)

-- Every click keeps the player's 40 slots, the number of slots of the open container, and the limit
-- of 64 on each stack, the cursor's included.
pub apply_container_click-IsValid :
    (n : ℕ) (inv : InventoryRef) (cursor : Slot) (c : ContainerClick)
    → IsValid n inv
    → Fits cursor
    → let o = apply_container_click inv cursor c in IsValid n o.inv × Fits o.cursor
unfolding apply_container_click
apply_container_click-IsValid n inv cursor c h f =
    dispatch-Kept n inv h (action_of_byte c.action_type) cursor c f
