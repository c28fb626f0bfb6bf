-- ===== src/Inventory/Held.antt =====
-- What each rule does to the number of items of one kind.
use gtnh_platform.Base.{
  ℕ, ◌+◌, ◌≡◌, refl, ◌≢◌, inl, inr, false, Option, none, some, List, arith, Bool-cases,
  Option-cases, get_elem?, get_elem?-set_self, set, All, All-get, ◌==◌,
}
use gtnh_platform.Inventory.{
  Slot, blank, InventoryRef, ContainerClick, slot_at, put_at, hotbar_count, inventory_slots,
}
use gtnh_platform.Inventory.Deal.{deal, collect}
use gtnh_platform.Inventory.Rules.{
  write_back, apply_click, click_slots, drag_slots, apply_drag_place, to_container, to_player,
  within_player, apply_pickup_all,
}
use gtnh_platform.Inventory.Merge.{
  amount, total, IsByte, PairKept, click_slots-PairKept, drag_slots-PairKept,
}
use gtnh_platform.Inventory.Loops.{is_empty-amount, total-set, deal-conserves, collect-conserves}
use gtnh_platform.Inventory.Range.{move_stack_to_range-conserves}

-- The items of one kind in the slots of an optional container.
abbrev pub total_in : ℕ → ℕ → Option (List Slot) → ℕ
total_in i m none = 0
total_in i m (some ss) = total i m ss

-- The items of one kind in the player's slots, the container's and the cursor.
abbrev pub held : ℕ → ℕ → InventoryRef → Slot → ℕ
held i m inv cursor = total i m inv.player + total_in i m inv.container + amount i m cursor

abbrev pub AllIn : (Slot → Type 0) → Option (List Slot) → Type 0
AllIn P none = Unit {0}
AllIn P (some ss) = All P ss

-- Every count is a byte.
pub record AreBytes (inv : InventoryRef) (cursor : Slot) : Type 0 where
  pub in_player : All IsByte inv.player
  pub in_container : AllIn IsByte inv.container
  pub in_cursor : IsByte cursor

pub held-put_at :
    (i m : ℕ) (inv : InventoryRef) (cid k : ℕ) (s v : Slot)
    → slot_at inv cid k ≡ some s
    → total i m (put_at inv cid k v).player
        + total_in i m (put_at inv cid k v).container
        + amount i m s
      ≡ total i m inv.player + total_in i m inv.container + amount i m v
unfolding slot_at put_at
held-put_at i m inv cid k s v e = elim (Option-cases inv.container) [
  | inl h ↦ ground (arith, total-set i m inv.player k {s = s} v)
  | inr (c, h) ↦ ground (arith, total-set i m inv.player k {s = s} v, total-set i m c k {s = s} v)
]

pub slot_at-All :
    (P : Slot → Type 0) (inv : InventoryRef) (cid k : ℕ) (s : Slot)
    → All P inv.player
    → AllIn P inv.container
    → slot_at inv cid k ≡ some s
    → P s
unfolding slot_at
slot_at-All P inv cid k s hp hc e = elim (Bool-cases (cid == 0)) [
  | inl z ↦ All-get P inv.player k hp (ground arith)
  | inr z ↦ go inv.container hc (ground arith)
]
  where
    go :
        (c : Option (List Slot))
        → AllIn P c
        → (elim c [ none ↦ none | some d ↦ get_elem? d k ]) ≡ some s
        → P s
    go none h e' = cc
    go (some d) h e' = All-get P d k h e'

module _ (i m : ℕ) (known : i ≢ 0) (inv : InventoryRef) where
  write_back-held :
      (cursor s : Slot) (c : ContainerClick) (r : Option (Slot × Slot))
      → slot_at inv c.container_id c.slot ≡ some s
      → PairKept i m s cursor r
      → let o = write_back inv cursor c r in held i m o.inv o.cursor ≡ held i m inv cursor
  unfolding write_back
  write_back-held cursor s c none e h = refl
  write_back-held cursor s c (some (t, u)) e h =
      ground (arith, held-put_at i m inv c.container_id c.slot s t e)

  pub apply_click-held :
      (cursor : Slot) (c : ContainerClick)
      → AreBytes inv cursor
      → let o = apply_click inv cursor c in held i m o.inv o.cursor ≡ held i m inv cursor
  unfolding apply_click write_back
  apply_click-held cursor c b = elim (Option-cases (slot_at inv c.container_id c.slot)) [
    | inl e ↦ ground arith
    | inr (s, e) ↦
        let bs = slot_at-All IsByte inv c.container_id c.slot s b.in_player b.in_container e in
        ground (
          arith,
          write_back-held cursor s c (click_slots c.button s cursor) e
              (click_slots-PairKept i m s cursor known bs b.in_cursor c.button),
        )
  ]

  pub apply_drag_place-held :
      (cursor : Slot) (c : ContainerClick)
      → AreBytes inv cursor
      → let o = apply_drag_place inv cursor c in held i m o.inv o.cursor ≡ held i m inv cursor
  unfolding apply_drag_place write_back
  apply_drag_place-held cursor c b = elim (Option-cases (slot_at inv c.container_id c.slot)) [
    | inl e ↦ ground arith
    | inr (s, e) ↦
        let bs = slot_at-All IsByte inv c.container_id c.slot s b.in_player b.in_container e in
        ground (
          arith,
          write_back-held cursor s c (drag_slots s cursor) e,
          drag_slots-PairKept i m s cursor known bs b.in_cursor,
        )
  ]

  pub apply_pickup_all-held :
      (cursor : Slot)
      → AreBytes inv cursor
      → let o = apply_pickup_all inv cursor in held i m o.inv o.cursor ≡ held i m inv cursor
  unfolding apply_pickup_all
  apply_pickup_all-held cursor b = elim (Option-cases inv.container) [
    | inl e ↦ ground (arith, collect-conserves i m known inv.player cursor false b.in_player)
    | inr (ss, e) ↦
        let r = collect ss cursor false in
        ground (
          arith,
          collect-conserves i m known ss cursor false (rw e at b.in_container),
          collect-conserves i m known inv.player r.cursor r.changed b.in_player,
        )
  ]

  pub to_container-total :
      (container : List Slot) (k : ℕ) (s : Slot)
      → get_elem? inv.player k ≡ some s
      → IsByte s
      → let r = (to_container inv container k s).1 in
        total i m r.player + total_in i m r.container ≡ total i m inv.player + total i m container
  unfolding to_container
  to_container-total container k s e b =
      let r = deal container s in
      ground (
        arith,
        deal-conserves i m known container s b,
        total-set i m inv.player k blank e,
        total-set i m (set inv.player k blank) k r.stack (get_elem?-set_self inv.player k blank e),
        is_empty-amount i m r.stack known,
      )

  pub to_player-total :
      (container : List Slot) (k : ℕ) (s : Slot)
      → get_elem? container k ≡ some s
      → IsByte s
      → let r = (to_player inv container k s).1 in
        total i m r.player + total_in i m r.container ≡ total i m inv.player + total i m container
  unfolding to_player
  to_player-total container k s e b =
      let r = deal inv.player s in
      ground (
        arith,
        deal-conserves i m known inv.player s b,
        total-set i m container k blank e,
        total-set i m (set container k blank) k r.stack (get_elem?-set_self container k blank e),
        is_empty-amount i m r.stack known,
      )

  pub within_player-total :
      (c : ContainerClick)
      → All IsByte inv.player
      → let r = (within_player inv c).1 in
        total i m r.player + total_in i m r.container
        ≡ total i m inv.player + total_in i m inv.container
  unfolding within_player
  within_player-total c b = ground (
    arith,
    move_stack_to_range-conserves i m known c.slot hotbar_count inventory_slots inv.player b,
    move_stack_to_range-conserves i m known c.slot 0 hotbar_count inv.player b,
  )
