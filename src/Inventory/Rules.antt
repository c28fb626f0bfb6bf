-- ===== src/Inventory/Rules.antt =====
-- The rule table of game/storage/InventoryClick.h: ApplyClick, ApplyQuickMove, ApplyDrop,
-- ApplyDragPlace, ApplyPickupAll and ApplyContainerClick.
use gtnh_platform.Base.{
  ℕ, ◌+◌, ◌-◌, ◌/◌, ◌%◌, Bool, true, false, ◌&&◌, Option, none, some, List, [], ◌∷◌, ltb, ◌==◌,
  if◌then◌else◌, set,
}
use gtnh_platform.Inventory.{
  Slot, blank, hotbar_count, inventory_slots, button_right, InvActionType, click, quick_move, drop,
  drag_place, pickup_all, unknown, action_of_byte, ContainerClick, InventoryRef, slot_at, put_at,
  is_empty, merge_into,
}
use gtnh_platform.Inventory.Deal.{can_merge, deal, move_stack_to_range, collect}

-- The outcome of a rule: its `bool`, the slots and the cursor.
pub record Outcome : Type 0 where
  pub changed : Bool
  pub inv : InventoryRef
  pub cursor : Slot

-- `cursor.count -= 1; if (cursor.count == 0) SetEmpty(cursor);`
unfoldable pub take_one : Slot → Slot
take_one s =
    let left = (s.count + 256 - 1) % 256 in if left == 0 then blank else record s { count = left }

-- `tgt->count += 1`
unfoldable pub add_one : Slot → Slot
add_one s = record s { count = (s.count + 1) % 256 }

-- What a click makes of its target slot and the cursor; `none` is `return false`.
unfoldable pub click_slots : ℕ → Slot → Slot → Option (Slot × Slot)
click_slots button tgt cursor =
    if button == button_right
    then (if is_empty cursor
        then (if is_empty tgt
            then none
            else (let half = (tgt.count + 1) / 2 in
                let left = (tgt.count + 256 - half) % 256 in
                some (
                  if left == 0 then blank else record tgt { count = left },
                  record tgt { count = half },
                )))
        else (if is_empty tgt
            then some (record cursor { count = 1 }, take_one cursor)
            else (if can_merge tgt cursor then some (add_one tgt, take_one cursor) else none)))
    else (if is_empty cursor
        then (if is_empty tgt then none else some (blank, tgt))
        else (if is_empty tgt
            then some (cursor, blank)
            else (if can_merge tgt cursor
                then (let m = merge_into tgt cursor in some (m.dst, m.src))
                else some (cursor, tgt))))

-- The target and the cursor written back, or everything left as it was.
unfoldable pub write_back : InventoryRef → Slot → ContainerClick → Option (Slot × Slot) → Outcome
write_back inv cursor c none = record { changed = false; inv = inv; cursor = cursor }
write_back inv cursor c (some (tgt, cur)) = record {
  changed = true;
  inv = put_at inv c.container_id c.slot tgt;
  cursor = cur;
}

unfoldable pub apply_click : InventoryRef → Slot → ContainerClick → Outcome
apply_click inv cursor c = elim (slot_at inv c.container_id c.slot) [
  | none ↦ write_back inv cursor c none
  | some tgt ↦ write_back inv cursor c (click_slots c.button tgt cursor)
]

-- ApplyDragPlace on the target slot and the cursor.
unfoldable pub drag_slots : Slot → Slot → Option (Slot × Slot)
drag_slots tgt cursor =
    if is_empty tgt
    then some (record cursor { count = 1 }, take_one cursor)
    else (if can_merge tgt cursor then some (add_one tgt, take_one cursor) else none)

unfoldable pub apply_drag_place : InventoryRef → Slot → ContainerClick → Outcome
apply_drag_place inv cursor c =
    if is_empty cursor
    then write_back inv cursor c none
    else elim (slot_at inv c.container_id c.slot) [
      | none ↦ write_back inv cursor c none
      | some tgt ↦ write_back inv cursor c (drag_slots tgt cursor)
    ]

unfoldable pub apply_drop : InventoryRef → Slot → ContainerClick → Outcome
apply_drop inv cursor c =
    if is_empty cursor
    then elim (slot_at inv c.container_id c.slot) [
      | none ↦ write_back inv cursor c none
      | some tgt ↦ write_back inv cursor c (if is_empty tgt then none else some (blank, cursor))
    ]
    else record { changed = true; inv = inv; cursor = blank }

-- Player to container: the stack is dealt out over the container, and what is left goes back.
unfoldable pub to_container : InventoryRef → List Slot → ℕ → Slot → Bool × InventoryRef
to_container inv container i stack =
    let player = set inv.player i blank in
    let r = deal container stack in
    if is_empty r.stack
    then (true, record { player = player; container = some r.slots })
    else (false, record { player = set player i r.stack; container = some r.slots })

-- Container to player, the other way round.
unfoldable pub to_player : InventoryRef → List Slot → ℕ → Slot → Bool × InventoryRef
to_player inv container i stack =
    let r = deal inv.player stack in
    let emptied = set container i blank in
    if is_empty r.stack
    then (true, record { player = r.slots; container = some emptied })
    else (false, record { player = r.slots; container = some (set emptied i r.stack) })

-- With no container open, hotbar and main inventory exchange stacks.
unfoldable pub within_player : InventoryRef → ContainerClick → Bool × InventoryRef
within_player inv c =
    if c.container_id == 0 && ltb c.slot inventory_slots
    then (let r =
          if ltb c.slot hotbar_count
          then move_stack_to_range inv.player c.slot hotbar_count inventory_slots
          else move_stack_to_range inv.player c.slot 0 hotbar_count in
        (elim r.at [ none ↦ false | some _ ↦ true ], record inv { player = r.player }))
    else (false, inv)

abbrev pub open_container : Option (List Slot) → Option (List Slot)
open_container none = none
open_container (some []) = none
open_container (some (s ∷ ss)) = some (s ∷ ss)

unfoldable pub apply_quick_move : InventoryRef → ContainerClick → Bool × InventoryRef
apply_quick_move inv c = elim (slot_at inv c.container_id c.slot) [
  | none ↦ (false, inv)
  | some stack ↦ if is_empty stack then (false, inv) else elim (open_container inv.container) [
    | none ↦ within_player inv c
    | some container ↦
        if c.container_id == 0
        then to_container inv container c.slot stack
        else to_player inv container c.slot stack
  ]
]

unfoldable pub apply_pickup_all : InventoryRef → Slot → Outcome
apply_pickup_all inv cursor =
    if is_empty cursor
    then record { changed = false; inv = inv; cursor = cursor }
    else elim inv.container [
      | none ↦
          let p = collect inv.player cursor false in
          record {
            changed = p.changed;
            inv = record { player = p.slots; container = none };
            cursor = p.cursor;
          }
      | some slots ↦
          let r = collect slots cursor false in
          let p = collect inv.player r.cursor r.changed in
          record {
            changed = p.changed;
            inv = record { player = p.slots; container = some r.slots };
            cursor = p.cursor;
          }
    ]

-- The `switch` of ApplyContainerClick.
unfoldable pub dispatch : InvActionType → InventoryRef → Slot → ContainerClick → Outcome
dispatch click inv cursor c = apply_click inv cursor c
dispatch quick_move inv cursor c =
    let r = apply_quick_move inv c in record { changed = r.0; inv = r.1; cursor = cursor }
dispatch drop inv cursor c = apply_drop inv cursor c
dispatch drag_place inv cursor c = apply_drag_place inv cursor c
dispatch pickup_all inv cursor c = apply_pickup_all inv cursor
dispatch unknown inv cursor c = record { changed = false; inv = inv; cursor = cursor }

unfoldable pub apply_container_click : InventoryRef → Slot → ContainerClick → Outcome
apply_container_click inv cursor c = dispatch (action_of_byte c.action_type) inv cursor c
