-- ===== src/Inventory.antt =====
-- The server-authoritative click rules: game/storage/InventoryClick.h, and the slot type of
-- game/storage/PlayerInventoryStore.h. A pointer into one of the two slot arrays is the array's
-- identity and an index; a function that mutates slots returns them. The player's array always has
-- `inventory_slots` slots, and the rules are only called with a player array.
pub mod Deal
pub mod Rules
pub mod Merge
pub mod Loops
pub mod Range
pub mod Limits
pub mod Held
pub mod Conservation
pub mod Invariant
pub mod Unchanged
pub mod Handler
mod Tests
use gtnh_platform.Base.{
  ℕ, ◌+◌, ◌-◌, ◌%◌, min, Bool, true, false, ◌&&◌, ◌||◌, Option, none, some, List, [], ◌∷◌, ltb,
  ◌==◌, if◌then◌else◌, get_elem?, set,
}

-- `PersistSlot`. `item_id` and `meta` are 16-bit words, `count` is a byte.
pub record Slot : Type 0 where
  pub item_id : ℕ
  pub count : ℕ
  pub meta : ℕ

abbrev pub blank : Slot
blank = record { item_id = 0; count = 0; meta = 0 }

abbrev pub max_stack : ℕ
max_stack = 64

abbrev pub hotbar_count : ℕ
hotbar_count = 10

abbrev pub inventory_slots : ℕ
inventory_slots = 40

-- `kButtonRight`; every other value of the byte acts as the left button.
abbrev pub button_right : ℕ
button_right = 1

-- The bytes of `InvActionType`; `unknown` is any byte that the enumeration does not name.
pub data InvActionType : Type 0 where
  click quick_move drop drag_place pickup_all unknown : InvActionType

pub action_of_byte : ℕ → InvActionType
action_of_byte b =
    if b == 0
    then click
    else (if b == 1
        then quick_move
        else (if b == 2
            then drop
            else (if b == 3 then drag_place else (if b == 4 then pickup_all else unknown))))

-- `ContainerClick`, less the fields `mods` and `count`, which no rule reads.
pub record ContainerClick : Type 0 where
  pub action_type : ℕ
  pub button : ℕ
  pub container_id : ℕ
  pub slot : ℕ

-- `InventoryRef`: what its two pointers lead to.
pub record InventoryRef : Type 0 where
  pub player : List Slot
  pub container : Option (List Slot)

-- `SlotAt`: null is `none`.
pub slot_at : InventoryRef → ℕ → ℕ → Option Slot
slot_at inv container_id i =
    if container_id == 0
    then (if ltb i inventory_slots then get_elem? inv.player i else none)
    else elim inv.container [ none ↦ none | some c ↦ get_elem? c i ]

-- A write through the pointer that `slot_at` returned.
pub put_at : InventoryRef → ℕ → ℕ → Slot → InventoryRef
put_at inv container_id i s =
    if container_id == 0
    then record inv { player = set inv.player i s }
    else elim inv.container [ none ↦ inv | some c ↦ record inv { container = some (set c i s) } ]

pub same_stack : Slot → Slot → Bool
same_stack a b =
    (if a.item_id == 0 then false else true) && (a.item_id == b.item_id) && (a.meta == b.meta)

pub is_empty : Slot → Bool
is_empty s = (s.item_id == 0) || (s.count == 0)

-- What `MergeInto` leaves behind: the two slots, and the count that it returns.
pub record Merged : Type 0 where
  pub dst : Slot
  pub src : Slot
  pub moved : ℕ

-- `uint8_t space = kMaxStack - dst.count` and the updates of the counts wrap as bytes do.
pub merge_into : Slot → Slot → Merged
merge_into dst src =
    let space = (max_stack + 256 - dst.count) % 256 in
    let moved = min space src.count in
    let left = (src.count + 256 - moved) % 256 in
    record {
      dst = record {
        item_id = dst.item_id;
        count = (dst.count + moved) % 256;
        meta = if dst.item_id == 0 then src.meta else dst.meta;
      };
      src = if left == 0 then blank else record src { count = left };
      moved = moved;
    }
