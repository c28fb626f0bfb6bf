-- ===== src/Container.antt =====
-- The slots of a block's container, engine/sim/components/InventoryContainer.h. Counts are bytes.
pub mod Added
mod Tests
use gtnh_platform.Base.{
  ℕ, zero, suc, ◌+◌, ◌-◌, ◌%◌, Bool, true, false, ◌&&◌, Option, none, some, List, [], ◌∷◌, ◌++◌,
  ltb, leb, ◌==◌, if◌then◌else◌, length, get_elem?, set, replicate,
}
use gtnh_platform.Inventory.{Slot, blank}

unfoldable pub get_slot : List Slot → ℕ → Slot
get_slot slots i = elim (get_elem? slots i) [ none ↦ blank | some s ↦ s ]

-- `resize(index + 1)` and the write.
pub set_slot : List Slot → ℕ → Slot → List Slot
set_slot slots i s = set (slots ++ replicate (i + 1 - length slots) blank) i s

-- A stack of the item that has room: the slot after `slot.count += count`, and what is returned.
pub add_to_stack : Slot → ℕ → ℕ → Slot × ℕ
add_to_stack s n m =
    let sum = (s.count + n) % 256 in
    let added = (s.count + n + 192) % 256 in
    if ltb 64 sum
    then (record s { count = 64; meta = m }, added)
    else (record s { count = sum }, added)

-- The first loop of `addItem`: `none` when no stack has room.
pub add_stacked : ℕ → ℕ → ℕ → List Slot → Option (List Slot × ℕ)
unfolding add_to_stack
add_stacked item n m [] = none
add_stacked item n m (s ∷ ss) =
    let rest = add_stacked item n m ss in
    let r = add_to_stack s n m in
    if (s.item_id == item) && ltb s.count 64
    then some (r.0 ∷ ss, r.1)
    else elim rest [ none ↦ none | some q ↦ some (s ∷ q.0, q.1) ]

-- The second loop.
pub add_free : ℕ → ℕ → ℕ → List Slot → Option (List Slot)
add_free item n m [] = none
add_free item n m (s ∷ ss) =
    let rest = add_free item n m ss in
    let placed : Slot = record { item_id = item; count = if ltb 64 n then 64 else n; meta = m } in
    if s.item_id == 0 then some (placed ∷ ss) else elim rest [ none ↦ none | some q ↦ some (s ∷ q) ]

-- `addItem`: the slots, and what is returned.
pub add_item : ℕ → ℕ → ℕ → List Slot → List Slot × ℕ
unfolding add_stacked add_free
add_item item n m slots = elim (add_stacked item n m slots) [
  | some r ↦ r
  | none ↦ elim (add_free item n m slots) [ some q ↦ (q, 0) | none ↦ (slots, n) ]
]

pub drop_at : ℕ → List Slot → List Slot
drop_at i [] = []
drop_at zero (s ∷ ss) = ss
drop_at (suc i) (s ∷ ss) = s ∷ drop_at i ss

-- `removeItem`: a slot that it empties is erased, and the slots after it move down.
pub remove_item : ℕ → ℕ → List Slot → Bool × List Slot
unfolding drop_at
remove_item i n slots = elim (get_elem? slots i) [
  | none ↦ (false, slots)
  | some s ↦ if ltb s.count n then (false, slots) else (
    true,
    (if s.count == n then drop_at i slots else set slots i (record s { count = s.count - n })),
  )
]
