-- ===== src/Store/Give.antt =====
-- `giveItem` of game/storage/PlayerInventoryStore.cpp. The slot's index, `int32_t` in the source, is an
-- integer; counts are bytes.
use gtnh_platform.Base.{
  ℕ, ◌+◌, ◌-◌, ◌%◌, min, Bool, true, false, ◌&&◌, Option, none, some, List, [], ◌∷◌, ◌++◌, ltb,
  ◌==◌, if◌then◌else◌, get_elem?, set,
}
use gtnh_platform.Base.Int.{ℤ, pos, negsuc}
use gtnh_platform.Inventory.{Slot, max_stack, inventory_slots}
use gtnh_platform.Store.{PlayerInventoryStore, Event, assign, get_slots, told, published}

-- The slots while items are being granted, and how many remain.
pub record Grant : Type 0 where
  pub slots : List Slot
  pub remaining : ℕ

abbrev pub push_grant : Slot → Grant → Grant
push_grant s g = record g { slots = s ∷ g.slots }

-- A fresh stack of the item, and what it takes.
abbrev pub fresh_take : ℕ → ℕ
fresh_take remaining = min (remaining % 256) max_stack

abbrev pub fresh : ℕ → ℕ → Slot
fresh item n = record { item_id = item; count = n; meta = 0 }

-- `s.item_id == item_id && s.count < kMaxStack`
abbrev pub has_room : ℕ → Slot → Bool
has_room item s = (s.item_id == item) && ltb s.count max_stack

abbrev pub top_up_take : Slot → ℕ → ℕ
top_up_take s remaining = min (remaining % 256) (max_stack - s.count)

abbrev pub topped_up : Slot → ℕ → Slot
topped_up s n = record s { count = (s.count + n) % 256 }

-- What the branch for a target slot does with the slot.
unfoldable pub give_slot : ℕ → Slot → ℕ → Slot × ℕ
give_slot item d remaining =
    if d.item_id == 0
    then (fresh item (fresh_take remaining), remaining - fresh_take remaining)
    else (if has_room item d
        then (topped_up d (top_up_take d remaining), remaining - top_up_take d remaining)
        else (d, remaining))

abbrev pub index_of : ℤ → Option ℕ
index_of (pos n) = if ltb n inventory_slots then some n else none
index_of (negsuc n) = none

-- The branch for a target slot.
unfoldable pub give_target : ℕ → Option ℕ → List Slot → ℕ → Grant
unfolding give_slot
give_target item none slots remaining = record { slots = slots; remaining = remaining }
give_target item (some k) slots remaining = elim (get_elem? slots k) [
  | none ↦ record { slots = slots; remaining = remaining }
  | some d ↦
      let r = give_slot item d remaining in record { slots = set slots k r.0; remaining = r.1 }
]

-- The loop that tops up the stacks of the item.
unfoldable pub top_up : ℕ → List Slot → ℕ → Grant
top_up item [] remaining = record { slots = []; remaining = remaining }
top_up item (s ∷ ss) remaining = elim (remaining == 0) [
  | true ↦ record { slots = s ∷ ss; remaining = remaining }
  | false ↦ elim (has_room item s) [
    | true ↦
        push_grant (topped_up s (top_up_take s remaining))
          (top_up item ss (remaining - top_up_take s remaining))
    | false ↦ push_grant s (top_up item ss remaining)
  ]
]

-- The loop that fills the free slots.
unfoldable pub fill_free : ℕ → List Slot → ℕ → Grant
fill_free item [] remaining = record { slots = []; remaining = remaining }
fill_free item (s ∷ ss) remaining = elim (remaining == 0) [
  | true ↦ record { slots = s ∷ ss; remaining = remaining }
  | false ↦ elim (s.item_id == 0) [
    | true ↦
        push_grant (fresh item (fresh_take remaining))
          (fill_free item ss (remaining - fresh_take remaining))
    | false ↦ push_grant s (fill_free item ss remaining)
  ]
]

-- The three passes. A loop with nothing remaining leaves the slots alone.
unfoldable pub grant : ℕ → Option ℕ → List Slot → ℕ → Grant
unfolding give_target top_up fill_free
grant item target slots count =
    let a = give_target item target slots count in
    let b = top_up item a.slots a.remaining in fill_free item b.slots b.remaining

unfoldable pub give_item :
    PlayerInventoryStore → ℕ → ℕ → ℕ → ℤ → Bool × PlayerInventoryStore × List Event
unfolding grant
give_item t player item count target =
    let g = grant item (index_of target) (get_slots t player) count in
    if count == 0 then (true, t, []) else (
      g.remaining == 0,
      record t { inventories = assign player g.slots t.inventories },
      told t player g.slots ++ published t player g.slots,
    )
