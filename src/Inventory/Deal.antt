-- ===== src/Inventory/Deal.antt =====
-- The loops of game/storage/InventoryClick.h that deal a stack out over an array of slots:
-- MoveStackToRange, and those of ApplyQuickMove and ApplyPickupAll.
use gtnh_platform.Base.{
  ℕ, ◌+◌, Bool, true, false, ◌&&◌, ◌||◌, Option, none, some, List, [], ◌∷◌, ltb, leb, ◌==◌,
  if◌then◌else◌, get_elem?, set,
}
use gtnh_platform.Inventory.{Slot, blank, max_stack, same_stack, is_empty, merge_into}

-- A loop's view of a slot array while a stack is being dealt out.
pub record Dealt : Type 0 where
  pub slots : List Slot
  pub stack : Slot

abbrev pub push_slot : Slot → Dealt → Dealt
push_slot d r = record r { slots = d ∷ r.slots }

abbrev pub can_merge : Slot → Slot → Bool
can_merge d stack = same_stack d stack && ltb d.count max_stack

-- `for (auto& d : …) if (SameStack(d, stack) && d.count < kMaxStack) …` of ApplyQuickMove. The loop
-- breaks when a merge leaves the stack empty.
unfoldable pub fill : List Slot → Slot → Dealt
fill [] stack = record { slots = []; stack = stack }
fill (d ∷ ds) stack = elim (can_merge d stack) [
  | true ↦
      let m = merge_into d stack in
      elim (ltb 0 m.moved && is_empty m.src) [
        | true ↦ record { slots = m.dst ∷ ds; stack = m.src }
        | false ↦ push_slot m.dst (fill ds m.src)
      ]
  | false ↦ push_slot d (fill ds stack)
]

-- `for (auto& d : …) if (IsEmpty(d)) { d = stack; stack = PersistSlot{}; break; }`
unfoldable pub place : List Slot → Slot → Dealt
place [] stack = record { slots = []; stack = stack }
place (d ∷ ds) stack =
    let rest = place ds stack in
    if is_empty d then record { slots = stack ∷ ds; stack = blank } else push_slot d rest

-- Both loops of ApplyQuickMove, one after the other.
unfoldable pub deal : List Slot → Slot → Dealt
deal ds stack = let r = fill ds stack in place r.slots r.stack

-- Whether the index of a range loop, `begin ≤ i < end`, reaches slot `i` and does not skip it.
abbrev pub in_range : ℕ → ℕ → ℕ → ℕ → Bool
in_range src begin stop i = leb begin i && ltb i stop && (if i == src then false else true)

-- A range loop of MoveStackToRange: `at` is the index that it returns, if it returns.
pub record Ranged : Type 0 where
  pub slots : List Slot
  pub stack : Slot
  pub at : Option ℕ

abbrev pub push_ranged : Slot → Ranged → Ranged
push_ranged d r = record r { slots = d ∷ r.slots }

-- The first loop of MoveStackToRange over the slots from index `i` on.
unfoldable pub fill_range : ℕ → ℕ → ℕ → ℕ → List Slot → Slot → Ranged
fill_range src begin stop i [] stack = record { slots = []; stack = stack; at = none }
fill_range src begin stop i (d ∷ ds) stack = elim (in_range src begin stop i && can_merge d stack) [
  | true ↦
      let m = merge_into d stack in
      elim (m.moved == 0) [
        | true ↦ record { slots = m.dst ∷ ds; stack = m.src; at = none }
        | false ↦ elim (is_empty m.src) [
          | true ↦ record { slots = m.dst ∷ ds; stack = m.src; at = some i }
          | false ↦ push_ranged m.dst (fill_range src begin stop (i + 1) ds m.src)
        ]
      ]
  | false ↦ push_ranged d (fill_range src begin stop (i + 1) ds stack)
]

-- Its second loop.
unfoldable pub place_range : ℕ → ℕ → ℕ → ℕ → List Slot → Slot → Ranged
place_range src begin stop i [] stack = record { slots = []; stack = stack; at = none }
place_range src begin stop i (d ∷ ds) stack =
    let rest = place_range src begin stop (i + 1) ds stack in
    if in_range src begin stop i && is_empty d
    then record { slots = stack ∷ ds; stack = blank; at = some i }
    else push_ranged d rest

-- The player's slots and the index returned, `none` for -1.
pub record Moved : Type 0 where
  pub player : List Slot
  pub at : Option ℕ

-- `MoveStackToRange`, after the stack has been read from `player[srcIndex]`.
unfoldable pub move_stack : List Slot → ℕ → ℕ → ℕ → Slot → Moved
move_stack player src begin stop stack =
    let first = fill_range src begin stop 0 (set player src blank) stack in
    let second = place_range src begin stop 0 first.slots first.stack in
    elim first.at [
      | some i ↦ record { player = first.slots; at = some i }
      | none ↦ elim second.at [
        | some i ↦ record { player = second.slots; at = some i }
        | none ↦ record { player = set second.slots src second.stack; at = none }
      ]
    ]

unfoldable pub move_stack_to_range : List Slot → ℕ → ℕ → ℕ → Moved
move_stack_to_range player src begin stop = elim (get_elem? player src) [
  | none ↦ record { player = player; at = none }
  | some stack ↦
      if is_empty stack
      then record { player = player; at = none }
      else move_stack player src begin stop stack
]

-- The `collect` lambda of ApplyPickupAll.
pub record Collected : Type 0 where
  pub slots : List Slot
  pub cursor : Slot
  pub changed : Bool

abbrev pub push_collected : Slot → Collected → Collected
push_collected s r = record r { slots = s ∷ r.slots }

unfoldable pub collect : List Slot → Slot → Bool → Collected
collect [] cursor changed = record { slots = []; cursor = cursor; changed = changed }
collect (s ∷ ss) cursor changed =
    elim ((if is_empty s then false else true)
      && same_stack s cursor
      && ltb cursor.count max_stack) [
        | true ↦
            let m = merge_into cursor s in
            push_collected m.src (collect ss m.dst (changed || ltb 0 m.moved))
        | false ↦ push_collected s (collect ss cursor changed)
      ]
