-- ===== src/Inventory/Merge.antt =====
-- How many items of one kind a slot holds, and what MergeInto and the single clicks make of it.
use gtnh_platform.Base.{
  ℕ, ◌+◌, ◌≤◌, ◌<◌, ◌≡◌, ◌≢◌, true, false, ◌&&◌, Option, none, some, List, [], ◌∷◌, arith, ◌==◌,
  if◌then◌else◌,
}
use gtnh_platform.Inventory.{Slot, is_empty, same_stack, merge_into}
use gtnh_platform.Inventory.Deal.{can_merge}
use gtnh_platform.Inventory.Rules.{take_one, add_one, click_slots, drag_slots}

-- The items of kind (`i`, `m`) in a slot: an item id and its metadata.
abbrev pub amount : ℕ → ℕ → Slot → ℕ
amount i m s = if (i == s.item_id) && (m == s.meta) then s.count else 0

abbrev pub total : ℕ → ℕ → List Slot → ℕ
total i m [] = 0
total i m (s ∷ ss) = amount i m s + total i m ss

-- A count that is a byte, as the source's type has it.
abbrev pub IsByte : Slot → Type 0
IsByte s = s.count < 256

-- A stack within the limit of 64.
abbrev pub Fits : Slot → Type 0
Fits s = s.count ≤ 64

-- Merging moves items of one kind from one slot to the other.
module _ (i m : ℕ) (d s : Slot) (known : i ≢ 0) (byte : IsByte s) where
  pub merge_into-conserves :
      can_merge d s ≡ true
      → amount i m (merge_into d s).dst + amount i m (merge_into d s).src
        ≡ amount i m d + amount i m s
  unfolding merge_into same_stack
  merge_into-conserves h = ground arith

  pub merge_into-conserves_cursor :
      same_stack s d ≡ true
      → d.count < 64
      → amount i m (merge_into d s).dst + amount i m (merge_into d s).src
        ≡ amount i m d + amount i m s
  unfolding merge_into same_stack
  merge_into-conserves_cursor h l = ground arith

pub merge_into_bounds :
    (d s : Slot)
    → IsByte s
    → d.count < 64
    → Fits (merge_into d s).dst × ((merge_into d s).src.count ≤ s.count)
unfolding merge_into
merge_into_bounds d s byte l = ground arith

-- A merge into a slot with room moves something, unless the source is empty.
pub merge_into-moved :
    (d s : Slot) → IsByte s → d.count < 64 → is_empty s ≡ false → 0 < (merge_into d s).moved
unfolding merge_into is_empty
merge_into-moved d s byte l e = ground arith

pub can_merge-lt : (d s : Slot) → can_merge d s ≡ true → d.count < 64
unfolding same_stack
can_merge-lt d s h = ground arith

-- What a pair of slots holds together, before and after.
abbrev pub PairKept : ℕ → ℕ → Slot → Slot → Option (Slot × Slot) → Type 0
PairKept i m a b none = Unit {0}
PairKept i m a b (some (a', b')) = amount i m a' + amount i m b' ≡ amount i m a + amount i m b

abbrev pub PairAll : (Slot → Type 0) → Option (Slot × Slot) → Type 0
PairAll P none = Unit {0}
PairAll P (some (a, b)) = P a × P b

module _ (i m : ℕ) (tgt cursor : Slot) (known : i ≢ 0) (bt : IsByte tgt) (bc : IsByte cursor) where
  pub click_slots-PairKept : (button : ℕ) → PairKept i m tgt cursor (click_slots button tgt cursor)
  unfolding click_slots is_empty same_stack merge_into take_one add_one
  click_slots-PairKept button = ground arith

  pub drag_slots-PairKept :
      is_empty cursor ≡ false → PairKept i m tgt cursor (drag_slots tgt cursor)
  unfolding drag_slots is_empty same_stack take_one add_one
  drag_slots-PairKept h = ground arith

module _ (tgt cursor : Slot) (ft : Fits tgt) (fc : Fits cursor) where
  pub click_slots-Fits : (button : ℕ) → PairAll Fits (click_slots button tgt cursor)
  unfolding click_slots is_empty same_stack merge_into take_one add_one
  click_slots-Fits button = ground arith

  pub drag_slots-Fits : is_empty cursor ≡ false → PairAll Fits (drag_slots tgt cursor)
  unfolding drag_slots is_empty same_stack take_one add_one
  drag_slots-Fits h = ground arith
