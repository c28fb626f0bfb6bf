-- ===== src/Store.antt =====
-- The player inventories of the server: game/storage/PlayerInventoryStore.{h,cpp}, less the lock, the
-- log and the FlatBuffer snapshot. The two hash maps are association lists. A callback that is set
-- is told of changes: what it is told is an event.
pub mod Give
pub mod Amounts
pub mod Room
pub mod Maps
mod Tests
use gtnh_platform.Base.{
  ℕ, ◌+◌, Bool, true, false, Option, none, some, List, [], ◌∷◌, ◌++◌, ltb, ◌==◌, if◌then◌else◌,
  replicate,
}
use gtnh_platform.Inventory.{Slot, blank, inventory_slots}

pub lookup : {A : Type 0} → ℕ → List (ℕ × A) → Option A
lookup k [] = none
lookup k (e ∷ m) = if e.0 == k then some e.1 else lookup k m

-- `map[k] = v`.
pub assign : {A : Type 0} → ℕ → A → List (ℕ × A) → List (ℕ × A)
assign k v [] = (k, v) ∷ []
assign k v (e ∷ m) = if e.0 == k then (k, v) ∷ m else e ∷ assign k v m

-- A call of `onChange_`, with the player, the slot's index and the slot, or of `postMutation_`.
pub data Event : Type 0 where
  changed : ℕ → ℕ → Slot → Event
  mutated : ℕ → List Slot → Event

-- `notifies` and `publishes`: whether `onChange_` and `postMutation_` are set.
pub record PlayerInventoryStore : Type 0 where
  pub inventories : List (ℕ × List Slot)
  pub cursors : List (ℕ × Slot)
  pub player_modes : List (ℕ × ℕ)
  pub notifies : Bool
  pub publishes : Bool

-- A value-initialised array.
abbrev pub no_slots : List Slot
no_slots = replicate inventory_slots blank

abbrev pub slots_or : Option (List Slot) → List Slot
slots_or none = no_slots
slots_or (some ss) = ss

abbrev pub cursor_or : Option Slot → Slot
cursor_or none = blank
cursor_or (some c) = c

pub get_slots : PlayerInventoryStore → ℕ → List Slot
unfolding lookup
get_slots t player = slots_or (lookup player t.inventories)

pub get_cursor : PlayerInventoryStore → ℕ → Slot
unfolding lookup
get_cursor t player = cursor_or (lookup player t.cursors)

abbrev pub mode_or : Option ℕ → ℕ
mode_or none = 0
mode_or (some m) = m

-- The player's game mode, 0 for a player who has none.
unfoldable get_game_mode : PlayerInventoryStore → ℕ → ℕ
get_game_mode t player = mode_or (lookup player t.player_modes)

unfoldable set_game_mode : PlayerInventoryStore → ℕ → ℕ → PlayerInventoryStore
set_game_mode t player m = record t { player_modes = assign player m t.player_modes }

-- One call of `onChange_` for each slot, from index `i` on.
pub changes : ℕ → ℕ → List Slot → List Event
changes player i [] = []
changes player i (s ∷ ss) = changed player i s ∷ changes player (i + 1) ss

unfoldable pub told : PlayerInventoryStore → ℕ → List Slot → List Event
unfolding changes
told t player ss = if t.notifies then changes player 0 ss else []

unfoldable pub published : PlayerInventoryStore → ℕ → List Slot → List Event
published t player ss = if t.publishes then mutated player ss ∷ [] else []

unfoldable pub set_slots : PlayerInventoryStore → ℕ → List Slot → PlayerInventoryStore × List Event
set_slots t player ss = (
  record t { inventories = assign player ss t.inventories },
  told t player ss ++ published t player ss,
)

unfoldable pub set_cursor : PlayerInventoryStore → ℕ → Slot → PlayerInventoryStore × List Event
set_cursor t player c =
    (record t { cursors = assign player c t.cursors }, published t player (get_slots t player))

pub set_slots_and_cursor :
    PlayerInventoryStore → ℕ → List Slot → Slot → PlayerInventoryStore × List Event
set_slots_and_cursor t player ss c = (
  record t { inventories = assign player ss t.inventories; cursors = assign player c t.cursors },
  told t player ss ++ published t player ss,
)

-- `try_emplace` keeps an array that is there.
unfoldable pub init_player : PlayerInventoryStore → ℕ → PlayerInventoryStore
unfolding lookup
init_player t player = elim (lookup player t.inventories) [
  | none ↦ record t { inventories = assign player no_slots t.inventories }
  | some _ ↦ t
]

-- `for (i = 0; i < slots.size() && i < kInventorySlots; ++i) target[i] = slots[i];`
pub overwrite : List Slot → List Slot → List Slot
overwrite [] ss = []
overwrite (d ∷ ds) [] = d ∷ ds
overwrite (d ∷ ds) (s ∷ ss) = s ∷ overwrite ds ss

unfoldable pub apply_update : PlayerInventoryStore → ℕ → List Slot → PlayerInventoryStore
unfolding overwrite
apply_update t player ss = record t {
  inventories = assign player (overwrite (get_slots t player) ss) t.inventories;
}
