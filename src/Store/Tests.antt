-- ===== src/Store/Tests.antt =====
-- Tests and examples for the player inventories.
use gtnh_platform.Base.{
  ℕ, ◌+◌, ◌≤◌, ◌≡◌, refl, ◌≢◌, true, false, none, some, List, [], ◌∷◌, arith, All, length,
}
use gtnh_platform.Base.Int.{negsuc}
use gtnh_platform.Inventory.{Slot, blank}
use gtnh_platform.Store.{PlayerInventoryStore, get_slots}
use gtnh_platform.Store.Give.{grant, give_item, give_target, give_slot, top_up, fill_free}
use gtnh_platform.Store.Amounts.{items, Stacked, grant-Stacked}
use gtnh_platform.Store.Room.{IsTaken}
use gtnh_platform.Store.Maps.{give_item_lem}

abbrev stack : ℕ → ℕ → Slot
stack i n = record { item_id = i; count = n; meta = 0 }

abbrev shelf : List Slot
shelf = stack 7 60 ∷ blank ∷ stack 9 64 ∷ blank ∷ []

-- 100 items of id 7: four on top of the first stack, a stack of 64, and the rest.
hundred :
    grant 7 none shelf 100
    ≡ record { slots = stack 7 64 ∷ stack 7 64 ∷ stack 9 64 ∷ stack 7 32 ∷ []; remaining = 0 }
unfolding grant give_target top_up fill_free
hundred = refl

two_hundred : (grant 7 none shelf 200).remaining ≡ 68
unfolding grant give_target top_up fill_free
two_hundred = refl

targeted : (grant 7 (some 3) shelf 70).slots ≡ stack 7 64 ∷ stack 7 2 ∷ stack 9 64 ∷ stack 7 64 ∷ []
unfolding grant give_target give_slot top_up fill_free
targeted = refl

abbrev store : PlayerInventoryStore
store = record {
  inventories = (1, shelf) ∷ (2, []) ∷ [];
  cursors = [];
  player_modes = [];
  notifies = true;
  publishes = true;
}

shelf-Stacked : All Stacked shelf
shelf-Stacked = omega arith

grant-Stacked_example :
    (length (grant 7 (some 0) shelf 255).slots ≡ 4) × All Stacked (grant 7 (some 0) shelf 255).slots
grant-Stacked_example = grant-Stacked 7 (some 0) shelf 255 shelf-Stacked

give_item_lem_example :
    let r = give_item store 1 7 100 (negsuc 0) in
    let before = get_slots store 1 in
    let after = get_slots r.1 1 in
    (r.0 ≡ true → items 7 after ≡ items 7 before + 100)
    × (r.0 ≡ false → (items 7 after ≤ items 7 before + 100) × All (IsTaken 7) after)
    × ((i : ℕ) → i ≢ 0 → i ≢ 7 → items i after ≡ items i before)
    × ((other : ℕ) → other ≢ 1 → get_slots r.1 other ≡ get_slots store other)
give_item_lem_example = give_item_lem store 1 7 100 (negsuc 0) (omega arith) (omega arith)
