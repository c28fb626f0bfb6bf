-- ===== src/Container/Tests.antt =====
-- Tests and examples for the containers of blocks.
use gtnh_platform.Base.{ℕ, ◌+◌, ◌≤◌, ◌<◌, ◌≡◌, refl, true, false, [], ◌∷◌}
use gtnh_platform.Inventory.{Slot, blank}
use gtnh_platform.Store.Amounts.{items}
use gtnh_platform.Container.{add_item, add_stacked, add_to_stack, remove_item, drop_at, set_slot}
use gtnh_platform.Container.Added.{remove_item-items}

abbrev stack : ℕ → ℕ → Slot
stack i n = record { item_id = i; count = n; meta = 0 }

-- Five items onto ten: all go in, and 207 are said to be left.
five_onto_ten : add_item 7 5 0 (stack 7 10 ∷ []) ≡ (stack 7 15 ∷ [], 207)
unfolding add_item add_stacked add_to_stack
five_onto_ten = refl

-- The slot after an emptied one moves down.
moves_down : remove_item 0 10 (stack 7 10 ∷ stack 8 1 ∷ []) ≡ (true, stack 8 1 ∷ [])
unfolding remove_item drop_at
moves_down = refl

grows : set_slot [] 1 (stack 7 3) ≡ blank ∷ stack 7 3 ∷ []
unfolding set_slot
grows = refl

remove_item-items_example :
    let r = remove_item 0 4 (stack 7 10 ∷ stack 8 1 ∷ []) in
    (4 ≤ 10 → (r.0 ≡ true) × (items 7 r.1 + items 7 (stack 7 4 ∷ []) ≡ 10))
    × (10 < 4 → (r.0 ≡ false) × (r.1 ≡ stack 7 10 ∷ stack 8 1 ∷ []))
remove_item-items_example = remove_item-items 0 4 7 (stack 7 10 ∷ stack 8 1 ∷ []) (stack 7 10) refl
