-- ===== src/Matcher/Tests.antt =====
-- Tests and examples for the crafting grid.
use gtnh_platform.Base.{ℕ, ◌≡◌, refl, ◌↔◌, true, some, List, [], ◌∷◌}
use gtnh_platform.Matcher.{
  ItemStack, GridSlot, slot_matches, match_detailed, match_single, match_first,
}
use gtnh_platform.Matcher.Shape.{Fits, match_detailed_iff}

abbrev planks : ItemStack
planks = record { item_id = 5; count = 3; metadata = 2 }

abbrev hole : ItemStack
hole = record { item_id = 0; count = 0; metadata = 0 }

abbrev any_planks : GridSlot
any_planks = record { item_id = 5; count = 1; metadata = 0 }

abbrev dark_planks : GridSlot
dark_planks = record { item_id = 5; count = 0; metadata = 7 }

abbrev nothing : GridSlot
nothing = record { item_id = 0; count = 0; metadata = 0 }

abbrev grid : List ItemStack
grid = planks ∷ hole ∷ []

second_matches :
    match_first {N = ℕ} grid ((1, dark_planks ∷ nothing ∷ []) ∷ (2, any_planks ∷ nothing ∷ []) ∷ [])
    ≡ some 2
unfolding match_first match_single match_detailed slot_matches
second_matches = refl

match_detailed_iff_example :
    ((match_single grid (any_planks ∷ nothing ∷ []) ≡ true) ↔ Fits grid (any_planks ∷ nothing ∷ []))
    × (Fits grid (any_planks ∷ nothing ∷ [])
        → match_detailed grid (any_planks ∷ nothing ∷ [])
          ≡ some (record { matched = true; consumed_per_slot = 3 ∷ 0 ∷ [] }))
match_detailed_iff_example = match_detailed_iff grid (any_planks ∷ nothing ∷ [])
