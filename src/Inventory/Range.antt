-- ===== src/Inventory/Range.antt =====
-- MoveStackToRange: it skips its source slot, loses nothing, and leaves nothing in hand when it
-- returns an index.
use gtnh_platform.Base.{
  ℕ, zero, suc, ◌+◌, ◌≡◌, refl, ◌≢◌, inl, inr, true, none, some, List, [], ◌∷◌, arith, Option-cases,
  set, get_elem?, get_elem?-set_self, ◌∙◌, All, All-get,
}
use gtnh_platform.Inventory.{Slot, blank, is_empty, merge_into}
use gtnh_platform.Inventory.Deal.{fill_range, place_range, move_stack, move_stack_to_range}
use gtnh_platform.Inventory.Merge.{total, IsByte}
use gtnh_platform.Inventory.Loops.{
  is_empty-amount, total-set, fill_range-conserves, place_range-conserves,
}

module _ (src begin stop : ℕ) where
  fill_range-get :
      (k j : ℕ) (ds : List Slot) (stack : Slot)
      → k + j ≡ src
      → get_elem? (fill_range src begin stop k ds stack).slots j ≡ get_elem? ds j
  unfolding fill_range
  fill_range-get k j [] stack e = refl
  fill_range-get k zero (d ∷ ds) stack e = ground arith
  fill_range-get k (suc j) (d ∷ ds) stack e = ground (
    arith,
    fill_range-get (k + 1) j ds stack,
    fill_range-get (k + 1) j ds (merge_into d stack).src,
  )

  place_range-get :
      (k j : ℕ) (ds : List Slot) (stack : Slot)
      → k + j ≡ src
      → get_elem? (place_range src begin stop k ds stack).slots j ≡ get_elem? ds j
  unfolding place_range
  place_range-get k j [] stack e = refl
  place_range-get k zero (d ∷ ds) stack e = ground arith
  place_range-get k (suc j) (d ∷ ds) stack e = ground (arith, place_range-get (k + 1) j ds stack)

  fill_range-returns :
      (k : ℕ) (ds : List Slot) (stack : Slot)
      → (fill_range src begin stop k ds stack).at ≢ none
      → is_empty (fill_range src begin stop k ds stack).stack ≡ true
  unfolding fill_range
  fill_range-returns k [] stack e = absurd (e refl)
  fill_range-returns k (d ∷ ds) stack e = ground (
    arith,
    fill_range-returns (k + 1) ds stack,
    fill_range-returns (k + 1) ds (merge_into d stack).src,
  )

  place_range-returns :
      (k : ℕ) (ds : List Slot) (stack : Slot)
      → (place_range src begin stop k ds stack).at ≢ none
      → (place_range src begin stop k ds stack).stack ≡ blank
  unfolding place_range
  place_range-returns k [] stack e = absurd (e refl)
  place_range-returns k (d ∷ ds) stack e = ground (arith, place_range-returns (k + 1) ds stack)

module _ (i m : ℕ) (known : i ≢ 0) (src begin stop : ℕ) (player : List Slot) where
  pub move_stack-conserves :
      (stack : Slot)
      → get_elem? player src ≡ some stack
      → IsByte stack
      → total i m (move_stack player src begin stop stack).player ≡ total i m player
  unfolding move_stack
  move_stack-conserves stack e b =
      let first = fill_range src begin stop 0 (set player src blank) stack in
      let second = place_range src begin stop 0 first.slots first.stack in
      let kept =
        place_range-get src begin stop 0 src first.slots first.stack (omega arith)
        ∙ fill_range-get src begin stop 0 src (set player src blank) stack (omega arith)
        ∙ get_elem?-set_self player src blank e in
      ground (
        arith,
        total-set i m player src blank e,
        fill_range-conserves i m known src begin stop 0 (set player src blank) stack b,
        place_range-conserves i m known src begin stop 0 first.slots first.stack,
        total-set i m second.slots src second.stack kept,
        fill_range-returns src begin stop 0 (set player src blank) stack,
        place_range-returns src begin stop 0 first.slots first.stack,
        is_empty-amount i m first.stack known,
      )

  pub move_stack_to_range-conserves :
      All IsByte player
      → total i m (move_stack_to_range player src begin stop).player ≡ total i m player
  unfolding move_stack_to_range
  move_stack_to_range-conserves b = elim (Option-cases (get_elem? player src)) [
    | inl e ↦ ground arith
    | inr (stack, e) ↦
        ground (arith, e, move_stack-conserves stack e (All-get IsByte player src b e))
  ]
