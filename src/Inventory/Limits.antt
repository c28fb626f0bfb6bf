-- ===== src/Inventory/Limits.antt =====
-- The loops and the rules keep every stack within 64 and every array its size.
use gtnh_platform.Base.{
  ℕ, ◌+◌, ◌≡◌, refl, inl, inr, Bool, ◌||◌, List, [], ◌∷◌, arith, ltb, Option-cases, length,
  length-set, set, get_elem?, All, All-set, All-get, ◌∙◌,
}
use gtnh_platform.Inventory.{Slot, blank, merge_into}
use gtnh_platform.Inventory.Deal.{
  fill, place, deal, fill_range, place_range, move_stack, move_stack_to_range, collect,
}
use gtnh_platform.Inventory.Merge.{Fits, merge_into_bounds, can_merge-lt}

-- The slots are within the limit and as many as before, and so is the stack in hand.
abbrev pub DealtFits : ℕ → List Slot → Slot → Type 0
DealtFits n ss s = All Fits ss × Fits s × (length ss ≡ n)

pub fill-Fits :
    (ds : List Slot) (stack : Slot)
    → All Fits ds
    → Fits stack
    → DealtFits (length ds) (fill ds stack).slots (fill ds stack).stack
unfolding fill
fill-Fits [] stack h f = (tt, f, refl)
fill-Fits (d ∷ ds) stack h f = ground (
  arith,
  merge_into_bounds d stack,
  can_merge-lt d stack,
  fill-Fits ds (merge_into d stack).src h.1,
  fill-Fits ds stack h.1 f,
)

pub place-Fits :
    (ds : List Slot) (stack : Slot)
    → All Fits ds
    → Fits stack
    → DealtFits (length ds) (place ds stack).slots (place ds stack).stack
unfolding place
place-Fits [] stack h f = (tt, f, refl)
place-Fits (d ∷ ds) stack h f = ground (arith, place-Fits ds stack h.1 f)

pub deal-Fits :
    (ds : List Slot) (stack : Slot)
    → All Fits ds
    → Fits stack
    → DealtFits (length ds) (deal ds stack).slots (deal ds stack).stack
unfolding deal
deal-Fits ds stack h f =
    let a = fill-Fits ds stack h f in
    let b = place-Fits (fill ds stack).slots (fill ds stack).stack a.0 a.1 in (b.0, b.1, b.2 ∙ a.2)

module _ (src begin stop : ℕ) where
  fill_range-Fits :
      (k : ℕ) (ds : List Slot) (stack : Slot)
      → All Fits ds
      → Fits stack
      → let r = fill_range src begin stop k ds stack in DealtFits (length ds) r.slots r.stack
  unfolding fill_range
  fill_range-Fits k [] stack h f = (tt, f, refl)
  fill_range-Fits k (d ∷ ds) stack h f = ground (
    arith,
    merge_into_bounds d stack,
    can_merge-lt d stack,
    fill_range-Fits (k + 1) ds (merge_into d stack).src h.1,
    fill_range-Fits (k + 1) ds stack h.1 f,
  )

  place_range-Fits :
      (k : ℕ) (ds : List Slot) (stack : Slot)
      → All Fits ds
      → Fits stack
      → let r = place_range src begin stop k ds stack in DealtFits (length ds) r.slots r.stack
  unfolding place_range
  place_range-Fits k [] stack h f = (tt, f, refl)
  place_range-Fits k (d ∷ ds) stack h f = ground (arith, place_range-Fits (k + 1) ds stack h.1 f)

  move_stack-Fits :
      (player : List Slot) (stack : Slot)
      → All Fits player
      → Fits stack
      → let r = move_stack player src begin stop stack in
        All Fits r.player × (length r.player ≡ length player)
  unfolding move_stack
  move_stack-Fits player stack h f =
      let emptied = set player src blank in
      let first = fill_range src begin stop 0 emptied stack in
      let second = place_range src begin stop 0 first.slots first.stack in
      let a = fill_range-Fits 0 emptied stack (All-set Fits player src blank h (omega arith)) f in
      let b = place_range-Fits 0 first.slots first.stack a.0 a.1 in
      ground (
        arith,
        a,
        b,
        length-set player src blank,
        All-set Fits second.slots src second.stack b.0 b.1,
        length-set second.slots src second.stack,
      )

  pub move_stack_to_range-Fits :
      (player : List Slot)
      → All Fits player
      → let r = move_stack_to_range player src begin stop in
        All Fits r.player × (length r.player ≡ length player)
  unfolding move_stack_to_range
  move_stack_to_range-Fits player h = elim (Option-cases (get_elem? player src)) [
    | inl e ↦ ground arith
    | inr (s, e) ↦ ground (arith, move_stack-Fits player s h (All-get Fits player src h e))
  ]

pub collect-Fits :
    (ss : List Slot) (cursor : Slot) (changed : Bool)
    → All Fits ss
    → Fits cursor
    → let r = collect ss cursor changed in DealtFits (length ss) r.slots r.cursor
unfolding collect
collect-Fits [] cursor changed h f = (tt, f, refl)
collect-Fits (s ∷ ss) cursor changed h f = ground (
  arith,
  merge_into_bounds cursor s,
  collect-Fits ss (merge_into cursor s).dst (changed || ltb 0 (merge_into cursor s).moved) h.1,
  collect-Fits ss cursor changed h.1 f,
)
