-- ===== src/Inventory/Loops.antt =====
-- The dealing loops keep what the slots and the stack in hand hold together, the number of slots,
-- and the limit on every stack.
use gtnh_platform.Base.{
  ℕ, ◌+◌, ◌≡◌, refl, ◌≢◌, Bool, true, ◌||◌, some, List, [], ◌∷◌, subst, zero, suc, arith, ltb, set,
  get_elem?, All,
}
use gtnh_platform.Inventory.{Slot, is_empty, merge_into}
use gtnh_platform.Inventory.Deal.{fill, place, deal, fill_range, place_range, collect}
use gtnh_platform.Inventory.Merge.{
  amount, total, IsByte, merge_into-conserves, merge_into-conserves_cursor, merge_into_bounds,
  can_merge-lt,
}

pub is_empty-amount : (i m : ℕ) (s : Slot) → i ≢ 0 → is_empty s ≡ true → amount i m s ≡ 0
unfolding is_empty
is_empty-amount i m s known e = ground arith

pub total-set :
    (i m : ℕ) (ss : List Slot) (k : ℕ) {s : Slot} (v : Slot)
    → get_elem? ss k ≡ some s
    → total i m (set ss k v) + amount i m s ≡ total i m ss + amount i m v
total-set i m [] k v e = cc
total-set i m (x ∷ ss) zero {s} v e =
    let e' : x ≡ s = cc in
    subst
      (λ (y : Slot).
        amount i m v + total i m ss + amount i m y ≡ amount i m x + total i m ss + amount i m v)
      e' (omega arith)
total-set i m (x ∷ ss) (suc k) v e = omega (arith, total-set i m ss k v e)

module _ (i m : ℕ) (known : i ≢ 0) where
  pub fill-conserves :
      (ds : List Slot) (stack : Slot)
      → IsByte stack
      → (total i m (fill ds stack).slots + amount i m (fill ds stack).stack
          ≡ total i m ds + amount i m stack)
        × IsByte (fill ds stack).stack
  unfolding fill
  fill-conserves [] stack b = (refl, b)
  fill-conserves (d ∷ ds) stack b = ground (
    arith,
    merge_into-conserves i m d stack known b,
    merge_into_bounds d stack b,
    can_merge-lt d stack,
    fill-conserves ds (merge_into d stack).src,
    fill-conserves ds stack b,
  )

  pub place-conserves :
      (ds : List Slot) (stack : Slot)
      → total i m (place ds stack).slots + amount i m (place ds stack).stack
        ≡ total i m ds + amount i m stack
  unfolding place
  place-conserves [] stack = refl
  place-conserves (d ∷ ds) stack =
      ground (arith, is_empty-amount i m d known, place-conserves ds stack)

  pub deal-conserves :
      (ds : List Slot) (stack : Slot)
      → IsByte stack
      → total i m (deal ds stack).slots + amount i m (deal ds stack).stack
        ≡ total i m ds + amount i m stack
  unfolding deal
  deal-conserves ds stack b = omega (
    arith,
    fill-conserves ds stack b,
    place-conserves (fill ds stack).slots (fill ds stack).stack,
  )

  pub fill_range-conserves :
      (src begin stop k : ℕ) (ds : List Slot) (stack : Slot)
      → IsByte stack
      → (total i m (fill_range src begin stop k ds stack).slots
            + amount i m (fill_range src begin stop k ds stack).stack
          ≡ total i m ds + amount i m stack)
        × IsByte (fill_range src begin stop k ds stack).stack
  unfolding fill_range
  fill_range-conserves src begin stop k [] stack b = (refl, b)
  fill_range-conserves src begin stop k (d ∷ ds) stack b = ground (
    arith,
    merge_into-conserves i m d stack known b,
    merge_into_bounds d stack b,
    can_merge-lt d stack,
    fill_range-conserves src begin stop (k + 1) ds (merge_into d stack).src,
    fill_range-conserves src begin stop (k + 1) ds stack b,
  )

  pub place_range-conserves :
      (src begin stop k : ℕ) (ds : List Slot) (stack : Slot)
      → total i m (place_range src begin stop k ds stack).slots
          + amount i m (place_range src begin stop k ds stack).stack
        ≡ total i m ds + amount i m stack
  unfolding place_range
  place_range-conserves src begin stop k [] stack = refl
  place_range-conserves src begin stop k (d ∷ ds) stack =
      ground
        (arith, is_empty-amount i m d known, place_range-conserves src begin stop (k + 1) ds stack)

  pub collect-conserves :
      (ss : List Slot) (cursor : Slot) (changed : Bool)
      → All IsByte ss
      → total i m (collect ss cursor changed).slots + amount i m (collect ss cursor changed).cursor
        ≡ total i m ss + amount i m cursor
  unfolding collect
  collect-conserves [] cursor changed b = refl
  collect-conserves (s ∷ ss) cursor changed b = ground (
    arith,
    merge_into-conserves_cursor i m cursor s known b.0,
    collect-conserves ss (merge_into cursor s).dst (changed || ltb 0 (merge_into cursor s).moved)
        b.1,
    collect-conserves ss cursor changed b.1,
  )
