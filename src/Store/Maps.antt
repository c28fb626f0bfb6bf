-- ===== src/Store/Maps.antt =====
-- The maps of PlayerInventoryStore under its operations, and `giveItem` as its callers see it.
use mathlib.Core.Bool.{false≢true}
use gtnh_platform.Base.{
  sym, ◌∙◌, ℕ, ◌+◌, ◌≤◌, ◌<◌, ◌≡◌, refl, ◌≢◌, inl, inr, true, false, some, List, [], ◌∷◌, arith,
  Bool-cases, ◌==◌, ==_iff, All,
}
use gtnh_platform.Base.Int.{ℤ}
use gtnh_platform.Inventory.{Slot}
use gtnh_platform.Store.{
  PlayerInventoryStore, lookup, assign, get_slots, get_cursor, slots_or, set_slots_and_cursor,
}
use gtnh_platform.Store.Give.{grant, give_item, index_of}
use gtnh_platform.Store.Amounts.{items, added, grant-items}
use gtnh_platform.Store.Room.{IsTaken, grant-IsTaken}

pub lookup-assign_self :
    {A : Type 0} (k : ℕ) (v : A) (m : List (ℕ × A)) → lookup k (assign k v m) ≡ some v
unfolding lookup assign
lookup-assign_self k v [] = ground arith
lookup-assign_self k v (e ∷ m) = ground (arith, lookup-assign_self k v m)

pub lookup-assign_other :
    {A : Type 0} (j k : ℕ) (v : A) (m : List (ℕ × A)) → j ≢ k → lookup j (assign k v m) ≡ lookup j m
unfolding lookup assign
lookup-assign_other j k v [] h = ground arith
lookup-assign_other j k v (e ∷ m) h = ground (arith, lookup-assign_other j k v m h)

-- What `setSlotsAndCursor` writes for a player is what `getSlots` and `getCursor` then read, and for
-- every other player they read what they read before.
pub set_slots_and_cursor-get :
    (t : PlayerInventoryStore) (player other : ℕ) (ss : List Slot) (c : Slot)
    → let t' = (set_slots_and_cursor t player ss c).0 in
      (get_slots t' player ≡ ss)
      × (get_cursor t' player ≡ c)
      × (other ≢ player
          → (get_slots t' other ≡ get_slots t other) × (get_cursor t' other ≡ get_cursor t other))
unfolding set_slots_and_cursor get_slots get_cursor
set_slots_and_cursor-get t player other ss c = (
  rw (lookup-assign_self player ss t.inventories) refl,
  rw (lookup-assign_self player c t.cursors) refl,
  λ h. (
    rw (lookup-assign_other other player ss t.inventories h) refl,
    rw (lookup-assign_other other player c t.cursors h) refl,
  ),
)

added_self : (i n : ℕ) → added i i n ≡ n
added_self i n = ground arith

added_other : (i item n : ℕ) → i ≢ item → added i item n ≡ 0
added_other i item n h = ground arith

module _ (t : PlayerInventoryStore) (player item count : ℕ) (target : ℤ) where
  give_item-nothing : (count == 0) ≡ true → give_item t player item count target ≡ (true, t, [])
  unfolding give_item
  give_item-nothing e = rw e refl

  give_item-slots :
      (count == 0) ≡ false
      → get_slots (give_item t player item count target).1 player
        ≡ (grant item (index_of target) (get_slots t player) count).slots
  unfolding give_item get_slots
  give_item-slots e =
      let g = grant item (index_of target) (slots_or (lookup player t.inventories)) count in
      rw (e, lookup-assign_self player g.slots t.inventories) refl

  give_item-result :
      (count == 0) ≡ false
      → (give_item t player item count target).0
        ≡ ((grant item (index_of target) (get_slots t player) count).remaining == 0)
  unfolding give_item
  give_item-result e = rw e refl

  give_item-other :
      (count == 0) ≡ false
      → (other : ℕ) → other ≢ player
      → get_slots (give_item t player item count target).1 other ≡ get_slots t other
  unfolding give_item get_slots
  give_item-other e other n =
      let g = grant item (index_of target) (slots_or (lookup player t.inventories)) count in
      rw (e, lookup-assign_other other player g.slots t.inventories n) refl

-- `giveItem` of a nonzero item id touches no other player and no other item. If it returns true, the
-- player has exactly `count` items more. If it returns false, at most `count` have been added, every
-- slot is taken, and no stack of the item has room.
pub give_item_lem :
    (t : PlayerInventoryStore) (player item count : ℕ) (target : ℤ)
    → item ≢ 0
    → count < 256
    → let r = give_item t player item count target in
      let before = get_slots t player in
      let after = get_slots r.1 player in
      (r.0 ≡ true → items item after ≡ items item before + count)
      × (r.0 ≡ false → (items item after ≤ items item before + count) × All (IsTaken item) after)
      × ((i : ℕ) → i ≢ 0 → i ≢ item → items i after ≡ items i before)
      × ((other : ℕ) → other ≢ player → get_slots r.1 other ≡ get_slots t other)
give_item_lem t player item count target z h =
    let g = grant item (index_of target) (get_slots t player) count in
    let own = grant-items item item (index_of target) (get_slots t player) count z h in
    let full = grant-IsTaken item (index_of target) (get_slots t player) count z h in
    let same = added_self item count in
    let left = added_self item g.remaining in
    elim (Bool-cases (count == 0)) [
      | inl e ↦ rw (give_item-nothing t player item count target e) (
        λ y. omega (arith, (==_iff count 0).0 e),
        λ y. absurd (false≢true (sym y)),
        λ i k l. refl,
        λ o l. refl,
      )
      | inr e ↦
          rw
            (
              give_item-result t player item count target e,
              give_item-slots t player item count target e,
            )
            (
              λ y. omega (arith, own.0, same, left, (==_iff g.remaining 0).0 y),
              λ y. (
                omega (arith, own.0, same, left),
                full (λ r. false≢true (sym y ∙ (==_iff g.remaining 0).1 r)),
              ),
              λ i k l. omega (
                arith,
                (grant-items i item (index_of target) (get_slots t player) count k h).0,
                added_other i item count l,
                added_other i item g.remaining l,
              ),
              give_item-other t player item count target e,
            )
    ]
