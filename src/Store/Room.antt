-- ===== src/Store/Room.antt =====
-- When `giveItem` reports that something is left, there was no room for it.
use gtnh_platform.Base.{ℕ, ◌-◌, ◌<◌, ◌≡◌, ◌≢◌, false, Option, List, [], ◌∷◌, arith, All}
use gtnh_platform.Inventory.{Slot}
use gtnh_platform.Store.Give.{
  give_target, top_up, fill_free, grant, has_room, top_up_take, fresh_take,
}
use gtnh_platform.Store.Amounts.{give_target-items, top_up-items, fill_free-items}

abbrev pub NoRoom : ℕ → Slot → Type 0
NoRoom item s = has_room item s ≡ false

abbrev pub IsTaken : ℕ → Slot → Type 0
IsTaken item s = (s.item_id ≢ 0) × (has_room item s ≡ false)

top_up-NoRoom :
    (item : ℕ) (ss : List Slot) (n : ℕ)
    → n < 256
    → (top_up item ss n).remaining ≢ 0
    → All (NoRoom item) (top_up item ss n).slots
unfolding top_up
top_up-NoRoom item [] n h r = tt
top_up-NoRoom item (s ∷ ss) n h r = ground (
  arith,
  top_up-NoRoom item ss n h,
  top_up-NoRoom item ss (n - top_up_take s n) (omega arith),
  top_up-items item item ss (n - top_up_take s n) (omega arith),
)

fill_free-IsTaken :
    (item : ℕ) (ss : List Slot) (n : ℕ)
    → item ≢ 0
    → n < 256
    → All (NoRoom item) ss
    → (fill_free item ss n).remaining ≢ 0
    → All (IsTaken item) (fill_free item ss n).slots
unfolding fill_free
fill_free-IsTaken item [] n z h a r = tt
fill_free-IsTaken item (s ∷ ss) n z h a r = ground (
  arith,
  fill_free-IsTaken item ss n z h a.1,
  fill_free-IsTaken item ss (n - fresh_take n) z (omega arith) a.1,
  fill_free-items item item ss (n - fresh_take n) z (omega arith),
)

fill_free-less : (item : ℕ) (ss : List Slot) (n : ℕ) → n ≡ 0 → (fill_free item ss n).remaining ≡ 0
unfolding fill_free
fill_free-less item [] n h = h
fill_free-less item (s ∷ ss) n h = ground arith

-- If some of the items remain after a grant, then every slot is taken and no stack of the item has
-- room left.
pub grant-IsTaken :
    (item : ℕ) (target : Option ℕ) (ss : List Slot) (count : ℕ)
    → item ≢ 0
    → count < 256
    → (grant item target ss count).remaining ≢ 0
    → All (IsTaken item) (grant item target ss count).slots
unfolding grant
grant-IsTaken item target ss count z h r =
    let a = give_target item target ss count in
    let b = top_up item a.slots a.remaining in
    let p = give_target-items item item target ss count z h in
    let q = top_up-items item item a.slots a.remaining (omega (arith, p.1)) in
    let left : b.remaining ≢ 0 = λ e. r (fill_free-less item b.slots b.remaining e) in
    fill_free-IsTaken item b.slots b.remaining z (omega (arith, p.1, q.1))
      (top_up-NoRoom item a.slots a.remaining (omega (arith, p.1)) left) r
