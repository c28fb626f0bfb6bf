-- ===== src/Store/Amounts.antt =====
-- What `giveItem` does to the number of items of each id, and to the sizes of the stacks.
use gtnh_platform.Base.{
  ℕ, zero, suc, ◌+◌, ◌-◌, ◌≤◌, ◌<◌, ◌≡◌, refl, ◌≢◌, inl, inr, Option, none, some, List, [], ◌∷◌,
  arith, Option-cases, ◌==◌, if◌then◌else◌, get_elem?, set, All, All-set, length, length-set,
  All-get,
}
use gtnh_platform.Inventory.{Slot, max_stack}
use gtnh_platform.Store.Give.{
  give_slot, give_target, top_up, fill_free, grant, top_up_take, fresh_take,
}

-- The items of one id in a list of slots.
abbrev pub items : ℕ → List Slot → ℕ
items i [] = 0
items i (s ∷ ss) = (if s.item_id == i then s.count else 0) + items i ss

abbrev pub added : ℕ → ℕ → ℕ → ℕ
added i item n = if i == item then n else 0

pub top_up-items :
    (i item : ℕ) (ss : List Slot) (n : ℕ)
    → n < 256
    → let g = top_up item ss n in
      (items i g.slots + added i item g.remaining ≡ items i ss + added i item n) × (g.remaining ≤ n)
unfolding top_up
top_up-items i item [] n h = ground arith
top_up-items i item (s ∷ ss) n h =
    ground (
      arith,
      top_up-items i item ss n h,
      top_up-items i item ss (n - top_up_take s n) (omega arith),
    )

pub fill_free-items :
    (i item : ℕ) (ss : List Slot) (n : ℕ)
    → i ≢ 0
    → n < 256
    → let g = fill_free item ss n in
      (items i g.slots + added i item g.remaining ≡ items i ss + added i item n) × (g.remaining ≤ n)
unfolding fill_free
fill_free-items i item [] n z h = ground arith
fill_free-items i item (s ∷ ss) n z h = ground (
  arith,
  fill_free-items i item ss n z h,
  fill_free-items i item ss (n - fresh_take n) z (omega arith),
)

pub items-set :
    (i k : ℕ) (ss : List Slot) (d s : Slot)
    → get_elem? ss k ≡ some d
    → items i (set ss k s) + items i (d ∷ []) ≡ items i ss + items i (s ∷ [])
items-set i k [] d s e = ground arith
items-set i zero (x ∷ ss) d s e = ground arith
items-set i (suc k) (x ∷ ss) d s e = ground (arith, items-set i k ss d s)

give_slot-items :
    (i item : ℕ) (d : Slot) (n : ℕ)
    → i ≢ 0
    → n < 256
    → let r = give_slot item d n in
      (items i (r.0 ∷ []) + added i item r.1 ≡ items i (d ∷ []) + added i item n) × (r.1 ≤ n)
unfolding give_slot
give_slot-items i item d n z h = ground arith

pub give_target-items :
    (i item : ℕ) (target : Option ℕ) (ss : List Slot) (n : ℕ)
    → i ≢ 0
    → n < 256
    → let g = give_target item target ss n in
      (items i g.slots + added i item g.remaining ≡ items i ss + added i item n) × (g.remaining ≤ n)
unfolding give_target
give_target-items i item none ss n z h = ground arith
give_target-items i item (some k) ss n z h = elim (Option-cases (get_elem? ss k)) [
  | inl e ↦ ground arith
  | inr (d, e) ↦
      ground (arith, give_slot-items i item d n z h, items-set i k ss d (give_slot item d n).0 e)
]

-- A grant of `count` items of an id moves exactly the items that do not remain into the slots, and
-- leaves the number of items of every other nonzero id as it was.
pub grant-items :
    (i item : ℕ) (target : Option ℕ) (ss : List Slot) (count : ℕ)
    → i ≢ 0
    → count < 256
    → let g = grant item target ss count in
      (items i g.slots + added i item g.remaining ≡ items i ss + added i item count)
      × (g.remaining ≤ count)
unfolding grant
grant-items i item target ss count z h =
    let a = give_target item target ss count in
    let b = top_up item a.slots a.remaining in
    let p = give_target-items i item target ss count z h in
    let q = top_up-items i item a.slots a.remaining (omega (arith, p.1)) in
    let r = fill_free-items i item b.slots b.remaining z (omega (arith, p.1, q.1)) in
    (omega (arith, p.0, q.0, r.0), omega (arith, p.1, q.1, r.1))

-- A stack of at most 64.
abbrev pub Stacked : Slot → Type 0
Stacked s = s.count ≤ max_stack

top_up-Stacked :
    (item : ℕ) (ss : List Slot) (n : ℕ) → All Stacked ss → All Stacked (top_up item ss n).slots
unfolding top_up
top_up-Stacked item [] n a = a
top_up-Stacked item (s ∷ ss) n a =
    ground (arith, top_up-Stacked item ss n a.1, top_up-Stacked item ss (n - top_up_take s n) a.1)

fill_free-Stacked :
    (item : ℕ) (ss : List Slot) (n : ℕ) → All Stacked ss → All Stacked (fill_free item ss n).slots
unfolding fill_free
fill_free-Stacked item [] n a = a
fill_free-Stacked item (s ∷ ss) n a =
    ground
      (arith, fill_free-Stacked item ss n a.1, fill_free-Stacked item ss (n - fresh_take n) a.1)

give_slot-Stacked : (item : ℕ) (d : Slot) (n : ℕ) → Stacked d → Stacked (give_slot item d n).0
unfolding give_slot
give_slot-Stacked item d n h = ground arith

give_target-Stacked :
    (item : ℕ) (target : Option ℕ) (ss : List Slot) (n : ℕ)
    → All Stacked ss
    → All Stacked (give_target item target ss n).slots
unfolding give_target
give_target-Stacked item none ss n a = a
give_target-Stacked item (some k) ss n a = elim (Option-cases (get_elem? ss k)) [
  | inl e ↦ rw (give_target, e, All) a
  | inr (d, e) ↦
      rw (give_target, e, All)
        (All-set Stacked ss k (give_slot item d n).0 a
          (give_slot-Stacked item d n (All-get Stacked ss k a e)))
]

give_target-length :
    (item : ℕ) (target : Option ℕ) (ss : List Slot) (n : ℕ)
    → length (give_target item target ss n).slots ≡ length ss
unfolding give_target
give_target-length item none ss n = refl
give_target-length item (some k) ss n = elim (Option-cases (get_elem? ss k)) [
  | inl e ↦ rw (give_target, e, length) refl
  | inr (d, e) ↦ rw (give_target, e, length) (length-set ss k (give_slot item d n).0)
]

top_up-length : (item : ℕ) (ss : List Slot) (n : ℕ) → length (top_up item ss n).slots ≡ length ss
unfolding top_up
top_up-length item [] n = refl
top_up-length item (s ∷ ss) n =
    ground (arith, top_up-length item ss n, top_up-length item ss (n - top_up_take s n))

fill_free-length :
    (item : ℕ) (ss : List Slot) (n : ℕ) → length (fill_free item ss n).slots ≡ length ss
unfolding fill_free
fill_free-length item [] n = refl
fill_free-length item (s ∷ ss) n =
    ground (arith, fill_free-length item ss n, fill_free-length item ss (n - fresh_take n))

-- A grant keeps the number of slots, and every stack at 64 or less, whatever the count and the
-- target slot are.
pub grant-Stacked :
    (item : ℕ) (target : Option ℕ) (ss : List Slot) (count : ℕ)
    → All Stacked ss
    → (length (grant item target ss count).slots ≡ length ss)
      × All Stacked (grant item target ss count).slots
unfolding grant
grant-Stacked item target ss count h =
    let a = give_target item target ss count in
    let b = top_up item a.slots a.remaining in
    (
      omega (
        arith,
        fill_free-length item b.slots b.remaining,
        top_up-length item a.slots a.remaining,
        give_target-length item target ss count,
      ),
      fill_free-Stacked item b.slots b.remaining
          (top_up-Stacked item a.slots a.remaining (give_target-Stacked item target ss count h)),
    )
