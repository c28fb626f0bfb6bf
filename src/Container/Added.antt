-- ===== src/Container/Added.antt =====
-- What `addItem` and `removeItem` do to the number of items.
use gtnh_platform.Base.{
  ℕ, zero, suc, ◌+◌, ◌-◌, ◌≤◌, ◌<◌, ◌≡◌, true, false, some, List, [], ◌∷◌, arith, get_elem?,
}
use gtnh_platform.Inventory.{Slot}
use gtnh_platform.Store.Amounts.{items, items-set}
use gtnh_platform.Container.{add_to_stack, remove_item, drop_at}

-- When `addItem` finds a stack of the item with room, it returns what is left only if the stack
-- becomes full. If the stack stays below 64 then all items have gone in, and it returns their number
-- plus the stack's, plus 192. If the counts add up to 256 or more, they wrap and items are lost.
pub add_to_stack_lem :
    (s : Slot) (n m : ℕ)
    → s.count < 64
    → n < 256
    → let r = add_to_stack s n m in
      (64 ≤ s.count + n → s.count + n < 256 → r.0.count + r.1 ≡ s.count + n)
      × (s.count + n < 64 → (r.0.count ≡ s.count + n) × (r.1 ≡ s.count + n + 192))
      × (256 ≤ s.count + n → r.0.count + 256 ≡ s.count + n)
unfolding add_to_stack
add_to_stack_lem s n m h k = ground arith

items-drop_at :
    (i k : ℕ) (ss : List Slot) (s : Slot)
    → get_elem? ss k ≡ some s
    → items i (drop_at k ss) + items i (s ∷ []) ≡ items i ss
unfolding drop_at
items-drop_at i k [] s e = ground arith
items-drop_at i zero (x ∷ ss) s e = ground arith
items-drop_at i (suc k) (x ∷ ss) s e = ground (arith, items-drop_at i k ss s)

-- What is left of a slot after `n` of it have been removed, and the case that nothing is left.
removed_part :
    (i n : ℕ) (s : Slot)
    → n ≤ s.count
    → items i (record s { count = s.count - n } ∷ []) + items i (record s { count = n } ∷ [])
      ≡ items i (s ∷ [])
removed_part i n s h = ground arith

removed_all :
    (i n : ℕ) (s : Slot) → s.count ≡ n → items i (record s { count = n } ∷ []) ≡ items i (s ∷ [])
removed_all i n s h = ground arith

-- `removeItem` of `n` items from a slot that holds a stack takes exactly `n` items of that stack's
-- kind out of the container and succeeds, or fails and changes nothing.
pub remove_item-items :
    (k n i : ℕ) (slots : List Slot) (s : Slot)
    → get_elem? slots k ≡ some s
    → let r = remove_item k n slots in
      (n ≤ s.count
        → (r.0 ≡ true) × (items i r.1 + items i (record s { count = n } ∷ []) ≡ items i slots))
      × (s.count < n → (r.0 ≡ false) × (r.1 ≡ slots))
unfolding remove_item
remove_item-items k n i slots s e = (
  λ h.
      rw (remove_item, e)
        (ground (
          arith,
          items-drop_at i k slots s e,
          items-set i k slots s (record s { count = s.count - n }) e,
          removed_part i n s h,
          removed_all i n s,
        )),
  λ h. rw (remove_item, e) (ground arith),
)
