-- ===== src/Cache/Slots.antt =====
-- The four slots of a set by number.
use gtnh_platform.Base.{
  ℕ, zero, suc, ◌+◌, ◌%◌, ◌<◌, ◌≡◌, refl, ◌⊎◌, inl, inr, ap, true, none, some, arith, Bool-cases,
  ◌==◌, if◌then◌else◌,
}
use gtnh_platform.Cache.{
  PackedSlot, SlotSet, slot_of, with_slot, has_key, hit_index, ctz, mask_of, first_empty,
  is_empty_slot, first_unreferenced,
}

pub slot_of-with_slot :
    (s : SlotSet) (i j : ℕ) (v : PackedSlot)
    → i < 4
    → j < 4
    → slot_of (with_slot s i v) j ≡ (if i == j then v else slot_of s j)
slot_of-with_slot s zero zero v h k = ground arith
slot_of-with_slot s zero (suc zero) v h k = ground arith
slot_of-with_slot s zero (suc (suc zero)) v h k = ground arith
slot_of-with_slot s zero (suc (suc (suc zero))) v h k = ground arith
slot_of-with_slot s (suc zero) zero v h k = ground arith
slot_of-with_slot s (suc zero) (suc zero) v h k = ground arith
slot_of-with_slot s (suc zero) (suc (suc zero)) v h k = ground arith
slot_of-with_slot s (suc zero) (suc (suc (suc zero))) v h k = ground arith
slot_of-with_slot s (suc (suc zero)) zero v h k = ground arith
slot_of-with_slot s (suc (suc zero)) (suc zero) v h k = ground arith
slot_of-with_slot s (suc (suc zero)) (suc (suc zero)) v h k = ground arith
slot_of-with_slot s (suc (suc zero)) (suc (suc (suc zero))) v h k = ground arith
slot_of-with_slot s (suc (suc (suc zero))) zero v h k = ground arith
slot_of-with_slot s (suc (suc (suc zero))) (suc zero) v h k = ground arith
slot_of-with_slot s (suc (suc (suc zero))) (suc (suc zero)) v h k = ground arith
slot_of-with_slot s (suc (suc (suc zero))) (suc (suc (suc zero))) v h k = ground arith
slot_of-with_slot s (suc (suc (suc (suc i)))) j v h k = absurd (omega arith)
slot_of-with_slot s zero (suc (suc (suc (suc i)))) v h k = absurd (omega arith)
slot_of-with_slot s (suc zero) (suc (suc (suc (suc i)))) v h k = absurd (omega arith)
slot_of-with_slot s (suc (suc zero)) (suc (suc (suc (suc i)))) v h k = absurd (omega arith)
slot_of-with_slot s (suc (suc (suc zero))) (suc (suc (suc (suc i)))) v h k = absurd (omega arith)

pub slot_of-hand : (s : SlotSet) (n j : ℕ) → slot_of (record s { hand = n }) j ≡ slot_of s j
slot_of-hand s n zero = refl
slot_of-hand s n (suc zero) = refl
slot_of-hand s n (suc (suc zero)) = refl
slot_of-hand s n (suc (suc (suc j))) = refl

-- All bits of the mask of a hit are set, so the lowest is bit 0.
pub hit_index-zero : (s : SlotSet) (key : ℕ) → has_key s key ≡ true → hit_index s key ≡ 0
unfolding hit_index ctz
hit_index-zero s key h = ap (λ b. ctz 64 (mask_of b)) h

pub has_key-at : (s : SlotSet) (i key : ℕ) → (slot_of s i).key ≡ key → has_key s key ≡ true
unfolding has_key
has_key-at s zero key e = ground arith
has_key-at s (suc zero) key e = ground arith
has_key-at s (suc (suc zero)) key e = ground arith
has_key-at s (suc (suc (suc i))) key e = ground arith

-- Sets with the same keys have the same hits.
pub has_key-same :
    (s t : SlotSet) (key : ℕ)
    → ((j : ℕ) → j < 4 → (slot_of t j).key ≡ (slot_of s j).key)
    → has_key t key ≡ has_key s key
unfolding has_key
has_key-same s t key e =
    rw (e 0 (omega arith), e 1 (omega arith), e 2 (omega arith), e 3 (omega arith)) refl

empty_key : (v : PackedSlot) → is_empty_slot v ≡ true → v.key ≡ 0
unfolding is_empty_slot
empty_key v h = ground arith

pub first_empty-some :
    (s : SlotSet) (i : ℕ) → first_empty s ≡ some i → (i < 4) × ((slot_of s i).key ≡ 0)
unfolding first_empty
first_empty-some s i e = elim (Bool-cases (is_empty_slot s.slot_0)) [
  | inl a ↦
      let z : first_empty s ≡ some 0 = rw (first_empty, a) refl in
      let same : i ≡ 0 = cc in rw same (omega arith, empty_key s.slot_0 a)
  | inr a ↦ elim (Bool-cases (is_empty_slot s.slot_1)) [
    | inl b ↦
        let z : first_empty s ≡ some 1 = rw (first_empty, a, b) refl in
        let same : i ≡ 1 = cc in rw same (omega arith, empty_key s.slot_1 b)
    | inr b ↦ elim (Bool-cases (is_empty_slot s.slot_2)) [
      | inl c ↦
          let z : first_empty s ≡ some 2 = rw (first_empty, a, b, c) refl in
          let same : i ≡ 2 = cc in rw same (omega arith, empty_key s.slot_2 c)
      | inr c ↦ elim (Bool-cases (is_empty_slot s.slot_3)) [
        | inl d ↦
            let z : first_empty s ≡ some 3 = rw (first_empty, a, b, c, d) refl in
            let same : i ≡ 3 = cc in rw same (omega arith, empty_key s.slot_3 d)
        | inr d ↦ let z : first_empty s ≡ none = rw (first_empty, a, b, c, d) refl in absurd cc
      ]
    ]
  ]
]

-- A slot with a clear bit is found, or the slot looked at last has its bit set.
pub first_unreferenced_cases :
    (s : SlotSet)
    → ((i : ℕ) × (first_unreferenced s ≡ some i) × (i < 4))
      ⊎ ((first_unreferenced s ≡ none) × ((slot_of s ((s.hand + 3) % 4)).has_ref ≡ true))
unfolding first_unreferenced
first_unreferenced_cases s = elim (Bool-cases (slot_of s (s.hand % 4)).has_ref) [
  | inr a ↦ inl (s.hand % 4, rw (first_unreferenced, a) refl, omega arith)
  | inl a ↦ elim (Bool-cases (slot_of s ((s.hand + 1) % 4)).has_ref) [
    | inr b ↦ inl ((s.hand + 1) % 4, rw (first_unreferenced, a, b) refl, omega arith)
    | inl b ↦ elim (Bool-cases (slot_of s ((s.hand + 2) % 4)).has_ref) [
      | inr c ↦ inl ((s.hand + 2) % 4, rw (first_unreferenced, a, b, c) refl, omega arith)
      | inl c ↦ elim (Bool-cases (slot_of s ((s.hand + 3) % 4)).has_ref) [
        | inr d ↦ inl ((s.hand + 3) % 4, rw (first_unreferenced, a, b, c, d) refl, omega arith)
        | inl d ↦ inr (rw (first_unreferenced, a, b, c, d) refl, d)
      ]
    ]
  ]
]
