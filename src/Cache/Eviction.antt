-- ===== src/Cache/Eviction.antt =====
-- `put` of a new key, and what `erase` does to the wrong slot.
use gtnh_platform.Base.{
  ℕ, suc, ◌+◌, ◌%◌, ◌<◌, ◌≡◌, refl, ◌≢◌, ◌⊎◌, inl, inr, ap, sym, ◌∙◌, true, false, none, some, [],
  ◌∷◌, arith, Bool-cases, Option-cases, ◌==◌,
}
use gtnh_platform.Cache.{
  PackedSlot, SlotSet, Evicting, empty_slot, packed, slot_of, with_slot, has_key, first_empty,
  first_unreferenced, advance_hand, evicted_value, cache_put, cache_erase,
}
use gtnh_platform.Cache.Slots.{
  slot_of-with_slot, slot_of-hand, has_key-at, has_key-same, first_empty-some,
  first_unreferenced_cases,
}

-- One slot of `s` has the new entry, its old entry, if it had one, is reported, and the others have the
-- entries that they had.
abbrev pub IsPut : SlotSet → ℕ → ℕ → Evicting → Type 0
IsPut s key value r =
    (i : ℕ) × (i < 4)
    × (slot_of r.after i ≡ packed key value)
    × (r.evicted ≡ evicted_value (slot_of s i))
    × ((j : ℕ)
        → j < 4
        → j ≢ i
        → ((slot_of r.after j).key ≡ (slot_of s j).key)
          × ((slot_of r.after j).value ≡ (slot_of s j).value))

abbrev IsRoundPut : SlotSet → ℕ → ℕ → Evicting → Type 0
IsRoundPut s key value r =
    (i : ℕ) × (i < 4)
    × (slot_of r.after i ≡ packed key value)
    × (r.evicted ≡ evicted_value (slot_of s i))
    × ((j : ℕ) → j < 4 → j ≢ i → slot_of r.after j ≡ slot_of s j)

-- The same entries.
abbrev SameEntries : SlotSet → SlotSet → Type 0
SameEntries s t =
    (j : ℕ)
    → j < 4
    → ((slot_of t j).key ≡ (slot_of s j).key) × ((slot_of t j).value ≡ (slot_of s j).value)

with_slot_lem :
    (s : SlotSet) (i : ℕ) (v : PackedSlot)
    → i < 4
    → (slot_of (with_slot s i v) i ≡ v)
      × ((j : ℕ) → j < 4 → j ≢ i → slot_of (with_slot s i v) j ≡ slot_of s j)
with_slot_lem s i v h = (
  slot_of-with_slot s i i v h h ∙ ground arith,
  λ j k n. slot_of-with_slot s i j v h k ∙ ground arith,
)

advance_hand-SameEntries : (s : SlotSet) → s.hand < 4 → SameEntries s (advance_hand s)
unfolding advance_hand
advance_hand-SameEntries s h j k =
    let e =
      slot_of-hand (with_slot s s.hand (record (slot_of s s.hand) { has_ref = false }))
        ((s.hand + 1) % 4) j
      ∙ slot_of-with_slot s s.hand j (record (slot_of s s.hand) { has_ref = false }) h k in
    elim (Bool-cases (s.hand == j)) [
      | inl y ↦
          let same : s.hand ≡ j = ground arith in
          (ap (λ v. v.key) e ∙ rw (y, sym same) refl, ap (λ v. v.value) e ∙ rw (y, sym same) refl)
      | inr y ↦ (ap (λ v. v.key) e ∙ rw y refl, ap (λ v. v.value) e ∙ rw y refl)
    ]

advance_hand-cleared :
    (s : SlotSet)
    → s.hand < 4
    → (slot_of (advance_hand s) (((advance_hand s).hand + 3) % 4)).has_ref ≡ false
unfolding advance_hand
advance_hand-cleared s h =
    let i : ((s.hand + 1) % 4 + 3) % 4 ≡ s.hand = omega arith in
    let v : PackedSlot = record (slot_of s s.hand) { has_ref = false } in
    ap
      (λ j.
        (slot_of
          (record (with_slot s s.hand (record (slot_of s s.hand) { has_ref = false })) {
            hand = (s.hand + 1) % 4;
          })
          j).has_ref)
      i
    ∙ ap (λ v. v.has_ref)
        (slot_of-hand (with_slot s s.hand (record (slot_of s s.hand) { has_ref = false }))
            ((s.hand + 1) % 4) s.hand
          ∙ (with_slot_lem s s.hand (record (slot_of s s.hand) { has_ref = false }) h).0)

put-empty :
    (n : ℕ) (s : SlotSet) (key value i : ℕ)
    → has_key s key ≡ false
    → first_empty s ≡ some i
    → cache_put (suc n) s key value
      ≡ some (record { after = with_slot s i (packed key value); evicted = [] })
unfolding cache_put
put-empty n s key value i m e = rw (cache_put, m, e) refl

put-unreferenced :
    (n : ℕ) (s : SlotSet) (key value i : ℕ)
    → has_key s key ≡ false
    → first_empty s ≡ none
    → first_unreferenced s ≡ some i
    → cache_put (suc n) s key value
      ≡ some (record {
        after = record (with_slot s i (packed key value)) { hand = (i + 1) % 4 };
        evicted = evicted_value (slot_of s i);
      })
unfolding cache_put
put-unreferenced n s key value i m e u = rw (cache_put, m, e, u) refl

put-again :
    (n : ℕ) (s : SlotSet) (key value : ℕ)
    → has_key s key ≡ false
    → first_empty s ≡ none
    → first_unreferenced s ≡ none
    → cache_put (suc n) s key value ≡ cache_put n (advance_hand s) key value
unfolding cache_put
put-again n s key value m e u = rw (cache_put, m, e, u) refl

-- A round puts the entry, unless all reference bits are set.
put_round :
    (n : ℕ) (s : SlotSet) (key value : ℕ)
    → has_key s key ≡ false
    → ((r : Evicting) × (cache_put (suc n) s key value ≡ some r) × IsRoundPut s key value r)
      ⊎ ((cache_put (suc n) s key value ≡ cache_put n (advance_hand s) key value)
          × ((slot_of s ((s.hand + 3) % 4)).has_ref ≡ true))
put_round n s key value m = elim (Option-cases (first_empty s)) [
  | inr (i, e) ↦
      let (small, k) = first_empty-some s i e in
      let (at, others) = with_slot_lem s i (packed key value) small in
      inl (
        record { after = with_slot s i (packed key value); evicted = [] },
        put-empty n s key value i m e,
        (i, small, at, ground (arith, k), others),
      )
  | inl e ↦ elim (first_unreferenced_cases s) [
    | inl (i, u, small) ↦
        let t = with_slot s i (packed key value) in
        let (at, others) = with_slot_lem s i (packed key value) small in
        inl (
          record {
            after = record (with_slot s i (packed key value)) { hand = (i + 1) % 4 };
            evicted = evicted_value (slot_of s i);
          },
          put-unreferenced n s key value i m e u,
          (
            i,
            small,
            slot_of-hand t ((i + 1) % 4) i ∙ at,
            refl,
            λ j k d. slot_of-hand t ((i + 1) % 4) j ∙ others j k d,
          ),
        )
    | inr (u, set_bit) ↦ inr (put-again n s key value m e u, set_bit)
  ]
]

same_evicted :
    (v w : PackedSlot) → v.key ≡ w.key → v.value ≡ w.value → evicted_value v ≡ evicted_value w
same_evicted v w k e = rw (k, e) refl

erase_first :
    (s : SlotSet) (key : ℕ)
    → has_key s key ≡ true
    → cache_erase s key
      ≡ record { after = with_slot s 0 empty_slot; evicted = (slot_of s 0).value ∷ [] }
unfolding cache_erase
erase_first s key h = rw (cache_erase, h) refl

-- From the set with one bit cleared to the set itself.
before_advance :
    (s t : SlotSet) (key value : ℕ) (r : Evicting)
    → SameEntries s t
    → IsRoundPut t key value r
    → IsPut s key value r
before_advance s t key value r same (i, small, at, out, others) = (
  i,
  small,
  at,
  out ∙ same_evicted (slot_of t i) (slot_of s i) (same i small).0 (same i small).1,
  λ j k d. (
    ap (λ v. v.key) (others j k d) ∙ (same j k).0,
    ap (λ v. v.value) (others j k d) ∙ (same j k).1,
  ),
)

-- `put` of a key that the set does not have, with the hand at a slot, ends after at most two
-- rounds. One slot then has the new entry; the others keep their keys and values; and `on_evict`
-- is called with the value that the slot had exactly when the slot's key was not 0.
pub cache_put_lem :
    (n : ℕ) (s : SlotSet) (key value : ℕ)
    → s.hand < 4
    → has_key s key ≡ false
    → (r : Evicting) × (cache_put (suc (suc n)) s key value ≡ some r) × IsPut s key value r
cache_put_lem n s key value h m = elim (put_round (suc n) s key value m) [
  | inl (r, e, put) ↦ (r, e, before_advance s s key value r (λ j k. (refl, refl)) put)
  | inr (again, full) ↦
      let t = advance_hand s in
      let same = advance_hand-SameEntries s h in
      let m' = has_key-same s (advance_hand s) key (λ j k. (same j k).0) ∙ m in
      elim (put_round n (advance_hand s) key value m') [
        | inl (r, e, put) ↦ (r, again ∙ e, before_advance s (advance_hand s) key value r same put)
        | inr (more, bit) ↦ let clear = advance_hand-cleared s h in absurd cc
      ]
]

-- When another slot than the first has the key, `erase` empties the first slot, hands its value to
-- `on_evict`, and leaves the entry of the key in the set.
pub cache_erase-misses :
    (s : SlotSet) (key i : ℕ)
    → suc i < 4
    → (slot_of s (suc i)).key ≡ key
    → (slot_of (cache_erase s key).after (suc i) ≡ slot_of s (suc i))
      × (slot_of (cache_erase s key).after 0 ≡ empty_slot)
      × ((cache_erase s key).evicted ≡ (slot_of s 0).value ∷ [])
cache_erase-misses s key i h e =
    let (at, others) = with_slot_lem s 0 empty_slot (omega arith) in
    let r = erase_first s key (has_key-at s (suc i) key e) in
    (
      ap (λ r. slot_of r.after (suc i)) r ∙ others (suc i) h (omega arith),
      ap (λ r. slot_of r.after 0) r ∙ at,
      ap (λ r. r.evicted) r,
    )
