-- ===== src/OpenMap/Full.antt =====
-- When insert finds no place.
use gtnh_platform.Base.{
  ℕ, ◌<◌, ◌≡◌, ◌≢◌, inl, inr, ap, ◌∙◌, Option, none, some, length, arith, Option-cases,
}
use gtnh_platform.OpenMap.{Layout, OpenMap, key_at, insert_slot, insert, find}
use gtnh_platform.OpenMap.Positions.{position_lt, cut_before, cut_before_lem}
use gtnh_platform.OpenMap.Slots.{occupied-full}
use gtnh_platform.OpenMap.Sound.{IsLayout}
use gtnh_platform.OpenMap.Returned.{insert_slot-none}
use gtnh_platform.OpenMap.Well.{IsWell, insert_there, find_iff}
use gtnh_platform.OpenMap.Inserted.{insert-written}

module _ {V : Type 0} (l : Layout) (laid : IsLayout l) (t : OpenMap V) (well : IsWell l t) (k : ℕ)
    (real : k ≢ l.sentinel) where
  slot-none :
      (v : V) → (insert l t k v).1 ≡ none → insert_slot l t.entries k (l.hash k) l.capacity ≡ none
  unfolding insert
  slot-none v h = elim (Option-cases (insert_slot l t.entries k (l.hash k) l.capacity)) [
    | inl y ↦ y
    | inr (q, y) ↦
        let e : (insert l t k v).1 ≡ some q =
          ap (λ (r : OpenMap V × Option ℕ). r.1) (insert-written l laid t well k v real q y) in
        cc
  ]

  all_occupied :
      insert_slot l t.entries k (l.hash k) l.capacity ≡ none
      → (j : ℕ) → j < length t.entries
      → key_at l t.entries j ≢ l.sentinel
  all_occupied h j j_lt =
      let cut = cut_before l.capacity (l.hash k) in
      let (cut_lt, first) = cut_before_lem l.capacity (l.hash k) (laid k) in
      let j_lt' : j < l.capacity = omega (arith, j_lt, well.sized) in
      insert_slot-none l t.entries well.sized k cut l.capacity (l.hash k) cut_lt (laid k) h j j_lt'
        (omega (arith, first)) (omega (arith, position_lt l.capacity cut j cut_lt j_lt'))

  -- When the hash gives slots and the table has the invariant `IsWell`, insert of a key other than the
  -- sentinel finds no place only when `size_` is the capacity and `find` gives none for the key.
  pub insert-none :
      (v : V) → (insert l t k v).1 ≡ none → (t.size ≡ l.capacity) × (find l t k ≡ none)
  insert-none v h =
      let full = slot-none v h in
      (
        well.counted ∙ (occupied-full l t.entries (all_occupied full) ∙ well.sized),
        elim (Option-cases (find l t k)) [
          | inl y ↦ y
          | inr (w, y) ↦
              let (i, here) = (find_iff l laid t well k w real).0 y in
              let there = insert_there l laid t well i (record { key = k; value = w }) here real in
              cc
        ],
      )
