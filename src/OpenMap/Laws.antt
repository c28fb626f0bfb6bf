-- ===== src/OpenMap/Laws.antt =====
-- The hash map as a partial function from keys to values: what insert, erase and clear do to find.
use gtnh_platform.Base.{
  ℕ, zero, suc, ◌≡◌, ◌≢◌, ◌⊎◌, inl, inr, refl, sym, ap, subst, ◌∙◌, Option, none, some, length,
  replicate, Bool, true, false, arith, Option-cases,
}
use gtnh_platform.OpenMap.{
  Layout, OpenMap, key_at, insert_slot, insert, find, erase_slot, erase, clear, empty_entry,
}
use gtnh_platform.OpenMap.Slots.{occupied, key_at-get}
use gtnh_platform.OpenMap.Sound.{IsLayout, same_or}
use gtnh_platform.OpenMap.Search.{==_false, ==_true}
use gtnh_platform.OpenMap.Well.{IsWell, erase_there, find_iff, find-same, find-sentinel}
use gtnh_platform.OpenMap.Inserted.{
  written, written-IsWell, written-Has, written-others, insert-written,
}
use gtnh_platform.OpenMap.Erased.{
  left, left-IsWell, left-misses, left-others, erase-left, was_there,
}

module _ {V : Type 0} (l : Layout) (laid : IsLayout l) (t : OpenMap V) (well : IsWell l t)
    (k : ℕ) where
  -- What insert returns: a slot with the entry, or nothing and the table as it was.
  abbrev pub Inserted : V → OpenMap V × Option ℕ → Type 0
  Inserted v r =
      IsWell l r.0
      × ((other : ℕ) → other ≢ k → find l r.0 other ≡ find l t other)
      × (((r.1 ≡ none) × (r.0 ≡ t)) ⊎ ((q : ℕ) × (r.1 ≡ some q) × (find l r.0 k ≡ some v)))

  unchanged : (v : V) → Inserted v (t, none)
  unchanged v = (well, λ other n. refl, inl (refl, refl))

  insert-sentinel : (v : V) → k ≡ l.sentinel → insert l t k v ≡ (t, none)
  unfolding insert
  insert-sentinel v e = rw (insert, ==_true e) refl

  insert-full :
      (v : V)
      → k ≢ l.sentinel
      → insert_slot l t.entries k (l.hash k) l.capacity ≡ none
      → insert l t k v ≡ (t, none)
  unfolding insert
  insert-full v n h = rw (insert, ==_false n, h) refl

  -- When the hash gives slots, insert keeps the invariant `IsWell`. It either finds no place and changes nothing, or `find` gives the new value for the key afterwards. For every other key
  -- `find` gives what it gave before.
  pub insert_lem : (v : V) → Inserted v (insert l t k v)
  insert_lem v = elim (same_or k l.sentinel) [
    | inl y ↦ subst (Inserted v) (sym (insert-sentinel v y)) (unchanged v)
    | inr real ↦ elim (Option-cases (insert_slot l t.entries k (l.hash k) l.capacity)) [
      | inl none_free ↦ subst (Inserted v) (sym (insert-full v real none_free)) (unchanged v)
      | inr (q, slot) ↦
          let after = written l laid t well k v real q slot in
          let well' = written-IsWell l laid t well k v real q slot in
          subst (Inserted v) (sym (insert-written l laid t well k v real q slot)) (
            well',
            λ other n. find-same l laid t after well well' other (λ e same o.
                written-others l laid t well k v real q slot e (λ z. n (sym same ∙ z)) o),
            inr (
              q,
              refl,
              (find_iff l laid after well' k v real).1 (written-Has l laid t well k v real q slot),
            ),
          )
    ]
  ]

  -- Whether `find` gives a value.
  abbrev pub is_some : Option V → Bool
  is_some none = false
  is_some (some v) = true

  -- What erase returns: whether the key was there, and a table without it.
  abbrev pub Erased : OpenMap V × Bool → Type 0
  Erased r =
      IsWell l r.0
      × ((other : ℕ) → other ≢ k → find l r.0 other ≡ find l t other)
      × (find l r.0 k ≡ none)
      × (r.1 ≡ is_some (find l t k))

  erase-sentinel : (v : V) → k ≡ l.sentinel → erase l v t k ≡ (t, false)
  unfolding erase
  erase-sentinel v e = rw (erase, ==_true e) refl

  erase-absent :
      (v : V)
      → k ≢ l.sentinel
      → erase_slot l t.entries k (l.hash k) l.capacity ≡ none
      → erase l v t k ≡ (t, false)
  unfolding erase
  erase-absent v n h = rw (erase, ==_false n, h) refl

  absent_in : find l t k ≡ none → Erased (t, false)
  absent_in h = (well, λ other n. refl, h, sym (ap is_some h))

  not_found :
      k ≢ l.sentinel → erase_slot l t.entries k (l.hash k) l.capacity ≡ none → find l t k ≡ none
  not_found real h = elim (Option-cases (find l t k)) [
    | inl y ↦ y
    | inr (w, y) ↦
        let (i, here) = (find_iff l laid t well k w real).0 y in
        let there = erase_there l laid t well i (record { key = k; value = w }) here real in cc
  ]

  gone :
      (v : V) (real : k ≢ l.sentinel) (q : ℕ)
      (slot : erase_slot l t.entries k (l.hash k) l.capacity ≡ some q)
      → find l (left l laid v t well k real q slot) k ≡ none
  gone v real q slot =
      let after = left l laid v t well k real q slot in
      let well' = left-IsWell l laid v t well k real q slot in
      elim (Option-cases (find l after k)) [
        | inl y ↦ y
        | inr (w, y) ↦
            let has = (find_iff l laid after well' k w real).0 y in
            absurd
              (left-misses l laid v t well k real q slot (record { key = k; value = w }) refl has)
      ]

  found :
      (v : V) (real : k ≢ l.sentinel) (q : ℕ)
      → erase_slot l t.entries k (l.hash k) l.capacity ≡ some q
      → true ≡ is_some (find l t k)
  found v real q slot =
      let (w, has) = was_there l laid v t well k real q slot in
      sym (ap is_some ((find_iff l laid t well k w real).1 has))

  -- When the hash gives slots and the table has the invariant `IsWell` (as many slots as the capacity,
  -- `size_` counts the occupied ones, no empty slot on the probe path of a key, a slot that no path
  -- passes, no key twice), erase keeps the invariant. It returns whether `find` gave a value for the key.
  -- Afterwards `find` gives none for the key, and for every other key what it gave before.
  pub erase_lem : (v : V) → Erased (erase l v t k)
  erase_lem v = elim (same_or k l.sentinel) [
    | inl y ↦ subst Erased (sym (erase-sentinel v y)) (absent_in (find-sentinel l t k y))
    | inr real ↦ elim (Option-cases (erase_slot l t.entries k (l.hash k) l.capacity)) [
      | inl none_there ↦
          subst Erased (sym (erase-absent v real none_there))
            (absent_in (not_found real none_there))
      | inr (q, slot) ↦
          let after = left l laid v t well k real q slot in
          let well' = left-IsWell l laid v t well k real q slot in
          subst Erased (sym (erase-left l laid v t well k real q slot)) (
            well',
            λ other n.
                find-same l laid t after well well' other (λ e same o.
                  left-others l laid v t well k real q slot e (λ z. n (sym same ∙ z)) o),
            gone v real q slot,
            found v real q slot,
          )
    ]
  ]

replicate-sentinel :
    {V : Type 0} (l : Layout) (v : V) (n i : ℕ)
    → key_at l (replicate n (empty_entry l v)) i ≡ l.sentinel
replicate-sentinel l v zero i = refl
replicate-sentinel l v (suc n) zero = refl
replicate-sentinel l v (suc n) (suc i) = replicate-sentinel l v n i

replicate-free :
    {V : Type 0} (l : Layout) (v : V) (n : ℕ) → occupied l (replicate n (empty_entry l v)) ≡ 0
replicate-free l v zero = refl
replicate-free l v (suc n) = ground (arith, replicate-free l v n)

length-replicate : {A : Type 0} (n : ℕ) (a : A) → length (replicate n a) ≡ n
length-replicate zero a = refl
length-replicate (suc n) a = ap suc (length-replicate n a)

pub clear-IsWell : {V : Type 0} (l : Layout) → IsLayout l → (v : V) → IsWell l (clear l v)
unfolding clear
clear-IsWell l laid v =
    let empty = replicate-sentinel l v l.capacity in
    record {
      cut = l.hash 0;
      sized = length-replicate l.capacity (empty_entry l v);
      counted = sym (replicate-free l v l.capacity);
      sound = record {
        cut_lt = laid 0;
        in_order = λ i a c. absurd (c (empty i));
        no_gap = λ i j a b c d f. absurd (c (empty i));
        distinct = λ i j a b c e. absurd (c (empty i));
      };
    }

pub find-clear :
    {V : Type 0} (l : Layout) → IsLayout l → (v : V) (k : ℕ) → find l (clear l v) k ≡ none
unfolding clear
find-clear l laid v k = elim (same_or k l.sentinel) [
  | inl y ↦ find-sentinel l (clear l v) k y
  | inr real ↦ elim (Option-cases (find l (clear l v) k)) [
    | inl y ↦ y
    | inr (w, y) ↦
        let (i, here) = (find_iff l laid (clear l v) (clear-IsWell l laid v) k w real).0 y in
        let key = key_at-get l (replicate l.capacity (empty_entry l v)) i here in
        absurd (real (sym key ∙ replicate-sentinel l v l.capacity i))
  ]
]
