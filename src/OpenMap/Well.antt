-- ===== src/OpenMap/Well.antt =====
-- The invariant of the hash map, and that find reads the entries of a table that has it.
use gtnh_platform.Base.{
  ℕ, ◌+◌, ◌<◌, ◌≤◌, ◌≡◌, ◌≢◌, ◌↔◌, inl, inr, refl, sym, subst, ◌∙◌, Option, none, some, length,
  get_elem?, ◌==◌, arith, Bool-cases,
}
use gtnh_platform.OpenMap.{
  Layout, MapEntry, OpenMap, key_at, find, find_from, insert_slot, erase_slot,
}
use gtnh_platform.OpenMap.Positions.{ring_position, position_lt}
use gtnh_platform.OpenMap.Slots.{key_at-get, occupied, within-get}
use gtnh_platform.OpenMap.Sound.{IsLayout, IsSound}
use gtnh_platform.OpenMap.Search.{
  find_from-there, insert_slot-there, erase_slot-there, ==_false, ==_true,
}
use gtnh_platform.OpenMap.Returned.{find_from-some}
use gtnh_platform.OpenMap.Moves.{Has}

module _ {V : Type 0} (l : Layout) where
  -- The table has its capacity, `size_` counts the occupied slots, and every key is found.
  pub record IsWell (t : OpenMap V) : Type 0 where
    pub cut : ℕ
    pub sized : length t.entries ≡ l.capacity
    pub counted : t.size ≡ occupied l t.entries
    pub sound : IsSound l cut (key_at l t.entries)

  module _ (laid : IsLayout l) (t : OpenMap V) (well : IsWell t) (i : ℕ) (e : MapEntry V)
      (here : get_elem? t.entries i ≡ some e) (real : e.key ≢ l.sentinel) where
    within : i < l.capacity
    within = omega (arith, within-get t.entries i here, well.sized)

    start : ring_position l.capacity well.cut (l.hash e.key) ≤ ring_position l.capacity well.cut i
    start =
        let key = key_at-get l t.entries i here in
        subst
          (λ k. ring_position l.capacity well.cut (l.hash k) ≤ ring_position l.capacity well.cut i)
          key (well.sound.in_order i within (λ z. real (sym key ∙ z)))

    enough :
        ring_position l.capacity well.cut i
        < l.capacity + ring_position l.capacity well.cut (l.hash e.key)
    enough = omega (arith, position_lt l.capacity well.cut i well.sound.cut_lt within)

    pub find_there : find_from l t.entries e.key (l.hash e.key) l.capacity ≡ some e.value
    find_there =
        find_from-there l well.cut t.entries well.sized well.sound i within e here real l.capacity
          (l.hash e.key) (laid e.key) (omega arith) start enough

    pub insert_there : insert_slot l t.entries e.key (l.hash e.key) l.capacity ≡ some i
    insert_there =
        insert_slot-there l well.cut t.entries well.sized well.sound i within e here real l.capacity
          (l.hash e.key) (laid e.key) (omega arith) start enough

    pub erase_there : erase_slot l t.entries e.key (l.hash e.key) l.capacity ≡ some i
    erase_there =
        erase_slot-there l well.cut t.entries well.sized well.sound i within e here real l.capacity
          (l.hash e.key) (laid e.key) (omega arith) start enough

  find-real :
      (t : OpenMap V) (k : ℕ)
      → k ≢ l.sentinel
      → find l t k ≡ find_from l t.entries k (l.hash k) l.capacity
  unfolding find
  find-real t k n = rw (find, ==_false n) refl

  pub find-sentinel : (t : OpenMap V) (k : ℕ) → k ≡ l.sentinel → find l t k ≡ none
  unfolding find
  find-sentinel t k e = rw (find, ==_true e) refl

  pub find_iff :
      IsLayout l
      → (t : OpenMap V) → IsWell t
      → (k : ℕ) (v : V) → k ≢ l.sentinel
      → (find l t k ≡ some v) ↔ Has t.entries (record { key = k; value = v })
  find_iff laid t well k v n = (
    λ h.
        find_from-some l t.entries well.sized k l.capacity (l.hash k) (laid k)
          (sym (find-real t k n) ∙ h),
    λ (i, here). find-real t k n ∙ find_there laid t well i (record { key = k; value = v }) here n,
  )

  pub option_eq : (a b : Option V) → ((v : V) → (a ≡ some v) ↔ (b ≡ some v)) → a ≡ b
  option_eq none none h = refl
  option_eq none (some v) h = (h v).1 refl
  option_eq (some v) none h = sym ((h v).0 refl)
  option_eq (some v) (some w) h = sym ((h v).0 refl)

  -- Two tables with the same entries for a key give it the same value.
  pub find-same :
      IsLayout l
      → (t u : OpenMap V) → IsWell t
      → IsWell u
      → (k : ℕ)
      → ((e : MapEntry V) → e.key ≡ k → e.key ≢ l.sentinel → Has t.entries e ↔ Has u.entries e)
      → find l u k ≡ find l t k
  find-same laid t u a b k same = elim (Bool-cases (k == l.sentinel)) [
    | inl y ↦
        let e : k ≡ l.sentinel = ground arith in find-sentinel u k e ∙ sym (find-sentinel t k e)
    | inr y ↦
        let n : k ≢ l.sentinel = ground arith in
        option_eq (find l u k) (find l t k) (λ v.
          let both = same (record { key = k; value = v }) refl n in
          let at_t = find_iff laid t a k v n in
          let at_u = find_iff laid u b k v n in
          (λ h. at_t.1 (both.1 (at_u.0 h)), λ h. at_u.1 (both.0 (at_t.0 h))))
  ]
