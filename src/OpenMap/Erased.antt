-- ===== src/OpenMap/Erased.antt =====
-- The table that erase leaves: it has the entries of the other keys, and the invariant.
use gtnh_platform.Base.{
  ℕ, ◌+◌, ◌-◌, ◌<◌, ◌≤◌, ◌≡◌, ◌≢◌, ◌↔◌, inl, inr, refl, sym, ap, ◌∙◌, some, List, length,
  length-set, get_elem?, set, true, ◌==◌, if◌then◌else◌, arith,
}
use gtnh_platform.OpenMap.{
  Layout, next, MapEntry, OpenMap, key_at, erase_slot, shift, erase, empty_entry,
}
use gtnh_platform.OpenMap.Positions.{ring_position}
use gtnh_platform.OpenMap.Slots.{
  get-within, within-get, set_same, set_other, key_at-get, key_at-same, key_at-other, occupied-set,
}
use gtnh_platform.OpenMap.Sound.{IsLayout, IsSound, IsHoled, same_or}
use gtnh_platform.OpenMap.Writes.{erased-IsHoled}
use gtnh_platform.OpenMap.Search.{==_false}
use gtnh_platform.OpenMap.Returned.{erase_slot-some, entry_of}
use gtnh_platform.OpenMap.Moves.{Has, IsSame}
use gtnh_platform.OpenMap.Closed.{shift_lem}
use gtnh_platform.OpenMap.Well.{IsWell}
use gtnh_platform.OpenMap.Inserted.{entry_eq}

fewer :
    (s key a b c n : ℕ)
    → a ≡ b
    → n ≡ c
    → b + (if key == s then 0 else 1) ≡ c + (if s == s then 0 else 1)
    → key ≢ s
    → n - 1 ≡ a
fewer s key a b c n e f h d = ground arith

module _ {V : Type 0} (l : Layout) (laid : IsLayout l) (v : V) (t : OpenMap V) (well : IsWell l t)
    (k : ℕ) (real : k ≢ l.sentinel) (q : ℕ)
    (slot : erase_slot l t.entries k (l.hash k) l.capacity ≡ some q) where
  abbrev cleared : List (MapEntry V)
  cleared = set t.entries q (empty_entry l v)

  abbrev pub left : OpenMap V
  left = record { entries = shift l v cleared q (next l q) (l.capacity - 1); size = t.size - 1 }

  q_lt : q < l.capacity
  q_lt = (erase_slot-some l t.entries well.sized k l.capacity (l.hash k) (laid k) slot).0

  at_q : key_at l t.entries q ≡ k
  at_q = (erase_slot-some l t.entries well.sized k l.capacity (l.hash k) (laid k) slot).1

  q_within : q < length t.entries
  q_within = omega (arith, q_lt, well.sized)

  pub was_there : (w : V) × Has t.entries (record { key = k; value = w })
  was_there =
      let (f, there) = get-within t.entries q q_within in
      let key : f.key ≡ k = sym (key_at-get l t.entries q there) ∙ at_q in
      (f.value, (q, there ∙ ap (λ (e : MapEntry V). some e) (entry_of key refl)))

  within_of : (i : ℕ) {e : MapEntry V} → get_elem? t.entries i ≡ some e → i < l.capacity
  within_of i h = omega (arith, within-get t.entries i h, well.sized)

  cleared-get : get_elem? cleared q ≡ some (empty_entry l v)
  cleared-get = set_same t.entries q (empty_entry l v) q_within

  held_open : IsHoled l well.cut (key_at l cleared) q (next l q)
  held_open =
      erased-IsHoled l laid well.cut (key_at l t.entries) well.sound q (key_at l cleared) q_lt
        (key_at-same l t.entries q (empty_entry l v) q_within)
        (λ j n. key_at-other l t.entries q j (empty_entry l v) (λ z. n (sym z)))

  rounds :
      ring_position l.capacity well.cut q < ring_position l.capacity well.cut (next l q)
      → l.capacity ≤ l.capacity - 1 + ring_position l.capacity well.cut (next l q)
  rounds h = omega (arith, h)

  closed : IsSame l cleared left.entries × IsSound l well.cut (key_at l left.entries)
  closed =
      shift_lem l laid v well.cut (l.capacity - 1) cleared q (next l q)
        (length-set t.entries q (empty_entry l v) ∙ well.sized) held_open rounds

  pub left-IsWell : IsWell l left
  left-IsWell =
      let (f, there) = get-within t.entries q q_within in
      let count = occupied-set l t.entries q (empty_entry l v) there in
      let key : f.key ≡ k = sym (key_at-get l t.entries q there) ∙ at_q in
      let same = closed.0.same_occupied in
      record {
        cut = well.cut;
        sized = closed.0.same_length ∙ (length-set t.entries q (empty_entry l v) ∙ well.sized);
        counted = fewer l.sentinel f.key _ _ _ _ same well.counted count (λ z. real (sym key ∙ z));
        sound = closed.1;
      }

  -- The key stood in this slot only.
  pub left-misses : (e : MapEntry V) → e.key ≡ k → Has left.entries e → ⊥
  left-misses e same has =
      let (i, h) = closed.0.old e (λ z. real (sym same ∙ z)) has in
      elim (same_or i q) [
        | inl y ↦
            let is_empty : empty_entry l v ≡ e =
              entry_eq (sym cleared-get ∙ (ap (get_elem? cleared) (sym y) ∙ h)) in
            real (sym same ∙ ap (λ (x : MapEntry V). x.key) (sym is_empty))
        | inr y ↦
            let before : get_elem? t.entries i ≡ some e =
              sym (set_other t.entries q i (empty_entry l v) (λ z. y (sym z))) ∙ h in
            let key : key_at l t.entries i ≡ k = key_at-get l t.entries i before ∙ same in
            y (
              well.sound.distinct i q (within_of i before) q_lt (λ z. real (sym key ∙ z))
                (key ∙ sym at_q))
      ]

  pub left-others :
      (e : MapEntry V) → e.key ≢ k → e.key ≢ l.sentinel → Has t.entries e ↔ Has left.entries e
  left-others e n o = (
    λ (i, h). closed.0.kept e o (elim (same_or i q) [
      | inl y ↦
          let key = key_at-get l t.entries q (ap (get_elem? t.entries) (sym y) ∙ h) in
          absurd (n (sym key ∙ at_q))
      | inr y ↦ (i, set_other t.entries q i (empty_entry l v) (λ z. y (sym z)) ∙ h)
    ]),
    λ has.
        let (i, h) = closed.0.old e o has in
        elim (same_or i q) [
          | inl y ↦
              let is_empty : empty_entry l v ≡ e =
                entry_eq (sym cleared-get ∙ (ap (get_elem? cleared) (sym y) ∙ h)) in
              absurd (o (ap (λ (x : MapEntry V). x.key) (sym is_empty)))
          | inr y ↦ (i, sym (set_other t.entries q i (empty_entry l v) (λ z. y (sym z))) ∙ h)
        ],
  )

  pub erase-left : erase l v t k ≡ (left, true)
  unfolding erase
  erase-left = rw (erase, ==_false real, slot) refl
