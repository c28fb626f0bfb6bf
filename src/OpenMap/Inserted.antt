-- ===== src/OpenMap/Inserted.antt =====
-- The table that insert leaves: it has the new entry, the entries of the other keys, and the invariant.
use gtnh_platform.Base.{
  ℕ, ◌+◌, ◌<◌, ◌≡◌, ◌≢◌, ◌↔◌, inl, inr, refl, sym, ap, subst, ◌∙◌, some, length, length-set,
  get_elem?, set, ◌==◌, if◌then◌else◌, arith,
}
use gtnh_platform.OpenMap.{Layout, MapEntry, OpenMap, key_at, insert_slot, insert}
use gtnh_platform.OpenMap.Slots.{
  get-within, set_same, set_other, key_at-get, key_at-same, key_at-other, occupied-set,
}
use gtnh_platform.OpenMap.Sound.{IsLayout, IsSound, same_or}
use gtnh_platform.OpenMap.Writes.{recut-IsSound, again-IsSound, inserted-IsSound}
use gtnh_platform.OpenMap.Search.{==_false}
use gtnh_platform.OpenMap.Returned.{insert_slot-some, insert_slot-path}
use gtnh_platform.OpenMap.Moves.{Has}
use gtnh_platform.OpenMap.Well.{IsWell, insert_there}

pub entry_eq : {V : Type 0} {e f : MapEntry V} → some e ≡ some f → e ≡ f
entry_eq h = cc

pub slot_eq : {i j : ℕ} → some i ≡ some j → i ≡ j
slot_eq h = cc

-- A write of `k` to a slot that is empty or has this key already.
module _ {V : Type 0} (l : Layout) (laid : IsLayout l) (t : OpenMap V) (well : IsWell l t) (k : ℕ)
    (v : V) (real : k ≢ l.sentinel) (q : ℕ)
    (slot : insert_slot l t.entries k (l.hash k) l.capacity ≡ some q) where
  abbrev pub written : OpenMap V
  written = record {
    entries = set t.entries q (record { key = k; value = v });
    size = if key_at l t.entries q == l.sentinel then t.size + 1 else t.size;
  }

  q_lt : q < l.capacity
  q_lt = (insert_slot-some l t.entries well.sized k l.capacity (l.hash k) (laid k) slot).0

  q_within : q < length t.entries
  q_within = omega (arith, q_lt, well.sized)

  at_q : key_at l written.entries q ≡ k
  at_q = key_at-same l t.entries q (record { key = k; value = v }) q_within

  others : (j : ℕ) → j ≢ q → key_at l written.entries j ≡ key_at l t.entries j
  others j n = key_at-other l t.entries q j (record { key = k; value = v }) (λ z. n (sym z))

  -- Where the key is not yet.
  new : key_at l t.entries q ≡ l.sentinel → (j : ℕ) → j < l.capacity → key_at l t.entries j ≢ k
  new empty j j_lt e =
      let (x, there) = get-within t.entries j (omega (arith, j_lt, well.sized)) in
      let key : x.key ≡ k = sym (key_at-get l t.entries j there) ∙ e in
      let found = insert_there l laid t well j x there (λ z. real (sym key ∙ z)) in
      let found' : insert_slot l t.entries k (l.hash k) l.capacity ≡ some j =
        subst (λ r. insert_slot l t.entries r (l.hash r) l.capacity ≡ some j) key found in
      let same : q ≡ j = slot_eq (sym slot ∙ found') in
      real (sym e ∙ (ap (key_at l t.entries) (sym same) ∙ empty))

  written-sound : (cut : ℕ) × IsSound l cut (key_at l written.entries)
  written-sound =
      elim (insert_slot-some l t.entries well.sized k l.capacity (l.hash k) (laid k) slot).1 [
        | inl empty ↦ (
          q,
          inserted-IsSound l laid q k (key_at l t.entries) (key_at l written.entries)
              (recut-IsSound l laid well.cut (key_at l t.entries) well.sound q q_lt empty)
              (new empty)
              (insert_slot-path l t.entries well.sized k l.capacity (l.hash k) (laid k) q_lt empty
                slot)
              at_q real others,
        )
        | inr there ↦ (
          well.cut,
          again-IsSound l laid well.cut (key_at l t.entries) well.sound (key_at l written.entries)
              (λ j. elim (same_or j q) [
                | inl y ↦
                    ap (key_at l written.entries) y
                    ∙ (at_q ∙ (sym there ∙ ap (key_at l t.entries) (sym y)))
                | inr y ↦ others j y
              ]),
        )
      ]

  pub written-IsWell : IsWell l written
  written-IsWell =
      let (f, there) = get-within t.entries q q_within in
      let count = occupied-set l t.entries q (record { key = k; value = v }) there in
      let key = key_at-get l t.entries q there in
      record {
        cut = written-sound.0;
        sized = length-set t.entries q (record { key = k; value = v }) ∙ well.sized;
        counted = ground (arith, count, key, well.counted, real);
        sound = written-sound.1;
      }

  written-get : get_elem? written.entries q ≡ some (record { key = k; value = v })
  written-get = set_same t.entries q (record { key = k; value = v }) q_within

  pub written-Has : Has written.entries (record { key = k; value = v })
  written-Has = (q, written-get)

  pub written-others :
      (e : MapEntry V) → e.key ≢ k → e.key ≢ l.sentinel → Has t.entries e ↔ Has written.entries e
  written-others e n o = (
    λ (i, h). elim (same_or i q) [
      | inl y ↦
          let key : key_at l t.entries q ≡ e.key =
            key_at-get l t.entries q (ap (get_elem? t.entries) (sym y) ∙ h) in
          elim (insert_slot-some l t.entries well.sized k l.capacity (l.hash k) (laid k) slot).1 [
            | inl empty ↦ absurd (o (sym key ∙ empty))
            | inr same ↦ absurd (n (sym key ∙ same))
          ]
      | inr y ↦ (i, set_other t.entries q i (record { key = k; value = v }) (λ z. y (sym z)) ∙ h)
    ],
    λ (i, h). elim (same_or i q) [
      | inl y ↦
          let same : record { key = k; value = v } ≡ e =
            entry_eq (sym written-get ∙ (ap (get_elem? written.entries) (sym y) ∙ h)) in
          absurd (n (ap (λ (x : MapEntry V). x.key) (sym same)))
      | inr y ↦
          (i, sym (set_other t.entries q i (record { key = k; value = v }) (λ z. y (sym z))) ∙ h)
    ],
  )

  pub insert-written : insert l t k v ≡ (written, some q)
  unfolding insert
  insert-written = rw (insert, ==_false real, slot) refl
