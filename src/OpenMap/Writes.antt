-- ===== src/OpenMap/Writes.antt =====
-- What a write of one key does to a sound table: an empty slot is a cut, a new key may take the first
-- empty slot of its path, and an erased slot is a hole.
use gtnh_platform.Base.{
  ℕ, ◌+◌, ◌<◌, ◌≤◌, ◌≡◌, ◌≢◌, ◌⊎◌, inl, inr, sym, ap, subst, ◌∙◌, ltb, arith, Bool-cases,
}
use gtnh_platform.OpenMap.{Layout, next}
use gtnh_platform.OpenMap.Positions.{
  ring_position, position_lt, position_injective, next_position, next_lt, position_cut, recut_order,
  recut_inside,
}
use gtnh_platform.OpenMap.Sound.{IsLayout, IsSound, IsHoled, same_or}

outside_or : (x q i : ℕ) → (x ≤ q → q < i → ⊥) → q ≢ i → (q < x) ⊎ (i < q)
outside_or x q i n d = elim (Bool-cases (ltb q x)) [
  | inl y ↦ inl (ground arith)
  | inr y ↦ elim (Bool-cases (ltb q i)) [
    | inl z ↦ absurd (n (ground arith) (ground arith))
    | inr z ↦ inr (ground arith)
  ]
]

last_position : {n a b : ℕ} → a + 1 ≡ n → b < n → b ≤ a
last_position e h = omega arith

below_next : {a b n : ℕ} → a < b → b < n → a + 1 ≡ n → ⊥
below_next h k e = omega arith

module _ (l : Layout) (laid : IsLayout l) (cut : ℕ) (keys : ℕ → ℕ)
    (sound : IsSound l cut keys) where
  abbrev at : ℕ → ℕ
  at i = ring_position l.capacity cut i

  pub recut-IsSound : (q : ℕ) → q < l.capacity → keys q ≡ l.sentinel → IsSound l q keys
  recut-IsSound q q_lt empty =
      let outside : (i : ℕ)
          → i < l.capacity
          → keys i ≢ l.sentinel
          → (at q < at (l.hash (keys i))) ⊎ (at i < at q) =
        λ i a c.
          outside_or (at (l.hash (keys i))) (at q) (at i)
            (λ d f. sound.no_gap i q a q_lt c d f empty)
            (λ z. c (
              ap keys (sym (position_injective l.capacity cut q i sound.cut_lt q_lt a z))
              ∙ empty)) in
      record {
        cut_lt = q_lt;
        in_order = λ i a c.
            recut_order l.capacity cut q (l.hash (keys i)) i sound.cut_lt q_lt (laid (keys i)) a
              (sound.in_order i a c) (outside i a c);
        no_gap = λ i j a b c d f.
            let (d', f') =
              recut_inside l.capacity cut q (l.hash (keys i)) i sound.cut_lt q_lt (laid (keys i)) a
                (sound.in_order i a c) (outside i a c) j b d f in
            sound.no_gap i j a b c d' f';
        distinct = sound.distinct;
      }

  -- The slot of an erased key is a hole, and the scan starts behind it.
  pub erased-IsHoled :
      (hole : ℕ) (left : ℕ → ℕ)
      → hole < l.capacity
      → left hole ≡ l.sentinel
      → ((j : ℕ) → j ≢ hole → left j ≡ keys j)
      → IsHoled l cut left hole (next l hole)
  erased-IsHoled hole left hole_lt empty others =
      let off : (i : ℕ) → left i ≢ l.sentinel → i ≢ hole = λ i c z. c (ap left z ∙ empty) in
      let same : (i : ℕ) → left i ≢ l.sentinel → left i ≡ keys i = λ i c. others i (off i c) in
      let full : (i : ℕ) → left i ≢ l.sentinel → keys i ≢ l.sentinel = λ i c z. c (same i c ∙ z) in
      record {
        cut_bound = sound.cut_lt;
        hole_lt = hole_lt;
        next_bound = next_lt l.capacity hole hole_lt;
        hole_empty = empty;
        ordered = λ i a c.
            subst (λ r. at (l.hash r) ≤ at i) (sym (same i c)) (sound.in_order i a (full i c));
        gap = λ i j a b c d f g z.
            sound.no_gap i j a b (full i c) (subst (λ r. at (l.hash r) ≤ at j) (same i c) d) f
              (sym (others j g) ∙ z);
        once = λ i j a b c e.
            let c' : left j ≢ l.sentinel = λ z. c (e ∙ z) in
            sound.distinct i j a b (full i c) (sym (same i c) ∙ (e ∙ same j c'));
        ahead = λ i a c d f. elim (next_position l.capacity cut hole sound.cut_lt hole_lt) [
          | inl step ↦ (omega (arith, step, f), omega (arith, step))
          | inr (last, _) ↦ absurd (below_next f (position_lt l.capacity cut i sound.cut_lt a) last)
        ];
      }

  -- The same keys, written again.
  pub again-IsSound : (left : ℕ → ℕ) → ((j : ℕ) → left j ≡ keys j) → IsSound l cut left
  again-IsSound left same = record {
    cut_lt = sound.cut_lt;
    in_order = λ i a c.
        subst (λ r. at (l.hash r) ≤ at i) (sym (same i)) (sound.in_order i a (λ z. c (same i ∙ z)));
    no_gap = λ i j a b c d f z.
        sound.no_gap i j a b (λ w. c (same i ∙ w)) (subst (λ r. at (l.hash r) ≤ at j) (same i) d) f
          (sym (same j) ∙ z);
    distinct =
        λ i j a b c e. sound.distinct i j a b (λ w. c (same i ∙ w)) (sym (same i) ∙ (e ∙ same j));
  }

-- A new key in the empty slot `q`, when the slots of its path before `q` are occupied.
pub inserted-IsSound :
    (l : Layout)
    → IsLayout l
    → (q k : ℕ) (keys left : ℕ → ℕ) → IsSound l q keys
    → ((j : ℕ) → j < l.capacity → keys j ≢ k)
    → ((j : ℕ)
        → j < l.capacity
        → ring_position l.capacity q (l.hash k) ≤ ring_position l.capacity q j
        → ring_position l.capacity q j < ring_position l.capacity q q
        → keys j ≢ l.sentinel)
    → left q ≡ k
    → k ≢ l.sentinel
    → ((j : ℕ) → j ≢ q → left j ≡ keys j)
    → IsSound l q left
inserted-IsSound l laid q k keys left sound new path at_q real others = record {
  cut_lt = sound.cut_lt;
  in_order = λ i a c. elim (same_or i q) [
    | inl y ↦
        let h : l.hash (left i) < l.capacity = laid (left i) in
        subst (λ r. ring_position l.capacity q (l.hash (left i)) ≤ ring_position l.capacity q r)
          (sym y)
          (last_position (position_cut l.capacity q sound.cut_lt)
            (position_lt l.capacity q (l.hash (left i)) sound.cut_lt h))
    | inr y ↦
        subst (λ r. ring_position l.capacity q (l.hash r) ≤ ring_position l.capacity q i)
          (sym (others i y)) (sound.in_order i a (λ z. c (others i y ∙ z)))
  ];
  no_gap = λ i j a b c d f z.
      let off : j ≢ q = λ w. real (sym at_q ∙ (ap left (sym w) ∙ z)) in
      let empty : keys j ≡ l.sentinel = sym (others j off) ∙ z in
      elim (same_or i q) [
        | inl y ↦
            path j b
              (subst (λ r. ring_position l.capacity q (l.hash r) ≤ ring_position l.capacity q j)
                (ap left y ∙ at_q) d)
              (subst (λ r. ring_position l.capacity q j < ring_position l.capacity q r) y f) empty
        | inr y ↦
            sound.no_gap i j a b (λ w. c (others i y ∙ w))
              (subst (λ r. ring_position l.capacity q (l.hash r) ≤ ring_position l.capacity q j)
                (others i y) d)
              f empty
      ];
  distinct = λ i j a b c e. elim (same_or i q) [
    | inl y ↦ elim (same_or j q) [
      | inl x ↦ y ∙ sym x
      | inr x ↦ absurd (new j b (sym (others j x) ∙ (sym e ∙ (ap left y ∙ at_q))))
    ]
    | inr y ↦ elim (same_or j q) [
      | inl x ↦ absurd (new i a (sym (others i y) ∙ (e ∙ (ap left x ∙ at_q))))
      | inr x ↦
          sound.distinct i j a b (λ w. c (others i y ∙ w)) (sym (others i y) ∙ (e ∙ others j x))
    ]
  ];
}
