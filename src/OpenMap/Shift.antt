-- ===== src/OpenMap/Shift.antt =====
-- The rounds of the inner loop of `erase` on the keys: an entry moves into the hole, or stays.
use gtnh_platform.Base.{
  ℕ, ◌+◌, ◌<◌, ◌≤◌, ◌≡◌, ◌≢◌, ◌⊎◌, inl, inr, refl, sym, ap, subst, ◌∙◌, true, false, arith,
}
use gtnh_platform.OpenMap.{Layout, next, on_path}
use gtnh_platform.OpenMap.Positions.{
  ring_position, position_lt, position_injective, next_position, next_lt, on_path_iff,
}
use gtnh_platform.OpenMap.Sound.{IsLayout, IsHoled, same_or, strictly}

through : {a b c : ℕ} → a < b → b < c → a < c
through h k = omega arith

not_last : {a b n : ℕ} → a + 1 ≡ n → a < b → b < n → ⊥
not_last e h k = omega arith

module _ (l : Layout) (laid : IsLayout l) (cut : ℕ) (keys : ℕ → ℕ) (hole nxt : ℕ)
    (held : IsHoled l cut keys hole nxt) where
  abbrev at : ℕ → ℕ
  at i = ring_position l.capacity cut i

  -- Behind a slot that is not the last one the next has the next ring_position.
  step_behind : (i : ℕ) → i < l.capacity → at nxt < at i → at (next l nxt) ≡ at nxt + 1
  step_behind i a h = elim (next_position l.capacity cut nxt held.cut_bound held.next_bound) [
    | inl e ↦ e
    | inr (last, _) ↦ absurd (not_last last h (position_lt l.capacity cut i held.cut_bound a))
  ]

  -- An entry that may not move stays, and the scan goes on.
  pub keep-IsHoled :
      keys nxt ≢ l.sentinel
      → on_path (l.hash (keys nxt)) hole nxt ≡ false
      → IsHoled l cut keys hole (next l nxt)
  keep-IsHoled full off = record {
    cut_bound = held.cut_bound;
    hole_lt = held.hole_lt;
    next_bound = next_lt l.capacity nxt held.next_bound;
    hole_empty = held.hole_empty;
    ordered = held.ordered;
    gap = held.gap;
    once = held.once;
    ahead = λ i a c d f.
        let (le_i, hole_lt_next) = held.ahead i a c d f in
        let apart : at nxt ≢ at i = λ z.
          let same : nxt ≡ i =
            position_injective l.capacity cut nxt i held.cut_bound held.next_bound a z in
          let d' : at (l.hash (keys nxt)) ≤ at hole =
            subst (λ r. at (l.hash (keys r)) ≤ at hole) (sym same) d in
          let iff =
            on_path_iff l.capacity cut (l.hash (keys nxt)) hole nxt held.cut_bound (laid (keys nxt))
              held.hole_lt held.next_bound (held.ordered nxt held.next_bound full) in
          let on : on_path (l.hash (keys nxt)) hole nxt ≡ true =
            iff.1 (d', omega (arith, hole_lt_next)) in
          let no : true ≡ false = sym on ∙ off in cc in
        let strict : at nxt < at i = strictly le_i apart in
        let step = step_behind i a strict in
        (omega (arith, step, strict), omega (arith, step, hole_lt_next));
  }

  -- An entry on whose path the hole is moves there, and its slot is the hole.
  module _ (moved : ℕ → ℕ) (full : keys nxt ≢ l.sentinel)
      (on : on_path (l.hash (keys nxt)) hole nxt ≡ true) (at_hole : moved hole ≡ keys nxt)
      (at_next : moved nxt ≡ l.sentinel)
      (others : (j : ℕ) → j ≢ hole → j ≢ nxt → moved j ≡ keys j) where
    reaches : (at (l.hash (keys nxt)) ≤ at hole) × (at hole ≤ at nxt)
    reaches =
        (on_path_iff l.capacity cut (l.hash (keys nxt)) hole nxt held.cut_bound (laid (keys nxt))
            held.hole_lt held.next_bound (held.ordered nxt held.next_bound full)).0
          on

    pub hole_behind : at hole < at nxt
    hole_behind = strictly reaches.1 (λ z. full (
        ap keys (
          sym (
            position_injective l.capacity cut hole nxt held.cut_bound held.hole_lt held.next_bound
              z))
        ∙ held.hole_empty))

    not_next : (i : ℕ) → moved i ≢ l.sentinel → i ≢ nxt
    not_next i c z = c (ap moved z ∙ at_next)

    -- Where the key of a slot was before.
    source :
        (i : ℕ)
        → i < l.capacity
        → moved i ≢ l.sentinel
        → (k : ℕ) × (k < l.capacity)
          × (moved i ≡ keys k)
          × (((i ≡ hole) × (k ≡ nxt)) ⊎ ((i ≢ hole) × (k ≡ i)))
    source i a c = elim (same_or i hole) [
      | inl y ↦ (nxt, held.next_bound, ap moved y ∙ at_hole, inl (y, refl))
      | inr y ↦ (i, a, others i y (not_next i c), inr (y, refl))
    ]

    moved_once :
        (i j : ℕ)
        → i < l.capacity
        → j < l.capacity
        → moved i ≢ l.sentinel
        → moved i ≡ moved j
        → i ≡ j
    moved_once i j a b c e =
        let d : moved j ≢ l.sentinel = λ z. c (e ∙ z) in
        let (k, k_lt, from_k, side) = source i a c in
        let (m, m_lt, from_m, side') = source j b d in
        let same : k ≡ m =
          held.once k m k_lt m_lt (λ z. c (from_k ∙ z)) (sym from_k ∙ (e ∙ from_m)) in
        let i_off = not_next i c in
        let j_off = not_next j d in ground (arith, same, side, side', i_off, j_off)

    moved_ordered : (i : ℕ) → i < l.capacity → moved i ≢ l.sentinel → at (l.hash (moved i)) ≤ at i
    moved_ordered i a c = elim (same_or i hole) [
      | inl y ↦
          subst (λ r. at (l.hash (moved r)) ≤ at r) (sym y)
            (subst (λ r. at (l.hash r) ≤ at hole) (sym at_hole) reaches.0)
      | inr y ↦
          let same = others i y (not_next i c) in
          subst (λ r. at (l.hash r) ≤ at i) (sym same) (held.ordered i a (λ z. c (same ∙ z)))
    ]

    moved_gap :
        (i j : ℕ)
        → i < l.capacity
        → j < l.capacity
        → moved i ≢ l.sentinel
        → at (l.hash (moved i)) ≤ at j
        → at j < at i
        → j ≢ nxt
        → moved j ≢ l.sentinel
    moved_gap i j a b c d f off = elim (same_or j hole) [
      | inl y ↦ λ z. full (sym at_hole ∙ (ap moved (sym y) ∙ z))
      | inr y ↦ λ z.
          let empty : keys j ≡ l.sentinel = sym (others j y off) ∙ z in
          elim (same_or i hole) [
            | inl x ↦
                let d' : at (l.hash (keys nxt)) ≤ at j =
                  subst (λ r. at (l.hash r) ≤ at j) (ap moved x ∙ at_hole) d in
                let f' : at j < at hole = subst (λ r. at j < at r) x f in
                held.gap nxt j held.next_bound b full d' (through f' hole_behind) y empty
            | inr x ↦
                let same = others i x (not_next i c) in
                held.gap i j a b (λ w. c (same ∙ w)) (subst (λ r. at (l.hash r) ≤ at j) same d) f y
                  empty
          ]
    ]

    pub move-IsHoled : IsHoled l cut moved nxt (next l nxt)
    move-IsHoled = record {
      cut_bound = held.cut_bound;
      hole_lt = held.next_bound;
      next_bound = next_lt l.capacity nxt held.next_bound;
      hole_empty = at_next;
      ordered = moved_ordered;
      gap = moved_gap;
      once = moved_once;
      ahead = λ i a c d f.
          let step = step_behind i a f in (omega (arith, step, f), omega (arith, step));
    }
