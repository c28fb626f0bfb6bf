-- ===== src/OpenMap/Sound.antt =====
-- When every key of a table is found: the probe path of each key, from its hash to its slot, has no empty
-- slot, no path passes the cut, and no key stands twice. The keys are a function of the slot.
use gtnh_platform.Base.{
  ℕ, ◌<◌, ◌≤◌, ◌≡◌, ◌≢◌, ◌⊎◌, inl, inr, sym, ap, subst, ◌∙◌, ◌==◌, arith, Bool-cases,
}
use gtnh_platform.OpenMap.{Layout}
use gtnh_platform.OpenMap.Positions.{ring_position, position_injective}

-- The hash function gives slots.
abbrev pub IsLayout : Layout → Type 0
IsLayout l = (k : ℕ) → l.hash k < l.capacity

module _ (l : Layout) (cut : ℕ) (keys : ℕ → ℕ) where
  pub record IsSound : Type 0 where
    pub cut_lt : cut < l.capacity
    pub in_order :
        (i : ℕ)
        → i < l.capacity
        → keys i ≢ l.sentinel
        → ring_position l.capacity cut (l.hash (keys i)) ≤ ring_position l.capacity cut i
    pub no_gap :
        (i j : ℕ)
        → i < l.capacity
        → j < l.capacity
        → keys i ≢ l.sentinel
        → ring_position l.capacity cut (l.hash (keys i)) ≤ ring_position l.capacity cut j
        → ring_position l.capacity cut j < ring_position l.capacity cut i
        → keys j ≢ l.sentinel
    pub distinct :
        (i j : ℕ) → i < l.capacity → j < l.capacity → keys i ≢ l.sentinel → keys i ≡ keys j → i ≡ j

  -- While an erased slot is closed: paths may pass the hole, but only to slots from `nxt` on.
  pub record IsHoled (hole nxt : ℕ) : Type 0 where
    pub cut_bound : cut < l.capacity
    pub hole_lt : hole < l.capacity
    pub next_bound : nxt < l.capacity
    pub hole_empty : keys hole ≡ l.sentinel
    pub ordered :
        (i : ℕ)
        → i < l.capacity
        → keys i ≢ l.sentinel
        → ring_position l.capacity cut (l.hash (keys i)) ≤ ring_position l.capacity cut i
    pub gap :
        (i j : ℕ)
        → i < l.capacity
        → j < l.capacity
        → keys i ≢ l.sentinel
        → ring_position l.capacity cut (l.hash (keys i)) ≤ ring_position l.capacity cut j
        → ring_position l.capacity cut j < ring_position l.capacity cut i
        → j ≢ hole
        → keys j ≢ l.sentinel
    pub once :
        (i j : ℕ) → i < l.capacity → j < l.capacity → keys i ≢ l.sentinel → keys i ≡ keys j → i ≡ j
    pub ahead :
        (i : ℕ)
        → i < l.capacity
        → keys i ≢ l.sentinel
        → ring_position l.capacity cut (l.hash (keys i)) ≤ ring_position l.capacity cut hole
        → ring_position l.capacity cut hole < ring_position l.capacity cut i
        → (ring_position l.capacity cut nxt ≤ ring_position l.capacity cut i)
          × (ring_position l.capacity cut hole < ring_position l.capacity cut nxt)

pub same_or : (a b : ℕ) → (a ≡ b) ⊎ (a ≢ b)
same_or a b = elim (Bool-cases (a == b)) [ inl y ↦ inl (ground arith) | inr y ↦ inr (ground arith) ]

pub strictly : {a b : ℕ} → a ≤ b → a ≢ b → a < b
strictly h n = ground arith

pub not_both : {a b : ℕ} → a ≤ b → b < a → ⊥
not_both h n = omega arith

module _ (l : Layout) (cut : ℕ) (keys : ℕ → ℕ) (hole nxt : ℕ)
    (held : IsHoled l cut keys hole nxt) where
  -- The scan of the inner loop of `erase` may stop at an empty slot, ...
  pub stop-IsSound : keys nxt ≡ l.sentinel → IsSound l cut keys
  stop-IsSound e = record {
    cut_lt = held.cut_bound;
    in_order = held.ordered;
    no_gap = λ i j a b c d f. elim (same_or j hole) [
      | inl y ↦
          let d' =
            subst
              (λ r. ring_position l.capacity cut (l.hash (keys i)) ≤ ring_position l.capacity cut r)
              y d in
          let f' =
            subst (λ r. ring_position l.capacity cut r < ring_position l.capacity cut i) y f in
          let (ahead_le, hole_lt_next) = held.ahead i a c d' f' in
          let apart : nxt ≢ hole =
            λ z. omega (arith, ap (ring_position l.capacity cut) z, hole_lt_next) in
          let behind : nxt ≢ i = λ z. c (sym (ap keys z) ∙ e) in
          let strict : ring_position l.capacity cut nxt < ring_position l.capacity cut i =
            strictly ahead_le (λ z.
              behind
                (position_injective l.capacity cut nxt i held.cut_bound held.next_bound a z)) in
          absurd (held.gap i nxt a held.next_bound c (omega arith) strict apart e)
      | inr y ↦ held.gap i j a b c d f y
    ];
    distinct = held.once;
  }

  -- ... or once it has wrapped around the cut.
  pub wrapped-IsSound :
      ring_position l.capacity cut nxt ≤ ring_position l.capacity cut hole → IsSound l cut keys
  wrapped-IsSound w = record {
    cut_lt = held.cut_bound;
    in_order = held.ordered;
    no_gap = λ i j a b c d f. elim (same_or j hole) [
      | inl y ↦
          let d' =
            subst
              (λ r. ring_position l.capacity cut (l.hash (keys i)) ≤ ring_position l.capacity cut r)
              y d in
          let f' =
            subst (λ r. ring_position l.capacity cut r < ring_position l.capacity cut i) y f in
          let (_, hole_lt_next) = held.ahead i a c d' f' in absurd (not_both w hole_lt_next)
      | inr y ↦ held.gap i j a b c d f y
    ];
    distinct = held.once;
  }
