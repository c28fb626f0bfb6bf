-- ===== src/Energy/Transformer/Down.antt =====
-- The energy that a step-down tick adds to its own charge and advertises.
use native.Mathlib.Nat.{div-add-mod', mod-lt}
use gtnh_platform.Base.{
  ℕ, zero, suc, ◌+◌, ◌*◌, ◌/◌, ◌≤◌, ◌<◌, ◌≡◌, ◌↔◌, ◌⊎◌, refl, inl, inr, false, some, arith,
  Bool-cases,
}
use gtnh_platform.Base.Int.{
  ℤ, pos, negsuc, ◌+ℤ◌, ◌-ℤ◌, ◌≤ℤ◌, ◌<ℤ◌, ltb_ℤ, min_ℤ, quot, times, int_laws, eq_of_parts,
}
use gtnh_platform.Energy.{EnergyStorage}
use gtnh_platform.Energy.Bounds.{IsCharged}
use gtnh_platform.Energy.Transformer.{
  TransformerComponent, Transformed, idle, tier_voltage, packets_in, step_down_tick,
  tick_transformer,
}
use gtnh_platform.Energy.Transformer.Balance.{
  amount_sent, plus_zero, tick_down, voltage_pos, ltb_ℤ→lt,
}

whole_part : (n v : ℕ) → 1 ≤ v → (n / v * v ≤ n) × (n < n / v * v + v)
whole_part n v h = (omega (arith, div-add-mod' n v), omega (arith, div-add-mod' n v, mod-lt n h))

more_than_none : (q v : ℕ) → 1 ≤ q → v ≤ q * v
more_than_none q v h = grind arith

one_of : (q v n : ℕ) → v ≤ n → n < q * v + v → 1 ≤ q
one_of zero v n h k = omega (arith, h, k)
one_of (suc q) v n h k = omega arith

packets_at : (q n v : ℕ) → q * v ≤ n → n < q * v + v → ((1 ≤ q) ↔ (v ≤ n)) × ((1 ≤ q) → v ≤ q * v)
packets_at q n v h k = (
  (λ a. omega (arith, more_than_none q v a, h), λ a. one_of q v n a k),
  λ a. more_than_none q v a,
)

omega_none : (v n : ℕ) → pos v ≤ℤ negsuc n → 1 ≤ v → ⊥
omega_none v n a h = omega (arith, a, h)

below_zero : (k : ℕ) → pos 0 <ℤ (pos 0 -ℤ pos k) → ⊥
below_zero k h = omega (int_laws, h)

-- There is a whole packet exactly when the amount is at least one; the packets are then at least one,
-- and no more than the amount, by less than one.
packets_lem :
    (x : ℤ) (v : ℕ)
    → 1 ≤ v
    → ((pos 0 <ℤ quot x v) ↔ (pos v ≤ℤ x))
      × ((pos 0 <ℤ quot x v)
          → (pos v ≤ℤ times (quot x v) v)
            × (times (quot x v) v ≤ℤ x)
            × (x <ℤ (times (quot x v) v +ℤ pos v)))
unfolding quot times
packets_lem (pos n) v h =
    let w = whole_part n v h in
    let q = packets_at (n / v) n v w.0 w.1 in
    (
      (λ a. omega (arith, q.0.0 (omega (arith, a))), λ a. omega (arith, q.0.1 (omega (arith, a)))),
      λ a. (omega (arith, q.1 (omega (arith, a))), omega (arith, w.0), omega (int_laws, w.1)),
    )
packets_lem (negsuc n) v h =
    ((λ a. absurd (below_zero _ a), λ a. absurd (omega_none v n a h)), λ a. absurd (below_zero _ a))

-- What a step-down tick of the buffer `e` does.
pub record IsDown (e : EnergyStorage) (t : TransformerComponent) (r : Transformed) : Type 0 where
  pub added : r.energy.current ≡ e.current +ℤ amount_sent r.sent
  pub high : r.energy.current ≤ℤ e.capacity
  pub positive : pos 0 ≤ℤ amount_sent r.sent
  pub in_charge : amount_sent r.sent ≤ℤ e.current
  pub in_limit : (amount_sent r.sent ≡ pos 0) ⊎ (amount_sent r.sent ≤ℤ t.max_input)
  pub fires : (pos 0 <ℤ amount_sent r.sent) ↔ (
      (pos (tier_voltage t.input_tier) ≤ℤ t.max_input)
      × (pos (tier_voltage t.input_tier) ≤ℤ e.current)
      × (e.current <ℤ e.capacity))
  pub most :
      (r.energy.current ≡ e.capacity)
      ⊎ (min_ℤ t.max_input e.current <ℤ (amount_sent r.sent +ℤ pos (tier_voltage t.input_tier)))

below_both : (a b c : ℤ) → (a ≤ℤ min_ℤ b c) ↔ ((a ≤ℤ b) × (a ≤ℤ c))
below_both a b c = elim (Bool-cases (ltb_ℤ c b)) [
  | inl y ↦ rw y (ground arith)
  | inr y ↦ rw y (ground arith)
]

-- The smaller of two amounts is one of them, and below both.
min_cases : (a b : ℤ) → ((min_ℤ a b ≡ a) ⊎ (min_ℤ a b ≡ b)) × (min_ℤ a b ≤ℤ a) × (min_ℤ a b ≤ℤ b)
min_cases a b = elim (Bool-cases (ltb_ℤ b a)) [
  | inl y ↦ rw y (ground arith)
  | inr y ↦ rw y (ground arith)
]

le_trans : (a b c : ℤ) → a ≤ℤ b → b ≤ℤ c → a ≤ℤ c
le_trans a b c h k = omega arith

lt_trans : (a b c : ℤ) → a <ℤ b → b ≤ℤ c → a <ℤ c
lt_trans a b c h k = omega arith

pos_of_le : (v : ℕ) (p : ℤ) → 1 ≤ v → pos v ≤ℤ p → pos 0 <ℤ p
pos_of_le v p h k = omega (arith, h, k)

pos_low : (p : ℤ) → pos 0 <ℤ p → pos 0 ≤ℤ p
pos_low p h = omega arith

none_left : (v : ℕ) (x : ℤ) → ¬ (pos v ≤ℤ x) → x <ℤ (pos 0 +ℤ pos v)
none_left v x h = grind int_laws

filled : (a b : ℤ) → a +ℤ (b -ℤ a) ≡ b
filled a b = eq_of_parts (a +ℤ (b -ℤ a)) b (omega int_laws)

some_room : (a b : ℤ) → pos 0 <ℤ (b -ℤ a) → a <ℤ b
some_room a b h = omega int_laws

room_pos : (a b : ℤ) → a <ℤ b → pos 0 <ℤ (b -ℤ a)
room_pos a b h = omega int_laws

room_low : (a b : ℤ) → a ≤ℤ b → pos 0 ≤ℤ (b -ℤ a)
room_low a b h = omega int_laws

in_room : (x a b : ℤ) → x ≤ℤ (b -ℤ a) → (a +ℤ x) ≤ℤ b
in_room x a b h = omega int_laws

not_fired : (q : ℤ) → ltb_ℤ (pos 0) q ≡ false → ¬ (pos 0 <ℤ q)
not_fired q y h = ground arith

fired-IsDown :
    (e : EnergyStorage) (t : TransformerComponent) (p : ℤ)
    → IsCharged e
    → pos (tier_voltage t.input_tier) ≤ℤ p
    → p ≤ℤ min_ℤ t.max_input e.current
    → min_ℤ t.max_input e.current <ℤ (p +ℤ pos (tier_voltage t.input_tier))
    → let a = min_ℤ (e.capacity -ℤ e.current) p in
      IsDown e t
        (record { energy = record e { current = e.current +ℤ a }; component = t; sent = some a })
fired-IsDown e t p c l h k =
    let volts = voltage_pos t.input_tier in
    let below = (below_both p t.max_input e.current).0 h in
    let room = e.capacity -ℤ e.current in
    let least = min_cases room p in
    let some_left = room_low e.current e.capacity c.high in
    let packet = pos_of_le (tier_voltage t.input_tier) p volts l in
    record {
      added = refl;
      high = in_room (min_ℤ room p) e.current e.capacity least.1;
      positive = elim least.0 [ inl f ↦ rw f some_left | inr f ↦ rw f (pos_low p packet) ];
      in_charge = le_trans (min_ℤ room p) p e.current least.2 below.1;
      in_limit = inr (le_trans (min_ℤ room p) p t.max_input least.2 below.0);
      fires = (
        λ a. (
          le_trans (pos (tier_voltage t.input_tier)) p t.max_input l below.0,
          le_trans (pos (tier_voltage t.input_tier)) p e.current l below.1,
          some_room e.current e.capacity (lt_trans (pos 0) (min_ℤ room p) room a least.1),
        ),
        λ a. elim least.0 [
          | inl f ↦ rw f (room_pos e.current e.capacity a.2)
          | inr f ↦ rw f packet
        ],
      );
      most = elim least.0 [
        | inl f ↦ inl (rw f (filled e.current e.capacity))
        | inr f ↦ inr (rw f k)
      ];
    }

idle-IsDown :
    (e : EnergyStorage) (t : TransformerComponent)
    → IsCharged e
    → ¬ (pos (tier_voltage t.input_tier) ≤ℤ min_ℤ t.max_input e.current)
    → IsDown e t (idle e t)
idle-IsDown e t c n = record {
  added = plus_zero e.current;
  high = c.high;
  positive = omega int_laws;
  in_charge = c.low;
  in_limit = inl refl;
  fires = (
    λ h. absurd (omega (arith, h)),
    λ h.
        absurd
          (n ((below_both (pos (tier_voltage t.input_tier)) t.max_input e.current).1 (h.0, h.1))),
  );
  most = inr (none_left _ _ n);
}

step_down_tick-IsDown :
    (e : EnergyStorage) (t : TransformerComponent) → IsCharged e → IsDown e t (step_down_tick e t)
unfolding step_down_tick packets_in
step_down_tick-IsDown e t c =
    let v = tier_voltage t.input_tier in
    let p = packets_lem (min_ℤ t.max_input e.current) v (voltage_pos t.input_tier) in
    elim (Bool-cases (ltb_ℤ (pos 0) (packets_in e t))) [
      | inl y ↦
          let fired : pos 0 <ℤ packets_in e t = ltb_ℤ→lt (pos 0) (packets_in e t) y in
          let moved = p.1 fired in
          rw y (fired-IsDown e t (times (packets_in e t) v) c moved.0 moved.1 moved.2)
      | inr y ↦ rw y (idle-IsDown e t c (λ h. not_fired (packets_in e t) y (p.0.1 h)))
    ]

-- A step-down tick of a buffer whose charge is between 0 and its capacity adds to the charge exactly
-- the energy that it advertises on its output side. The charge stays within the capacity; that
-- energy is not negative, no more than the charge was and, unless it is 0, no more than the limit
-- on the input. There is some exactly when one input packet fits the limit and the charge and the
-- buffer is not full, and it fills the buffer or leaves less than one input packet of what limit
-- and charge allow.
pub tick_transformer-IsDown :
    (e : EnergyStorage) (t : TransformerComponent)
    → t.step_up ≡ false
    → IsCharged e
    → IsDown e t (tick_transformer e t)
tick_transformer-IsDown e t d c = rw (tick_down e t d) (step_down_tick-IsDown e t c)
