-- ===== src/Energy/Transformer/Balance.antt =====
-- The energy that a transformer's tick moves.
use native.Mathlib.Nat.{div-add-mod', mod-lt, pow-suc}
use gtnh_platform.Base.{
  ap, ◌^◌, sym, subst, ℕ, zero, suc, ◌+◌, ◌*◌, ◌/◌, ◌%◌, ◌≤◌, ◌<◌, ◌≡◌, refl, inl, inr, Bool, true,
  false, ◌&&◌, Option, none, some, arith, Bool-cases, if◌then◌else◌,
}
use gtnh_platform.Base.Int.{
  ℤ, pos, negsuc, ◌+ℤ◌, ◌-ℤ◌, ◌≤ℤ◌, ◌<ℤ◌, ltb_ℤ, quot, times, int_laws, eq_of_parts,
}
use gtnh_platform.Energy.{EnergyStorage}
use gtnh_platform.Energy.Transformer.{
  TransformerComponent, Transformed, idle, tier_voltage, packets_in, send, step_up_tick,
  step_down_tick, tick_transformer,
}

abbrev pub amount_sent : Option ℤ → ℤ
amount_sent none = pos 0
amount_sent (some a) = a

pub plus_zero : (a : ℤ) → a ≡ a +ℤ pos 0
plus_zero a = eq_of_parts a (a +ℤ pos 0) (omega int_laws)

regroup : (a b x : ℤ) → (a +ℤ (b -ℤ x)) +ℤ x ≡ a +ℤ b
regroup a b x = eq_of_parts ((a +ℤ (b -ℤ x)) +ℤ x) (a +ℤ b) (omega int_laws)

tick_up :
    (e : EnergyStorage) (t : TransformerComponent)
    → t.step_up ≡ true
    → tick_transformer e t ≡ step_up_tick e t
unfolding tick_transformer
tick_up e t u = ap (λ (b : Bool). if b then step_up_tick e t else step_down_tick e t) u

pub tick_down :
    (e : EnergyStorage) (t : TransformerComponent)
    → t.step_up ≡ false
    → tick_transformer e t ≡ step_down_tick e t
unfolding tick_transformer
tick_down e t u = ap (λ (b : Bool). if b then step_up_tick e t else step_down_tick e t) u

-- The charge, the buffer and what has been sent.
abbrev pub held_total : Transformed → ℤ
held_total r = (r.energy.current +ℤ r.component.buffer) +ℤ amount_sent r.sent

send-total :
    (e : EnergyStorage) (t : TransformerComponent) → held_total (send e t) ≡ e.current +ℤ t.buffer
unfolding send
send-total e t = elim (Bool-cases (ltb_ℤ t.buffer (pos (tier_voltage t.output_tier)))) [
  | inl y ↦ rw y (sym (plus_zero (e.current +ℤ t.buffer)))
  | inr y ↦ rw y (regroup e.current t.buffer _)
]

lost_at :
    (q m r v : ℕ)
    → m < r
    → 1 ≤ v
    → (q * (r * v) ≤ (q * r + m) * v) × ((q * r + m) * v < q * (r * v) + r * v)
lost_at q m r v h k =
    let split : (q * r + m) * v ≡ q * (r * v) + m * v = grind arith in
    let less : m * v < r * v = grind arith in (omega (arith, split), omega (arith, split, less))

lost :
    (n r v : ℕ) → 1 ≤ r → 1 ≤ v → ((n / r) * (r * v) ≤ n * v) × (n * v < (n / r) * (r * v) + r * v)
lost n r v h k =
    subst (λ x. ((n / r) * (r * v) ≤ x * v) × (x * v < (n / r) * (r * v) + r * v))
      (div-add-mod' n r) (lost_at (n / r) (n % r) r v (mod-lt n h) k)

quot_ratio : (r v : ℕ) → 1 ≤ v → (r * v) / v ≡ r
quot_ratio r v h = grind arith

pow_pos : (n : ℕ) → 1 ≤ 4 ^ n
pow_pos zero = omega arith
pow_pos (suc n) = omega (arith, pow-suc 4 n, pow_pos n)

pub voltage_pos : (tier : ℕ) → 1 ≤ tier_voltage tier
voltage_pos tier = omega (arith, pow_pos tier)

packets_lost :
    (p : ℤ) (r v : ℕ)
    → 1 ≤ r
    → 1 ≤ v
    → pos 0 <ℤ p
    → (times (quot p r) (r * v) ≤ℤ times p v)
      × (times p v <ℤ (times (quot p r) (r * v) +ℤ pos (r * v)))
unfolding quot times
packets_lost (pos n) r v h k l =
    let x = lost n r v h k in (omega (arith, x.0), omega (int_laws, x.1))
packets_lost (negsuc n) r v h k l = ground arith

pub ltb_ℤ→lt : (a c : ℤ) → ltb_ℤ a c ≡ true → a <ℤ c
ltb_ℤ→lt a c h = ground arith

and_left : (a b : Bool) → (a && b) ≡ true → a ≡ true
and_left a b h = ground arith

step_up-fired :
    (e : EnergyStorage) (t : TransformerComponent) (fire : Bool)
    → (ltb_ℤ (pos 0) (packets_in e t) && ltb_ℤ t.buffer (times t.max_output 4)) ≡ fire
    → step_up_tick e t ≡ (
        if fire
        then send
            (record e { current = e.current -ℤ times (packets_in e t) (tier_voltage t.input_tier) })
            (record t {
              buffer =
                  t.buffer
                  +ℤ times
                      (quot
                        (packets_in e t)
                        (tier_voltage t.output_tier / tier_voltage t.input_tier))
                      (tier_voltage t.output_tier);
            })
        else idle e t)
unfolding step_up_tick
step_up-fired e t fire y = rw y refl

moved_bounds :
    (a b p x : ℤ) (w : ℕ)
    → x ≤ℤ p
    → p <ℤ (x +ℤ pos w)
    → (((a -ℤ p) +ℤ (b +ℤ x)) ≤ℤ (a +ℤ b)) × ((a +ℤ b) <ℤ (((a -ℤ p) +ℤ (b +ℤ x)) +ℤ pos w))
moved_bounds a b p x w h k = (omega int_laws, omega int_laws)

-- Over a step-up tick, charge, buffer and what is sent add up to no more than charge and buffer did,
-- and less than one output packet is lost, given that the output voltage is a multiple of the input
-- voltage.
pub step_up_bounds :
    (e : EnergyStorage) (t : TransformerComponent) (r : ℕ)
    → t.step_up ≡ true
    → 1 ≤ r
    → tier_voltage t.output_tier ≡ r * tier_voltage t.input_tier
    → let total = held_total (tick_transformer e t) in
      (total ≤ℤ (e.current +ℤ t.buffer))
      × ((e.current +ℤ t.buffer) <ℤ (total +ℤ pos (tier_voltage t.output_tier)))
step_up_bounds e t r u h m =
    let v = tier_voltage t.input_tier in
    let p = packets_in e t in
    let one = voltage_pos t.input_tier in
    elim (Bool-cases (ltb_ℤ (pos 0) p && ltb_ℤ t.buffer (times t.max_output 4))) [
      | inl y ↦
          let lost_part = packets_lost p r v h one (ltb_ℤ→lt (pos 0) p (and_left _ _ y)) in
          rw
            (
              tick_up e t u,
              step_up-fired e t true y,
              send-total (record e { current = e.current -ℤ times p v })
                  (record t {
                    buffer =
                        t.buffer
                        +ℤ times (quot p (tier_voltage t.output_tier / v))
                            (tier_voltage t.output_tier);
                  }),
              m,
              quot_ratio r v one,
            )
            (moved_bounds e.current t.buffer _ _ _ lost_part.0 lost_part.1)
      | inr y ↦
          let some_volts = voltage_pos t.output_tier in
          rw (tick_up e t u, step_up-fired e t false y)
            (omega int_laws, omega (int_laws, some_volts))
    ]
