-- ===== src/Energy/Bounds.antt =====
-- What the operations of EnergyStorage keep.
use gtnh_platform.Base.{◌≡◌, inl, inr, false, arith, Bool-cases}
use gtnh_platform.Base.Int.{ℤ, pos, ◌-ℤ◌, ◌≤ℤ◌, ltb_ℤ, min_ℤ, int_laws}
use gtnh_platform.Energy.{EnergyStorage, fitting, add_energy, produce_energy, consume_energy}

pub record IsCharged (e : EnergyStorage) : Type 0 where
  pub low : pos 0 ≤ℤ e.current
  pub high : e.current ≤ℤ e.capacity

min_ℤ_cases : (a b : ℤ) → (P : ℤ → Type 0) → P a → P b → P (min_ℤ a b)
min_ℤ_cases a b P p q = elim (Bool-cases (ltb_ℤ b a)) [ inl e ↦ rw e q | inr e ↦ rw e p ]

pub min_ℤ_le : (a b : ℤ) → (min_ℤ a b ≤ℤ a) × (min_ℤ a b ≤ℤ b)
min_ℤ_le a b = ground arith

refl_le : pos 0 ≤ℤ pos 0
refl_le = omega arith

not_below : (a : ℤ) → ltb_ℤ a (pos 0) ≡ false → pos 0 ≤ℤ a
not_below a h = ground arith

-- Between 0 and the space, and no more than a nonnegative amount.
pub fitting_bounds :
    (e : EnergyStorage) (amount : ℤ)
    → IsCharged e
    → (pos 0 ≤ℤ fitting e amount)
      × (fitting e amount ≤ℤ (e.capacity -ℤ e.current))
      × (pos 0 ≤ℤ amount → fitting e amount ≤ℤ amount)
unfolding fitting
fitting_bounds e amount c =
    let space : pos 0 ≤ℤ (e.capacity -ℤ e.current) = omega (int_laws, c.high) in
    let m = min_ℤ_le (e.capacity -ℤ e.current) amount in
    elim (Bool-cases (ltb_ℤ (min_ℤ (e.capacity -ℤ e.current) amount) (pos 0))) [
      | inl y ↦ rw y (refl_le, space, λ p. p)
      | inr y ↦ rw y (not_below (min_ℤ (e.capacity -ℤ e.current) amount) y, m.0, λ p. m.1)
    ]

-- Adding, producing and consuming keep the charge between 0 and the capacity, given limits that are
-- not negative and an amount to consume that is not negative; each returns exactly what the charge
-- changes by, which is not negative, and not more than the amount where that is not negative.
pub energy_ops-IsCharged :
    (e : EnergyStorage) (amount : ℤ)
    → IsCharged e
    → pos 0 ≤ℤ e.max_input
    → pos 0 ≤ℤ e.max_output
    → pos 0 ≤ℤ amount
    → let a = add_energy e amount in
      let p = produce_energy e amount in
      let c = consume_energy e amount in
      (IsCharged a.1 × (pos 0 ≤ℤ a.0) × (a.0 ≤ℤ amount) × (a.0 ≤ℤ e.max_input))
      × (IsCharged p.1 × (pos 0 ≤ℤ p.0) × (p.0 ≤ℤ amount))
      × (IsCharged c.1 × (pos 0 ≤ℤ c.0) × (c.0 ≤ℤ amount) × (c.0 ≤ℤ e.max_output))
unfolding add_energy produce_energy consume_energy
energy_ops-IsCharged e amount c i o n =
    let f = fitting_bounds e amount c in
    let g = min_ℤ_le (fitting e amount) e.max_input in
    let low = min_ℤ_cases (fitting e amount) e.max_input (λ x. pos 0 ≤ℤ x) f.0 i in
    let h = min_ℤ_le amount e.current in
    let k = min_ℤ_le (min_ℤ amount e.current) e.max_output in
    let taken =
      min_ℤ_cases (min_ℤ amount e.current) e.max_output (λ x. pos 0 ≤ℤ x)
        (min_ℤ_cases amount e.current (λ x. pos 0 ≤ℤ x) n c.low) o in
    let want = f.2 n in
    (
      (
        record { low = omega (int_laws, c.low, low); high = omega (int_laws, g.0, f.1) },
        low,
        omega (arith, g.0, want),
        g.1,
      ),
      (record { low = omega (int_laws, c.low, f.0); high = omega (int_laws, f.1) }, f.0, want),
      (
        record { low = omega (int_laws, k.0, h.1); high = omega (int_laws, taken, c.high) },
        taken,
        omega (arith, k.0, h.0),
        k.1,
      ),
    )
