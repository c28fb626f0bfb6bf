-- ===== src/Generator/Fuel.antt =====
-- The energy of the fuel that a generator burns goes to its charge or is kept to be burnt.
use gtnh_platform.Base.{
  ℕ, ◌-◌, ◌≡◌, refl, ◌≢◌, ◌⊎◌, inl, inr, ap, subst, sym, ◌∙◌, true, not, ◌&&◌, ◌||◌, Option, none,
  some, List, [], ◌∷◌, arith, Bool-cases, Option-cases, leb→le, ◌+◌, ◌==◌,
}
use gtnh_platform.Base.Int.{ℤ, pos, ◌+ℤ◌, ◌-ℤ◌, ◌≤ℤ◌, leb_ℤ, min_ℤ, pos_part, neg_part, int_laws}
use gtnh_platform.Inventory.{Slot}
use gtnh_platform.Energy.{fitting, produce_energy}
use gtnh_platform.Energy.Bounds.{IsCharged, min_ℤ_le, fitting_bounds}
use gtnh_platform.Generator.{
  Generator, GeneratorSystem, Burnt, burn_first, refuel, produce, can_run, is_steam, tick_generator,
}

-- One item with a fuel value is taken from a slot that is not empty.
pub data IsOneBurnt (fuel : ℕ → Option ℤ) : List Slot → List Slot → ℤ → Type 0 where
  here :
      (s : Slot) (ss : List Slot) (v : ℤ)
      → s.count ≢ 0
      → fuel s.item_id ≡ some v
      → IsOneBurnt fuel (s ∷ ss) (record s { count = s.count - 1 } ∷ ss) v
  further :
      (s : Slot) (ss ts : List Slot) (v : ℤ)
      → IsOneBurnt fuel ss ts v
      → IsOneBurnt fuel (s ∷ ss) (s ∷ ts) v

-- No item was burnt for nothing, or one item for its value.
abbrev pub IsFuelled : (ℕ → Option ℤ) → Generator → Generator → ℤ → Type 0
IsFuelled fuel g g' v = ((g'.slots ≡ g.slots) × (v ≡ pos 0)) ⊎ IsOneBurnt fuel g.slots g'.slots v

burn_cases :
    (fuel : ℕ → Option ℤ) (ss : List Slot)
    → (burn_first fuel ss ≡ none)
      ⊎ ((b : Burnt) × (burn_first fuel ss ≡ some b)
          × IsOneBurnt fuel ss b.slots_left b.burnt_value
          × ((i : ℕ) × (fuel i ≡ some b.burnt_value)))
unfolding burn_first
burn_cases fuel [] = inl refl
burn_cases fuel (s ∷ ss) = elim (Bool-cases (s.count == 0)) [
  | inl y ↦ elim (burn_cases fuel ss) [
    | inl n ↦ inl (rw (burn_first, y, n) refl)
    | inr (b, e, one, known) ↦ inr (
      record b { slots_left = s ∷ b.slots_left },
      rw (burn_first, y, e) refl,
      further s ss b.slots_left b.burnt_value one,
      known,
    )
  ]
  | inr y ↦ elim (Option-cases (fuel s.item_id)) [
    | inl n ↦ elim (burn_cases fuel ss) [
      | inl m ↦ inl (rw (burn_first, y, n, m) refl)
      | inr (b, e, one, known) ↦ inr (
        record b { slots_left = s ∷ b.slots_left },
        rw (burn_first, y, n, e) refl,
        further s ss b.slots_left b.burnt_value one,
        known,
      )
    ]
    | inr (v, f) ↦
        let used : s.count ≢ 0 = ground arith in
        inr (
          record {
            slots_left = record s { count = s.count - 1 } ∷ ss;
            burnt_value = v;
            burnt_item = s.item_id;
          },
          rw (burn_first, y, f) refl,
          here s ss v used f,
          (s.item_id, f),
        )
  ]
]

-- What one step keeps, when `v` is burnt in it.
abbrev pub IsBalanced : (ℕ → Option ℤ) → Generator → Generator → ℤ → Type 0
IsBalanced fuel g g' v =
    IsFuelled fuel g g' v
    × IsCharged g'.energy
    × (pos 0 ≤ℤ g'.remaining)
    × ((g'.energy.current +ℤ g'.remaining) ≡ ((g.energy.current +ℤ g.remaining) +ℤ v))

-- The values of the fuels are not negative.
abbrev pub HasValues : (ℕ → Option ℤ) → Type 0
HasValues fuel = (i : ℕ) (v : ℤ) → fuel i ≡ some v → pos 0 ≤ℤ v

nothing_burnt :
    (fuel : ℕ → Option ℤ) (g : Generator)
    → IsCharged g.energy
    → pos 0 ≤ℤ g.remaining
    → IsBalanced fuel g g (pos 0)
nothing_burnt fuel g c r = (inl (refl, refl), c, r, omega int_laws)

at_most : (a b : ℤ) → leb_ℤ a b ≡ true → a ≤ℤ b
at_most a b h = leb→le (pos_part a + neg_part b) (pos_part b + neg_part a) h

sum_done : (c r x : ℤ) → x ≤ℤ r → (r -ℤ x) ≤ℤ pos 0 → ((c +ℤ x) +ℤ pos 0) ≡ (c +ℤ r)
sum_done c r x h k = omega (int_laws, h, k)

sum_left : (c r x : ℤ) → ((c +ℤ x) +ℤ (r -ℤ x)) ≡ (c +ℤ r)
sum_left c r x = omega int_laws

left_over : (r x : ℤ) → x ≤ℤ r → pos 0 ≤ℤ (r -ℤ x)
left_over r x h = omega (int_laws, h)

produce_lem :
    (g : Generator)
    → IsCharged g.energy
    → pos 0 ≤ℤ g.remaining
    → pos 0 ≤ℤ g.energy.max_output
    → IsCharged (produce g).energy
      × (pos 0 ≤ℤ (produce g).remaining)
      × ((produce g).slots ≡ g.slots)
      × (((produce g).energy.current +ℤ (produce g).remaining) ≡ (g.energy.current +ℤ g.remaining))
unfolding produce produce_energy
produce_lem g c r o =
    let x = fitting g.energy (min_ℤ g.energy.max_output g.remaining) in
    let m = min_ℤ_le g.energy.max_output g.remaining in
    let want : pos 0 ≤ℤ min_ℤ g.energy.max_output g.remaining = ground arith in
    let f = fitting_bounds g.energy (min_ℤ g.energy.max_output g.remaining) c in
    let less = f.2 want in
    let small : fitting g.energy (min_ℤ g.energy.max_output g.remaining) ≤ℤ g.remaining =
      omega (arith, less, m.1) in
    let charged : IsCharged (produce_energy g.energy (min_ℤ g.energy.max_output g.remaining)).1 =
      record { low = omega (int_laws, c.low, f.0); high = omega (int_laws, f.1) } in
    elim (Bool-cases
      (leb_ℤ (g.remaining -ℤ fitting g.energy (min_ℤ g.energy.max_output g.remaining)) (pos 0))) [
        | inl y ↦
            rw (produce, y)
              (
                charged,
                omega arith,
                refl,
                sum_done g.energy.current g.remaining x small
                    (at_most (g.remaining -ℤ x) (pos 0) y),
              )
        | inr y ↦
            rw (produce, y)
              (
                charged,
                left_over g.remaining x small,
                refl,
                sum_left g.energy.current g.remaining x,
              )
      ]

fresh_sum : (c r v : ℤ) → pos 0 ≤ℤ r → r ≤ℤ pos 0 → (c +ℤ v) ≡ ((c +ℤ r) +ℤ v)
fresh_sum c r v h k = omega (int_laws, h, k)

refuel_lem :
    (fuel : ℕ → Option ℤ) (g : Generator)
    → HasValues fuel
    → IsCharged g.energy
    → pos 0 ≤ℤ g.remaining
    → (v : ℤ) × IsBalanced fuel g (refuel fuel g) v × ((refuel fuel g).energy ≡ g.energy)
unfolding refuel
refuel_lem fuel g values c r = elim (Bool-cases (leb_ℤ g.remaining (pos 0))) [
  | inr y ↦ (pos 0, rw (refuel, y) (nothing_burnt fuel g c r), rw (refuel, y) refl)
  | inl y ↦ elim (burn_cases fuel g.slots) [
    | inl n ↦ (pos 0, rw (refuel, y, n) (nothing_burnt fuel g c r), rw (refuel, y, n) refl)
    | inr (b, e, one, (i, known)) ↦
        let none_left = at_most g.remaining (pos 0) y in
        (
          b.burnt_value,
          rw (refuel, y, e)
              (
                inr one,
                c,
                values i b.burnt_value known,
                fresh_sum g.energy.current g.remaining b.burnt_value r none_left,
              ),
          rw (refuel, y, e) refl,
        )
  ]
]

usable : (g : Generator) → can_run g ≡ true → pos 0 ≤ℤ g.energy.max_output
unfolding can_run
usable g h = elim (Bool-cases (leb_ℤ g.energy.max_output (pos 0))) [
  | inr y ↦ ground arith
  | inl y ↦ ground arith
]

produced_balance :
    (fuel : ℕ → Option ℤ) (g t : Generator) (v : ℤ)
    → IsBalanced fuel g t v
    → pos 0 ≤ℤ t.energy.max_output
    → IsBalanced fuel g (produce t) v
produced_balance fuel g t v (burnt, c, r, sum) o =
    let (c', r', same, sum') = produce_lem t c r o in
    (
      subst (λ ss. ((ss ≡ g.slots) × (v ≡ pos 0)) ⊎ IsOneBurnt fuel g.slots ss v) (sym same) burnt,
      c',
      r',
      sum' ∙ sum,
    )

-- In a tick a generator burns at most one item. The charge and what remains of the fuel grow
-- together by exactly the item's value, the charge stays between 0 and the capacity and what
-- remains is not negative, given that this held before and that the fuels' values are not
-- negative.
pub tick_generator-IsBalanced :
    (s : GeneratorSystem) (g : Generator)
    → HasValues s.fuel_value
    → IsCharged g.energy
    → pos 0 ≤ℤ g.remaining
    → (v : ℤ) × IsBalanced s.fuel_value g (tick_generator s g).0 v
unfolding tick_generator
tick_generator-IsBalanced s g values c r =
    let still = nothing_burnt s.fuel_value g c r in
    let (v, ok, energy_same) = refuel_lem s.fuel_value g values c r in
    elim (Bool-cases (not g.is_generator || (is_steam g.type && (s.steam_id == 0)))) [
      | inl y ↦ (pos 0, rw (tick_generator, y) still)
      | inr y ↦ elim (Bool-cases (can_run g)) [
        | inr z ↦ (pos 0, rw (tick_generator, y, z) still)
        | inl z ↦ elim (Bool-cases (leb_ℤ (refuel s.fuel_value g).remaining (pos 0))) [
          | inl w ↦ (v, rw (tick_generator, y, z, w) ok)
          | inr w ↦
              let o = ap (λ e. e.max_output) energy_same in
              (
                v,
                rw (tick_generator, y, z, w)
                    (produced_balance s.fuel_value g (refuel s.fuel_value g) v ok
                      (subst (λ m. pos 0 ≤ℤ m) (sym o) (usable g z))),
              )
        ]
      ]
    ]
