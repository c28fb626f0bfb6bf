-- ===== src/Generator/Tests.antt =====
-- Tests and examples for generators.
use gtnh_platform.Base.{
  ℕ, ◌≡◌, refl, true, false, Option, none, some, List, [], ◌∷◌, arith, ◌==◌, if◌then◌else◌,
}
use gtnh_platform.Base.Int.{ℤ, pos, ◌+ℤ◌, ◌-ℤ◌}
use gtnh_platform.Inventory.{Slot}
use gtnh_platform.Energy.{EnergyStorage, produce_energy, fitting, is_full}
use gtnh_platform.Energy.Bounds.{IsCharged}
use gtnh_platform.Generator.{
  Generator, GeneratorSystem, heat, tick_generator, refuel, produce, burn_first, can_run,
  steam_nodes, produced_nodes, energy_update, block_update,
}
use gtnh_platform.Generator.Fuel.{IsBalanced, tick_generator-IsBalanced, HasValues}

-- coal has the id 2 and burns for 50
abbrev coal_only : ℕ → Option ℤ
coal_only i = if i == 2 then some (pos 50) else none

abbrev two_coals : List Slot
two_coals =
    record { item_id = 9; count = 1; meta = 0 } ∷ record { item_id = 2; count = 2; meta = 0 } ∷ []

abbrev one_coal : List Slot
one_coal =
    record { item_id = 9; count = 1; meta = 0 } ∷ record { item_id = 2; count = 1; meta = 0 } ∷ []

abbrev storage : ℕ → EnergyStorage
storage n = record { capacity = pos 100; current = pos n; max_input = pos 0; max_output = pos 32 }

abbrev cold : Generator
cold = record {
  is_generator = true;
  type = heat;
  energy = storage 5;
  slots = two_coals;
  remaining = pos 0;
  burn_fuel = none;
}

abbrev lit : Generator
lit = record {
  is_generator = true;
  type = heat;
  energy = storage 37;
  slots = one_coal;
  remaining = pos 18;
  burn_fuel = some 2;
}

abbrev coal_system : GeneratorSystem
coal_system = record { fuel_value = coal_only; steam_id = 0; has_pipe = true; has_fluid = false }

is_lit :
    tick_generator coal_system cold
    ≡ (lit, energy_update (pos 37) ∷ block_update (pos 37) one_coal ∷ [])
unfolding tick_generator refuel produce burn_first can_run steam_nodes produced_nodes produce_energy
    fitting is_full ◌+ℤ◌ ◌-ℤ◌
is_lit = refl

coal_only-values : HasValues coal_only
coal_only-values i v e = ground arith

cold-IsCharged : IsCharged cold.energy
cold-IsCharged = record { low = omega arith; high = omega arith }

tick_generator-IsBalanced_example :
    (v : ℤ) × IsBalanced coal_only cold (tick_generator coal_system cold).0 v
tick_generator-IsBalanced_example =
    tick_generator-IsBalanced coal_system cold coal_only-values cold-IsCharged (omega arith)
