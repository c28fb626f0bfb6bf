-- ===== src/Generator.antt =====
-- The generators, game/machines/GeneratorSystem.cpp: one entity of the view of the registry. The fuel
-- values, a table that is loaded from the content, are a function. What the clients are told is an
-- event with the entity's charge; the other numbers of an update and the display values are left out.
pub mod Fuel
mod Tests
use gtnh_platform.Base.{
  ℕ, ◌-◌, Bool, true, false, not, ◌&&◌, ◌||◌, Option, none, some, List, [], ◌∷◌, ◌++◌, ◌==◌,
  if◌then◌else◌,
}
use gtnh_platform.Base.Int.{ℤ, pos, ◌-ℤ◌, leb_ℤ, min_ℤ}
use gtnh_platform.Inventory.{Slot}
use gtnh_platform.Energy.{EnergyStorage, produce_energy, is_full}

-- `EnergyType`
pub data EnergyType : Type 0 where
  electricity : EnergyType
  heat : EnergyType
  steam : EnergyType
  rotation : EnergyType

abbrev pub is_steam : EnergyType → Bool
is_steam steam = true
is_steam t = false

abbrev pub is_rotation : EnergyType → Bool
is_rotation rotation = true
is_rotation t = false

-- The components of a generator and its entries of `burnEnergy_` (0 when it has none) and `burnFuel_`.
pub record Generator : Type 0 where
  pub is_generator : Bool
  pub type : EnergyType
  pub energy : EnergyStorage
  pub slots : List Slot
  pub remaining : ℤ
  pub burn_fuel : Option ℕ

-- `has_pipe` and `has_fluid`: whether the clients are set.
pub record GeneratorSystem : Type 0 where
  pub fuel_value : ℕ → Option ℤ
  pub steam_id : ℕ
  pub has_pipe : Bool
  pub has_fluid : Bool

-- The update of the energy node, of the steam node, and of the block, with the charge.
pub data Update : Type 0 where
  energy_update : ℤ → Update
  steam_update : ℤ → Update
  block_update : ℤ → List Slot → Update

abbrev pub told : Bool → Update → List Update
told b u = if b then u ∷ [] else []

-- What the loop over the slots burns: the slots after it, the value and the item.
pub record Burnt : Type 0 where
  pub slots_left : List Slot
  pub burnt_value : ℤ
  pub burnt_item : ℕ

abbrev pub after_slot : Slot → Option Burnt → Option Burnt
after_slot s none = none
after_slot s (some b) = some (record b { slots_left = s ∷ b.slots_left })

pub burn_first : (ℕ → Option ℤ) → List Slot → Option Burnt
burn_first fuel [] = none
burn_first fuel (s ∷ ss) =
    let later = after_slot s (burn_first fuel ss) in
    if s.count == 0 then later else elim (fuel s.item_id) [
      | none ↦ later
      | some v ↦ some (record {
        slots_left = record s { count = s.count - 1 } ∷ ss;
        burnt_value = v;
        burnt_item = s.item_id;
      })
    ]

-- The generator after the search for fuel.
pub refuel : (ℕ → Option ℤ) → Generator → Generator
unfolding burn_first
refuel fuel g =
    if leb_ℤ g.remaining (pos 0)
    then elim (burn_first fuel g.slots) [
      | none ↦ g
      | some b ↦ record g {
        slots = b.slots_left;
        remaining = b.burnt_value;
        burn_fuel = some b.burnt_item;
      }
    ]
    else g

-- Production from what remains of the fuel, and the end of a burn.
pub produce : Generator → Generator
unfolding produce_energy
produce g =
    let made = produce_energy g.energy (min_ℤ g.energy.max_output g.remaining) in
    let left = g.remaining -ℤ made.0 in
    if leb_ℤ left (pos 0)
    then record g { energy = made.1; remaining = pos 0; burn_fuel = none }
    else record g { energy = made.1; remaining = left }

-- The updates that a generator of steam sends before anything else.
pub steam_nodes : GeneratorSystem → Generator → List Update
steam_nodes s g =
    told (is_steam g.type && s.has_pipe) (energy_update g.energy.current)
    ++ told (is_steam g.type && s.has_fluid) (steam_update g.energy.current)

-- The updates after production.
pub produced_nodes : GeneratorSystem → Generator → List Update
produced_nodes s g =
    (told (s.has_pipe && not (is_rotation g.type)) (energy_update g.energy.current)
      ++ told (is_steam g.type && s.has_pipe && s.has_fluid) (steam_update g.energy.current))
    ++ (block_update g.energy.current g.slots ∷ [])

-- A generator with data that the tick can use, and room for energy.
pub can_run : Generator → Bool
unfolding is_full
can_run g =
    not (leb_ℤ g.energy.capacity (pos 0) || leb_ℤ g.energy.max_output (pos 0))
    && not (is_full g.energy)

-- One entity in `tick`: the generator after it, and the updates.
pub tick_generator : GeneratorSystem → Generator → Generator × List Update
unfolding refuel produce steam_nodes produced_nodes can_run
tick_generator s g =
    let fuelled = refuel s.fuel_value g in
    let after = produce fuelled in
    if not g.is_generator || (is_steam g.type && (s.steam_id == 0))
    then (g, [])
    else (if not (can_run g)
        then (g, steam_nodes s g)
        else (if leb_ℤ fuelled.remaining (pos 0)
            then (fuelled, steam_nodes s g)
            else (after, steam_nodes s g ++ produced_nodes s after)))

-- `tick`
unfoldable pub tick_generators : GeneratorSystem → List Generator → List Generator × List Update
unfolding tick_generator
tick_generators s [] = ([], [])
tick_generators s (g ∷ gs) =
    let first = tick_generator s g in
    let rest = tick_generators s gs in (first.0 ∷ rest.0, first.1 ++ rest.1)
