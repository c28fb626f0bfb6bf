-- ===== src/Energy/Transformer.antt =====
-- The transformers, game/machines/TransformerSystem.{h,cpp} and TransformerComponent.h: what one tick
-- does to a transformer and its energy buffer. What it advertises to the pipes on its output side is
-- returned; the rest of the published nodes repeats the state.
pub mod Balance
pub mod Down
use gtnh_platform.Base.{
  ℕ, ◌+◌, ◌*◌, ◌/◌, ◌^◌, Bool, true, false, ◌&&◌, Option, none, some, if◌then◌else◌,
}
use gtnh_platform.Base.Int.{ℤ, pos, negsuc, ◌+ℤ◌, ◌-ℤ◌, ltb_ℤ, leb_ℤ, min_ℤ, quot, times}
use gtnh_platform.Energy.{EnergyStorage}

-- `std::pow(4, tier) * 8`
abbrev pub tier_voltage : ℕ → ℕ
tier_voltage tier = 4 ^ tier * 8

pub record TransformerComponent : Type 0 where
  pub input_tier : ℕ
  pub output_tier : ℕ
  pub step_up : Bool
  pub buffer : ℤ
  pub max_input : ℤ
  pub max_output : ℤ

-- A transformer's energy buffer and its component after a tick, and the energy that it advertises on
-- its output side.
pub record Transformed : Type 0 where
  pub energy : EnergyStorage
  pub component : TransformerComponent
  pub sent : Option ℤ

abbrev pub idle : EnergyStorage → TransformerComponent → Transformed
idle e t = record { energy = e; component = t; sent = none }

-- `toConsume / inputVoltage`
unfoldable pub packets_in : EnergyStorage → TransformerComponent → ℤ
packets_in e t = quot (min_ℤ t.max_input e.current) (tier_voltage t.input_tier)

-- The buffer of a step-up is emptied in whole output packets.
unfoldable pub send : EnergyStorage → TransformerComponent → Transformed
send e t =
    let volts = tier_voltage t.output_tier in
    let energy = times (quot t.buffer volts) volts in
    if ltb_ℤ t.buffer (pos volts) then idle e t else record {
      energy = e;
      component = record t { buffer = t.buffer -ℤ energy };
      sent = some energy;
    }

unfoldable pub step_up_tick : EnergyStorage → TransformerComponent → Transformed
step_up_tick e t =
    let packets = packets_in e t in
    let ratio = tier_voltage t.output_tier / tier_voltage t.input_tier in
    let out_packets = quot packets ratio in
    if ltb_ℤ (pos 0) packets && ltb_ℤ t.buffer (times t.max_output 4)
    then send (record e { current = e.current -ℤ times packets (tier_voltage t.input_tier) })
        (record t { buffer = t.buffer +ℤ times out_packets (tier_voltage t.output_tier) })
    else idle e t

unfoldable pub step_down_tick : EnergyStorage → TransformerComponent → Transformed
step_down_tick e t =
    let packets = packets_in e t in
    let actual_add = min_ℤ (e.capacity -ℤ e.current) (times packets (tier_voltage t.input_tier)) in
    if ltb_ℤ (pos 0) packets
    then record {
      energy = record e { current = e.current +ℤ actual_add };
      component = t;
      sent = some actual_add;
    }
    else idle e t

unfoldable pub tick_transformer : EnergyStorage → TransformerComponent → Transformed
tick_transformer e t = if t.step_up then step_up_tick e t else step_down_tick e t
