-- ===== src/Energy/Tests.antt =====
-- Tests and examples for energy buffers and transformers.
use gtnh_platform.Base.{◌≡◌, refl, Bool, true, false, some, arith}
use gtnh_platform.Base.Int.{pos, ◌+ℤ◌, ◌-ℤ◌, ◌≤ℤ◌, ◌<ℤ◌, quot, times}
use gtnh_platform.Energy.{EnergyStorage}
use gtnh_platform.Energy.Bounds.{IsCharged}
use gtnh_platform.Energy.Transformer.{
  TransformerComponent, tier_voltage, tick_transformer, step_up_tick, step_down_tick, packets_in,
  send,
}
use gtnh_platform.Energy.Transformer.Balance.{held_total, step_up_bounds}
use gtnh_platform.Energy.Transformer.Down.{IsDown, tick_transformer-IsDown}

abbrev half_full : EnergyStorage
half_full = record {
  capacity = pos 4096;
  current = pos 1000;
  max_input = pos 512;
  max_output = pos 512;
}

-- From MV to HV, or back.
abbrev mv_hv : Bool → TransformerComponent
mv_hv up = record {
  input_tier = 2;
  output_tier = 3;
  step_up = up;
  buffer = pos 0;
  max_input = pos 1000;
  max_output = pos 512;
}

-- Seven packets of 128 go in, one of 512 comes out.
seven_in : tick_transformer half_full (mv_hv true) ≡ record {
  energy = record half_full { current = pos 104 };
  component = mv_hv true;
  sent = some (pos 512);
}
unfolding tick_transformer step_up_tick packets_in send quot times ◌-ℤ◌ ◌+ℤ◌
seven_in = refl

-- A step-down tick has more charge afterwards.
more_charge : (tick_transformer half_full (mv_hv false)).energy.current ≡ pos 1896
unfolding tick_transformer step_down_tick packets_in quot times ◌-ℤ◌ ◌+ℤ◌
more_charge = refl

half_full-IsCharged : IsCharged half_full
half_full-IsCharged = record { low = omega arith; high = omega arith }

tick_transformer-IsDown_example :
    IsDown half_full (mv_hv false) (tick_transformer half_full (mv_hv false))
tick_transformer-IsDown_example =
    tick_transformer-IsDown half_full (mv_hv false) refl half_full-IsCharged

step_up_bounds_example :
    let total = held_total (tick_transformer half_full (mv_hv true)) in
    (total ≤ℤ (half_full.current +ℤ pos 0))
    × ((half_full.current +ℤ pos 0) <ℤ (total +ℤ pos (tier_voltage 3)))
step_up_bounds_example = step_up_bounds half_full (mv_hv true) 4 refl (omega arith) refl
