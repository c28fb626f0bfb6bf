-- ===== src/Turbine/Tests.antt =====
-- Tests and examples for the steam turbines.
use gtnh_platform.Base.{
  ℕ, ◌≡◌, refl, ◌≢◌, Bool, true, false, Option, none, some, [], ◌∷◌, arith, All,
}
use gtnh_platform.Base.Int.{quot, pos, ◌-ℤ◌}
use gtnh_platform.Turbine.{
  Turbine, SteamTurbineSystem, ticks, responds, tick, tick_all, tick_turbine, requests, generate,
  steam_to_use, run,
}
use gtnh_platform.Turbine.Bounds.{WithinCapacity, run-WithinCapacity}
use gtnh_platform.Turbine.Starved.{Starved, asks, run-Starved}

abbrev turbine : ℕ → Bool → Turbine
turbine e asked = record {
  entity = e;
  steam_item_id = 7;
  steam_stored = pos 0;
  steam_capacity = pos 1000;
  steam_max_input = pos 32;
  eu_per_steam = 1;
  eu_stored = pos 0;
  eu_capacity = pos 10000;
  eu_max_output = pos 32;
  request_pending = asked;
}

abbrev fresh : SteamTurbineSystem
fresh = record {
  turbines = turbine 1 false ∷ turbine 2 false ∷ [];
  pending_entity = none;
  steam_item_id = 7;
  has_fluid = true;
  has_energy = false;
}

abbrev waiting : SteamTurbineSystem
waiting = record fresh { turbines = turbine 1 true ∷ turbine 2 true ∷ []; pending_entity = some 2 }

-- Two turbines ask in one tick, and the system waits for the second one's answer only.
both_ask : (tick fresh).0 ≡ waiting
unfolding tick tick_all tick_turbine requests generate steam_to_use quot ◌-ℤ◌
both_ask = refl

fresh-WithinCapacity : All WithinCapacity fresh.turbines
fresh-WithinCapacity = (
  record {
    steam_low = omega arith;
    steam_high = omega arith;
    eu_low = omega arith;
    eu_high = omega arith;
  },
  (
    record {
      steam_low = omega arith;
      steam_high = omega arith;
      eu_low = omega arith;
      eu_high = omega arith;
    },
    tt,
  ),
)

run-WithinCapacity_example :
    All WithinCapacity (run fresh (ticks ∷ responds (pos 32) ∷ ticks ∷ [])).0.turbines
run-WithinCapacity_example =
    run-WithinCapacity fresh (ticks ∷ responds (pos 32) ∷ ticks ∷ []) fresh-WithinCapacity

two_not_one : ◌≢◌ {A = Option ℕ} (some 2) (some 1)
two_not_one q = ground arith

waiting-Starved : Starved 1 waiting
waiting-Starved = record { asked = (λ y. refl, (λ y. refl, tt)); other = two_not_one }

run-Starved_example :
    Starved 1 (run waiting (responds (pos 32) ∷ ticks ∷ [])).0
    × (asks 1 (run waiting (responds (pos 32) ∷ ticks ∷ [])).1 ≡ 0)
run-Starved_example = run-Starved 1 waiting (responds (pos 32) ∷ ticks ∷ []) waiting-Starved
