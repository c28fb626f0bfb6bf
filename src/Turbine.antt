-- ===== src/Turbine.antt =====
-- The steam turbines, game/machines/SteamTurbineSystem.{h,cpp} and SteamTurbineComponent.h. The view of
-- the registry is a list, an entity is a number, and the quantities, `int32_t` in the source, are
-- integers that do not overflow. What the clients are told is an event; positions and the machine's
-- block id, the same for each turbine, are left out.
pub mod Bounds
pub mod Starved
mod Tests
use gtnh_platform.Base.{
  ℕ, ◌+◌, ◌*◌, ◌/◌, Bool, true, false, ◌&&◌, not, Option, none, some, List, [], ◌∷◌, ◌++◌, ◌==◌,
  if◌then◌else◌,
}
use gtnh_platform.Base.Int.{min_ℤ, quot, times, ℤ, pos, negsuc, ◌+ℤ◌, ◌-ℤ◌, ltb_ℤ, leb_ℤ}

-- `SteamTurbineComponent`, with its entity; `eu_per_steam` is not negative.
pub record Turbine : Type 0 where
  pub entity : ℕ
  pub steam_item_id : ℕ
  pub steam_stored : ℤ
  pub steam_capacity : ℤ
  pub steam_max_input : ℤ
  pub eu_per_steam : ℕ
  pub eu_stored : ℤ
  pub eu_capacity : ℤ
  pub eu_max_output : ℤ
  pub request_pending : Bool

-- A fluid request of an entity for an amount, or the update of an entity's steam or energy node.
pub data Event : Type 0 where
  fluid_request : ℕ → ℕ → ℤ → Event
  fluid_node : ℕ → ℤ → Event
  energy_node : ℕ → ℤ → Event

-- `has_fluid` and `has_energy`: whether the clients are set.
pub record SteamTurbineSystem : Type 0 where
  pub turbines : List Turbine
  pub pending_entity : Option ℕ
  pub steam_item_id : ℕ
  pub has_fluid : Bool
  pub has_energy : Bool

abbrev pub at_least_1 : ℕ → ℕ
at_least_1 k = if k == 0 then 1 else k

abbrev pub with_item : SteamTurbineSystem → Turbine → Turbine
with_item s t = if t.steam_item_id == 0 then record t { steam_item_id = s.steam_item_id } else t

-- The amount that a turbine asks for.
abbrev pub wanted : Turbine → ℤ
wanted t = min_ℤ t.steam_max_input (t.steam_capacity -ℤ t.steam_stored)

-- Whether a turbine, its steam item set, sends a request in this tick.
pub requests : SteamTurbineSystem → Turbine → Bool
requests s t =
    s.has_fluid
    && not (t.steam_item_id == 0)
    && ltb_ℤ t.steam_stored t.steam_capacity
    && not t.request_pending
    && ltb_ℤ (pos 0) (wanted t)

pub steam_to_use : Turbine → ℤ
unfolding quot
steam_to_use t =
    min_ℤ (min_ℤ t.steam_stored t.eu_max_output)
      (quot (t.eu_capacity -ℤ t.eu_stored) (at_least_1 t.eu_per_steam))

-- Steam into energy.
pub generate : Turbine → Turbine
unfolding steam_to_use times
generate t =
    let used = steam_to_use t in
    if ltb_ℤ (pos 0) used
    then record t {
      steam_stored = t.steam_stored -ℤ used;
      eu_stored = t.eu_stored +ℤ times used t.eu_per_steam;
    }
    else t

abbrev pub fluid_events : SteamTurbineSystem → Turbine → List Event
fluid_events s t =
    if s.has_fluid && not (t.steam_item_id == 0)
    then fluid_node t.entity t.steam_stored
      ∷ (if requests s t then fluid_request t.entity t.steam_item_id (wanted t) ∷ [] else [])
    else []

-- The loop body of `tick`: the turbine after it.
pub tick_turbine : SteamTurbineSystem → Turbine → Turbine
unfolding requests generate
tick_turbine s t0 =
    let t = with_item s t0 in
    generate (if requests s t then record t { request_pending = true } else t)

-- What the body tells the clients.
pub tick_events : SteamTurbineSystem → Turbine → List Event
unfolding requests tick_turbine
tick_events s t0 =
    fluid_events s (with_item s t0)
    ++ (if s.has_energy then energy_node t0.entity (tick_turbine s t0).eu_stored ∷ [] else [])

-- The loop of `tick`: the turbines, the pending entity and the events.
pub tick_all : SteamTurbineSystem → List Turbine → Option ℕ → List Turbine × Option ℕ × List Event
unfolding tick_turbine tick_events
tick_all s [] pending = ([], pending, [])
tick_all s (t ∷ ts) pending =
    let r = tick_all s ts (if requests s (with_item s t) then some t.entity else pending) in
    (tick_turbine s t ∷ r.0, r.1, tick_events s t ++ r.2)

pub tick : SteamTurbineSystem → SteamTurbineSystem × List Event
unfolding tick_all
tick s =
    let r = tick_all s s.turbines s.pending_entity in
    (record s { turbines = r.0; pending_entity = r.1 }, r.2)

-- What a response does to the turbine that it is for.
pub receive : ℤ → Turbine → Turbine
receive consumed t =
    let t' : Turbine = record t { request_pending = false } in
    if ltb_ℤ (pos 0) consumed
    then record t' { steam_stored = min_ℤ t.steam_capacity (t.steam_stored +ℤ consumed) }
    else t'

pub receive_at : ℕ → ℤ → List Turbine → List Turbine
unfolding receive
receive_at e consumed [] = []
receive_at e consumed (t ∷ ts) =
    if t.entity == e then receive consumed t ∷ ts else t ∷ receive_at e consumed ts

pub on_fluid_consume_response : SteamTurbineSystem → ℤ → SteamTurbineSystem
unfolding receive_at
on_fluid_consume_response s consumed = elim s.pending_entity [
  | none ↦ s
  | some e ↦ record s { turbines = receive_at e consumed s.turbines; pending_entity = none }
]

-- What can happen to the system.
pub data Action : Type 0 where
  ticks : Action
  responds : ℤ → Action

unfoldable pub step : SteamTurbineSystem → Action → SteamTurbineSystem × List Event
unfolding tick on_fluid_consume_response
step s ticks = tick s
step s (responds consumed) = (on_fluid_consume_response s consumed, [])

unfoldable pub run : SteamTurbineSystem → List Action → SteamTurbineSystem × List Event
unfolding step
run s [] = (s, [])
run s (a ∷ as') = let r = step s a in let q = run r.0 as' in (q.0, r.1 ++ q.1)
