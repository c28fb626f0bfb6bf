-- ===== src/Turbine/Bounds.antt =====
-- Steam and energy stay within a turbine's capacities.
use gtnh_platform.Base.{
  ℕ, zero, suc, ◌*◌, ◌/◌, ◌≤◌, ◌≡◌, inl, inr, Bool, true, Option, List, [], ◌∷◌, arith, Bool-cases,
  Option-cases, ◌==◌, if◌then◌else◌, All,
}
use gtnh_platform.Base.Int.{
  min_ℤ, quot, times, ℤ, pos, negsuc, ◌+ℤ◌, ◌-ℤ◌, ◌≤ℤ◌, ◌<ℤ◌, ltb_ℤ, int_laws,
}
use gtnh_platform.Turbine.{
  Turbine, SteamTurbineSystem, at_least_1, with_item, requests, steam_to_use, generate,
  tick_turbine, tick_all, tick, receive, receive_at, on_fluid_consume_response, Action, ticks,
  responds, step, run,
}

pub record WithinCapacity (t : Turbine) : Type 0 where
  pub steam_low : pos 0 ≤ℤ t.steam_stored
  pub steam_high : t.steam_stored ≤ℤ t.steam_capacity
  pub eu_low : pos 0 ≤ℤ t.eu_stored
  pub eu_high : t.eu_stored ≤ℤ t.eu_capacity

div-mul : (a n : ℕ) → 1 ≤ n → (a / n) * n ≤ a
div-mul a n h = grind arith

div-times : (u m k : ℕ) → u ≤ m / at_least_1 k → u * k ≤ m
div-times u m zero h = grind arith
div-times u m (suc k) h = grind (arith, div-mul m (suc k))

quot-times :
    (a : ℤ) (k : ℕ) (u : ℤ)
    → pos 0 ≤ℤ a
    → pos 0 <ℤ u
    → u ≤ℤ quot a (at_least_1 k)
    → (pos 0 ≤ℤ times u k) × (times u k ≤ℤ a)
unfolding quot times
quot-times (pos m) k (pos u) h p l = ground (arith, div-times u m k)
quot-times (pos m) k (negsuc u) h p l = ground arith
quot-times (negsuc m) k u h p l = ground arith

min_ℤ-le : (a c : ℤ) → (min_ℤ a c ≤ℤ a) × (min_ℤ a c ≤ℤ c)
min_ℤ-le a c = ground arith

min_ℤ-low : (a c : ℤ) → pos 0 ≤ℤ a → pos 0 ≤ℤ c → pos 0 ≤ℤ min_ℤ a c
min_ℤ-low a c h k = elim (Bool-cases (ltb_ℤ c a)) [ inl e ↦ rw e k | inr e ↦ rw e h ]

ltb_ℤ→lt : (a c : ℤ) → ltb_ℤ a c ≡ true → a <ℤ c
ltb_ℤ→lt a c h = ground arith

used-WithinCapacity :
    (t : Turbine) (u x : ℤ)
    → WithinCapacity t
    → pos 0 <ℤ u
    → u ≤ℤ t.steam_stored
    → pos 0 ≤ℤ x
    → x ≤ℤ (t.eu_capacity -ℤ t.eu_stored)
    → WithinCapacity (record t { steam_stored = t.steam_stored -ℤ u; eu_stored = t.eu_stored +ℤ x })
used-WithinCapacity t u x w p a q r = record {
  steam_low = omega (int_laws, a);
  steam_high = omega (int_laws, p, w.steam_high);
  eu_low = omega (int_laws, q, w.eu_low);
  eu_high = omega (int_laws, r);
}

generate-WithinCapacity : (t : Turbine) → WithinCapacity t → WithinCapacity (generate t)
unfolding generate steam_to_use
generate-WithinCapacity t w = elim (Bool-cases (ltb_ℤ (pos 0) (steam_to_use t))) [
  | inl e ↦
      let p = ltb_ℤ→lt (pos 0) (steam_to_use t) e in
      let space = t.eu_capacity -ℤ t.eu_stored in
      let a = min_ℤ-le t.steam_stored t.eu_max_output in
      let b =
        min_ℤ-le (min_ℤ t.steam_stored t.eu_max_output) (quot space (at_least_1 t.eu_per_steam)) in
      let room : pos 0 ≤ℤ (t.eu_capacity -ℤ t.eu_stored) = omega (int_laws, w.eu_high) in
      let q = quot-times space t.eu_per_steam (steam_to_use t) room p b.1 in
      rw (generate, e)
        (used-WithinCapacity t (steam_to_use t) (times (steam_to_use t) t.eu_per_steam) w p
          (omega (int_laws, a.0, b.0)) q.0 q.1)
  | inr e ↦ rw (generate, e) w
]

with_item-WithinCapacity :
    (s : SteamTurbineSystem) (t : Turbine) (r : Bool)
    → WithinCapacity t
    → WithinCapacity
        (if r then record (with_item s t) { request_pending = true } else with_item s t)
with_item-WithinCapacity s t r w = elim (Bool-cases (t.steam_item_id == 0)) [
  | inl e ↦ ground (arith, w.steam_low, w.steam_high, w.eu_low, w.eu_high)
  | inr e ↦ ground (arith, w.steam_low, w.steam_high, w.eu_low, w.eu_high)
]

tick_turbine-WithinCapacity :
    (s : SteamTurbineSystem) (t : Turbine) → WithinCapacity t → WithinCapacity (tick_turbine s t)
unfolding tick_turbine
tick_turbine-WithinCapacity s t w =
    generate-WithinCapacity _ (with_item-WithinCapacity s t (requests s (with_item s t)) w)

receive-WithinCapacity : (c : ℤ) (t : Turbine) → WithinCapacity t → WithinCapacity (receive c t)
unfolding receive
receive-WithinCapacity c t w = elim (Bool-cases (ltb_ℤ (pos 0) c)) [
  | inl e ↦
      let p = ltb_ℤ→lt (pos 0) c e in
      let top : pos 0 ≤ℤ t.steam_capacity = omega (int_laws, w.steam_low, w.steam_high) in
      let sum : pos 0 ≤ℤ (t.steam_stored +ℤ c) = omega (int_laws, w.steam_low, p) in
      rw (receive, e)
        (record {
          steam_low = min_ℤ-low t.steam_capacity (t.steam_stored +ℤ c) top sum;
          steam_high = (min_ℤ-le t.steam_capacity (t.steam_stored +ℤ c)).0;
          eu_low = w.eu_low;
          eu_high = w.eu_high;
        })
  | inr e ↦
      rw (receive, e)
        (record {
          steam_low = w.steam_low;
          steam_high = w.steam_high;
          eu_low = w.eu_low;
          eu_high = w.eu_high;
        })
]

receive_at-WithinCapacity :
    (e : ℕ) (c : ℤ) (ts : List Turbine)
    → All WithinCapacity ts
    → All WithinCapacity (receive_at e c ts)
unfolding receive_at
receive_at-WithinCapacity e c [] w = w
receive_at-WithinCapacity e c (t ∷ ts) w = elim (Bool-cases (t.entity == e)) [
  | inl y ↦ rw (receive_at, y, All) (receive-WithinCapacity c t w.0, w.1)
  | inr y ↦ rw (receive_at, y, All) (w.0, receive_at-WithinCapacity e c ts w.1)
]

tick_all-WithinCapacity :
    (s : SteamTurbineSystem) (ts : List Turbine) (p : Option ℕ)
    → All WithinCapacity ts
    → All WithinCapacity (tick_all s ts p).0
unfolding tick_all
tick_all-WithinCapacity s [] p w = w
tick_all-WithinCapacity s (t ∷ ts) p w =
    (tick_turbine-WithinCapacity s t w.0, tick_all-WithinCapacity s ts _ w.1)

step-WithinCapacity :
    (s : SteamTurbineSystem) (a : Action)
    → All WithinCapacity s.turbines
    → All WithinCapacity (step s a).0.turbines
unfolding step tick on_fluid_consume_response
step-WithinCapacity s ticks w = tick_all-WithinCapacity s s.turbines s.pending_entity w
step-WithinCapacity s (responds c) w = elim (Option-cases s.pending_entity) [
  | inl e ↦ rw (on_fluid_consume_response, e) w
  | inr (k, e) ↦ rw (on_fluid_consume_response, e) (receive_at-WithinCapacity k c s.turbines w)
]

-- Whatever ticks and responses happen, the steam and the energy of every turbine stay between 0 and
-- its capacities.
pub run-WithinCapacity :
    (s : SteamTurbineSystem) (as' : List Action)
    → All WithinCapacity s.turbines
    → All WithinCapacity (run s as').0.turbines
unfolding run
run-WithinCapacity s [] w = w
run-WithinCapacity s (a ∷ as') w = run-WithinCapacity (step s a).0 as' (step-WithinCapacity s a w)
