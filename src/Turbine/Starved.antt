-- ===== src/Turbine/Starved.antt =====
-- A turbine that has asked for steam and is not the pending entity is never served again.
use mathlib.Core.Bool.{false≢true}
use gtnh_platform.Base.{
  ap, sym, ◌∙◌, ℕ, ◌+◌, ◌≡◌, refl, ◌≢◌, inl, inr, Bool, true, false, ◌&&◌, not, Option, none, some,
  List, [], ◌∷◌, ◌++◌, arith, Bool-cases, Option-cases, ◌==◌, ==_iff, if◌then◌else◌, All,
}
use gtnh_platform.Base.Int.{ℤ, pos, ltb_ℤ}
use gtnh_platform.Turbine.{
  Turbine, Event, fluid_request, fluid_node, energy_node, SteamTurbineSystem, with_item, wanted,
  requests, generate, steam_to_use, fluid_events, tick_turbine, tick_events, tick_all, tick,
  receive, receive_at, on_fluid_consume_response, Action, ticks, responds, step, run,
}

-- The turbines of the entity have a request on the way.
abbrev pub Asked : ℕ → Turbine → Type 0
Asked e t = t.entity ≡ e → t.request_pending ≡ true

-- The system waits for another entity's answer, or for none.
pub record Starved (e : ℕ) (s : SteamTurbineSystem) : Type 0 where
  pub asked : All (Asked e) s.turbines
  pub other : s.pending_entity ≢ some e

-- How many requests the entity sends.
abbrev pub asks : ℕ → List Event → ℕ
asks e [] = 0
asks e (fluid_request k item amount ∷ es) = (if k == e then 1 else 0) + asks e es
asks e (fluid_node k stored ∷ es) = asks e es
asks e (energy_node k stored ∷ es) = asks e es

asks-append : (e : ℕ) (xs ys : List Event) → asks e (xs ++ ys) ≡ asks e xs + asks e ys
asks-append e [] ys = omega arith
asks-append e (fluid_request k item amount ∷ xs) ys = omega (arith, asks-append e xs ys)
asks-append e (fluid_node k stored ∷ xs) ys = asks-append e xs ys
asks-append e (energy_node k stored ∷ xs) ys = asks-append e xs ys

requests-not :
    (s : SteamTurbineSystem) (t : Turbine)
    → t.request_pending ≡ true
    → requests s (with_item s t) ≡ false
unfolding requests
requests-not s t h = ground arith

generate-kept :
    (t : Turbine)
    → ((generate t).entity ≡ t.entity) × ((generate t).request_pending ≡ t.request_pending)
unfolding generate
generate-kept t = elim (Bool-cases (ltb_ℤ (pos 0) (steam_to_use t))) [
  | inl e ↦ rw e (refl, refl)
  | inr e ↦ rw e (refl, refl)
]

asked-kept :
    (s : SteamTurbineSystem) (t : Turbine) (r : Bool)
    → let u : Turbine =
        if r then record (with_item s t) { request_pending = true } else with_item s t in
      (u.entity ≡ t.entity) × (t.request_pending ≡ true → u.request_pending ≡ true)
asked-kept s t r = ground arith

tick_turbine-kept :
    (s : SteamTurbineSystem) (t : Turbine)
    → ((tick_turbine s t).entity ≡ t.entity)
      × (t.request_pending ≡ true → (tick_turbine s t).request_pending ≡ true)
unfolding tick_turbine
tick_turbine-kept s t =
    let r = requests s (with_item s t) in
    let a = asked-kept s t r in
    let g =
      generate-kept
        (if r then record (with_item s t) { request_pending = true } else with_item s t) in
    (g.0 ∙ a.0, λ h. g.1 ∙ a.1 h)

tick_turbine-Asked :
    (e : ℕ) (s : SteamTurbineSystem) (t : Turbine) → Asked e t → Asked e (tick_turbine s t)
tick_turbine-Asked e s t a = let k = tick_turbine-kept s t in λ y. k.1 (a (sym k.0 ∙ y))

does_not_ask :
    (e : ℕ) (s : SteamTurbineSystem) (t : Turbine)
    → Asked e t
    → requests s (with_item s t) ≡ true
    → t.entity ≢ e
does_not_ask e s t a q y = false≢true (sym (requests-not s t (a y)) ∙ q)

asks-one :
    (e : ℕ) (r : Bool) (k item : ℕ) (w : ℤ)
    → (r ≡ true → k ≢ e)
    → asks e (if r then fluid_request k item w ∷ [] else []) ≡ 0
asks-one e true k item w n = let d = n refl in ground arith
asks-one e false k item w n = refl

fluid_events-asks :
    (e : ℕ) (s : SteamTurbineSystem) (u : Turbine)
    → (requests s u ≡ true → u.entity ≢ e)
    → asks e (fluid_events s u) ≡ 0
fluid_events-asks e s u n = elim (Bool-cases (s.has_fluid && not (u.steam_item_id == 0))) [
  | inl y ↦
      rw (fluid_events, y, asks) (asks-one e (requests s u) u.entity u.steam_item_id (wanted u) n)
  | inr y ↦ rw (fluid_events, y, asks) refl
]

with_item-entity : (s : SteamTurbineSystem) (t : Turbine) → (with_item s t).entity ≡ t.entity
with_item-entity s t = ground arith

energy-asks : (e k : ℕ) (v : ℤ) (r : Bool) → asks e (if r then energy_node k v ∷ [] else []) ≡ 0
energy-asks e k v true = refl
energy-asks e k v false = refl

next-pending :
    (e k : ℕ) (p : Option ℕ) (r : Bool)
    → (r ≡ true → k ≢ e)
    → p ≢ some e
    → (if r then some k else p) ≢ some e
next-pending e k p true n h y = let d = n refl in ground arith
next-pending e k p false n h y = h y

tick_events-asks :
    (e : ℕ) (s : SteamTurbineSystem) (t : Turbine) → Asked e t → asks e (tick_events s t) ≡ 0
unfolding tick_events
tick_events-asks e s t a =
    let u = with_item s t in
    let f = fluid_events-asks e s u (λ q. rw (with_item-entity s t) (does_not_ask e s t a q)) in
    let g = energy-asks e t.entity (tick_turbine s t).eu_stored s.has_energy in
    omega (
      arith,
      f,
      g,
      asks-append e (fluid_events s u)
          (if s.has_energy then energy_node t.entity (tick_turbine s t).eu_stored ∷ [] else []),
    )

tick_all-Starved :
    (e : ℕ) (s : SteamTurbineSystem) (ts : List Turbine) (p : Option ℕ)
    → All (Asked e) ts
    → p ≢ some e
    → let r = tick_all s ts p in All (Asked e) r.0 × (r.1 ≢ some e) × (asks e r.2 ≡ 0)
unfolding tick_all
tick_all-Starved e s [] p a n = (tt, n, refl)
tick_all-Starved e s (t ∷ ts) p a n =
    let p' = if requests s (with_item s t) then some t.entity else p in
    let r =
      tick_all-Starved e s ts p' a.1
        (next-pending e t.entity p (requests s (with_item s t)) (does_not_ask e s t a.0) n) in
    (
      (tick_turbine-Asked e s t a.0, r.0),
      r.1,
      omega (
        arith,
        asks-append e (tick_events s t) (tick_all s ts p').2,
        tick_events-asks e s t a.0,
        r.2,
      ),
    )

none-some : {e : ℕ} → none ≢ some e
none-some q = cc

receive-entity : (c : ℤ) (t : Turbine) → (receive c t).entity ≡ t.entity
unfolding receive
receive-entity c t = elim (Bool-cases (ltb_ℤ (pos 0) c)) [ inl y ↦ rw y refl | inr y ↦ rw y refl ]

receive_at-Asked :
    (e k : ℕ) (c : ℤ) (ts : List Turbine)
    → k ≢ e
    → All (Asked e) ts
    → All (Asked e) (receive_at k c ts)
unfolding receive_at
receive_at-Asked e k c [] n a = a
receive_at-Asked e k c (t ∷ ts) n a = elim (Bool-cases (t.entity == k)) [
  | inl y ↦
      rw (receive_at, y, All)
        (λ z. absurd (n (sym ((==_iff t.entity k).0 y) ∙ sym (receive-entity c t) ∙ z)), a.1)
  | inr y ↦ rw (receive_at, y, All) (a.0, receive_at-Asked e k c ts n a.1)
]

step-Starved :
    (e : ℕ) (s : SteamTurbineSystem) (a : Action)
    → Starved e s
    → Starved e (step s a).0 × (asks e (step s a).1 ≡ 0)
unfolding step tick on_fluid_consume_response
step-Starved e s ticks v =
    let r = tick_all-Starved e s s.turbines s.pending_entity v.asked v.other in
    (record { asked = r.0; other = r.1 }, r.2)
step-Starved e s (responds c) v = elim (Option-cases s.pending_entity) [
  | inl y ↦ (rw (on_fluid_consume_response, y) v, refl)
  | inr (k, y) ↦
      let n : k ≢ e = λ q. v.other (y ∙ ap some q) in
      (
        rw (on_fluid_consume_response, y)
            (record { asked = receive_at-Asked e k c s.turbines n v.asked; other = none-some }),
        refl,
      )
]

-- Once a turbine has a request on the way while the system waits for another entity's answer, or for
-- none, it sends no request again, whatever ticks and responses follow: its pending flag is never
-- cleared.
pub run-Starved :
    (e : ℕ) (s : SteamTurbineSystem) (as' : List Action)
    → Starved e s
    → Starved e (run s as').0 × (asks e (run s as').1 ≡ 0)
unfolding run
run-Starved e s [] v = (v, refl)
run-Starved e s (a ∷ as') v =
    let b = step-Starved e s a v in
    let r = run-Starved e (step s a).0 as' b.0 in
    (r.0, omega (arith, asks-append e (step s a).1 (run (step s a).0 as').1, b.1, r.1))
