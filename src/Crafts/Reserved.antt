-- ===== src/Crafts/Reserved.antt =====
-- What the reservations of a craft add up to.
use mathlib.Core.Bool.{false≢true}
use gtnh_platform.Base.{
  ◌≡◌, refl, ◌≢◌, ◌↔◌, ◌⊎◌, subst, Bool, true, false, ◌&&◌, List, [], ◌∷◌, arith, All,
}
use gtnh_platform.Base.Int.{
  ℤ, pos, ◌+ℤ◌, ◌-ℤ◌, ◌≤ℤ◌, ◌<ℤ◌, ltb_ℤ, leb_ℤ, min_ℤ, int_laws, eq_of_parts,
}
use gtnh_platform.Crafts.{
  RequirementReservation, max_ℤ, is_accepted, PendingCraft, all_accepted, fully_accepted,
  required_of, accepted_of, required_total, accepted_total, craft_remaining,
}

-- What the responses offer: the sum of the positive amounts.
abbrev pub offered : List ℤ → ℤ
offered [] = pos 0
offered (a ∷ as') = max_ℤ a (pos 0) +ℤ offered as'

min_ℤ_lem : (a b : ℤ) → (min_ℤ a b ≤ℤ a) × (min_ℤ a b ≤ℤ b) × ((a ≤ℤ min_ℤ a b) ⊎ (b ≤ℤ min_ℤ a b))
min_ℤ_lem a b = ground arith

max_ℤ_lem : (a b : ℤ) → (a ≤ℤ max_ℤ a b) × (b ≤ℤ max_ℤ a b) × ((max_ℤ a b ≤ℤ a) ⊎ (max_ℤ a b ≤ℤ b))
max_ℤ_lem a b = ground arith

-- Every requirement asks for something.
abbrev pub Asks : RequirementReservation → Type 0
Asks r = pos 0 <ℤ r.required_amount

cons-not : {r : RequirementReservation} {rs : List RequirementReservation} → (r ∷ rs) ≢ []
cons-not e = cc

leb_ℤ_iff : (a b : ℤ) → (leb_ℤ a b ≡ true) ↔ (a ≤ℤ b)
leb_ℤ_iff a b = ground arith

ltb_ℤ-true : (a : ℤ) → pos 0 <ℤ a → ltb_ℤ (pos 0) a ≡ true
ltb_ℤ-true a h = ground arith

and_iff : (a b : Bool) → ((a && b) ≡ true) ↔ ((a ≡ true) × (b ≡ true))
and_iff a b = ground arith

one_lem :
    (r : RequirementReservation)
    → Asks r
    → (accepted_of r ≤ℤ required_of r) × ((is_accepted r ≡ true) ↔ (required_of r ≤ℤ accepted_of r))
unfolding is_accepted
one_lem r n =
    let q = max_ℤ_lem r.required_amount (pos 0) in
    let c = max_ℤ_lem r.accepted_amount (pos 0) in
    let m = min_ℤ_lem (required_of r) (max_ℤ r.accepted_amount (pos 0)) in
    let both =
      and_iff (ltb_ℤ (pos 0) r.required_amount) (leb_ℤ r.required_amount r.accepted_amount) in
    let le = leb_ℤ_iff r.required_amount r.accepted_amount in
    (
      m.0,
      (
        λ h. let enough = le.0 (both.0 h).1 in omega (arith, enough, q, c, m),
        λ h. both.1 (ltb_ℤ-true r.required_amount n, le.1 (omega (arith, h, q, c, m))),
      ),
    )

totals_lem :
    (rs : List RequirementReservation)
    → All Asks rs
    → (accepted_total rs ≤ℤ required_total rs)
      × ((all_accepted rs ≡ true) ↔ (required_total rs ≤ℤ accepted_total rs))
unfolding all_accepted accepted_total required_total
totals_lem [] n = (omega arith, (λ _. omega arith, λ _. refl))
totals_lem (r ∷ rs) n =
    let x = one_lem r n.0 in
    let y = totals_lem rs n.1 in
    let both = and_iff (is_accepted r) (all_accepted rs) in
    (
      omega (int_laws, x.0, y.0),
      (
        λ h. let a = x.1.0 (both.0 h).0 in let b = y.1.0 (both.0 h).1 in omega (int_laws, a, b),
        λ h. both.1 (x.1.1 (omega (int_laws, h, x.0, y.0)), y.1.1 (omega (int_laws, h, x.0, y.0))),
      ),
    )

-- Nothing remains of `q` once `a` has been accepted.
nothing_left : (q a : ℤ) → (max_ℤ (q -ℤ a) (pos 0) ≡ pos 0) ↔ (q ≤ℤ a)
nothing_left q a = (
  λ e.
      let top : (q -ℤ a) ≤ℤ pos 0 = subst (λ z. (q -ℤ a) ≤ℤ z) e (max_ℤ_lem (q -ℤ a) (pos 0)).0 in
      omega (int_laws, top),
  λ h.
      eq_of_parts (max_ℤ (q -ℤ a) (pos 0)) (pos 0)
        (omega (int_laws, h, max_ℤ_lem (q -ℤ a) (pos 0))),
)

-- A craft whose requirements all ask for something is fully accepted exactly when it has a
-- requirement and nothing remains.
pub fully_accepted_iff :
    (c : PendingCraft)
    → All Asks c.requirements
    → (fully_accepted c ≡ true) ↔ ((c.requirements ≢ []) × (craft_remaining c ≡ pos 0))
unfolding fully_accepted craft_remaining
fully_accepted_iff c n = go c.requirements n
  where
    go :
        (rs : List RequirementReservation)
        → All Asks rs
        → ((elim rs as (λ _. Bool) [ [] ↦ false | _ ↦ all_accepted rs ]) ≡ true)
          ↔ ((rs ≢ []) × (max_ℤ (required_total rs -ℤ accepted_total rs) (pos 0) ≡ pos 0))
    go [] n = (λ h. absurd (false≢true h), λ h. absurd (h.0 refl))
    go (r ∷ rs) n =
        let t = totals_lem (r ∷ rs) n in
        let z = nothing_left (required_total (r ∷ rs)) (accepted_total (r ∷ rs)) in
        (λ h. (cons-not, z.1 (t.1.0 h)), λ h. t.1.1 (z.0 h.1))
