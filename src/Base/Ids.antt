-- ===== src/Base/Ids.antt =====
-- Lists of ids: membership, and how many ids of one list are not in another.
use mathlib.Core.Path.{◌≡◌}
use mathlib.Core.Logic.{◌⊎◌, inl, inr}
use mathlib.Core.Bool.{Bool, true, false}
use mathlib.Core.List.{List, [], ◌∷◌, ◌++◌}
use Prim.Native.Nat.{ℕ, suc, ◌≤◌, ◌<◌}
use native.Mathlib.Omega.{arith}
use gtnh_platform.Base.Tests.{◌==◌, if◌then◌else◌, Bool-cases}
use gtnh_platform.Base.Lists.{length}

-- The loops that look for an id.
unfoldable pub has_id : ℕ → List ℕ → Bool
has_id id [] = false
has_id id (p ∷ ps) = if p == id then true else has_id id ps

pub has_id-append :
    (id : ℕ) (us vs : List ℕ)
    → (has_id id us ≡ true) ⊎ (has_id id vs ≡ true)
    → has_id id (us ++ vs) ≡ true
unfolding has_id
has_id-append id [] vs (inl h) = ground arith
has_id-append id [] vs (inr h) = h
has_id-append id (u ∷ us) vs (inl h) = ground (arith, has_id-append id us vs)
has_id-append id (u ∷ us) vs (inr h) = ground (arith, has_id-append id us vs)

pub has_id-one : (b : ℕ) → has_id b (b ∷ []) ≡ true
unfolding has_id
has_id-one b = ground arith

-- How many of the ids `ps` are not in `us`.
pub absent : List ℕ → List ℕ → ℕ
unfolding has_id
absent [] us = 0
absent (p ∷ ps) us = if has_id p us then absent ps us else suc (absent ps us)

absent-append_le : (ps us : List ℕ) (b : ℕ) → absent ps (us ++ (b ∷ [])) ≤ absent ps us
unfolding absent
absent-append_le [] us b = omega arith
absent-append_le (p ∷ ps) us b = ground (
  arith,
  absent-append_le ps us b,
  λ (h : has_id p us ≡ true). has_id-append p us (b ∷ []) (inl h),
)

pub absent-append_lt :
    (ps us : List ℕ) (b : ℕ)
    → has_id b ps ≡ true
    → has_id b us ≡ false
    → absent ps (us ++ (b ∷ [])) < absent ps us
unfolding absent has_id
absent-append_lt [] us b h k = ground arith
absent-append_lt (p ∷ ps) us b h k = elim (Bool-cases (p == b)) [
  | inl y ↦
      let same : p ≡ b = ground arith in
      let here : has_id p us ≡ false = rw same k in
      let now = has_id-append p us (b ∷ []) (inr (ground arith)) in
      ground (arith, here, now, absent-append_le ps us b)
  | inr y ↦ elim (Bool-cases (has_id p us)) [
    | inl z ↦
        let now = has_id-append p us (b ∷ []) (inl z) in
        ground (arith, now, absent-append_lt ps us b (ground arith) k)
    | inr z ↦ ground (arith, absent-append_lt ps us b (ground arith) k)
  ]
]

pub absent-le : (ps us : List ℕ) → absent ps us ≤ length ps
unfolding absent
absent-le [] us = omega arith
absent-le (p ∷ ps) us = ground (arith, absent-le ps us)
