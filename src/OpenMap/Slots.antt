-- ===== src/OpenMap/Slots.antt =====
-- The slots of a table behind a write: their entries, their keys, and how many are occupied.
use gtnh_platform.Base.{
  ℕ, zero, suc, ◌+◌, ◌<◌, ◌≡◌, ◌≢◌, refl, ap, none, some, List, [], ◌∷◌, length, get_elem?, set,
  ◌==◌, if◌then◌else◌, arith,
}
use gtnh_platform.OpenMap.{Layout, MapEntry, key_at}

none_lt : (i : ℕ) → i < 0 → ⊥
none_lt i h = omega arith

module _ {A : Type 0} where
  pub get-within : (xs : List A) (i : ℕ) → i < length xs → (x : A) × (get_elem? xs i ≡ some x)
  get-within [] i h = absurd (none_lt i h)
  get-within (x ∷ xs) zero h = (x, refl)
  get-within (x ∷ xs) (suc i) h = get-within xs i (omega arith)

  pub within-get : (xs : List A) (i : ℕ) {x : A} → get_elem? xs i ≡ some x → i < length xs
  within-get [] i h = cc
  within-get (x ∷ xs) zero h = omega arith
  within-get (x ∷ xs) (suc i) h = omega (arith, within-get xs i h)

  pub set_same : (xs : List A) (i : ℕ) (v : A) → i < length xs → get_elem? (set xs i v) i ≡ some v
  set_same [] i v h = absurd (none_lt i h)
  set_same (x ∷ xs) zero v h = refl
  set_same (x ∷ xs) (suc i) v h = set_same xs i v (omega arith)

  pub set_other :
      (xs : List A) (i j : ℕ) (v : A) → i ≢ j → get_elem? (set xs i v) j ≡ get_elem? xs j
  set_other [] i j v h = refl
  set_other (x ∷ xs) zero zero v h = absurd (h refl)
  set_other (x ∷ xs) zero (suc j) v h = refl
  set_other (x ∷ xs) (suc i) zero v h = refl
  set_other (x ∷ xs) (suc i) (suc j) v h = set_other xs i j v (λ e. h (ap suc e))

module _ {V : Type 0} (l : Layout) where
  pub key_at-get :
      (es : List (MapEntry V)) (i : ℕ) {e : MapEntry V}
      → get_elem? es i ≡ some e
      → key_at l es i ≡ e.key
  key_at-get es i h = ap (λ o. elim o [ none ↦ l.sentinel | some f ↦ f.key ]) h

  pub key_at-same :
      (es : List (MapEntry V)) (i : ℕ) (e : MapEntry V)
      → i < length es
      → key_at l (set es i e) i ≡ e.key
  key_at-same es i e h = key_at-get (set es i e) i (set_same es i e h)

  pub key_at-other :
      (es : List (MapEntry V)) (i j : ℕ) (e : MapEntry V)
      → i ≢ j
      → key_at l (set es i e) j ≡ key_at l es j
  key_at-other es i j e h =
      ap (λ o. elim o [ none ↦ l.sentinel | some f ↦ f.key ]) (set_other es i j e h)

  abbrev pub occupied : List (MapEntry V) → ℕ
  occupied [] = 0
  occupied (e ∷ es) = if e.key == l.sentinel then occupied es else suc (occupied es)

  pub occupied-set :
      (es : List (MapEntry V)) (i : ℕ) (e : MapEntry V) {f : MapEntry V}
      → get_elem? es i ≡ some f
      → occupied (set es i e) + (if f.key == l.sentinel then 0 else 1)
        ≡ occupied es + (if e.key == l.sentinel then 0 else 1)
  occupied-set [] i e h = cc
  occupied-set (x ∷ xs) zero e {f} h =
      let same : x.key ≡ f.key = ap (λ o. elim o [ none ↦ l.sentinel | some g ↦ g.key ]) h in
      ground (arith, same)
  occupied-set (x ∷ xs) (suc i) e h = ground (arith, occupied-set xs i e h)

  pub occupied-full :
      (es : List (MapEntry V))
      → ((j : ℕ) → j < length es → key_at l es j ≢ l.sentinel)
      → occupied es ≡ length es
  occupied-full [] full = refl
  occupied-full (e ∷ es) full =
      let head : e.key ≢ l.sentinel = full 0 (omega arith) in
      let rest = occupied-full es (λ j h. full (suc j) (omega (arith, h))) in
      ground (arith, head, rest)
