-- ===== src/OpenMap/Positions.antt =====
-- Positions on the ring of slots, counted from the slot behind a chosen one, the cut: a probe path that
-- does not pass the cut is an interval of these numbers.
use gtnh_platform.Base.{
  ℕ, ◌+◌, ◌-◌, ◌%◌, ◌<◌, ◌≤◌, ◌≡◌, ◌⊎◌, ◌↔◌, inl, inr, ap, ◌∙◌, ltb, ◌==◌, true, if◌then◌else◌,
  arith, Bool-cases,
}
use native.Mathlib.Nat.{mod-lt, mod-eq_of_lt, mod_self}
use gtnh_platform.OpenMap.{on_path}

-- The slot `cut + 1` has ring_position 0, and the cut itself is last, of `n`.
pub ring_position : ℕ → ℕ → ℕ → ℕ
ring_position n cut i = if ltb cut i then i - cut - 1 else i + n - cut - 1

pub position_lt : (n cut i : ℕ) → cut < n → i < n → ring_position n cut i < n
unfolding ring_position
position_lt n cut i h k = ground arith

pub position_injective :
    (n cut i j : ℕ)
    → cut < n
    → i < n
    → j < n
    → ring_position n cut i ≡ ring_position n cut j
    → i ≡ j
unfolding ring_position
position_injective n cut i j h k m e = ground arith

pub on_path_iff :
    (n cut x hole nxt : ℕ)
    → cut < n
    → x < n
    → hole < n
    → nxt < n
    → ring_position n cut x ≤ ring_position n cut nxt
    → (on_path x hole nxt ≡ true) ↔ (
        (ring_position n cut x ≤ ring_position n cut hole)
        × (ring_position n cut hole ≤ ring_position n cut nxt))
unfolding ring_position
on_path_iff n cut x hole nxt a b c d e = ground arith

next_cases : (n i : ℕ) → i < n → ((i + 1) % n ≡ i + 1) ⊎ ((i + 1 ≡ n) × ((i + 1) % n ≡ 0))
next_cases n i h = elim (Bool-cases (ltb (i + 1) n)) [
  | inl y ↦ inl (mod-eq_of_lt (ground arith))
  | inr y ↦ let full : i + 1 ≡ n = ground arith in inr (full, ap (λ m. m % n) full ∙ mod_self n)
]

pub next_lt : (n i : ℕ) → i < n → (i + 1) % n < n
next_lt n i h = mod-lt (i + 1) (omega arith)

step_on :
    (n cut i : ℕ)
    → cut < n
    → i < n
    → (ring_position n cut (i + 1) ≡ ring_position n cut i + 1)
      ⊎ ((ring_position n cut i + 1 ≡ n) × (ring_position n cut (i + 1) ≡ 0))
unfolding ring_position
step_on n cut i h k = ground arith

step_around :
    (n cut i : ℕ)
    → cut < n
    → i + 1 ≡ n
    → (ring_position n cut 0 ≡ ring_position n cut i + 1)
      ⊎ ((ring_position n cut i + 1 ≡ n) × (ring_position n cut 0 ≡ 0))
unfolding ring_position
step_around n cut i h k = ground arith

-- A step goes one ring_position on, or from the last to the first.
pub next_position :
    (n cut i : ℕ)
    → cut < n
    → i < n
    → (ring_position n cut ((i + 1) % n) ≡ ring_position n cut i + 1)
      ⊎ ((ring_position n cut i + 1 ≡ n) × (ring_position n cut ((i + 1) % n) ≡ 0))
unfolding ring_position
next_position n cut i h k = elim (next_cases n i k) [
  | inl e ↦ rw e (step_on n cut i h k)
  | inr (full, e) ↦ rw e (step_around n cut i h full)
]

pub position_cut : (n cut : ℕ) → cut < n → ring_position n cut cut + 1 ≡ n
unfolding ring_position
position_cut n cut h = ground arith

-- The positions from another cut.
recut :
    (n cut q i : ℕ)
    → cut < n
    → q < n
    → i < n
    → ((ring_position n cut q < ring_position n cut i)
        × (ring_position n q i + ring_position n cut q + 1 ≡ ring_position n cut i))
      ⊎ ((ring_position n cut i ≤ ring_position n cut q)
          × (ring_position n q i + ring_position n cut q + 1 ≡ ring_position n cut i + n))
unfolding ring_position
recut n cut q i a b c = ground arith

-- An interval that does not have the slot `q` is one from the cut `q` on as well.
module _ (n cut q x i : ℕ) (a : cut < n) (b : q < n) (c : x < n) (d : i < n)
    (e : ring_position n cut x ≤ ring_position n cut i)
    (f : (ring_position n cut q < ring_position n cut x)
      ⊎ (ring_position n cut i < ring_position n cut q)) where
  pub recut_order : ring_position n q x ≤ ring_position n q i
  recut_order =
      let at_x = recut n cut q x a b c in
      let at_i = recut n cut q i a b d in ground (arith, at_x, at_i)

  pub recut_inside :
      (j : ℕ)
      → j < n
      → ring_position n q x ≤ ring_position n q j
      → ring_position n q j < ring_position n q i
      → (ring_position n cut x ≤ ring_position n cut j)
        × (ring_position n cut j < ring_position n cut i)
  recut_inside j k g h =
      let at_x = recut n cut q x a b c in
      let at_i = recut n cut q i a b d in
      let at_j = recut n cut q j a b k in
      let bound_i = position_lt n cut i a d in
      let bound_j = position_lt n cut j a k in
      let bound_x = position_lt n cut x a c in
      ground (arith, at_x, at_i, at_j, bound_i, bound_j, bound_x)

-- The cut from which a slot is the first.
abbrev pub cut_before : ℕ → ℕ → ℕ
cut_before n i = if i == 0 then n - 1 else i - 1

pub cut_before_lem :
    (n i : ℕ) → i < n → (cut_before n i < n) × (ring_position n (cut_before n i) i ≡ 0)
unfolding ring_position
cut_before_lem n i h = ground arith
