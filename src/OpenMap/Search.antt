-- ===== src/OpenMap/Search.antt =====
-- The probe loops of insert, find and erase: what they return, and that they reach a key that is there.
use gtnh_platform.Base.{
  ℕ, zero, suc, ◌+◌, ◌<◌, ◌≤◌, ◌≡◌, ◌≢◌, ◌⊎◌, inl, inr, refl, sym, ap, subst, ◌∙◌, none, some, List,
  length, get_elem?, true, false, ◌==◌, arith, Bool-cases,
}
use gtnh_platform.OpenMap.{Layout, next, MapEntry, key_at, insert_slot, find_from, erase_slot}
use gtnh_platform.OpenMap.Positions.{
  ring_position, position_lt, position_injective, next_position, next_lt,
}
use gtnh_platform.OpenMap.Slots.{get-within, key_at-get}
use gtnh_platform.OpenMap.Sound.{IsSound, same_or, strictly}

pub ==_false : {a b : ℕ} → a ≢ b → (a == b) ≡ false
==_false n = ground arith

pub ==_true : {a b : ℕ} → a ≡ b → (a == b) ≡ true
==_true e = ground arith

pub last_below : {a b n : ℕ} → a < b → b < n → a + 1 ≡ n → ⊥
last_below h k e = omega arith

-- One slot of each loop.
module _ {V : Type 0} (l : Layout) (es : List (MapEntry V)) (k idx m : ℕ) where
  pub find_from-hit :
      {x : MapEntry V}
      → get_elem? es idx ≡ some x
      → x.key ≡ k
      → find_from l es k idx (suc m) ≡ some x.value
  unfolding find_from
  find_from-hit h e = rw (find_from, h, ==_true e) refl

  pub find_from-stop :
      {x : MapEntry V}
      → get_elem? es idx ≡ some x
      → x.key ≢ k
      → x.key ≡ l.sentinel
      → find_from l es k idx (suc m) ≡ none
  unfolding find_from
  find_from-stop h n e = rw (find_from, h, ==_false n, ==_true e) refl

  pub find_from-pass :
      {x : MapEntry V}
      → get_elem? es idx ≡ some x
      → x.key ≢ k
      → x.key ≢ l.sentinel
      → find_from l es k idx (suc m) ≡ find_from l es k (next l idx) m
  unfolding find_from
  find_from-pass h n o = rw (find_from, h, ==_false n, ==_false o) refl

  pub insert_slot-hit :
      (key_at l es idx ≡ l.sentinel) ⊎ (key_at l es idx ≡ k)
      → insert_slot l es k idx (suc m) ≡ some idx
  unfolding insert_slot
  insert_slot-hit (inl e) = rw (insert_slot, ==_true e) refl
  insert_slot-hit (inr e) = elim (Bool-cases (key_at l es idx == l.sentinel)) [
    | inl y ↦ rw (insert_slot, y) refl
    | inr y ↦ rw (insert_slot, y, ==_true e) refl
  ]

  pub insert_slot-pass :
      key_at l es idx ≢ l.sentinel
      → key_at l es idx ≢ k
      → insert_slot l es k idx (suc m) ≡ insert_slot l es k (next l idx) m
  unfolding insert_slot
  insert_slot-pass n o = rw (insert_slot, ==_false n, ==_false o) refl

  pub erase_slot-hit : key_at l es idx ≡ k → erase_slot l es k idx (suc m) ≡ some idx
  unfolding erase_slot
  erase_slot-hit e = rw (erase_slot, ==_true e) refl

  pub erase_slot-pass :
      key_at l es idx ≢ k → erase_slot l es k idx (suc m) ≡ erase_slot l es k (next l idx) m
  unfolding erase_slot
  erase_slot-pass n = rw (erase_slot, ==_false n) refl

module _ {V : Type 0} (l : Layout) (cut : ℕ) (es : List (MapEntry V))
    (sized : length es ≡ l.capacity) (sound : IsSound l cut (key_at l es)) (i : ℕ)
    (i_lt : i < l.capacity) (e : MapEntry V) (here : get_elem? es i ≡ some e)
    (real : e.key ≢ l.sentinel) where
  abbrev at : ℕ → ℕ
  at j = ring_position l.capacity cut j

  -- A slot of the path of the key of slot `i`, but another one, has another key and is occupied.
  passed :
      (idx : ℕ)
      → idx < l.capacity
      → at (l.hash e.key) ≤ at idx
      → at idx ≤ at i
      → idx ≢ i
      → (key_at l es idx ≢ e.key)
        × (key_at l es idx ≢ l.sentinel)
        × (at (next l idx) ≡ at idx + 1)
        × (at idx < at i)
  passed idx b d f off =
      let key : key_at l es i ≡ e.key = key_at-get l es i here in
      let full : key_at l es i ≢ l.sentinel = λ z. real (sym key ∙ z) in
      let before : at idx < at i =
        strictly f (λ z. off (position_injective l.capacity cut idx i sound.cut_lt b i_lt z)) in
      let step : at (next l idx) ≡ at idx + 1 =
        elim (next_position l.capacity cut idx sound.cut_lt b) [
          | inl y ↦ y
          | inr (last, _) ↦
              absurd (last_below before (position_lt l.capacity cut i sound.cut_lt i_lt) last)
        ] in
      (
        λ z. off (sym (sound.distinct i idx i_lt b full (key ∙ sym z))),
        sound.no_gap i idx i_lt b full (subst (λ r. at (l.hash r) ≤ at idx) (sym key) d) before,
        step,
        before,
      )

  pub find_from-there :
      (m idx : ℕ)
      → idx < l.capacity
      → at (l.hash e.key) ≤ at idx
      → at idx ≤ at i
      → at i < m + at idx
      → find_from l es e.key idx m ≡ some e.value
  unfolding find_from
  find_from-there zero idx b d f g = ground arith
  find_from-there (suc m) idx b d f g = elim (same_or idx i) [
    | inl y ↦ find_from-hit l es e.key idx m (ap (get_elem? es) y ∙ here) refl
    | inr y ↦
        let (other, full, step, before) = passed idx b d f y in
        let (x, at_x) = get-within es idx (omega (arith, sized, b)) in
        let key_x = key_at-get l es idx at_x in
        let rest =
          find_from-there m (next l idx) (next_lt l.capacity idx b) (omega (arith, step, d))
            (omega (arith, step, before)) (omega (arith, step, g)) in
        find_from-pass l es e.key idx m at_x (λ z. other (key_x ∙ z)) (λ z. full (key_x ∙ z)) ∙ rest
  ]

  pub insert_slot-there :
      (m idx : ℕ)
      → idx < l.capacity
      → at (l.hash e.key) ≤ at idx
      → at idx ≤ at i
      → at i < m + at idx
      → insert_slot l es e.key idx m ≡ some i
  unfolding insert_slot
  insert_slot-there zero idx b d f g = ground arith
  insert_slot-there (suc m) idx b d f g = elim (same_or idx i) [
    | inl y ↦
        let key = ap (key_at l es) y ∙ key_at-get l es i here in
        insert_slot-hit l es e.key idx m (inr key) ∙ ap some y
    | inr y ↦
        let (other, full, step, before) = passed idx b d f y in
        let rest =
          insert_slot-there m (next l idx) (next_lt l.capacity idx b) (omega (arith, step, d))
            (omega (arith, step, before)) (omega (arith, step, g)) in
        insert_slot-pass l es e.key idx m full other ∙ rest
  ]

  pub erase_slot-there :
      (m idx : ℕ)
      → idx < l.capacity
      → at (l.hash e.key) ≤ at idx
      → at idx ≤ at i
      → at i < m + at idx
      → erase_slot l es e.key idx m ≡ some i
  unfolding erase_slot
  erase_slot-there zero idx b d f g = ground arith
  erase_slot-there (suc m) idx b d f g = elim (same_or idx i) [
    | inl y ↦
        let key = ap (key_at l es) y ∙ key_at-get l es i here in
        erase_slot-hit l es e.key idx m key ∙ ap some y
    | inr y ↦
        let (other, full, step, before) = passed idx b d f y in
        let rest =
          erase_slot-there m (next l idx) (next_lt l.capacity idx b) (omega (arith, step, d))
            (omega (arith, step, before)) (omega (arith, step, g)) in
        erase_slot-pass l es e.key idx m other ∙ rest
  ]
