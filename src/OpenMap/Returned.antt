-- ===== src/OpenMap/Returned.antt =====
-- What the probe loops return: the slot of the key, the first empty slot, or nothing when all is full.
use gtnh_platform.Base.{
  ℕ, zero, suc, ◌+◌, ◌<◌, ◌≤◌, ◌≡◌, ◌≢◌, ◌⊎◌, inl, inr, sym, ap, subst, ◌∙◌, none, some, List,
  length, get_elem?, arith,
}
use gtnh_platform.OpenMap.{Layout, next, MapEntry, key_at, insert_slot, find_from, erase_slot}
use gtnh_platform.OpenMap.Positions.{
  ring_position, position_lt, position_injective, next_position, next_lt,
}
use gtnh_platform.OpenMap.Slots.{get-within}
use gtnh_platform.OpenMap.Sound.{same_or, strictly, not_both}
use gtnh_platform.OpenMap.Search.{
  find_from-hit, find_from-stop, find_from-pass, insert_slot-hit, insert_slot-pass, erase_slot-hit,
  erase_slot-pass, last_below,
}

value_of : {V : Type 0} {u v : V} → some u ≡ some v → u ≡ v
value_of h = cc

shorter : {a b : ℕ} → a < 0 + b → a < b
shorter h = omega arith

no_value : {V W : Type 0} {v : V} → none ≡ some v → W
no_value h = cc

pub entry_of :
    {V : Type 0} {x : MapEntry V} {k : ℕ} {v : V}
    → x.key ≡ k
    → x.value ≡ v
    → x ≡ record { key = k; value = v }
entry_of z w = cc

module _ {V : Type 0} (l : Layout) (es : List (MapEntry V)) (sized : length es ≡ l.capacity)
    (k : ℕ) where
  pub find_from-some :
      (m idx : ℕ) {v : V}
      → idx < l.capacity
      → find_from l es k idx m ≡ some v
      → (i : ℕ) × (get_elem? es i ≡ some (record { key = k; value = v }))
  unfolding find_from
  find_from-some zero idx b h = no_value h
  find_from-some (suc m) idx {v} b h =
      let (x, at_x) = get-within es idx (omega (arith, sized, b)) in
      elim (same_or x.key k) [
        | inl z ↦
            let val : x.value ≡ v = value_of (sym (find_from-hit l es k idx m at_x z) ∙ h) in
            (idx, at_x ∙ ap (λ (e : MapEntry V). some e) (entry_of z val))
        | inr z ↦ elim (same_or x.key l.sentinel) [
          | inl w ↦ no_value (sym (find_from-stop l es k idx m at_x z w) ∙ h)
          | inr w ↦
              find_from-some m (next l idx) (next_lt l.capacity idx b)
                (sym (find_from-pass l es k idx m at_x z w) ∙ h)
        ]
      ]

  pub insert_slot-some :
      (m idx : ℕ) {q : ℕ}
      → idx < l.capacity
      → insert_slot l es k idx m ≡ some q
      → (q < l.capacity) × ((key_at l es q ≡ l.sentinel) ⊎ (key_at l es q ≡ k))
  unfolding insert_slot
  insert_slot-some zero idx b h = no_value h
  insert_slot-some (suc m) idx {q} b h =
      let at_idx : (key_at l es idx ≡ l.sentinel) ⊎ (key_at l es idx ≡ k)
          → (q < l.capacity) × ((key_at l es q ≡ l.sentinel) ⊎ (key_at l es q ≡ k)) =
        λ hit.
          let same : idx ≡ q = value_of (sym (insert_slot-hit l es k idx m hit) ∙ h) in
          (
            subst (λ r. r < l.capacity) same b,
            subst (λ r. (key_at l es r ≡ l.sentinel) ⊎ (key_at l es r ≡ k)) same hit,
          ) in
      elim (same_or (key_at l es idx) l.sentinel) [
        | inl z ↦ at_idx (inl z)
        | inr z ↦ elim (same_or (key_at l es idx) k) [
          | inl w ↦ at_idx (inr w)
          | inr w ↦
              insert_slot-some m (next l idx) (next_lt l.capacity idx b)
                (sym (insert_slot-pass l es k idx m z w) ∙ h)
        ]
      ]

  -- The slots of the path before an empty slot that is returned are occupied.
  pub insert_slot-path :
      (m idx : ℕ) {q : ℕ}
      → idx < l.capacity
      → q < l.capacity
      → key_at l es q ≡ l.sentinel
      → insert_slot l es k idx m ≡ some q
      → (j : ℕ) → j < l.capacity
      → ring_position l.capacity q idx ≤ ring_position l.capacity q j
      → ring_position l.capacity q j < ring_position l.capacity q q
      → key_at l es j ≢ l.sentinel
  unfolding insert_slot
  insert_slot-path zero idx b c empty h j j_lt d f e = no_value h
  insert_slot-path (suc m) idx {q} b c empty h j j_lt d f e =
      elim (same_or (key_at l es idx) l.sentinel) [
        | inl z ↦
            let same : idx ≡ q = value_of (sym (insert_slot-hit l es k idx m (inl z)) ∙ h) in
            let d' =
              subst (λ r. ring_position l.capacity q r ≤ ring_position l.capacity q j) same d in
            not_both d' f
        | inr z ↦ elim (same_or (key_at l es idx) k) [
          | inl w ↦
              let same : idx ≡ q = value_of (sym (insert_slot-hit l es k idx m (inr w)) ∙ h) in
              z (ap (key_at l es) same ∙ empty)
          | inr w ↦ elim (same_or idx j) [
            | inl y ↦ z (ap (key_at l es) y ∙ e)
            | inr y ↦
                let before : ring_position l.capacity q idx < ring_position l.capacity q j =
                  strictly d (λ x. y (position_injective l.capacity q idx j c b j_lt x)) in
                let step : ring_position l.capacity q (next l idx)
                    ≡ ring_position l.capacity q idx + 1 =
                  elim (next_position l.capacity q idx c b) [
                    | inl x ↦ x
                    | inr (last, _) ↦
                        absurd (last_below before (position_lt l.capacity q j c j_lt) last)
                  ] in
                insert_slot-path m (next l idx) (next_lt l.capacity idx b) c empty
                  (sym (insert_slot-pass l es k idx m z w) ∙ h) j j_lt (omega (arith, step, before))
                  f e
          ]
        ]
      ]

  -- A loop that returns nothing saw no empty slot.
  pub insert_slot-none :
      (cut m idx : ℕ)
      → cut < l.capacity
      → idx < l.capacity
      → insert_slot l es k idx m ≡ none
      → (j : ℕ) → j < l.capacity
      → ring_position l.capacity cut idx ≤ ring_position l.capacity cut j
      → ring_position l.capacity cut j < m + ring_position l.capacity cut idx
      → key_at l es j ≢ l.sentinel
  unfolding insert_slot
  insert_slot-none cut zero idx c b h j j_lt d f e = not_both d (shorter f)
  insert_slot-none cut (suc m) idx c b h j j_lt d f e =
      elim (same_or (key_at l es idx) l.sentinel) [
        | inl z ↦ no_value (sym h ∙ insert_slot-hit l es k idx m (inl z))
        | inr z ↦ elim (same_or (key_at l es idx) k) [
          | inl w ↦ no_value (sym h ∙ insert_slot-hit l es k idx m (inr w))
          | inr w ↦ elim (same_or idx j) [
            | inl y ↦ z (ap (key_at l es) y ∙ e)
            | inr y ↦
                let before : ring_position l.capacity cut idx < ring_position l.capacity cut j =
                  strictly d (λ x. y (position_injective l.capacity cut idx j c b j_lt x)) in
                let step : ring_position l.capacity cut (next l idx)
                    ≡ ring_position l.capacity cut idx + 1 =
                  elim (next_position l.capacity cut idx c b) [
                    | inl x ↦ x
                    | inr (last, _) ↦
                        absurd (last_below before (position_lt l.capacity cut j c j_lt) last)
                  ] in
                insert_slot-none cut m (next l idx) c (next_lt l.capacity idx b)
                  (sym (insert_slot-pass l es k idx m z w) ∙ h) j j_lt (omega (arith, step, before))
                  (omega (arith, step, f)) e
          ]
        ]
      ]

  pub erase_slot-some :
      (m idx : ℕ) {q : ℕ}
      → idx < l.capacity
      → erase_slot l es k idx m ≡ some q
      → (q < l.capacity) × (key_at l es q ≡ k)
  unfolding erase_slot
  erase_slot-some zero idx b h = no_value h
  erase_slot-some (suc m) idx {q} b h = elim (same_or (key_at l es idx) k) [
    | inl z ↦
        let same : idx ≡ q = value_of (sym (erase_slot-hit l es k idx m z) ∙ h) in
        (subst (λ r. r < l.capacity) same b, subst (λ r. key_at l es r ≡ k) same z)
    | inr z ↦
        erase_slot-some m (next l idx) (next_lt l.capacity idx b)
          (sym (erase_slot-pass l es k idx m z) ∙ h)
  ]
