-- ===== src/OpenMap/Closed.antt =====
-- The inner loop of `erase` closes the hole: it ends in a sound table with the same entries.
use gtnh_platform.Base.{
  ℕ, zero, suc, ◌+◌, ◌<◌, ◌≤◌, ◌≡◌, ◌≢◌, inl, inr, sym, ap, subst, ◌∙◌, none, some, List, length,
  true, false, arith, Bool-cases,
}
use gtnh_platform.OpenMap.{Layout, next, MapEntry, key_at, on_path, shift}
use gtnh_platform.OpenMap.Positions.{ring_position, position_lt, position_injective, next_position}
use gtnh_platform.OpenMap.Slots.{get-within, key_at-get}
use gtnh_platform.OpenMap.Sound.{
  IsLayout, IsSound, IsHoled, same_or, strictly, stop-IsSound, wrapped-IsSound,
}
use gtnh_platform.OpenMap.Shift.{keep-IsHoled, hole_behind, move-IsHoled}
use gtnh_platform.OpenMap.Moves.{
  IsSame, IsSame-refl, IsSame-trans, shift-stop, shift-move, shift-keep, moved, at_hole, at_next,
  elsewhere, move-IsSame,
}

none_below : {a : ℕ} → a < 0 → ⊥
none_below h = omega arith

-- The rounds left for the next slot of the scan, as long as it has not come to the cut.
around :
    (l : Layout) (cut hole nxt n : ℕ)
    → (ring_position l.capacity cut hole < ring_position l.capacity cut nxt
        → l.capacity ≤ suc n + ring_position l.capacity cut nxt)
    → cut < l.capacity
    → hole < l.capacity
    → nxt < l.capacity
    → hole ≢ nxt
    → ring_position l.capacity cut hole < ring_position l.capacity cut (next l nxt)
    → l.capacity ≤ n + ring_position l.capacity cut (next l nxt)
around l cut hole nxt n fuel a b c apart h = elim (next_position l.capacity cut nxt a c) [
  | inl step ↦
      let apart' : ring_position l.capacity cut hole ≢ ring_position l.capacity cut nxt =
        λ z. apart (position_injective l.capacity cut hole nxt a b c z) in
      let le : ring_position l.capacity cut hole ≤ ring_position l.capacity cut nxt =
        omega (arith, step, h) in
      omega (arith, step, fuel (strictly le apart'))
  | inr (_, first) ↦
      absurd (none_below (subst (λ r. ring_position l.capacity cut hole < r) first h))
]

around_moved :
    (l : Layout) (cut nxt n : ℕ)
    → l.capacity ≤ suc n + ring_position l.capacity cut nxt
    → cut < l.capacity
    → nxt < l.capacity
    → ring_position l.capacity cut nxt < ring_position l.capacity cut (next l nxt)
    → l.capacity ≤ n + ring_position l.capacity cut (next l nxt)
around_moved l cut nxt n fuel a c h = elim (next_position l.capacity cut nxt a c) [
  | inl step ↦ omega (arith, step, fuel)
  | inr (_, first) ↦ absurd (none_below (subst (λ r. ring_position l.capacity cut nxt < r) first h))
]

over : (a b c : ℕ) → b < c → (a < b → c ≤ 0 + b) → b ≤ a
over a b c h fuel = ground (arith, fuel)

module _ {V : Type 0} (l : Layout) where
  module _ (laid : IsLayout l) (v : V) (cut : ℕ) where
    -- When the scan is long enough to reach the cut, the loop closes the hole.
    pub shift_lem :
        (n : ℕ) (es : List (MapEntry V)) (hole nxt : ℕ)
        → length es ≡ l.capacity
        → IsHoled l cut (key_at l es) hole nxt
        → (ring_position l.capacity cut hole < ring_position l.capacity cut nxt
            → l.capacity ≤ n + ring_position l.capacity cut nxt)
        → IsSame l es (shift l v es hole nxt n) × IsSound l cut (key_at l (shift l v es hole nxt n))
    unfolding shift
    shift_lem zero es hole nxt sized held fuel = (
      IsSame-refl l es,
      wrapped-IsSound l cut (key_at l es) hole nxt held (
          over (ring_position l.capacity cut hole) (ring_position l.capacity cut nxt) l.capacity
            (position_lt l.capacity cut nxt held.cut_bound held.next_bound) fuel),
    )
    shift_lem (suc n) es hole nxt sized held fuel =
        let (e, there) = get-within es nxt (omega (arith, sized, held.next_bound)) in
        let (f, here) = get-within es hole (omega (arith, sized, held.hole_lt)) in
        let key = key_at-get l es nxt there in
        elim (same_or e.key l.sentinel) [
          | inl y ↦
              subst (λ fs. IsSame l es fs × IsSound l cut (key_at l fs))
                (sym (shift-stop l v es hole nxt n there y))
                (IsSame-refl l es, stop-IsSound l cut (key_at l es) hole nxt held (key ∙ y))
          | inr y ↦
              let full : key_at l es nxt ≢ l.sentinel = λ z. y (sym key ∙ z) in
              let apart : hole ≢ nxt = λ z. full (ap (key_at l es) (sym z) ∙ held.hole_empty) in
              elim (Bool-cases (on_path (l.hash e.key) hole nxt)) [
                | inl on ↦
                    let empty = sym (key_at-get l es hole here) ∙ held.hole_empty in
                    let m = moved l v es hole nxt e f apart there y here empty in
                    let on' : on_path (l.hash (key_at l es nxt)) hole nxt ≡ true =
                      ap (λ k. on_path (l.hash k) hole nxt) key ∙ on in
                    let same = move-IsSame l v es hole nxt e f apart there y here empty in
                    let at_h =
                      key_at-get l m hole (at_hole l v es hole nxt e f apart there y here empty)
                      ∙ sym key in
                    let at_n =
                      key_at-get l m nxt (at_next l v es hole nxt e f apart there y here empty) in
                    let others : (j : ℕ) → j ≢ hole → j ≢ nxt → key_at l m j ≡ key_at l es j =
                      λ j a b.
                        ap (λ o. elim o [ none ↦ l.sentinel | some g ↦ g.key ])
                          (elsewhere l v es hole nxt e f apart there y here empty j a b) in
                    let held' =
                      move-IsHoled l laid cut (key_at l es) hole nxt held (key_at l m) full on' at_h
                        at_n others in
                    let behind =
                      hole_behind l laid cut (key_at l es) hole nxt held (key_at l m) full on' at_h
                        at_n others in
                    let (rest, sound) =
                      shift_lem n m nxt (next l nxt) (same.same_length ∙ sized) held'
                        (around_moved l cut nxt n (fuel behind) held.cut_bound held.next_bound) in
                    subst (λ fs. IsSame l es fs × IsSound l cut (key_at l fs))
                      (sym (shift-move l v es hole nxt n there y on))
                      (IsSame-trans l es m (shift l v m nxt (next l nxt) n) same rest, sound)
                | inr off ↦
                    let off' : on_path (l.hash (key_at l es nxt)) hole nxt ≡ false =
                      ap (λ k. on_path (l.hash k) hole nxt) key ∙ off in
                    let held' = keep-IsHoled l laid cut (key_at l es) hole nxt held full off' in
                    subst (λ fs. IsSame l es fs × IsSound l cut (key_at l fs))
                      (sym (shift-keep l v es hole nxt n there y off))
                      (shift_lem n es hole (next l nxt) sized held' (
                        around l cut hole nxt n fuel held.cut_bound held.hole_lt held.next_bound
                          apart))
              ]
        ]
