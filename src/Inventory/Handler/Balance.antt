-- ===== src/Inventory/Handler/Balance.antt =====
-- What the handler does to the number of items that the player and the open container hold.
use gtnh_platform.Base.{
  ℕ, ◌+◌, ◌≡◌, refl, ◌≢◌, inl, inr, Bool, true, false, Option, none, some, List, arith, Bool-cases,
  ◌==◌, All, ap, sym, ◌⊎◌, ◌∙◌,
}
use mathlib.Core.Bool.{false≢true}
use gtnh_platform.Inventory.{
  Slot, InventoryRef, InvActionType, ContainerClick, click, drop, quick_move, drag_place,
  pickup_all, unknown, put_at, action_of_byte,
}
use gtnh_platform.Inventory.Rules.{
  Outcome, apply_container_click, dispatch, apply_quick_move, to_player, to_container, apply_click,
  apply_drag_place, apply_drop, apply_pickup_all, within_player, write_back,
}
use gtnh_platform.Inventory.Merge.{amount, total, IsByte}
use gtnh_platform.Inventory.Held.{total_in, AreBytes}
use gtnh_platform.Inventory.Conservation.{apply_container_click-conserves}
use gtnh_platform.Inventory.Unchanged.{apply_container_click-unchanged}
use gtnh_platform.Inventory.Handler.{
  ContainerSession, is_machine, slots_ref, write_ref, Player, Wiring, handle_player,
  handle_container, container_or, settle, container_view, Effect,
}

-- The items of one kind that the player's slots, cursor and open session hold.
abbrev pub session_total : ℕ → ℕ → Option ContainerSession → ℕ
session_total i m none = 0
session_total i m (some s) = total i m (slots_ref s)

abbrev pub owned : ℕ → ℕ → Player → ℕ
owned i m p = total i m p.slots + amount i m p.cursor + session_total i m p.session

abbrev pub SessionBytes : Option ContainerSession → Type 0
SessionBytes none = Unit {0}
SessionBytes (some s) = All IsByte (slots_ref s)

pub record PlayerBytes (p : Player) : Type 0 where
  pub in_slots : All IsByte p.slots
  pub in_cursor : IsByte p.cursor
  pub in_session : SessionBytes p.session

pub slots_ref-write_ref : (s : ContainerSession) (l : List Slot) → slots_ref (write_ref s l) ≡ l
unfolding slots_ref write_ref is_machine
slots_ref-write_ref s l = ground arith

abbrev is_open : Option (List Slot) → Bool
is_open none = false
is_open (some _) = true

dispatch-is_open :
    (a : InvActionType) (inv : InventoryRef) (cursor : Slot) (c : ContainerClick)
    → is_open (dispatch a inv cursor c).inv.container ≡ is_open inv.container
unfolding dispatch apply_click apply_drag_place apply_drop apply_pickup_all apply_quick_move
    within_player write_back to_container to_player put_at
dispatch-is_open click inv cursor c = ground arith
dispatch-is_open quick_move inv cursor c = ground arith
dispatch-is_open drop inv cursor c = ground arith
dispatch-is_open drag_place inv cursor c = ground arith
dispatch-is_open pickup_all inv cursor c = ground arith
dispatch-is_open unknown inv cursor c = refl

rules-is_open :
    (inv : InventoryRef) (cursor : Slot) (c : ContainerClick)
    → is_open (apply_container_click inv cursor c).inv.container ≡ is_open inv.container
unfolding apply_container_click
rules-is_open inv cursor c = dispatch-is_open (action_of_byte c.action_type) inv cursor c

closed_total : (i m : ℕ) (o : Option (List Slot)) → is_open o ≡ false → total_in i m o ≡ 0
closed_total i m none h = refl
closed_total i m (some _) h = cc

closed_slots : (o : Option (List Slot)) (l : List Slot) → is_open o ≡ false → container_or o l ≡ l
closed_slots none l h = refl
closed_slots (some _) l h = cc

open_total :
    (i m : ℕ) (o : Option (List Slot)) (l : List Slot)
    → is_open o ≡ true
    → total i m (container_or o l) ≡ total_in i m o
open_total i m none l h = cc
open_total i m (some _) l h = refl

-- The balance of the two ways in which a container click ends.
pub settle-owned :
    (i m : ℕ) (p : Player) (s : ContainerSession) (o : Outcome) (es : List Effect)
    → (o.changed ≡ true
        → total i m o.inv.player + total i m (slots_ref s) + amount i m o.cursor ≡ owned i m p)
    → (o.changed ≡ false → total i m (slots_ref s) ≡ session_total i m p.session)
    → owned i m (settle p s o es).0 ≡ owned i m p
unfolding settle
settle-owned i m p s o es h k = elim (Bool-cases o.changed) [
  | inl e ↦ rw e (omega (arith, h e))
  | inr e ↦ rw e (omega (arith, k e))
]

-- The rules as the handler calls them, on the player's slots and an optional container.
abbrev pub view : Player → Option (List Slot) → InventoryRef
view p l = record { player = p.slots; container = l }

view-AreBytes :
    (p : Player) (l : List Slot)
    → PlayerBytes p
    → All IsByte l
    → AreBytes (view p (some l)) p.cursor
view-AreBytes p l b bl = record {
  in_player = b.in_slots;
  in_container = bl;
  in_cursor = b.in_cursor;
}

closed_AreBytes : (p : Player) → PlayerBytes p → AreBytes (view p none) p.cursor
closed_AreBytes p b = record { in_player = b.in_slots; in_container = tt; in_cursor = b.in_cursor }

module _ (i m : ℕ) (known : i ≢ 0) (p : Player) (c : ContainerClick) (b : PlayerBytes p) where
  pub handle_player-owned :
      action_of_byte c.action_type ≢ drop → owned i m (handle_player p c).0 ≡ owned i m p
  unfolding handle_player
  handle_player-owned n =
      let inv = view p none in
      let ab : AreBytes inv p.cursor = record {
        in_player = b.in_slots;
        in_container = tt;
        in_cursor = b.in_cursor;
      } in
      let kept = apply_container_click-conserves i m known inv p.cursor c ab n in
      elim (Bool-cases (apply_container_click inv p.cursor c).changed) [
        | inl yes' ↦ rw yes' (
            omega (
              arith,
              kept,
              closed_total i m (apply_container_click inv p.cursor c).inv.container
                  (rules-is_open inv p.cursor c),
            ))
        | inr no' ↦ rw no' refl
      ]

  pub handle_container-other :
      (w : Wiring) (s : ContainerSession)
      → p.session ≡ some s
      → action_of_byte c.action_type ≢ drop
      → (c.container_id == 1) ≡ false
      → owned i m (handle_container w p s c).0 ≡ owned i m p
  unfolding handle_container container_view
  handle_container-other w s e n h =
      let inv = view p none in
      let o = apply_container_click inv p.cursor c in
      let s' = write_ref s (container_or o.inv.container (slots_ref s)) in
      let closed = rules-is_open inv p.cursor c in
      let kept = apply_container_click-conserves i m known inv p.cursor c (closed_AreBytes p b) n in
      let kept' = ap (total i m) (
        slots_ref-write_ref s (container_or o.inv.container (slots_ref s))
        ∙ closed_slots o.inv.container (slots_ref s) closed) in
      let gone = closed_total i m o.inv.container closed in
      let was : session_total i m p.session ≡ total i m (slots_ref s) = ap (session_total i m) e in
      rw h (
        settle-owned i m p s' o _ (λ _. omega (arith, kept, kept', gone, was))
          (λ _. omega (arith, kept', was)))

  pub handle_container-one :
      (w : Wiring) (s : ContainerSession)
      → p.session ≡ some s
      → action_of_byte c.action_type ≢ drop
      → (c.container_id == 1) ≡ true
      → let o = apply_container_click (view p (some (slots_ref s))) p.cursor c in
        (o.changed ≡ true) ⊎ (action_of_byte c.action_type ≢ quick_move)
        → owned i m (handle_container w p s c).0 ≡ owned i m p
  unfolding handle_container container_view
  handle_container-one w s e n h k =
      let inv = view p (some (slots_ref s)) in
      let o = apply_container_click inv p.cursor c in
      let bs : All IsByte (slots_ref s) = rw (ap SessionBytes e) at b.in_session in
      let ab = view-AreBytes p (slots_ref s) b bs in
      let kept = apply_container_click-conserves i m known inv p.cursor c ab n in
      let left = open_total i m o.inv.container (slots_ref s) (rules-is_open inv p.cursor c) in
      let s' = write_ref s (container_or o.inv.container (slots_ref s)) in
      let kept' : total i m (slots_ref s') ≡ total_in i m o.inv.container =
        ap (total i m) (slots_ref-write_ref s (container_or o.inv.container (slots_ref s)))
        ∙ left in
      let was : session_total i m p.session ≡ total i m (slots_ref s) = ap (session_total i m) e in
      rw h (
        settle-owned i m p s' o _ (λ _. omega (arith, kept, kept', was))
          (λ f. elim k [
            | inl t ↦ absurd (false≢true (sym f ∙ t))
            | inr q ↦
                (let same = apply_container_click-unchanged inv p.cursor c ab q f in
                  omega
                    (arith, kept', was, ap (λ (v : InventoryRef). total_in i m v.container) same.0))
          ]))
