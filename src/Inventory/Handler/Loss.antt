-- ===== src/Inventory/Handler/Loss.antt =====
-- The quick move out of an open container that fits only in part. ApplyQuickMove puts the rest of
-- the stack back and returns false; the handler then keeps the container, which it has changed in
-- place, and drops its copy of the player's slots, to which the other part has gone.
use gtnh_platform.Base.{
  ℕ, ◌+◌, ◌≡◌, refl, ◌≢◌, ap, true, false, some, List, [], ◌∷◌, arith, get_elem?,
  get_elem?-set_self, set,
}
use gtnh_platform.Inventory.{Slot, blank, is_empty, ContainerClick, action_of_byte, slot_at}
use gtnh_platform.Inventory.Deal.{deal}
use gtnh_platform.Inventory.Rules.{
  open_container, apply_container_click, dispatch, apply_quick_move, to_player,
}
use gtnh_platform.Inventory.Merge.{amount, total}
use gtnh_platform.Inventory.Loops.{total-set}
use gtnh_platform.Inventory.Handler.{
  ContainerSession, Effect, slots_ref, Player, Wiring, find_session, handle, handle_container,
  container_view, settle, write_ref,
}
use gtnh_platform.Inventory.Handler.Balance.{owned, session_total, view, slots_ref-write_ref}

open_container-get :
    (l : List Slot) (k : ℕ) {t : Slot} → get_elem? l k ≡ some t → open_container (some l) ≡ some l
open_container-get [] k e = cc
open_container-get (x ∷ l) k e = refl

-- A shift-click on slot `k` of the open container.
abbrev pub shift_click : ℕ → ContainerClick
shift_click k = record { action_type = 1; button = 0; container_id = 1; slot = k }

-- The quick move that fits only in part. `r` is what is left of the stack `t` in slot `k` of the
-- container after it has been dealt out over the player's slots.
module _ (w : Wiring) (pid i m k : ℕ) (p : Player) (s : ContainerSession) (t : Slot) where
  partial_move :
      get_elem? (slots_ref s) k ≡ some t
      → is_empty t ≡ false
      → is_empty (deal p.slots t).stack ≡ false
      → apply_container_click (view p (some (slots_ref s))) p.cursor (shift_click k) ≡ record {
        changed = false;
        inv = record {
          player = (deal p.slots t).slots;
          container = some (set (set (slots_ref s) k blank) k (deal p.slots t).stack);
        };
        cursor = p.cursor;
      }
  unfolding apply_container_click dispatch apply_quick_move to_player slot_at action_of_byte
  partial_move e ne left = ground (arith, open_container-get (slots_ref s) k e)

  handle_partial :
      p.session ≡ some s
      → w.chest_sessions ≡ true
      → pid ≢ 0
      → get_elem? (slots_ref s) k ≡ some t
      → is_empty t ≡ false
      → is_empty (deal p.slots t).stack ≡ false
      → handle w pid p (shift_click k) ≡ (
        record p {
          session = some (write_ref s (set (set (slots_ref s) k blank) k (deal p.slots t).stack));
        },
        [],
      )
  unfolding handle find_session handle_container container_view settle
  handle_partial e wired known g ne left = ground (arith, partial_move g ne left)

  -- A shift-click on a stack of the open container that fits into the player's slots only in part
  -- destroys the part that fits: of every kind of item the player and the container together hold
  -- less by what the stack held more than its rest `(deal p.slots t).stack`.
  pub handle-loses_partial :
      p.session ≡ some s
      → w.chest_sessions ≡ true
      → pid ≢ 0
      → get_elem? (slots_ref s) k ≡ some t
      → is_empty t ≡ false
      → is_empty (deal p.slots t).stack ≡ false
      → i ≢ 0
      → owned i m (handle w pid p (shift_click k)).0 + amount i m t
        ≡ owned i m p + amount i m (deal p.slots t).stack
  handle-loses_partial e wired known g ne left item =
      let ref = slots_ref s in
      let rest = (deal p.slots t).stack in
      let emptied = set ref k blank in
      let after =
        ap (λ (r : Player × List Effect). owned i m r.0) (handle_partial e wired known g ne left) in
      let shown = ap (total i m) (slots_ref-write_ref s (set emptied k rest)) in
      let was = ap (session_total i m) e in
      let first = total-set i m ref k blank g in
      let second = total-set i m emptied k rest (get_elem?-set_self ref k blank g) in
      ground (arith, after, shown, was, first, second)
