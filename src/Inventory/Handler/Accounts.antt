-- ===== src/Inventory/Handler/Accounts.antt =====
-- InventoryActionHandler::handle: it keeps the player's and the container's items together, except
-- where a quick move out of the container fits only in part.
use gtnh_platform.Base.{
  ℕ, ◌≡◌, refl, ◌≢◌, inl, inr, true, Option, none, some, List, [], Bool-cases, ◌==◌,
}
use gtnh_platform.Inventory.{InvActionType, ContainerClick, drop, quick_move, action_of_byte}
use gtnh_platform.Inventory.Rules.{apply_container_click}
use gtnh_platform.Inventory.Handler.{
  ContainerSession, slots_ref, Player, Wiring, find_session, handle, handle_container,
  handle_player, Effect,
}
use gtnh_platform.Inventory.Handler.Balance.{
  owned, PlayerBytes, view, handle_player-owned, handle_container-other, handle_container-one,
}

InvActionType-discrete : Discrete InvActionType
InvActionType-discrete = hlevel

module _ {ℓ} (P : Player × List Effect → Type ℓ) (w : Wiring) (p : Player)
    (c : ContainerClick) where
  found_cases :
      (o : Option ContainerSession)
      → P (p, [])
      → ((s : ContainerSession) → o ≡ some s → P (handle_container w p s c))
      → P (elim o [ none ↦ (p, []) | some s ↦ handle_container w p s c ])
  found_cases none n f = n
  found_cases (some s) n f = f s refl

  -- The three ways that a message can take.
  pub handle_cases :
      (pid : ℕ)
      → P (p, [])
      → P (handle_player p c)
      → ((s : ContainerSession) → p.session ≡ some s → P (handle_container w p s c))
      → P (handle w pid p c)
  unfolding handle find_session
  handle_cases pid n h f = elim (Bool-cases (pid == 0)) [
    | inl z ↦ rw z n
    | inr z ↦ rw z (elim (Bool-cases (c.container_id == 0)) [
      | inl y ↦ rw y h
      | inr y ↦ rw y (elim (Bool-cases w.chest_sessions) [
        | inr x ↦ rw x n
        | inl x ↦ rw x (found_cases p.session n f)
      ])
    ])
  ]

module _ (w : Wiring) (pid i m : ℕ) (p : Player) (c : ContainerClick) (known : i ≢ 0)
    (b : PlayerBytes p) where
  handle_session-owned :
      (s : ContainerSession)
      → p.session ≡ some s
      → action_of_byte c.action_type ≢ drop
      → ((c.container_id == 1) ≡ true
          → action_of_byte c.action_type ≡ quick_move
          → (apply_container_click (view p (some (slots_ref s))) p.cursor c).changed ≡ true)
      → owned i m (handle_container w p s c).0 ≡ owned i m p
  handle_session-owned s e n ok = elim (Bool-cases (c.container_id == 1)) [
    | inr other ↦ handle_container-other i m known p c b w s e n other
    | inl one ↦ elim (InvActionType-discrete (action_of_byte c.action_type) quick_move) [
      | yes q ↦ handle_container-one i m known p c b w s e n one (inl (ok one q))
      | no q ↦ handle_container-one i m known p c b w s e n one (inr q)
    ]
  ]

  -- For every kind of item, a message whose action is not a drop leaves the number of items that the
  -- player's slots, cursor and open session hold as it was, whatever the other bytes of the message
  -- are. A quick move out of the open container is left out unless it succeeds. The counts before
  -- the message are bytes.
  pub handle-conserves :
      action_of_byte c.action_type ≢ drop
      → ((s : ContainerSession)
          → p.session ≡ some s
          → (c.container_id == 1) ≡ true
          → action_of_byte c.action_type ≡ quick_move
          → (apply_container_click (view p (some (slots_ref s))) p.cursor c).changed ≡ true)
      → owned i m (handle w pid p c).0 ≡ owned i m p
  handle-conserves n ok =
      handle_cases (λ r. owned i m r.0 ≡ owned i m p) w p c pid refl
        (handle_player-owned i m known p c b n) (λ s e. handle_session-owned s e n (ok s e))
