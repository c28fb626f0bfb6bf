-- ===== src/Inventory/Handler.antt =====
-- game/storage/InventoryActionHandler.cpp (`handle`, after the message has been decoded) and the
-- session of game/storage/ContainerSession.h, for the player that the message names. The player's
-- slots and cursor are copied out of the PlayerInventoryStore and written back by
-- setSlotsAndCursor; the session's slots are mutated in place.
pub mod Balance
pub mod Accounts
pub mod Loss
use gtnh_platform.Base.{
  ℕ, Bool, true, false, not, ◌&&◌, ◌||◌, Option, none, some, List, [], ◌∷◌, ◌++◌, ltb, leb, ◌==◌,
  if◌then◌else◌,
}
use gtnh_platform.Inventory.{
  Slot, inventory_slots, InvActionType, drop, action_of_byte, ContainerClick, InventoryRef, slot_at,
}
use gtnh_platform.Inventory.Rules.{Outcome, apply_container_click}

-- `ContainerSession::Kind`.
pub data Kind : Type 0 where
  chest machine workbench : Kind

abbrev pub chest_entity_type : ℕ
chest_entity_type = 3

-- `ContainerSession`, less its position. `live` is the vector of the InventoryContainer that the
-- registry handle resolves to: `none` when there is no registry or the component is gone.
pub record ContainerSession : Type 0 where
  pub kind : Kind
  pub entity_type : ℕ
  pub slots : List Slot
  pub live : Option (List Slot)

unfoldable pub is_machine : ContainerSession → Bool
is_machine s = elim s.kind [ machine ↦ true | _ ↦ false ]

-- `slotsRef`: the vector that it points to.
unfoldable pub slots_ref : ContainerSession → List Slot
unfolding is_machine
slots_ref s = if is_machine s then elim s.live [ none ↦ s.slots | some l ↦ l ] else s.slots

-- What a mutation through `slotsRef` leaves behind.
pub write_ref : ContainerSession → List Slot → ContainerSession
unfolding is_machine
write_ref s l =
    if is_machine s
    then elim s.live [ none ↦ record s { slots = l } | some _ ↦ record s { live = some l } ]
    else record s { slots = l }

-- The player's state on the server.
pub record Player : Type 0 where
  pub slots : List Slot
  pub cursor : Slot
  pub session : Option ContainerSession

-- What `handle` does besides: the grid of a workbench, the slots of a chest or machine under an
-- entity type, the snapshot that it publishes, and the item that it reports to the quests.
pub data Effect : Type 0 where
  publish_full : Effect
  set_grid_state : List Slot → Effect
  save_slots : List Slot → ℕ → Effect
  check_machine_output : ℕ → ℕ → ℕ → Effect

-- The handler's collaborators, as far as `handle` asks for them: which of them are wired, and the
-- number of input slots that the machine registry has for a machine.
pub record Wiring : Type 0 where
  pub chest_sessions : Bool
  pub chest_state : Bool
  pub workbench_state : Bool
  pub quests : Bool
  pub slots_in : ℕ → Option ℕ

-- The session that a container click finds.
pub find_session : Wiring → Player → Option ContainerSession
find_session w p = if w.chest_sessions then p.session else none

-- The clicked machine output before the click, an item id and a count, if it can earn credit.
pub quest_candidate : Wiring → ContainerSession → InventoryRef → ContainerClick → Option (ℕ × ℕ)
unfolding is_machine
quest_candidate w s inv c =
    if w.quests
      && (c.container_id == 1)
      && is_machine s
      && elim (action_of_byte c.action_type) [ drop ↦ false | _ ↦ true ]
    then elim (w.slots_in s.entity_type) [
      | none ↦ none
      | some inputs ↦
          if leb inputs c.slot && ltb c.slot inventory_slots
          then elim (slot_at inv 1 c.slot) [
            | none ↦ none
            | some src ↦ if src.item_id == 0 then none else some (src.item_id, src.count)
          ]
          else none
    ]
    else none

-- The credit once the click is done: the item has left its slot.
pub quest_credit : ContainerSession → InventoryRef → ContainerClick → Option (ℕ × ℕ) → List Effect
quest_credit s inv c none = []
quest_credit s inv c (some (item, count)) = elim (slot_at inv 1 c.slot) [
  | none ↦ []
  | some src ↦
      if not (src.item_id == item) || ltb src.count count
      then check_machine_output s.entity_type item count ∷ []
      else []
]

-- Where the container's slots go after a click that changed them.
pub persist : Wiring → ContainerSession → List Effect
unfolding slots_ref
persist w s = elim s.kind [
  | workbench ↦ if w.workbench_state then set_grid_state (slots_ref s) ∷ [] else []
  | machine ↦ if w.chest_state then save_slots (slots_ref s) s.entity_type ∷ [] else []
  | chest ↦ if w.chest_state then save_slots (slots_ref s) chest_entity_type ∷ [] else []
]

-- A click on the player's own slots: no container is passed to the rules.
pub handle_player : Player → ContainerClick → Player × List Effect
handle_player p c =
    let o = apply_container_click (record { player = p.slots; container = none }) p.cursor c in
    if o.changed then (record p { slots = o.inv.player; cursor = o.cursor }, []) else (p, [])

abbrev pub container_or : Option (List Slot) → List Slot → List Slot
container_or none l = l
container_or (some l) _ = l

-- The slots that a container click works on. Id 1 passes the session's slots to the rules by
-- reference; for another id there is no container.
pub container_view : Player → ContainerSession → ContainerClick → InventoryRef
container_view p s c = record {
  player = p.slots;
  container = if c.container_id == 1 then some (slots_ref s) else none;
}

-- The effects of a click that changed something; `s'` is the session after it.
unfoldable pub container_effects :
    Wiring → Player → ContainerSession → ContainerSession → Outcome → ContainerClick → List Effect
unfolding quest_candidate quest_credit persist
container_effects w p s s' o c =
    quest_credit s' o.inv c (quest_candidate w s (container_view p s c) c)
    ++ (if c.container_id == 1 then publish_full ∷ persist w s' else [])

-- `if (!changed) return;` and the write back: the session's slots have changed in any case.
pub settle : Player → ContainerSession → Outcome → List Effect → Player × List Effect
settle p s o effects =
    if o.changed
    then (record p { slots = o.inv.player; cursor = o.cursor; session = some s }, effects)
    else (record p { session = some s }, [])

-- A click on the open container.
pub handle_container : Wiring → Player → ContainerSession → ContainerClick → Player × List Effect
handle_container w p s c =
    let o = apply_container_click (container_view p s c) p.cursor c in
    let s' = write_ref s (container_or o.inv.container (slots_ref s)) in
    settle p s' o (container_effects w p s s' o c)

-- `handle` for the player `pid`.
pub handle : Wiring → ℕ → Player → ContainerClick → Player × List Effect
unfolding find_session
handle w pid p c =
    if pid == 0
    then (p, [])
    else (if c.container_id == 0
        then handle_player p c
        else elim (find_session w p) [ none ↦ (p, []) | some s ↦ handle_container w p s c ])
