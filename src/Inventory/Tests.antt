-- ===== src/Inventory/Tests.antt =====
-- The click rules and their handler on concrete slots.
use gtnh_platform.Base.{
  ℕ, ◌+◌, ◌≡◌, refl, ◌≢◌, true, false, none, some, List, [], ◌∷◌, arith, replicate,
}
use gtnh_platform.Inventory.{
  Slot, blank, InventoryRef, ContainerClick, action_of_byte, drop, quick_move, slot_at, same_stack,
  is_empty, merge_into,
}
use gtnh_platform.Inventory.Deal.{deal, fill, place}
use gtnh_platform.Inventory.Rules.{
  apply_container_click, dispatch, apply_click, write_back, click_slots,
}
use gtnh_platform.Inventory.Merge.{Fits, amount}
use gtnh_platform.Inventory.Held.{held, AreBytes}
use gtnh_platform.Inventory.Conservation.{apply_container_click-conserves}
use gtnh_platform.Inventory.Invariant.{IsValid, apply_container_click-IsValid}
use gtnh_platform.Inventory.Unchanged.{apply_container_click-unchanged}
use gtnh_platform.Inventory.Handler.{
  ContainerSession, slots_ref, is_machine, chest, Player, Wiring, handle,
}
use gtnh_platform.Inventory.Handler.Balance.{owned, PlayerBytes}
use gtnh_platform.Inventory.Handler.Accounts.{handle-conserves}
use gtnh_platform.Inventory.Handler.Loss.{handle-loses_partial, shift_click}

abbrev stack : ℕ → ℕ → Slot
stack item n = record { item_id = item; count = n; meta = 0 }

-- 38 slots of item 9, 60 of item 7 and an empty slot.
abbrev pockets : List Slot
pockets = stack 7 60 ∷ blank ∷ replicate 38 (stack 9 64)

abbrev chest_slots : List Slot
chest_slots = stack 7 10 ∷ stack 8 3 ∷ []

abbrev opened : InventoryRef
opened = record { player = pockets; container = some chest_slots }

abbrev right_click : ContainerClick
right_click = record { action_type = 0; button = 1; container_id = 1; slot = 0 }

abbrev loot : ContainerClick
loot = record { action_type = 1; button = 0; container_id = 1; slot = 0 }

opened-AreBytes : AreBytes opened blank
opened-AreBytes = omega arith

opened-IsValid : IsValid 2 opened
opened-IsValid = omega arith

not_drop : action_of_byte 1 ≢ drop
unfolding action_of_byte
not_drop e = cc

apply_container_click-conserves_example :
    let o = apply_container_click opened blank loot in held 7 0 o.inv o.cursor ≡ 70
apply_container_click-conserves_example =
    apply_container_click-conserves 7 0 (omega arith) opened blank loot opened-AreBytes not_drop

apply_container_click-IsValid_example :
    let o = apply_container_click opened blank loot in IsValid 2 o.inv × Fits o.cursor
apply_container_click-IsValid_example =
    apply_container_click-IsValid 2 opened blank loot opened-IsValid (omega arith)

-- A right click with another item in hand.
abbrev in_hand : Slot
in_hand = stack 5 2

refused : (apply_container_click opened in_hand right_click).changed ≡ false
unfolding apply_container_click dispatch apply_click write_back click_slots slot_at action_of_byte
    is_empty same_stack
refused = refl

not_quick_move : action_of_byte 0 ≢ quick_move
unfolding action_of_byte
not_quick_move e = cc

apply_container_click-unchanged_example :
    ((apply_container_click opened in_hand right_click).inv ≡ opened)
    × ((apply_container_click opened in_hand right_click).cursor ≡ in_hand)
apply_container_click-unchanged_example =
    apply_container_click-unchanged opened in_hand right_click
      (record {
        in_player = opened-AreBytes.in_player;
        in_container = opened-AreBytes.in_container;
        in_cursor = omega arith;
      })
      not_quick_move refused

abbrev wired : Wiring
wired = record {
  chest_sessions = true;
  chest_state = true;
  workbench_state = true;
  quests = false;
  slots_in = λ _. none;
}

abbrev session : ContainerSession
session = record { kind = chest; entity_type = 3; slots = chest_slots; live = none }

abbrev full_pockets : List Slot
full_pockets = stack 7 60 ∷ replicate 39 (stack 9 64)

abbrev looter : Player
looter = record { slots = full_pockets; cursor = blank; session = some session }

looter-PlayerBytes : PlayerBytes looter
unfolding slots_ref is_machine
looter-PlayerBytes = record {
  in_slots = omega arith;
  in_cursor = omega arith;
  in_session = omega arith;
}

not_drop_click : action_of_byte 0 ≢ drop
unfolding action_of_byte
not_drop_click e = cc

handle-conserves_example : owned 7 0 (handle wired 1 looter right_click).0 ≡ owned 7 0 looter
handle-conserves_example =
    handle-conserves wired 1 7 0 looter right_click (omega arith) looter-PlayerBytes not_drop_click
      (λ s e one q. absurd (not_quick_move q))

looter_slots : slots_ref session ≡ chest_slots
unfolding slots_ref is_machine
looter_slots = refl

six_left : (deal full_pockets (stack 7 10)).stack ≡ stack 7 6
unfolding deal fill place merge_into same_stack is_empty
six_left = refl

six_left_not_empty : is_empty (deal full_pockets (stack 7 10)).stack ≡ false
unfolding is_empty
six_left_not_empty = rw six_left refl

ten_not_empty : is_empty (stack 7 10) ≡ false
unfolding is_empty
ten_not_empty = refl

-- Ten items in the chest, room for four: the four are gone.
handle-loses_partial_example :
    owned 7 0 (handle wired 1 looter (shift_click 0)).0 + 10
    ≡ owned 7 0 looter + amount 7 0 (deal full_pockets (stack 7 10)).stack
handle-loses_partial_example =
    handle-loses_partial wired 1 7 0 0 looter session (stack 7 10) refl refl (omega arith)
      (rw looter_slots refl) ten_not_empty six_left_not_empty (omega arith)
