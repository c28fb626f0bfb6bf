-- ===== src/Quests/Manager/Waiting.antt =====
-- That no quest waits, over any sequence of calls of the quest manager and a load.
use gtnh_platform.Base.{ℕ, Bool, not, ◌&&◌, List, [], ◌∷◌, ◌==◌, ltb, if-either}
use gtnh_platform.Quests.{find, can_complete}
use gtnh_platform.Quests.Manager.{
  QuestBook, PlayerQuests, QuestOutcome, get_quest, is_exchange, is_available_entry, complete_quest,
  seed_quests, on_player_joined, craft, side_configured, machine,
}
use gtnh_platform.Quests.Manager.Detection.{
  detects, machine_fits, check_craft_completion, check_block_action, check_tool_charged,
  check_side_configured, check_machine_output, check_inventory,
}
use gtnh_platform.Quests.Manager.Load.{load_progress, load_entries, rebuild_completed_eras}
use gtnh_platform.Quests.Manager.Status.{HasUniqueKeys}
use gtnh_platform.Quests.Manager.Completion.{Course-HasUniqueKeys}
use gtnh_platform.Quests.Manager.Calls.{seed_quests-Course}
use gtnh_platform.Quests.Manager.CaughtUp.{
  IsCaughtUp, unlock_newly_available-IsCaughtUp, complete_quest_internal-IsCaughtUp,
  check_quests-IsCaughtUp,
}
use gtnh_platform.Quests.Manager.History.{
  QuestCall, joining, completing, crafting, placing, charging, configuring, producing, carrying,
  loading, call, run,
}
use gtnh_platform.Quests.Manager.Loads.{
  load_entries-HasUniqueKeys, load_progress-HasUniqueKeys, call-HasUniqueKeys,
}

on_player_joined-IsCaughtUp :
    (b : QuestBook) (s : PlayerQuests)
    → HasUniqueKeys s.progress
    → IsCaughtUp b.graph (on_player_joined b s).player.progress
unfolding on_player_joined
on_player_joined-IsCaughtUp b s u =
    let course = seed_quests-Course b.graph b.quests s.progress in
    let seeded : PlayerQuests = record s { progress = (seed_quests b.quests s.progress).0 } in
    unlock_newly_available-IsCaughtUp b seeded (Course-HasUniqueKeys b.graph course u)

complete_quest-IsCaughtUp :
    (b : QuestBook) (s : PlayerQuests) (q : ℕ)
    → HasUniqueKeys s.progress
    → IsCaughtUp b.graph s.progress
    → IsCaughtUp b.graph (complete_quest b s q).1.player.progress
unfolding complete_quest
complete_quest-IsCaughtUp b s q u w =
    let P : Bool × QuestOutcome → Type 0 = λ r. IsCaughtUp b.graph r.1.player.progress in
    if-either P (is_exchange (get_quest b.quests q)) (λ _. w)
      (λ _.
        if-either P (not (is_available_entry (find q s.progress))) (λ _. w)
          (λ _.
            if-either P (not (can_complete b.graph q s.progress)) (λ _. w)
              (λ _. complete_quest_internal-IsCaughtUp b s q u w)))

reloaded-IsCaughtUp :
    (b : QuestBook) (s : PlayerQuests) (e : ℕ × ℕ) (es : List (ℕ × ℕ))
    → HasUniqueKeys s.progress
    → IsCaughtUp b.graph (load_progress b s (e ∷ es)).player.progress
unfolding load_progress rebuild_completed_eras
reloaded-IsCaughtUp b s e es u =
    let m : PlayerQuests = record s { progress = load_entries s.progress (e ∷ es) } in
    let v : HasUniqueKeys m.progress = load_entries-HasUniqueKeys (e ∷ es) s.progress u in
    unlock_newly_available-IsCaughtUp b m v

load_progress-IsCaughtUp :
    (b : QuestBook) (s : PlayerQuests) (es : List (ℕ × ℕ))
    → HasUniqueKeys s.progress
    → IsCaughtUp b.graph s.progress
    → IsCaughtUp b.graph (load_progress b s es).player.progress
unfolding load_progress rebuild_completed_eras
load_progress-IsCaughtUp b s [] u w = w
load_progress-IsCaughtUp b s (e ∷ es) u w = reloaded-IsCaughtUp b s e es u

call-IsCaughtUp :
    (b : QuestBook) (s : PlayerQuests) (c : QuestCall)
    → HasUniqueKeys s.progress
    → IsCaughtUp b.graph s.progress
    → IsCaughtUp b.graph (call b s c).player.progress
unfolding call check_craft_completion check_block_action check_tool_charged check_side_configured
    check_machine_output check_inventory
call-IsCaughtUp b s joining u w = on_player_joined-IsCaughtUp b s u
call-IsCaughtUp b s (completing q) u w = complete_quest-IsCaughtUp b s q u w
call-IsCaughtUp b s (crafting item count) u w =
    if-either (λ (o : QuestOutcome). IsCaughtUp b.graph o.player.progress) (ltb count 1) (λ _. w)
      (λ _. check_quests-IsCaughtUp b (detects craft item) b.quests s u w)
call-IsCaughtUp b s (placing block) u w = check_quests-IsCaughtUp b _ b.quests s u w
call-IsCaughtUp b s (charging tool) u w = check_quests-IsCaughtUp b _ b.quests s u w
call-IsCaughtUp b s (configuring machine_id name) u w =
    if-either (λ (o : QuestOutcome). IsCaughtUp b.graph o.player.progress) (machine_id == 0)
      (λ _. w) (λ _. check_quests-IsCaughtUp b (detects side_configured name) b.quests s u w)
call-IsCaughtUp b s (producing name item count) u w =
    if-either (λ (o : QuestOutcome). IsCaughtUp b.graph o.player.progress) (ltb count 1) (λ _. w)
      (λ _.
        check_quests-IsCaughtUp b (λ d. detects machine item d && machine_fits d.machine_name name)
          b.quests s u w)
call-IsCaughtUp b s (carrying slots) u w = check_quests-IsCaughtUp b _ b.quests s u w
call-IsCaughtUp b s (loading es) u w = load_progress-IsCaughtUp b s es u w

run-IsCaughtUp :
    (b : QuestBook) (s : PlayerQuests) (cs : List QuestCall)
    → HasUniqueKeys s.progress
    → IsCaughtUp b.graph s.progress
    → IsCaughtUp b.graph (run b s cs).player.progress
unfolding run
run-IsCaughtUp b s [] u w = w
run-IsCaughtUp b s (c ∷ cs) u w =
    run-IsCaughtUp b (call b s c).player cs (call-HasUniqueKeys b s c u) (call-IsCaughtUp b s c u w)

-- Whatever happened before, once a player has joined, or a buffer with at least one entry is loaded, and
-- after any calls from then on, no locked quest has all its prerequisites completed. No key of the status
-- map may repeat at the start.
pub run-unlocks_all :
    (b : QuestBook) (s : PlayerQuests) (e : ℕ × ℕ) (es : List (ℕ × ℕ)) (cs : List QuestCall)
    → HasUniqueKeys s.progress
    → IsCaughtUp b.graph (run b s (joining ∷ cs)).player.progress
      × IsCaughtUp b.graph (run b (load_progress b s (e ∷ es)).player cs).player.progress
unfolding run call
run-unlocks_all b s e es cs u = (
  run-IsCaughtUp b (call b s joining).player cs (call-HasUniqueKeys b s joining u)
      (on_player_joined-IsCaughtUp b s u),
  run-IsCaughtUp b (load_progress b s (e ∷ es)).player cs
      (load_progress-HasUniqueKeys b s (e ∷ es) u) (reloaded-IsCaughtUp b s e es u),
)
