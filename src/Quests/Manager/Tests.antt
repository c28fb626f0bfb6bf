-- ===== src/Quests/Manager/Tests.antt =====
-- Tests and examples for the quest manager.
use gtnh_platform.Base.{◌≡◌, refl, ◌+◌, true, false, none, List, [], ◌∷◌}
use gtnh_platform.Quests.{find, has_completed}
use gtnh_platform.Quests.Manager.{QuestDef, QuestBook, PlayerQuests, craft}
use gtnh_platform.Quests.Manager.Load.{load_progress}
use gtnh_platform.Quests.Manager.Status.{HasUniqueKeys}
use gtnh_platform.Quests.Manager.Completion.{announced}
use gtnh_platform.Quests.Manager.CaughtUp.{IsCaughtUp}
use gtnh_platform.Quests.Manager.History.{
  QuestCall, joining, completing, crafting, run, HasNoLoad, loading, run-announces_once,
  run-IsEarned, IsEarned, times_in, done,
}
use gtnh_platform.Quests.Manager.Waiting.{run-unlocks_all}

-- Quest 1 is met by crafting item 7, and quest 2 asks for it.
abbrev first_quest : QuestDef
first_quest = record {
  id = 1;
  era = 0;
  detect_type = craft;
  detect_target = 7;
  target_count = 1;
  machine_name = none;
  prerequisites = [];
  auto_complete = true;
}

abbrev second_quest : QuestDef
second_quest = record {
  id = 2;
  era = 0;
  detect_type = craft;
  detect_target = 8;
  target_count = 1;
  machine_name = none;
  prerequisites = 1 ∷ [];
  auto_complete = false;
}

abbrev book : QuestBook
book = record {
  quests = first_quest ∷ second_quest ∷ [];
  graph = record { children = (1, 2 ∷ []) ∷ []; prereqs = (2, 1 ∷ []) ∷ [] };
}

abbrev new_player : PlayerQuests
new_player = record { progress = []; completed_eras = [] }

abbrev calls : List QuestCall
calls = joining ∷ crafting 7 1 ∷ crafting 7 1 ∷ crafting 8 1 ∷ completing 2 ∷ []

no_keys : HasUniqueKeys []
unfolding HasUniqueKeys
no_keys = tt

-- A load takes quest 1 back, which is then completed again.
abbrev calls_and_load : List QuestCall
calls_and_load = crafting 7 1 ∷ loading ((1, 0) ∷ []) ∷ crafting 7 1 ∷ []

announced_twice : announced (run book new_player calls_and_load).sent ≡ 1 ∷ 1 ∷ []
unfolding run announced
announced_twice = refl

no_load : HasNoLoad calls
no_load = (refl, (refl, (refl, (refl, (refl, tt)))))

run-announces_once_example :
    times_in 1 (announced (run book new_player calls).sent) + done [] 1
    ≡ done (run book new_player calls).player.progress 1
run-announces_once_example = run-announces_once book new_player calls 1 no_keys no_load

nothing_completed : IsEarned book.graph []
unfolding has_completed find
nothing_completed q h = cc

run-IsEarned_example :
    HasUniqueKeys (run book new_player calls).player.progress
    × IsEarned book.graph (run book new_player calls).player.progress
run-IsEarned_example = run-IsEarned book new_player calls no_keys no_load nothing_completed

run-unlocks_all_example :
    IsCaughtUp book.graph (run book new_player (joining ∷ calls)).player.progress
    × IsCaughtUp book.graph
        (run book
          (load_progress book new_player ((1, 3) ∷ (2, 0) ∷ [])).player
          calls).player.progress
run-unlocks_all_example = run-unlocks_all book new_player (1, 3) ((2, 0) ∷ []) calls no_keys

both_announced : announced (run book new_player calls).sent ≡ 1 ∷ 2 ∷ []
unfolding run announced
both_announced = refl
