-- ===== src/Quests/Tests.antt =====
-- Tests and examples for the quest graph.
use gtnh_platform.Base.{◌≡◌, refl, false, [], ◌∷◌}
use gtnh_platform.Quests.{
  locked, completed, StatusMap, QuestGraph, find, can_complete, all_completed, has_completed,
  newly_available, newly_among, is_era_complete,
}

-- Quest 3 asks for 1 and 2, quest 4 for 3.
abbrev graph : QuestGraph
graph = record { children = []; prereqs = (3, 1 ∷ 2 ∷ []) ∷ (4, 3 ∷ []) ∷ [] }

abbrev state : StatusMap
state = (1, completed) ∷ (2, completed) ∷ (3, locked) ∷ (4, locked) ∷ []

three_opens : newly_available graph state ≡ 3 ∷ []
unfolding newly_available newly_among can_complete find all_completed has_completed
three_opens = refl

-- Quest 9 of the era is not in the player's state.
not_complete : is_era_complete 0 state ((1, 0) ∷ (9, 0) ∷ []) ≡ false
unfolding is_era_complete has_completed find
not_complete = refl
