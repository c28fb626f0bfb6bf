-- ===== src/Quests/Progress.antt =====
-- What the queries of the quest graph promise to each other.
use gtnh_platform.Base.{
  ℕ, ◌≡◌, refl, ◌↔◌, inl, inr, true, some, List, [], ◌∷◌, arith, Option-cases, All,
}
use gtnh_platform.Quests.{
  completed, StatusMap, QuestGraph, find, has_completed, all_completed, can_complete, newly_among,
  newly_available, unlocked_among, get_unlocked, is_era_complete, not_completed, locked_by_prereqs,
}

all_completed_iff :
    (current : StatusMap) (ps : List ℕ)
    → (all_completed current ps ≡ true) ↔ (not_completed current ps ≡ [])
unfolding all_completed not_completed
all_completed_iff current [] = ground arith
all_completed_iff current (p ∷ ps) = ground (arith, all_completed_iff current ps)

-- A quest can be completed exactly when nothing blocks it.
pub can_complete-iff_unblocked :
    (g : QuestGraph) (q : ℕ) (current : StatusMap)
    → (can_complete g q current ≡ true) ↔ (locked_by_prereqs g q current ≡ [])
unfolding can_complete locked_by_prereqs
can_complete-iff_unblocked g q current = elim (Option-cases (find q g.prereqs)) [
  | inl e ↦ rw (can_complete, locked_by_prereqs, e) (ground arith)
  | inr (ps, e) ↦ rw (can_complete, locked_by_prereqs, e) (all_completed_iff current ps)
]

unlocked_among-newly_among :
    (g : QuestGraph) (current m : StatusMap) → unlocked_among g current m ≡ newly_among g current m
unfolding unlocked_among newly_among
unlocked_among-newly_among g current [] = refl
unlocked_among-newly_among g current ((q, s) ∷ m) =
    ground (arith, unlocked_among-newly_among g current m)

-- `GetUnlocked` and `NewlyAvailable` return the same quests, in the same order.
pub get_unlocked-newly_available :
    (g : QuestGraph) (current : StatusMap) → get_unlocked g current ≡ newly_available g current
unfolding get_unlocked newly_available
get_unlocked-newly_available g current = unlocked_among-newly_among g current current

-- An era is complete exactly when every quest that the era map gives to it stands in the player's
-- state as completed.
pub is_era_complete_iff :
    (era : ℕ) (current : StatusMap) (m : List (ℕ × ℕ))
    → (is_era_complete era current m ≡ true)
      ↔ All (λ e. e.1 ≡ era → find e.0 current ≡ some completed) m
unfolding is_era_complete has_completed
is_era_complete_iff era current [] = (λ _. tt, λ _. refl)
is_era_complete_iff era current (e ∷ m) = ground (arith, is_era_complete_iff era current m)
