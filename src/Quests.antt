-- ===== src/Quests.antt =====
-- The quest graph, game/quests/QuestGraph.{h,cpp}: its maps are association lists, and a loop over a
-- map goes through the list. Quests and eras are numbers.
pub mod Manager
pub mod Progress
mod Tests
use gtnh_platform.Base.{
  ℕ, Bool, true, false, ◌&&◌, ◌||◌, not, Option, none, some, List, [], ◌∷◌, ◌==◌, if◌then◌else◌,
}

pub data QuestStatus : Type 0 where
  locked available in_progress completed : QuestStatus

abbrev pub StatusMap : Type 0
StatusMap = List (ℕ × QuestStatus)

pub record QuestGraph : Type 0 where
  pub children : List (ℕ × List ℕ)
  pub prereqs : List (ℕ × List ℕ)

-- `Init`
abbrev pub init : List (ℕ × List ℕ) → List (ℕ × List ℕ) → QuestGraph
init graph prerequisites = record { children = graph; prereqs = prerequisites }

unfoldable pub find : {A : Type 0} → ℕ → List (ℕ × A) → Option A
find k [] = none
find k (e ∷ m) = if e.0 == k then some e.1 else find k m

abbrev pub is_completed : Option QuestStatus → Bool
is_completed (some completed) = true
is_completed _ = false

-- `statusIt != current.end() && statusIt->second == QuestStatus::COMPLETED`
pub has_completed : StatusMap → ℕ → Bool
unfolding find
has_completed current q = is_completed (find q current)

pub all_completed : StatusMap → List ℕ → Bool
all_completed current [] = true
all_completed current (p ∷ ps) = has_completed current p && all_completed current ps

pub can_complete : QuestGraph → ℕ → StatusMap → Bool
unfolding find all_completed
can_complete g q current = elim (find q g.prereqs) [
  | none ↦ true
  | some ps ↦ all_completed current ps
]

abbrev pub is_locked : QuestStatus → Bool
is_locked locked = true
is_locked _ = false

abbrev pub is_available : QuestStatus → Bool
is_available available = true
is_available _ = false

-- The loop of `NewlyAvailable` over the entries of a map.
pub newly_among : QuestGraph → StatusMap → StatusMap → List ℕ
unfolding can_complete
newly_among g current [] = []
newly_among g current (e ∷ m) =
    let rest = newly_among g current m in
    if not (is_locked e.1) then rest else (if can_complete g e.0 current then e.0 ∷ rest else rest)

pub newly_available : QuestGraph → StatusMap → List ℕ
unfolding newly_among
newly_available g current = newly_among g current current

-- The loop of `GetUnlocked`.
pub unlocked_among : QuestGraph → StatusMap → StatusMap → List ℕ
unfolding can_complete
unlocked_among g current [] = []
unlocked_among g current (e ∷ m) =
    let rest = unlocked_among g current m in
    if not (is_locked e.1) && not (is_available e.1)
    then rest
    else (if can_complete g e.0 current then (if is_locked e.1 then e.0 ∷ rest else rest) else rest)

pub get_unlocked : QuestGraph → StatusMap → List ℕ
unfolding unlocked_among
get_unlocked g current = unlocked_among g current current

-- `IsEraComplete`, whose last argument is `questEraMap`.
pub is_era_complete : ℕ → StatusMap → List (ℕ × ℕ) → Bool
unfolding has_completed
is_era_complete era current [] = true
is_era_complete era current (e ∷ m) =
    let rest = is_era_complete era current m in
    if not (e.1 == era) then rest else (if has_completed current e.0 then rest else false)

pub not_completed : StatusMap → List ℕ → List ℕ
not_completed current [] = []
not_completed current (p ∷ ps) =
    let rest = not_completed current ps in if has_completed current p then rest else p ∷ rest

pub locked_by_prereqs : QuestGraph → ℕ → StatusMap → List ℕ
unfolding find not_completed
locked_by_prereqs g q current = elim (find q g.prereqs) [
  | none ↦ []
  | some ps ↦ not_completed current ps
]
