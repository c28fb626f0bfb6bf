-- ===== src/Quests/Manager.antt =====
-- The quest manager, game/quests/QuestManager.cpp, with the quest data and the graph set. The state is
-- one player's entries of `progress_` and `completedEras_`, both empty at first; what the publish
-- functions send is an event. Items, blocks and machines come with the name that the item registry
-- gives them, which is a number here; the ids of the quests are distinct. The buffer that
-- `loadProgress` verifies is a list of entries.
pub mod Detection
pub mod Load
pub mod Status
pub mod Completion
pub mod Calls
pub mod History
pub mod Loads
pub mod CaughtUp
pub mod Waiting
mod Tests
use gtnh_platform.Base.{
  ℕ, zero, suc, ◌+◌, ◌%◌, ◌^◌, Bool, true, false, ◌&&◌, ◌||◌, not, Option, none, some, List, [],
  ◌∷◌, ◌++◌, ◌==◌, ltb, leb, if◌then◌else◌,
}
use gtnh_platform.Base.Ids.{has_id}
use gtnh_platform.Quests.{
  QuestStatus, locked, available, in_progress, completed, StatusMap, QuestGraph, find, can_complete,
  is_locked, is_completed, newly_available, is_era_complete,
}

-- `DetectionType`
pub data DetectionType : Type 0 where
  craft block_placed tool_charged side_configured exchange inventory machine : DetectionType

-- What the manager reads of a `QuestDef`: `machine_name` is the machine of its first requirement.
pub record QuestDef : Type 0 where
  pub id : ℕ
  pub era : ℕ
  pub detect_type : DetectionType
  pub detect_target : ℕ
  pub target_count : ℕ
  pub machine_name : Option ℕ
  pub prerequisites : List ℕ
  pub auto_complete : Bool

pub record QuestBook : Type 0 where
  pub quests : List QuestDef
  pub graph : QuestGraph

pub record PlayerQuests : Type 0 where
  pub progress : StatusMap
  pub completed_eras : List ℕ

-- The topics, without the player and the time.
pub data QuestEvent : Type 0 where
  quest_completed : ℕ → QuestEvent
  progress_updated : ℕ → QuestStatus → ℕ → QuestEvent
  progress_snapshot : StatusMap → QuestEvent
  quest_unlocked : List ℕ → QuestEvent
  era_transition : ℕ → ℕ → QuestEvent

-- The state after a call, and what it sent.
pub record QuestOutcome : Type 0 where
  pub player : PlayerQuests
  pub sent : List QuestEvent

abbrev pub quiet : PlayerQuests → QuestOutcome
quiet s = record { player = s; sent = [] }

-- `playerProgress[q] = status`
pub put_status : StatusMap → ℕ → QuestStatus → StatusMap
put_status [] q s = (q, s) ∷ []
put_status (e ∷ m) q s = let rest = put_status m q s in if e.0 == q then (q, s) ∷ m else e ∷ rest

pub get_quest : List QuestDef → ℕ → Option QuestDef
get_quest [] q = none
get_quest (d ∷ ds) q = let rest = get_quest ds q in if d.id == q then some d else rest

abbrev pub repeats : DetectionType → Bool
repeats exchange = true
repeats _ = false

-- `BuildQuestEraMap`, without the exchange quests, which never complete.
pub quest_era_map : List QuestDef → List (ℕ × ℕ)
quest_era_map [] = []
quest_era_map (d ∷ ds) =
    let rest = quest_era_map ds in if repeats d.detect_type then rest else (d.id, d.era) ∷ rest

-- `Era::COUNT`
abbrev pub era_count : ℕ
era_count = 7

abbrev pub next_era : ℕ → ℕ
next_era era = if ltb (era + 1) era_count then era + 1 else era

-- `maybePublishEraTransition`
pub maybe_publish_era_transition : QuestBook → PlayerQuests → ℕ → QuestOutcome
unfolding get_quest is_era_complete quest_era_map has_id
maybe_publish_era_transition b s q = elim (get_quest b.quests q) [
  | none ↦ quiet s
  | some d ↦
      if has_id d.era s.completed_eras
      then quiet s
      else (if is_era_complete d.era s.progress (quest_era_map b.quests)
          then record {
            player = record s { completed_eras = s.completed_eras ++ (d.era ∷ []) };
            sent = era_transition d.era (next_era d.era) ∷ [];
          }
          else quiet s)
]

-- The loop of `unlockNewlyAvailable`.
pub make_available : StatusMap → List ℕ → StatusMap
unfolding put_status
make_available m [] = m
make_available m (q ∷ qs) = make_available (put_status m q available) qs

abbrev pub unlock_events : List ℕ → List QuestEvent
unlock_events [] = []
unlock_events (q ∷ qs) = progress_updated q available 0 ∷ unlock_events qs

-- `unlockNewlyAvailable`, which sends nothing when there is nothing to unlock.
abbrev pub unlock_ids : PlayerQuests → List ℕ → QuestOutcome
unlock_ids s [] = quiet s
unlock_ids s (q ∷ qs) = record {
  player = record s { progress = make_available s.progress (q ∷ qs) };
  sent = unlock_events (q ∷ qs) ++ (quest_unlocked (q ∷ qs) ∷ []);
}

pub unlock_newly_available : QuestBook → PlayerQuests → QuestOutcome
unfolding newly_available make_available
unlock_newly_available b s = unlock_ids s (newly_available b.graph s.progress)

-- `completeQuestInternal`: a missing entry counts as locked; a completed quest gives false.
pub complete_quest_internal : QuestBook → PlayerQuests → ℕ → Bool × QuestOutcome
unfolding find put_status maybe_publish_era_transition unlock_newly_available
complete_quest_internal b s q =
    let after = record s { progress = put_status s.progress q completed } in
    let era = maybe_publish_era_transition b after q in
    let unlocked = unlock_newly_available b era.player in
    if is_completed (find q s.progress) then (false, quiet s) else (
      true,
      record {
        player = unlocked.player;
        sent =
            (quest_completed q ∷ progress_updated q completed 100 ∷ [])
            ++ (era.sent ++ unlocked.sent);
      },
    )

abbrev pub is_exchange : Option QuestDef → Bool
is_exchange none = false
is_exchange (some d) = repeats d.detect_type

abbrev pub is_available_entry : Option QuestStatus → Bool
is_available_entry (some available) = true
is_available_entry _ = false

-- `completeQuest`
pub complete_quest : QuestBook → PlayerQuests → ℕ → Bool × QuestOutcome
unfolding get_quest find can_complete complete_quest_internal
complete_quest b s q =
    if is_exchange (get_quest b.quests q)
    then (false, quiet s)
    else (if not (is_available_entry (find q s.progress))
        then (false, quiet s)
        else (if not (can_complete b.graph q s.progress)
            then (false, quiet s)
            else complete_quest_internal b s q))

abbrev pub is_locked_entry : Option QuestStatus → Bool
is_locked_entry none = true
is_locked_entry (some locked) = true
is_locked_entry _ = false

-- `handleQuestMet`, without its result, which no caller uses.
pub handle_quest_met : QuestBook → PlayerQuests → QuestDef → QuestOutcome
unfolding complete_quest_internal find put_status
handle_quest_met b s d =
    if d.auto_complete
    then (complete_quest_internal b s d.id).1
    else (if is_locked_entry (find d.id s.progress)
        then record {
          player = record s { progress = put_status s.progress d.id available };
          sent = progress_updated d.id available 0 ∷ [];
        }
        else quiet s)

-- The loop over the quests that the checks share: a quest that the test picks and whose prerequisites
-- are completed is met.
pub check_quests : QuestBook → (QuestDef → Bool) → List QuestDef → PlayerQuests → QuestOutcome
unfolding can_complete handle_quest_met
check_quests b met [] s = quiet s
check_quests b met (d ∷ ds) s =
    let first =
      if met d && can_complete b.graph d.id s.progress then handle_quest_met b s d else quiet s in
    let rest = check_quests b met ds first.player in
    record { player = rest.player; sent = first.sent ++ rest.sent }

-- The loop of `onPlayerJoined`: the quests that were missing get a status, and the root quests are
-- collected.
pub seed_quests : List QuestDef → StatusMap → StatusMap × List ℕ
unfolding find put_status
seed_quests [] m = (m, [])
seed_quests (d ∷ ds) m =
    let kept = seed_quests ds m in
    let root = seed_quests ds (put_status m d.id available) in
    let child = seed_quests ds (put_status m d.id locked) in
    elim (find d.id m) [
      | some status ↦ kept
      | none ↦ elim d.prerequisites [ [] ↦ (root.0, d.id ∷ root.1) | p ∷ ps ↦ child ]
    ]

abbrev pub unlocked_event : List ℕ → List QuestEvent
unlocked_event [] = []
unlocked_event (q ∷ qs) = quest_unlocked (q ∷ qs) ∷ []

pub on_player_joined : QuestBook → PlayerQuests → QuestOutcome
unfolding seed_quests unlock_newly_available
on_player_joined b s =
    let seeded = seed_quests b.quests s.progress in
    let unlocked = unlock_newly_available b (record s { progress = seeded.0 }) in
    record { player = unlocked.player; sent = unlocked_event seeded.1 ++ unlocked.sent }
