-- ===== src/Quests/Manager/Load.antt =====
-- `loadProgress` of the quest manager, of a buffer as the list of its entries.
use gtnh_platform.Base.{ℕ, zero, suc, List, [], ◌∷◌, ◌==◌, if◌then◌else◌}
use gtnh_platform.Quests.{
  QuestStatus, locked, available, in_progress, completed, StatusMap, is_era_complete,
}
use gtnh_platform.Quests.Manager.{
  QuestBook, PlayerQuests, QuestOutcome, quiet, put_status, quest_era_map, era_count,
  unlock_newly_available, progress_snapshot,
}

-- `status >= 4` is read as locked.
abbrev pub status_of : ℕ → QuestStatus
status_of n =
    if n == 1
    then available
    else (if n == 2 then in_progress else (if n == 3 then completed else locked))

-- The loop over the entries of the buffer.
unfoldable pub load_entries : StatusMap → List (ℕ × ℕ) → StatusMap
unfolding put_status
load_entries m [] = m
load_entries m (e ∷ es) = load_entries (put_status m e.0 (status_of e.1)) es

-- The eras from `e` on, `n` of them, that are complete: `rebuildCompletedEras`.
pub complete_eras : QuestBook → StatusMap → ℕ → ℕ → List ℕ
unfolding is_era_complete quest_era_map
complete_eras b m e zero = []
complete_eras b m e (suc n) =
    let rest = complete_eras b m (suc e) n in
    if is_era_complete e m (quest_era_map b.quests) then e ∷ rest else rest

unfoldable pub rebuild_completed_eras : QuestBook → PlayerQuests → PlayerQuests
unfolding complete_eras
rebuild_completed_eras b s = record s { completed_eras = complete_eras b s.progress 0 era_count }

-- `loadProgress` of a buffer that passes the verifier.
unfoldable pub load_progress : QuestBook → PlayerQuests → List (ℕ × ℕ) → QuestOutcome
unfolding load_entries unlock_newly_available rebuild_completed_eras
load_progress b s [] = quiet (rebuild_completed_eras b s)
load_progress b s (e ∷ es) =
    let loaded = record s { progress = load_entries s.progress (e ∷ es) } in
    let unlocked = unlock_newly_available b loaded in
    record {
      player = rebuild_completed_eras b unlocked.player;
      sent = progress_snapshot loaded.progress ∷ unlocked.sent;
    }
