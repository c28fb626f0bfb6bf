-- ===== src/Quests/Manager/Loads.antt =====
-- Any sequence of calls of the quest manager, with `loadProgress` among them.
use gtnh_platform.Base.{ℕ, refl, List, [], ◌∷◌, ◌++◌}
use gtnh_platform.Quests.{StatusMap}
use gtnh_platform.Quests.Manager.{QuestBook, PlayerQuests, QuestOutcome, put_status}
use gtnh_platform.Quests.Manager.Load.{
  status_of, load_entries, load_progress, rebuild_completed_eras,
}
use gtnh_platform.Quests.Manager.Status.{HasUniqueKeys, put_status-HasUniqueKeys}
use gtnh_platform.Quests.Manager.Completion.{
  announced, Life, unlock_newly_available-Follows, Course-HasUniqueKeys,
}
use gtnh_platform.Quests.Manager.History.{
  QuestCall, joining, completing, crafting, placing, charging, configuring, producing, carrying,
  loading, call, call-Follows,
}

pub load_entries-HasUniqueKeys :
    (es : List (ℕ × ℕ)) (m : StatusMap) → HasUniqueKeys m → HasUniqueKeys (load_entries m es)
unfolding load_entries
load_entries-HasUniqueKeys [] m u = u
load_entries-HasUniqueKeys (e ∷ es) m u =
    load_entries-HasUniqueKeys es (put_status m e.0 (status_of e.1))
      (put_status-HasUniqueKeys m e.0 (status_of e.1) u)

pub load_progress-HasUniqueKeys :
    (b : QuestBook) (s : PlayerQuests) (es : List (ℕ × ℕ))
    → HasUniqueKeys s.progress
    → HasUniqueKeys (load_progress b s es).player.progress
unfolding load_progress rebuild_completed_eras
load_progress-HasUniqueKeys b s [] u = u
load_progress-HasUniqueKeys b s (e ∷ es) u =
    let l : PlayerQuests = record s { progress = load_entries s.progress (e ∷ es) } in
    let v : HasUniqueKeys l.progress = load_entries-HasUniqueKeys (e ∷ es) s.progress u in
    Course-HasUniqueKeys b.graph (unlock_newly_available-Follows b l v) v

pub call-HasUniqueKeys :
    (b : QuestBook) (s : PlayerQuests) (c : QuestCall)
    → HasUniqueKeys s.progress
    → HasUniqueKeys (call b s c).player.progress
unfolding call
call-HasUniqueKeys b s (loading es) u = load_progress-HasUniqueKeys b s es u
call-HasUniqueKeys b s joining u = Course-HasUniqueKeys b.graph (call-Follows b s joining u refl) u
call-HasUniqueKeys b s (completing q) u =
    Course-HasUniqueKeys b.graph (call-Follows b s (completing q) u refl) u
call-HasUniqueKeys b s (crafting i n) u =
    Course-HasUniqueKeys b.graph (call-Follows b s (crafting i n) u refl) u
call-HasUniqueKeys b s (placing k) u =
    Course-HasUniqueKeys b.graph (call-Follows b s (placing k) u refl) u
call-HasUniqueKeys b s (charging k) u =
    Course-HasUniqueKeys b.graph (call-Follows b s (charging k) u refl) u
call-HasUniqueKeys b s (configuring i n) u =
    Course-HasUniqueKeys b.graph (call-Follows b s (configuring i n) u refl) u
call-HasUniqueKeys b s (producing k i n) u =
    Course-HasUniqueKeys b.graph (call-Follows b s (producing k i n) u refl) u
call-HasUniqueKeys b s (carrying k) u =
    Course-HasUniqueKeys b.graph (call-Follows b s (carrying k) u refl) u

-- The lives that a call may be followed by.
abbrev Continues : QuestBook → PlayerQuests → QuestOutcome → Type 0
Continues b s o =
    (n : StatusMap) (qs : List ℕ)
    → Life b.graph o.player.progress qs n
    → Life b.graph s.progress (announced o.sent ++ qs) n
