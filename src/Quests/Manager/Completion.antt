-- ===== src/Quests/Manager/Completion.antt =====
-- What the calls of the quest manager do to one player's status map, step by step: a quest is completed
-- and announced, or a quest that is not completed gets another status.
use gtnh_platform.Base.{
  ℕ, ◌≡◌, refl, ap, subst, sym, true, false, some, List, [], ◌∷◌, ◌++◌, arith, All,
}
use gtnh_platform.Quests.{
  QuestStatus, locked, available, completed, StatusMap, QuestGraph, find, has_completed,
  can_complete, is_completed, newly_available,
}
use gtnh_platform.Quests.Manager.{
  QuestBook, PlayerQuests, QuestEvent, quest_completed, progress_updated, progress_snapshot,
  quest_unlocked, era_transition, QuestOutcome, put_status, maybe_publish_era_transition,
  make_available, unlock_events, unlock_ids, unlock_newly_available,
}
use gtnh_platform.Quests.Manager.Load.{load_entries}
use gtnh_platform.Quests.Manager.Status.{
  HasUniqueKeys, put_status-HasUniqueKeys, newly_available-fresh, All-still,
}

-- The quests that the events announce as completed, in order.
unfoldable pub announced : List QuestEvent → List ℕ
announced [] = []
announced (quest_completed q ∷ es) = q ∷ announced es
announced (progress_updated q s n ∷ es) = announced es
announced (progress_snapshot m ∷ es) = announced es
announced (quest_unlocked qs ∷ es) = announced es
announced (era_transition e n ∷ es) = announced es

-- A quest is completed once its prerequisites are; the list has the completed quests in order.
pub data Course (g : QuestGraph) : StatusMap → List ℕ → StatusMap → Type 0 where
  stay : {m : StatusMap} → Course g m [] m
  finish :
      {m n : StatusMap} {qs : List ℕ} (q : ℕ)
      → can_complete g q m ≡ true
      → has_completed m q ≡ false
      → Course g (put_status m q completed) qs n
      → Course g m (q ∷ qs) n
  move :
      {m n : StatusMap} {qs : List ℕ} (q : ℕ) (s : QuestStatus)
      → has_completed m q ≡ false
      → is_completed (some s) ≡ false
      → Course g (put_status m q s) qs n
      → Course g m qs n

-- Over any calls: steps, and loads that write entries over the status map. Only a load takes a
-- completed quest back, or completes one without announcing it.
pub data Life (g : QuestGraph) : StatusMap → List ℕ → StatusMap → Type 0 where
  ended : {m : StatusMap} → Life g m [] m
  lived :
      {l m n : StatusMap} {ps qs : List ℕ} → Course g l ps m → Life g m qs n → Life g l (ps ++ qs) n
  loaded :
      {m n : StatusMap} {qs : List ℕ} (es : List (ℕ × ℕ))
      → Life g (load_entries m es) qs n
      → Life g m qs n

pub Course-append :
    (g : QuestGraph) {l m n : StatusMap} {ps qs : List ℕ}
    → Course g l ps m
    → Course g m qs n
    → Course g l (ps ++ qs) n
Course-append g stay d = d
Course-append g (finish q h k c) d = finish q h k (Course-append g c d)
Course-append g (move q s h k c) d = move q s h k (Course-append g c d)

pub Course-HasUniqueKeys :
    (g : QuestGraph) {m n : StatusMap} {qs : List ℕ}
    → Course g m qs n
    → HasUniqueKeys m
    → HasUniqueKeys n
Course-HasUniqueKeys g stay u = u
Course-HasUniqueKeys g (finish q h k c) u =
    Course-HasUniqueKeys g c (put_status-HasUniqueKeys _ q completed u)
Course-HasUniqueKeys g (move q s h k c) u =
    Course-HasUniqueKeys g c (put_status-HasUniqueKeys _ q s u)

pub announced-append :
    (es ds : List QuestEvent) → announced (es ++ ds) ≡ announced es ++ announced ds
unfolding announced
announced-append [] ds = refl
announced-append (quest_completed q ∷ es) ds = ap (λ qs. q ∷ qs) (announced-append es ds)
announced-append (progress_updated q s n ∷ es) ds = announced-append es ds
announced-append (progress_snapshot m ∷ es) ds = announced-append es ds
announced-append (quest_unlocked qs ∷ es) ds = announced-append es ds
announced-append (era_transition e n ∷ es) ds = announced-append es ds

-- A call follows the steps: from the status map before it to the one after it, with what it announces.
abbrev pub Follows : QuestBook → PlayerQuests → QuestOutcome → Type 0
Follows b s o = Course b.graph s.progress (announced o.sent) o.player.progress

pub Follows-then :
    (b : QuestBook) (s : PlayerQuests) (o p : QuestOutcome)
    → Follows b s o
    → Follows b o.player p
    → Follows b s (record { player = p.player; sent = o.sent ++ p.sent })
Follows-then b s o p c d =
    subst (λ qs. Course b.graph s.progress qs p.player.progress)
      (sym (announced-append o.sent p.sent)) (Course-append b.graph c d)

Course-make_available :
    (g : QuestGraph) (qs : List ℕ) (m : StatusMap)
    → All (λ q. has_completed m q ≡ false) qs
    → Course g m [] (make_available m qs)
unfolding make_available
Course-make_available g [] m h = stay
Course-make_available g (q ∷ qs) m (h, hs) =
    move q available h refl
      (Course-make_available g qs (put_status m q available) (All-still m q h qs hs))

pub All-fresh :
    (m : StatusMap) (qs : List ℕ)
    → All (λ q. find q m ≡ some locked) qs
    → All (λ q. has_completed m q ≡ false) qs
unfolding has_completed
All-fresh m [] h = tt
All-fresh m (q ∷ qs) (h, hs) = (ap is_completed h, All-fresh m qs hs)

announced-unlock_events :
    (qs rs : List ℕ) → announced (unlock_events qs ++ (quest_unlocked rs ∷ [])) ≡ []
unfolding announced
announced-unlock_events [] rs = refl
announced-unlock_events (q ∷ qs) rs = announced-unlock_events qs rs

Follows-unlock_ids :
    (b : QuestBook) (s : PlayerQuests) (qs : List ℕ)
    → All (λ q. find q s.progress ≡ some locked) qs
    → Follows b s (unlock_ids s qs)
unfolding announced
Follows-unlock_ids b s [] h = stay
Follows-unlock_ids b s (q ∷ qs) h =
    subst (λ (rs : List ℕ). Course b.graph s.progress rs (make_available s.progress (q ∷ qs)))
      (sym (announced-unlock_events (q ∷ qs) (q ∷ qs)))
      (Course-make_available b.graph (q ∷ qs) s.progress (All-fresh s.progress (q ∷ qs) h))

pub unlock_newly_available-Follows :
    (b : QuestBook) (s : PlayerQuests)
    → HasUniqueKeys s.progress
    → Follows b s (unlock_newly_available b s)
unfolding unlock_newly_available
unlock_newly_available-Follows b s u =
    Follows-unlock_ids b s (newly_available b.graph s.progress)
      (newly_available-fresh b.graph s.progress u)

-- An era transition leaves the status map and announces no quest.
pub maybe_publish_era_transition_lem :
    (b : QuestBook) (s : PlayerQuests) (q : ℕ)
    → let o = maybe_publish_era_transition b s q in
      (o.player.progress ≡ s.progress) × (announced o.sent ≡ [])
unfolding maybe_publish_era_transition announced
maybe_publish_era_transition_lem b s q = ground arith
