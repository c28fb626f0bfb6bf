-- ===== src/Quests/Manager/CaughtUp.antt =====
-- No quest waits: once the manager has gone over a player's status map, no locked quest has all its
-- prerequisites completed.
use gtnh_platform.Base.{
  ℕ, ◌≡◌, refl, ap, subst, sym, ◌∙◌, ◌≢◌, inl, inr, Bool, true, false, ◌&&◌, none, some, List, [],
  ◌∷◌, ◌==◌, if◌then◌else◌, if-either, arith, Bool-cases,
}
use gtnh_platform.Base.Ids.{has_id}
use gtnh_platform.Quests.{
  QuestStatus, locked, available, completed, StatusMap, QuestGraph, find, has_completed,
  can_complete, is_completed, is_locked, newly_among, newly_available,
}
use gtnh_platform.Quests.Manager.{
  QuestDef, QuestBook, PlayerQuests, QuestOutcome, quiet, put_status, maybe_publish_era_transition,
  make_available, unlock_ids, unlock_newly_available, complete_quest_internal, is_locked_entry,
  handle_quest_met, check_quests,
}
use gtnh_platform.Quests.Manager.Status.{
  HasUniqueKeys, put_status-HasUniqueKeys, find-put_same, find-put_other, has_completed-put,
  newly_available-fresh, can_complete_mono, has_completed-make_available,
}
use gtnh_platform.Quests.Manager.Completion.{
  Course-HasUniqueKeys, maybe_publish_era_transition_lem, All-fresh,
}
use gtnh_platform.Quests.Manager.Calls.{locked_entry-fresh, check_quest-Follows}

abbrev pub IsCaughtUp : QuestGraph → StatusMap → Type 0
IsCaughtUp g m = (q : ℕ) → find q m ≡ some locked → can_complete g q m ≡ false

-- What is still locked behind a write of another status was locked before.
locked_before :
    (m : StatusMap) (q p : ℕ) (s : QuestStatus)
    → is_locked s ≡ false
    → find q (put_status m p s) ≡ some locked
    → (q ≢ p) × (find q m ≡ some locked)
locked_before m q p s n h = elim (Bool-cases (q == p)) [
  | inl y ↦
      let same : q ≡ p = ground arith in
      let other : some s ≡ some locked =
        sym (find-put_same m p s) ∙ subst (λ r. find r (put_status m p s) ≡ some locked) same h in
      let lock : is_locked s ≡ true =
        ap (λ o. elim o [ none ↦ true | some r ↦ is_locked r ]) other in
      cc
  | inr y ↦ (ground arith, sym (find-put_other m q p s (ground arith)) ∙ h)
]

locked_through :
    (qs : List ℕ) (m : StatusMap) (q : ℕ)
    → find q (make_available m qs) ≡ some locked
    → (has_id q qs ≡ false) × (find q m ≡ some locked)
unfolding make_available has_id
locked_through [] m q h = (refl, h)
locked_through (p ∷ ps) m q h =
    let (absent_later, k) = locked_through ps (put_status m p available) q h in
    let (other, before) = locked_before m q p available refl k in
    (ground (arith, absent_later, other), before)

newly_among-has :
    (g : QuestGraph) (current m : StatusMap) (q : ℕ)
    → find q m ≡ some locked
    → can_complete g q current ≡ true
    → has_id q (newly_among g current m) ≡ true
unfolding newly_among find has_id
newly_among-has g current [] q h k = cc
newly_among-has g current (e ∷ m) q h k = elim (Bool-cases (e.0 == q)) [
  | inl y ↦
      let same : q ≡ e.0 = ground arith in
      let status : e.1 ≡ locked = ground (arith, h, y) in
      let lock : is_locked e.1 ≡ true = ap is_locked status in
      let can : can_complete g e.0 current ≡ true =
        subst (λ r. can_complete g r current ≡ true) same k in
      rw (newly_among, lock, can) (ground (arith, y))
  | inr y ↦
      let rest = newly_among-has g current m q (ground (arith, h, y)) k in ground (arith, rest)
]

make_available-IsCaughtUp :
    (g : QuestGraph) (m : StatusMap)
    → HasUniqueKeys m
    → IsCaughtUp g (make_available m (newly_available g m))
unfolding newly_available
make_available-IsCaughtUp g m u q h =
    let n = make_available m (newly_available g m) in
    let unlocked = All-fresh m (newly_available g m) (newly_available-fresh g m u) in
    let same = has_completed-make_available (newly_available g m) m unlocked in
    let (absent_there, before) = locked_through (newly_available g m) m q h in
    elim (Bool-cases (can_complete g q n)) [
      | inl y ↦
          let can = can_complete_mono g n m (λ r z. sym (same r) ∙ z) q y in
          let there = newly_among-has g m m q before can in cc
      | inr y ↦ y
    ]

unlock_ids-progress :
    (s : PlayerQuests) (qs : List ℕ)
    → (unlock_ids s qs).player.progress ≡ make_available s.progress qs
unfolding make_available
unlock_ids-progress s [] = refl
unlock_ids-progress s (q ∷ qs) = refl

pub unlock_newly_available-IsCaughtUp :
    (b : QuestBook) (s : PlayerQuests)
    → HasUniqueKeys s.progress
    → IsCaughtUp b.graph (unlock_newly_available b s).player.progress
unfolding unlock_newly_available
unlock_newly_available-IsCaughtUp b s u =
    subst (IsCaughtUp b.graph) (sym (unlock_ids-progress s (newly_available b.graph s.progress)))
      (make_available-IsCaughtUp b.graph s.progress u)

pub complete_quest_internal-IsCaughtUp :
    (b : QuestBook) (s : PlayerQuests) (q : ℕ)
    → HasUniqueKeys s.progress
    → IsCaughtUp b.graph s.progress
    → IsCaughtUp b.graph (complete_quest_internal b s q).1.player.progress
unfolding complete_quest_internal
complete_quest_internal-IsCaughtUp b s q u w =
    let after : PlayerQuests = record s { progress = put_status s.progress q completed } in
    let era = maybe_publish_era_transition b after q in
    let (same, _) = maybe_publish_era_transition_lem b after q in
    let v : HasUniqueKeys after.progress = put_status-HasUniqueKeys s.progress q completed u in
    let P : Bool × QuestOutcome → Type 0 = λ r. IsCaughtUp b.graph r.1.player.progress in
    if-either P (is_completed (find q s.progress)) (λ _. w)
      (λ _. unlock_newly_available-IsCaughtUp b era.player (subst HasUniqueKeys (sym same) v))

-- A quest that is not completed may become available.
put_available-IsCaughtUp :
    (g : QuestGraph) (m : StatusMap) (p : ℕ)
    → has_completed m p ≡ false
    → IsCaughtUp g m
    → IsCaughtUp g (put_status m p available)
put_available-IsCaughtUp g m p k w q h =
    let (_, before) = locked_before m q p available refl h in
    let same = has_completed-put m p available k refl in
    elim (Bool-cases (can_complete g q (put_status m p available))) [
      | inl y ↦
          let can =
            can_complete_mono g (put_status m p available) m (λ r z. sym (same r) ∙ z) q y in
          let not_can = w q before in cc
      | inr y ↦ y
    ]

handle_quest_met-IsCaughtUp :
    (b : QuestBook) (s : PlayerQuests) (d : QuestDef)
    → HasUniqueKeys s.progress
    → IsCaughtUp b.graph s.progress
    → IsCaughtUp b.graph (handle_quest_met b s d).player.progress
unfolding handle_quest_met has_completed
handle_quest_met-IsCaughtUp b s d u w =
    let P : QuestOutcome → Type 0 = λ o. IsCaughtUp b.graph o.player.progress in
    if-either P d.auto_complete (λ _. complete_quest_internal-IsCaughtUp b s d.id u w)
      (λ _.
        if-either P (is_locked_entry (find d.id s.progress))
          (λ z.
            put_available-IsCaughtUp b.graph s.progress d.id
              (locked_entry-fresh (find d.id s.progress) z) w)
          (λ _. w))

pub check_quests-IsCaughtUp :
    (b : QuestBook) (met : QuestDef → Bool) (ds : List QuestDef) (s : PlayerQuests)
    → HasUniqueKeys s.progress
    → IsCaughtUp b.graph s.progress
    → IsCaughtUp b.graph (check_quests b met ds s).player.progress
unfolding check_quests
check_quests-IsCaughtUp b met [] s u w = w
check_quests-IsCaughtUp b met (d ∷ ds) s u w =
    let ok = met d && can_complete b.graph d.id s.progress in
    let o : QuestOutcome = if ok then handle_quest_met b s d else quiet s in
    let first : IsCaughtUp b.graph o.player.progress =
      if-either (λ (r : QuestOutcome). IsCaughtUp b.graph r.player.progress) ok
        (λ _. handle_quest_met-IsCaughtUp b s d u w) (λ _. w) in
    let kept = Course-HasUniqueKeys b.graph (check_quest-Follows b met d s u) u in
    check_quests-IsCaughtUp b met ds o.player kept first
