-- ===== src/Quests/Manager/Calls.antt =====
-- Every call of the quest manager but `loadProgress` follows the steps of a course.
use gtnh_platform.Base.{
  ℕ, ◌≡◌, refl, ap, subst, sym, ◌⊎◌, inl, inr, Bool, true, false, not, ◌&&◌, Option, none, some,
  List, [], ◌∷◌, ◌++◌, ◌==◌, ltb, if◌then◌else◌, if-either, arith, Bool-cases, Option-cases,
}
use gtnh_platform.Quests.{
  QuestStatus, locked, available, in_progress, completed, StatusMap, QuestGraph, find,
  has_completed, can_complete, is_completed,
}
use gtnh_platform.Quests.Manager.{
  QuestDef, QuestBook, PlayerQuests, QuestOutcome, quiet, put_status, get_quest,
  maybe_publish_era_transition, unlock_newly_available, complete_quest_internal, is_exchange,
  is_available_entry, complete_quest, is_locked_entry, handle_quest_met, check_quests, seed_quests,
  unlocked_event, on_player_joined, craft, side_configured, machine,
}
use gtnh_platform.Quests.Manager.Detection.{
  detects, machine_fits, check_craft_completion, check_side_configured, check_machine_output,
}
use gtnh_platform.Quests.Manager.Status.{HasUniqueKeys, put_status-HasUniqueKeys}
use gtnh_platform.Quests.Manager.Completion.{
  announced, Course, stay, finish, move, Course-HasUniqueKeys, Follows, Follows-then,
  unlock_newly_available-Follows, maybe_publish_era_transition_lem,
}

-- The part of `completeQuestInternal` behind the write of completed.
after_completion-Follows :
    (b : QuestBook) (s : PlayerQuests) (q : ℕ)
    → HasUniqueKeys s.progress
    → let era = maybe_publish_era_transition b s q in
      let unlocked = unlock_newly_available b era.player in
      Follows b s (record { player = unlocked.player; sent = era.sent ++ unlocked.sent })
after_completion-Follows b s q u =
    let (same, silent) = maybe_publish_era_transition_lem b s q in
    let era = maybe_publish_era_transition b s q in
    let first : Follows b s era =
      subst (λ (n : StatusMap). Course b.graph s.progress (announced era.sent) n) (sym same)
        (subst (λ (qs : List ℕ). Course b.graph s.progress qs s.progress) (sym silent) stay) in
    let rest = unlock_newly_available-Follows b era.player (subst HasUniqueKeys (sym same) u) in
    Follows-then b s era (unlock_newly_available b era.player) first rest

complete_quest_internal-Follows :
    (b : QuestBook) (s : PlayerQuests) (q : ℕ)
    → HasUniqueKeys s.progress
    → can_complete b.graph q s.progress ≡ true
    → Follows b s (complete_quest_internal b s q).1
unfolding complete_quest_internal announced has_completed
complete_quest_internal-Follows b s q u h = elim (Bool-cases (is_completed (find q s.progress))) [
  | inl y ↦ rw (complete_quest_internal, y) stay
  | inr y ↦
      let after : PlayerQuests = record s { progress = put_status s.progress q completed } in
      let rest =
        after_completion-Follows b after q (put_status-HasUniqueKeys s.progress q completed u) in
      rw (complete_quest_internal, y) (finish q h y rest)
]

pub locked_entry-fresh :
    (o : Option QuestStatus) → is_locked_entry o ≡ true → is_completed o ≡ false
locked_entry-fresh none h = refl
locked_entry-fresh (some locked) h = refl
locked_entry-fresh (some available) h = refl
locked_entry-fresh (some in_progress) h = refl
locked_entry-fresh (some completed) h = cc

handle_quest_met-Follows :
    (b : QuestBook) (s : PlayerQuests) (d : QuestDef)
    → HasUniqueKeys s.progress
    → can_complete b.graph d.id s.progress ≡ true
    → Follows b s (handle_quest_met b s d)
unfolding handle_quest_met announced has_completed
handle_quest_met-Follows b s d u h = elim (Bool-cases d.auto_complete) [
  | inl y ↦ rw (handle_quest_met, y) (complete_quest_internal-Follows b s d.id u h)
  | inr y ↦ elim (Bool-cases (is_locked_entry (find d.id s.progress))) [
    | inl z ↦
        let fresh_entry : has_completed s.progress d.id ≡ false =
          locked_entry-fresh (find d.id s.progress) z in
        rw (handle_quest_met, y, z) (move d.id available fresh_entry refl stay)
    | inr z ↦ rw (handle_quest_met, y, z) stay
  ]
]

-- One round of the loop.
pub check_quest-Follows :
    (b : QuestBook) (met : QuestDef → Bool) (d : QuestDef) (s : PlayerQuests)
    → HasUniqueKeys s.progress
    → Follows b s
        (if met d && can_complete b.graph d.id s.progress then handle_quest_met b s d else quiet s)
unfolding announced
check_quest-Follows b met d s u =
    if-either (λ o. Follows b s o) (met d && can_complete b.graph d.id s.progress)
      (λ y. handle_quest_met-Follows b s d u (ground arith)) (λ _. stay)

pub check_quests-Follows :
    (b : QuestBook) (met : QuestDef → Bool) (ds : List QuestDef) (s : PlayerQuests)
    → HasUniqueKeys s.progress
    → Follows b s (check_quests b met ds s)
unfolding check_quests announced
check_quests-Follows b met [] s u = stay
check_quests-Follows b met (d ∷ ds) s u =
    let o : QuestOutcome =
      if met d && can_complete b.graph d.id s.progress then handle_quest_met b s d else quiet s in
    let first = check_quest-Follows b met d s u in
    let kept = Course-HasUniqueKeys b.graph first u in
    Follows-then b s o (check_quests b met ds o.player) first
      (check_quests-Follows b met ds o.player kept)

pub complete_quest-Follows :
    (b : QuestBook) (s : PlayerQuests) (q : ℕ)
    → HasUniqueKeys s.progress
    → Follows b s (complete_quest b s q).1
unfolding complete_quest announced
complete_quest-Follows b s q u =
    let P : Bool × QuestOutcome → Type 0 = λ r. Follows b s r.1 in
    if-either P (is_exchange (get_quest b.quests q)) (λ _. stay)
      (λ _.
        if-either P (not (is_available_entry (find q s.progress))) (λ _. stay)
          (λ _.
            if-either P (not (can_complete b.graph q s.progress)) (λ _. stay)
              (λ h. complete_quest_internal-Follows b s q u (ground arith))))

list_cases : (ps : List ℕ) → (ps ≡ []) ⊎ ((p : ℕ) × (qs : List ℕ) × (ps ≡ p ∷ qs))
list_cases [] = inl refl
list_cases (p ∷ qs) = inr (p, qs, refl)

-- The quests of `onPlayerJoined` that had no status get one other than completed.
pub seed_quests-Course :
    (g : QuestGraph) (ds : List QuestDef) (m : StatusMap) → Course g m [] (seed_quests ds m).0
unfolding seed_quests has_completed
seed_quests-Course g [] m = stay
seed_quests-Course g (d ∷ ds) m = elim (Option-cases (find d.id m)) [
  | inl e ↦ elim (list_cases d.prerequisites) [
    | inl y ↦
        rw (seed_quests, e, y)
          (move d.id available (ap is_completed e) refl (seed_quests-Course g ds _))
    | inr (p, ps, y) ↦
        rw (seed_quests, e, y)
          (move d.id locked (ap is_completed e) refl (seed_quests-Course g ds _))
  ]
  | inr (status, e) ↦ rw (seed_quests, e) (seed_quests-Course g ds m)
]

announced-unlocked_event : (qs : List ℕ) → announced (unlocked_event qs) ≡ []
unfolding announced
announced-unlocked_event [] = refl
announced-unlocked_event (q ∷ qs) = refl

pub on_player_joined-Follows :
    (b : QuestBook) (s : PlayerQuests)
    → HasUniqueKeys s.progress
    → Follows b s (on_player_joined b s)
unfolding on_player_joined
on_player_joined-Follows b s u =
    let seeded = seed_quests b.quests s.progress in
    let course = seed_quests-Course b.graph b.quests s.progress in
    let o : QuestOutcome = record {
      player = record s { progress = seeded.0 };
      sent = unlocked_event seeded.1;
    } in
    let first : Follows b s o =
      subst (λ (qs : List ℕ). Course b.graph s.progress qs seeded.0)
        (sym (announced-unlocked_event seeded.1)) course in
    Follows-then b s o (unlock_newly_available b o.player) first
      (unlock_newly_available-Follows b o.player (Course-HasUniqueKeys b.graph course u))

pub check_craft_completion-Follows :
    (b : QuestBook) (s : PlayerQuests) (item count : ℕ)
    → HasUniqueKeys s.progress
    → Follows b s (check_craft_completion b s item count)
unfolding check_craft_completion announced
check_craft_completion-Follows b s item count u =
    if-either (λ o. Follows b s o) (ltb count 1) (λ _. stay)
      (λ _. check_quests-Follows b (detects craft item) b.quests s u)

pub check_side_configured-Follows :
    (b : QuestBook) (s : PlayerQuests) (machine_id name : ℕ)
    → HasUniqueKeys s.progress
    → Follows b s (check_side_configured b s machine_id name)
unfolding check_side_configured announced
check_side_configured-Follows b s machine_id name u =
    if-either (λ o. Follows b s o) (machine_id == 0) (λ _. stay)
      (λ _. check_quests-Follows b (detects side_configured name) b.quests s u)

pub check_machine_output-Follows :
    (b : QuestBook) (s : PlayerQuests) (machine_name item count : ℕ)
    → HasUniqueKeys s.progress
    → Follows b s (check_machine_output b s machine_name item count)
unfolding check_machine_output announced
check_machine_output-Follows b s machine_name item count u =
    let checked =
      check_quests-Follows b
        (λ d. detects machine item d && machine_fits d.machine_name machine_name) b.quests s u in
    if-either (λ o. Follows b s o) (ltb count 1) (λ _. stay) (λ _. checked)
