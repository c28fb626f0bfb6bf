-- ===== src/Quests/Manager/History.antt =====
-- Any sequence of calls of the quest manager for one player: what is completed and what is announced.
use gtnh_platform.Base.{
  ℕ, ◌≡◌, ap, subst, sym, ◌∙◌, ◌+◌, inl, inr, Bool, true, false, All, Option, List, [], ◌∷◌, ◌++◌,
  ◌==◌, if◌then◌else◌, arith, Bool-cases,
}
use gtnh_platform.Quests.{completed, StatusMap, QuestGraph, has_completed, can_complete}
use gtnh_platform.Quests.Manager.{
  QuestBook, PlayerQuests, QuestOutcome, quiet, put_status, complete_quest, on_player_joined,
  block_placed, tool_charged,
}
use gtnh_platform.Quests.Manager.Detection.{
  check_craft_completion, check_block_action, check_tool_charged, check_side_configured,
  check_machine_output, check_inventory, detects,
}
use gtnh_platform.Quests.Manager.Load.{load_progress}
use gtnh_platform.Quests.Manager.Status.{
  HasUniqueKeys, has_completed-put, has_completed_complete, has_completed-other, has_completed-kept,
  can_complete_mono,
}
use gtnh_platform.Quests.Manager.Completion.{
  announced, Course, stay, finish, move, Course-HasUniqueKeys, Follows, Follows-then,
}
use gtnh_platform.Quests.Manager.Calls.{
  complete_quest-Follows, on_player_joined-Follows, check_quests-Follows,
  check_craft_completion-Follows, check_side_configured-Follows, check_machine_output-Follows,
}

pub data QuestCall : Type 0 where
  joining : QuestCall
  completing : ℕ → QuestCall
  crafting : ℕ → ℕ → QuestCall
  placing : ℕ → QuestCall
  charging : ℕ → QuestCall
  configuring : ℕ → ℕ → QuestCall
  producing : ℕ → ℕ → ℕ → QuestCall
  carrying : List (Option ℕ × ℕ) → QuestCall
  loading : List (ℕ × ℕ) → QuestCall

abbrev pub is_load : QuestCall → Bool
is_load (loading es) = true
is_load _ = false

-- No call is `loadProgress`.
abbrev pub HasNoLoad : List QuestCall → Type 0
HasNoLoad cs = All (λ c. is_load c ≡ false) cs

unfoldable pub call : QuestBook → PlayerQuests → QuestCall → QuestOutcome
unfolding complete_quest on_player_joined check_craft_completion check_block_action
    check_tool_charged check_side_configured check_machine_output check_inventory load_progress
call b s joining = on_player_joined b s
call b s (completing q) = (complete_quest b s q).1
call b s (crafting item count) = check_craft_completion b s item count
call b s (placing block) = check_block_action b s block
call b s (charging tool) = check_tool_charged b s tool
call b s (configuring machine_id name) = check_side_configured b s machine_id name
call b s (producing name item count) = check_machine_output b s name item count
call b s (carrying slots) = check_inventory b s slots
call b s (loading es) = load_progress b s es

unfoldable pub run : QuestBook → PlayerQuests → List QuestCall → QuestOutcome
unfolding call
run b s [] = quiet s
run b s (c ∷ cs) =
    let first = call b s c in
    let rest = run b first.player cs in
    record { player = rest.player; sent = first.sent ++ rest.sent }

pub call-Follows :
    (b : QuestBook) (s : PlayerQuests) (c : QuestCall)
    → HasUniqueKeys s.progress
    → is_load c ≡ false
    → Follows b s (call b s c)
unfolding call check_block_action check_tool_charged check_inventory
call-Follows b s joining u k = on_player_joined-Follows b s u
call-Follows b s (completing q) u k = complete_quest-Follows b s q u
call-Follows b s (crafting item count) u k = check_craft_completion-Follows b s item count u
call-Follows b s (placing block) u k =
    check_quests-Follows b (detects block_placed block) b.quests s u
call-Follows b s (charging tool) u k =
    check_quests-Follows b (detects tool_charged tool) b.quests s u
call-Follows b s (configuring machine_id name) u k =
    check_side_configured-Follows b s machine_id name u
call-Follows b s (producing name item count) u k =
    check_machine_output-Follows b s name item count u
call-Follows b s (carrying slots) u k = check_quests-Follows b _ b.quests s u
call-Follows b s (loading es) u k = cc

-- Calls other than `loadProgress`, from a status map without a repeated key, follow a course.
run-Follows :
    (b : QuestBook) (s : PlayerQuests) (cs : List QuestCall)
    → HasUniqueKeys s.progress
    → HasNoLoad cs
    → Follows b s (run b s cs)
unfolding run announced
run-Follows b s [] u k = stay
run-Follows b s (c ∷ cs) u (k, ks) =
    let first = call-Follows b s c u k in
    let kept = Course-HasUniqueKeys b.graph first u in
    Follows-then b s (call b s c) (run b (call b s c).player cs) first
      (run-Follows b (call b s c).player cs kept ks)

-- How often a quest stands in a list.
pub times_in : ℕ → List ℕ → ℕ
times_in q [] = 0
times_in q (p ∷ ps) = let rest = times_in q ps in if p == q then 1 + rest else rest

abbrev pub done : StatusMap → ℕ → ℕ
done m q = if has_completed m q then 1 else 0

Course-done :
    (g : QuestGraph) {m n : StatusMap} {qs : List ℕ} (q : ℕ)
    → Course g m qs n
    → times_in q qs + done m q ≡ done n q
unfolding times_in
Course-done g q stay = omega arith
Course-done g {m} q (finish p h k c) =
    let rest = Course-done g q c in
    elim (Bool-cases (p == q)) [
      | inl y ↦
          let same : p ≡ q = ground arith in
          let now = has_completed_complete m p in
          let then' = ap (has_completed (put_status m p completed)) same in
          let before = ap (has_completed m) same in ground (arith, rest, y, k, now, then', before)
      | inr y ↦ ground (arith, rest, y, has_completed-other m q p completed)
    ]
Course-done g {m} q (move p s h k c) =
    let rest = Course-done g q c in
    let same = has_completed-put m p s h k q in ground (arith, rest, same)

-- Every completed quest has its prerequisites completed.
abbrev pub IsEarned : QuestGraph → StatusMap → Type 0
IsEarned g m = (q : ℕ) → has_completed m q ≡ true → can_complete g q m ≡ true

earned_after :
    (g : QuestGraph) (m : StatusMap) (p q : ℕ)
    → can_complete g p m ≡ true
    → IsEarned g m
    → has_completed (put_status m p completed) q ≡ true
    → can_complete g q (put_status m p completed) ≡ true
earned_after g m p q h e y =
    let more = λ (r : ℕ) (z : has_completed m r ≡ true). has_completed-kept m r p z in
    elim (Bool-cases (q == p)) [
      | inl z ↦
          subst (λ r. can_complete g r (put_status m p completed) ≡ true) (ground arith)
            (can_complete_mono g m (put_status m p completed) more p h)
      | inr z ↦
          let before : has_completed m q ≡ true =
            sym (has_completed-other m q p completed (ground arith)) ∙ y in
          can_complete_mono g m (put_status m p completed) more q (e q before)
    ]

pub Course-IsEarned :
    (g : QuestGraph) {m n : StatusMap} {qs : List ℕ} → Course g m qs n → IsEarned g m → IsEarned g n
Course-IsEarned g stay e = e
Course-IsEarned g {m} (finish p h k c) e = Course-IsEarned g c (λ q y. earned_after g m p q h e y)
Course-IsEarned g {m} (move p s h k c) e =
    let same = has_completed-put m p s h k in
    Course-IsEarned g c (λ q y.
      can_complete_mono g m (put_status m p s) (λ r z. same r ∙ z) q (e q (sym (same q) ∙ y)))

-- Over any calls other than `loadProgress`, from a status map without a repeated key: a quest that was
-- completed before is still completed and not announced, and any other is announced once if it is
-- completed now, and else never.
pub run-announces_once :
    (b : QuestBook) (s : PlayerQuests) (cs : List QuestCall) (q : ℕ)
    → HasUniqueKeys s.progress
    → HasNoLoad cs
    → let o = run b s cs in
      times_in q (announced o.sent) + done s.progress q ≡ done o.player.progress q
run-announces_once b s cs q u k = Course-done b.graph q (run-Follows b s cs u k)

-- When every completed quest has its prerequisites completed and no key of the status map repeats, this
-- holds after any calls other than `loadProgress`.
pub run-IsEarned :
    (b : QuestBook) (s : PlayerQuests) (cs : List QuestCall)
    → HasUniqueKeys s.progress
    → HasNoLoad cs
    → IsEarned b.graph s.progress
    → HasUniqueKeys (run b s cs).player.progress × IsEarned b.graph (run b s cs).player.progress
run-IsEarned b s cs u k e =
    let course = run-Follows b s cs u k in
    (Course-HasUniqueKeys b.graph course u, Course-IsEarned b.graph course e)
