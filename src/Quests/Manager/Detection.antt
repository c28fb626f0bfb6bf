-- ===== src/Quests/Manager/Detection.antt =====
-- The checks of the quest manager that meet the objectives of quests.
use gtnh_platform.Base.{
  ℕ, ◌+◌, ◌%◌, ◌^◌, Bool, true, false, ◌&&◌, Option, none, some, List, [], ◌∷◌, ◌==◌, ltb, leb,
  if◌then◌else◌,
}
use gtnh_platform.Quests.Manager.{
  DetectionType, QuestDef, QuestBook, PlayerQuests, QuestOutcome, quiet, check_quests, craft,
  block_placed, tool_charged, side_configured, exchange, inventory, machine,
}

abbrev pub type_code : DetectionType → ℕ
type_code craft = 0
type_code block_placed = 1
type_code tool_charged = 2
type_code side_configured = 3
type_code exchange = 4
type_code inventory = 5
type_code machine = 6

abbrev pub detects : DetectionType → ℕ → QuestDef → Bool
detects t name d = (type_code d.detect_type == type_code t) && (d.detect_target == name)

unfoldable pub check_craft_completion : QuestBook → PlayerQuests → ℕ → ℕ → QuestOutcome
unfolding check_quests
check_craft_completion b s item count =
    let checked = check_quests b (detects craft item) b.quests s in
    if ltb count 1 then quiet s else checked

unfoldable pub check_block_action : QuestBook → PlayerQuests → ℕ → QuestOutcome
unfolding check_quests
check_block_action b s block = check_quests b (detects block_placed block) b.quests s

unfoldable pub check_tool_charged : QuestBook → PlayerQuests → ℕ → QuestOutcome
unfolding check_quests
check_tool_charged b s tool = check_quests b (detects tool_charged tool) b.quests s

-- A machine with its id and its name.
unfoldable pub check_side_configured : QuestBook → PlayerQuests → ℕ → ℕ → QuestOutcome
unfolding check_quests
check_side_configured b s machine_id name =
    let checked = check_quests b (detects side_configured name) b.quests s in
    if machine_id == 0 then quiet s else checked

abbrev pub machine_fits : Option ℕ → ℕ → Bool
machine_fits none name = true
machine_fits (some required) name = required == name

unfoldable pub check_machine_output : QuestBook → PlayerQuests → ℕ → ℕ → ℕ → QuestOutcome
unfolding check_quests
check_machine_output b s machine_name item count =
    let checked =
      check_quests b (λ d. detects machine item d && machine_fits d.machine_name machine_name)
        b.quests s in
    if ltb count 1 then quiet s else checked

-- How much the slots hold of an item, by the name; a slot is its name, if it has one, and its count.
pub items_held : List (Option ℕ × ℕ) → ℕ → ℕ
items_held [] name = 0
items_held ((none, n) ∷ slots) name = items_held slots name
items_held ((some item, n) ∷ slots) name =
    let rest = items_held slots name in if item == name then (n + rest) % 2 ^ 32 else rest

abbrev pub needed : QuestDef → ℕ
needed d = if ltb 0 d.target_count then d.target_count else 1

abbrev pub is_inventory : DetectionType → Bool
is_inventory inventory = true
is_inventory _ = false

unfoldable pub check_inventory : QuestBook → PlayerQuests → List (Option ℕ × ℕ) → QuestOutcome
unfolding check_quests items_held
check_inventory b s slots =
    check_quests b
      (λ d. is_inventory d.detect_type && leb (needed d) (items_held slots d.detect_target))
      b.quests s
