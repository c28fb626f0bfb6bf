-- ===== src/Matcher.antt =====
-- The crafting grid, game/crafting/GridPatternMatcher.{h,cpp}. The source reads nine slots of the grid:
-- `none` stands for a read past its end. A recipe's name is an element of some type, and "no match",
-- the empty name in the source, is `none` too.
pub mod Shape
mod Tests
use gtnh_platform.Base.{
  ℕ, ◌+◌, Bool, true, false, ◌&&◌, not, Option, none, some, List, [], ◌∷◌, ltb, ◌==◌, if◌then◌else◌,
  length, replicate,
}

-- `RecipeManager::ItemStack`
pub record ItemStack : Type 0 where
  pub item_id : ℕ
  pub count : ℕ
  pub metadata : ℕ

pub record GridSlot : Type 0 where
  pub item_id : ℕ
  pub count : ℕ
  pub metadata : ℕ

-- `GridPattern`, an array of nine.
abbrev pub GridPattern : Type 0
GridPattern = List GridSlot

pub record MatchResult : Type 0 where
  pub matched : Bool
  pub consumed_per_slot : List ℕ

-- `slotMatches`: its result, and what it leaves in `consumed`.
pub slot_matches : ItemStack → GridSlot → Bool × ℕ
slot_matches g p =
    if p.item_id == 0
    then (if g.item_id == 0 then (true, g.count) else (false, 0))
    else (if not (g.item_id == p.item_id)
        then (false, 0)
        else (if ltb 0 p.count && ltb g.count p.count
            then (false, 0)
            else (if ltb 0 p.metadata && not (g.metadata == p.metadata)
                then (false, 0)
                else (true, g.count))))

abbrev pub push_consumed : ℕ → Option MatchResult → Option MatchResult
push_consumed n none = none
push_consumed n (some r) = some (record r { consumed_per_slot = n ∷ r.consumed_per_slot })

-- The loop of `matchDetailed` from a slot on. The slots after a mismatch stay at 0.
pub match_detailed : List ItemStack → GridPattern → Option MatchResult
unfolding slot_matches
match_detailed grid [] = some (record { matched = true; consumed_per_slot = [] })
match_detailed [] (p ∷ ps) = none
match_detailed (g ∷ gs) (p ∷ ps) =
    let rest = match_detailed gs ps in
    let m = slot_matches g p in
    if m.0
    then push_consumed m.1 rest
    else some (record { matched = false; consumed_per_slot = 0 ∷ replicate (length ps) 0 })

abbrev pub is_matched : Option MatchResult → Bool
is_matched none = false
is_matched (some r) = r.matched

pub match_single : List ItemStack → GridPattern → Bool
unfolding match_detailed
match_single grid pattern = is_matched (match_detailed grid pattern)

-- `match`: the name of the first pattern that matches.
pub match_first : {N : Type 0} → List ItemStack → List (N × GridPattern) → Option N
unfolding match_single
match_first grid [] = none
match_first grid (e ∷ patterns) =
    let rest = match_first grid patterns in if match_single grid e.1 then some e.0 else rest
