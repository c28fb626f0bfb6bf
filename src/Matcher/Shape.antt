-- ===== src/Matcher/Shape.antt =====
-- A grid matches a pattern exactly when every slot fits.
use gtnh_platform.Base.{
  ℕ, ◌≤◌, ◌≡◌, refl, ◌≢◌, ◌↔◌, Bool, true, false, Option, none, some, List, [], ◌∷◌, arith,
  if◌then◌else◌, length, replicate,
}
use gtnh_platform.Matcher.{
  ItemStack, GridSlot, GridPattern, MatchResult, slot_matches, match_detailed, match_single,
  push_consumed, is_matched,
}

-- A stack fits a slot: an empty slot wants an empty one, any other the same item, at least the
-- slot's count, and the slot's metadata unless that is 0.
pub record SlotFits (g : ItemStack) (p : GridSlot) : Type 0 where
  pub same_item : g.item_id ≡ p.item_id
  pub enough : p.item_id ≢ 0 → p.count ≤ g.count
  pub same_metadata : p.item_id ≢ 0 → p.metadata ≢ 0 → g.metadata ≡ p.metadata

abbrev pub Fits : List ItemStack → GridPattern → Type 0
Fits gs [] = Unit {0}
Fits [] (p ∷ ps) = ⊥
Fits (g ∷ gs) (p ∷ ps) = SlotFits g p × Fits gs ps

slot_matches_sound : (g : ItemStack) (p : GridSlot) → (slot_matches g p).0 ≡ true → SlotFits g p
unfolding slot_matches
slot_matches_sound g p h = record {
  same_item = ground arith;
  enough = ground arith;
  same_metadata = ground arith;
}

slot_matches_complete :
    (g : ItemStack) (p : GridSlot) → SlotFits g p → slot_matches g p ≡ (true, g.count)
unfolding slot_matches
slot_matches_complete g p f = ground (arith, f.same_item, f.enough, f.same_metadata)

abbrev pub counts : List ItemStack → GridPattern → List ℕ
counts gs [] = []
counts [] (p ∷ ps) = []
counts (g ∷ gs) (p ∷ ps) = g.count ∷ counts gs ps

both-matched :
    (m : Bool) (n : ℕ) (o : Option MatchResult) (zeros : List ℕ)
    → is_matched (
        if m
        then push_consumed n o
        else some (record { matched = false; consumed_per_slot = zeros }))
      ≡ true
    → (m ≡ true) × (is_matched o ≡ true)
both-matched true n none zeros h = ground arith
both-matched true n (some r) zeros h = (refl, h)
both-matched false n o zeros h = ground arith

match_detailed_sound :
    (gs : List ItemStack) (ps : GridPattern) → is_matched (match_detailed gs ps) ≡ true → Fits gs ps
unfolding match_detailed
match_detailed_sound gs [] h = tt
match_detailed_sound [] (p ∷ ps) h = ground arith
match_detailed_sound (g ∷ gs) (p ∷ ps) h =
    let m = slot_matches g p in
    let b = both-matched m.0 m.1 (match_detailed gs ps) (0 ∷ replicate (length ps) 0) h in
    (slot_matches_sound g p b.0, match_detailed_sound gs ps b.1)

match_detailed_complete :
    (gs : List ItemStack) (ps : GridPattern)
    → Fits gs ps
    → match_detailed gs ps ≡ some (record { matched = true; consumed_per_slot = counts gs ps })
unfolding match_detailed
match_detailed_complete gs [] f = refl
match_detailed_complete [] (p ∷ ps) f = absurd f
match_detailed_complete (g ∷ gs) (p ∷ ps) f =
    rw (slot_matches_complete g p f.0, match_detailed_complete gs ps f.1) refl

-- A grid matches a pattern exactly when every slot of the pattern has a stack that fits it, and then
-- the whole of each of these stacks is consumed.
pub match_detailed_iff :
    (gs : List ItemStack) (ps : GridPattern)
    → ((match_single gs ps ≡ true) ↔ Fits gs ps)
      × (Fits gs ps
          → match_detailed gs ps
            ≡ some (record { matched = true; consumed_per_slot = counts gs ps }))
unfolding match_single
match_detailed_iff gs ps = (
  (match_detailed_sound gs ps, λ f. rw (match_detailed_complete gs ps f) refl),
  match_detailed_complete gs ps,
)
