-- ===== src/OpenMap/History.antt =====
-- Any sequence of calls of the hash map, from the empty map, against a partial function.
use gtnh_platform.Base.{
  ℕ, ◌≡◌, ◌≢◌, inl, inr, sym, ap, ◌∙◌, Option, none, some, List, [], ◌∷◌, ◌==◌, if◌then◌else◌,
  arith, Bool-cases,
}
use native.Mathlib.Nat.{mod-lt, one-le-pow}
use gtnh_platform.OpenMap.{Layout, knuth_hash, knuth, OpenMap, insert, find, erase, clear}
use gtnh_platform.OpenMap.Sound.{IsLayout}
use gtnh_platform.OpenMap.Well.{IsWell}
use gtnh_platform.OpenMap.Laws.{insert_lem, erase_lem, clear-IsWell, find-clear}

pub data MapCall (V : Type 0) : Type 0 where
  inserting : ℕ → V → MapCall V
  erasing : ℕ → MapCall V
  clearing : MapCall V

-- A partial function, written at one key.
abbrev pub written_at : {V : Type 0} → (ℕ → Option V) → ℕ → Option V → ℕ → Option V
written_at f k o j = if k == j then o else f j

abbrev pub placed_in : {V : Type 0} → (ℕ → Option V) → ℕ → V → Option ℕ → ℕ → Option V
placed_in f k v none = f
placed_in f k v (some q) = written_at f k (some v)

-- The map and the function that it stands for: an insert that finds no place changes neither.
unfoldable pub call :
    {V : Type 0} → Layout → V → OpenMap V × (ℕ → Option V) → MapCall V → OpenMap V × (ℕ → Option V)
unfolding insert erase clear
call l d (t, f) (inserting k v) = let r = insert l t k v in (r.0, placed_in f k v r.1)
call l d (t, f) (erasing k) = ((erase l d t k).0, written_at f k none)
call l d (t, f) clearing = (clear l d, λ k. none)

unfoldable pub run :
    {V : Type 0}
    → Layout
    → V
    → OpenMap V × (ℕ → Option V)
    → List (MapCall V)
    → OpenMap V × (ℕ → Option V)
unfolding call
run l d s [] = s
run l d s (c ∷ cs) = run l d (call l d s c) cs

pub knuth-IsLayout : (bits s : ℕ) → IsLayout (knuth bits s)
unfolding knuth_hash
knuth-IsLayout bits s k = mod-lt _ (one-le-pow bits 2 (omega arith))

-- The table has the invariant, and `find` gives the values of the function.
pub record Stands {V : Type 0} (l : Layout) (s : OpenMap V × (ℕ → Option V)) : Type 0 where
  pub well : IsWell l s.0
  pub agrees : (k : ℕ) → find l s.0 k ≡ s.1 k

module _ {V : Type 0} (l : Layout) (laid : IsLayout l) (d : V) where
  -- A table with one key written stands for the function written there.
  updated :
      (t : OpenMap V) (f : ℕ → Option V) (k : ℕ) (o : Option V) (j : ℕ) (u : OpenMap V)
      → find l u k ≡ o
      → ((other : ℕ) → other ≢ k → find l u other ≡ find l t other)
      → ((other : ℕ) → find l t other ≡ f other)
      → find l u j ≡ written_at f k o j
  updated t f k o j u at_k others agrees = elim (Bool-cases (k == j)) [
    | inl y ↦
        let same : k ≡ j = ground arith in
        ap (find l u) (sym same) ∙ (at_k ∙ sym (ap (λ b. if b then o else f j) y))
    | inr y ↦
        let n : j ≢ k = ground arith in
        (others j n ∙ agrees j) ∙ sym (ap (λ b. if b then o else f j) y)
  ]

  call-Stands :
      (t : OpenMap V) (f : ℕ → Option V) (c : MapCall V)
      → Stands l (t, f)
      → Stands l (call l d (t, f) c)
  unfolding call
  call-Stands t f (inserting k v) h =
      let (well, others, either) = insert_lem l laid t h.well k v in
      elim either [
        | inl (nothing, same) ↦ record {
          well = well;
          agrees = λ j.
              (ap (λ u. find l u j) same ∙ h.agrees j)
              ∙ sym (ap (λ (o : Option ℕ). placed_in f k v o j) nothing);
        }
        | inr (q, placed, now) ↦ record {
          well = well;
          agrees = λ j.
              updated t f k (some v) j (insert l t k v).0 now others h.agrees
              ∙ sym (ap (λ (o : Option ℕ). placed_in f k v o j) placed);
        }
      ]
  call-Stands t f (erasing k) h =
      let (well, others, gone, _) = erase_lem l laid t h.well k d in
      record {
        well = well;
        agrees = λ j. updated t f k none j (erase l d t k).0 gone others h.agrees;
      }
  call-Stands t f clearing h = record { well = clear-IsWell l laid d; agrees = find-clear l laid d }

  run-Stands :
      (s : OpenMap V × (ℕ → Option V)) (cs : List (MapCall V))
      → Stands l s
      → Stands l (run l d s cs)
  unfolding run
  run-Stands s [] h = h
  run-Stands (t, f) (c ∷ cs) h = run-Stands (call l d (t, f) c) cs (call-Stands t f c h)

  -- When the hash gives slots: after any calls from the empty map the table has the invariant `IsWell`,
  -- and `find` gives what a partial function gives that is written at the key of each insert that finds a
  -- place and of each erase, and is empty after a clear.
  pub run-refines : (cs : List (MapCall V)) → Stands l (run l d (clear l d, λ k. none) cs)
  run-refines cs =
      run-Stands (clear l d, λ k. none) cs
        (record { well = clear-IsWell l laid d; agrees = find-clear l laid d })
