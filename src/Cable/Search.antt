-- ===== src/Cable/Search.antt =====
-- `findPath` ends, and what it returns is a route to the target.
use gtnh_platform.Base.{
  ℕ, zero, suc, ◌<◌, ◌≡◌, refl, ◌⊎◌, inl, inr, ap, subst, ◌∙◌, true, false, ◌||◌, some, List, [],
  ◌∷◌, arith, Bool-cases, ◌==◌, length, All,
}
use gtnh_platform.Base.Ids.{absent-le}
use gtnh_platform.Cable.{CableGraph, Visit, SearchState, after_visit, search, find_path}
use gtnh_platform.Cable.Routes.{
  Route, start, rounds_left, HasRoutes, after_visit_lem, node_ids, length-node_ids,
}

pub search-empty :
    (fuel : ℕ) (g : CableGraph) (target : ℕ) (s : SearchState)
    → s.queue ≡ []
    → search (suc fuel) g target s ≡ some []
unfolding search
search-empty fuel g target s e = rw (search, e) refl

pub search-hit :
    (fuel : ℕ) (g : CableGraph) (target : ℕ) (s : SearchState) (v : Visit) (vs : List Visit)
    → s.queue ≡ v ∷ vs
    → (v.node_id == target) ≡ true
    → search (suc fuel) g target s ≡ some v.path
unfolding search
search-hit fuel g target s v vs e y = rw (search, e, y) refl

pub search-miss :
    (fuel : ℕ) (g : CableGraph) (target : ℕ) (s : SearchState) (v : Visit) (vs : List Visit)
    → s.queue ≡ v ∷ vs
    → (v.node_id == target) ≡ false
    → search (suc fuel) g target s
      ≡ search fuel g target (after_visit g v (record s { queue = vs }))
unfolding search
search-miss fuel g target s v vs e y = rw (search, e, y) refl

pub queue_cases :
    (vs : List Visit) → (vs ≡ []) ⊎ ((v : Visit) × (rest : List Visit) × (vs ≡ v ∷ rest))
queue_cases [] = inl refl
queue_cases (v ∷ vs) = inr (v, vs, refl)

pub search_lem :
    (fuel : ℕ) (g : CableGraph) (source target : ℕ) (s : SearchState)
    → HasRoutes g source s
    → rounds_left g s < fuel
    → (path : List ℕ) × (search fuel g target s ≡ some path)
      × ((path ≡ []) ⊎ Route g source path target)
search_lem zero g source target s rs h = absurd (omega arith)
search_lem (suc fuel) g source target s rs h = elim (queue_cases s.queue) [
  | inl e ↦ ([], search-empty fuel g target s e, inl refl)
  | inr (v, vs, e) ↦
      let routes : All (λ v. Route g source v.path v.node_id) (v ∷ vs) =
        subst (All (λ v. Route g source v.path v.node_id)) e rs in
      elim (Bool-cases (v.node_id == target)) [
        | inl y ↦
            let same : v.node_id ≡ target = ground arith in
            (
              v.path,
              search-hit fuel g target s v vs e y,
              inr (subst (Route g source v.path) same routes.0),
            )
        | inr y ↦
            let s' : SearchState = record s { queue = vs } in
            let (rs', l) = after_visit_lem g source v s' routes.0 routes.1 in
            let count : length s.queue ≡ suc (length vs) = ap length e in
            let (path, r, ok) =
              search_lem fuel g source target (after_visit g v s') rs' (omega (arith, l, count)) in
            (path, search-miss fuel g target s v vs e y ∙ r, ok)
      ]
]

-- `findPath` ends within one round for each node and two more, and gives the empty path or a list of
-- cables from the source to the target, each connected to the one before.
pub find_path_lem :
    (g : CableGraph) (source target : ℕ)
    → (path : List ℕ) × (find_path g source target ≡ some path)
      × ((path ≡ []) ⊎ Route g source path target)
unfolding find_path
find_path_lem g source target = elim (Bool-cases ((source == 0) || (target == 0))) [
  | inl y ↦ ([], rw y refl, inl refl)
  | inr y ↦
      let s : SearchState = record {
        queue = record { node_id = source; path = source ∷ [] } ∷ [];
        visited = source ∷ [];
      } in
      let l = absent-le (node_ids g.nodes) (source ∷ []) in
      let (path, r, ok) =
        search_lem (suc (suc (length g.nodes))) g source target s (start, tt)
          (omega (arith, l, length-node_ids g.nodes)) in
      (path, rw y r, ok)
]
