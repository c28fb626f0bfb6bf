-- ===== src/Cable/Complete.antt =====
-- `findPath` finds a route when there is one.
use gtnh_platform.Base.{
  ℕ, zero, suc, ◌<◌, ◌≡◌, refl, ◌≢◌, ◌⊎◌, inl, inr, ap, subst, sym, ◌∙◌, true, false, ◌||◌, some,
  List, [], ◌∷◌, arith, Bool-cases, ◌==◌, length, All,
}
use gtnh_platform.Base.Ids.{has_id, has_id-one, absent-le}
use gtnh_platform.Cable.{CableGraph, Visit, SearchState, after_visit, search, find_path}
use gtnh_platform.Cable.Routes.{
  Route, start, onward, queue_ids, rounds_left, HasRoutes, after_visit_lem, node_ids,
  length-node_ids,
}
use gtnh_platform.Cable.Search.{search-hit, search-miss, queue_cases}
use gtnh_platform.Cable.Settled.{
  IsDone, IsSettledBut, IsSettled, after_visit-IsSettled, same_id, has_id-tail,
}

endpoint_reached :
    (g : CableGraph) (source target : ℕ) (visited path : List ℕ) (a : ℕ)
    → has_id source visited ≡ true
    → ((a : ℕ) → has_id a visited ≡ true → IsDone g target visited a)
    → Route g source path a
    → has_id a visited ≡ true
endpoint_reached g source target visited path a h all start = h
endpoint_reached g source target visited path c h all (onward p a b r l) =
    (all a (endpoint_reached g source target visited p a h all r)).1 b l

no_queue : (a : ℕ) → has_id a (queue_ids []) ≢ true
unfolding has_id queue_ids
no_queue a h = ground arith

-- The visit at the front of the queue.
front_or_rest :
    (v : Visit) (vs : List Visit) (a : ℕ)
    → has_id a (queue_ids (v ∷ vs)) ≡ true
    → (has_id a (queue_ids vs) ≡ true) ⊎ (a ≡ v.node_id)
unfolding queue_ids
front_or_rest v vs a h = elim (Bool-cases (v.node_id == a)) [
  | inl y ↦ inr (same_id v.node_id a y)
  | inr y ↦ inl (has_id-tail v.node_id a (queue_ids vs) y h)
]

taken_from_queue :
    (g : CableGraph) (target : ℕ) (v : Visit) (vs : List Visit) (s : SearchState)
    → s.queue ≡ v ∷ vs
    → IsSettled g target s
    → IsSettledBut g target v.node_id (record s { queue = vs })
taken_from_queue g target v vs s e settled a h = elim (settled a h) [
  | inl q ↦ elim (front_or_rest v vs a (subst (λ q. has_id a (queue_ids q) ≡ true) e q)) [
    | inl k ↦ inl k
    | inr same ↦ inr (inr same)
  ]
  | inr d ↦ inr (inl d)
]

search_complete :
    (fuel : ℕ) (g : CableGraph) (source target : ℕ) (s : SearchState) (way : List ℕ)
    → HasRoutes g source s
    → rounds_left g s < fuel
    → IsSettled g target s
    → has_id source s.visited ≡ true
    → Route g source way target
    → (path : List ℕ) × (search fuel g target s ≡ some path) × Route g source path target
search_complete zero g source target s way rs h settled from r = absurd (omega arith)
search_complete (suc fuel) g source target s way rs h settled from r = elim (queue_cases s.queue) [
  | inl e ↦
      let done : (a : ℕ) → has_id a s.visited ≡ true → IsDone g target s.visited a = λ a k.
        elim (settled a k) [
          | inl q ↦ absurd (no_queue a (subst (λ q. has_id a (queue_ids q) ≡ true) e q))
          | inr d ↦ d
        ] in
      let there = endpoint_reached g source target s.visited way target from done r in
      absurd ((done target there).0 refl)
  | inr (v, vs, e) ↦
      let routes : All (λ v. Route g source v.path v.node_id) (v ∷ vs) =
        subst (All (λ v. Route g source v.path v.node_id)) e rs in
      elim (Bool-cases (v.node_id == target)) [
        | inl y ↦ (
          v.path,
          search-hit fuel g target s v vs e y,
          subst (Route g source v.path) (sym (same_id v.node_id target y)) routes.0,
        )
        | inr y ↦
            let s' : SearchState = record s { queue = vs } in
            let miss : v.node_id ≢ target = ground arith in
            let (rs', l) = after_visit_lem g source v s' routes.0 routes.1 in
            let count : length s.queue ≡ suc (length vs) = ap length e in
            let (settled', keeps) =
              after_visit-IsSettled g target v s' miss
                (taken_from_queue g target v vs s e settled) in
            let (path, found, ok) =
              search_complete fuel g source target (after_visit g v s') way rs'
                (omega (arith, l, count)) settled' (keeps source from) r in
            (path, search-miss fuel g target s v vs e y ∙ found, ok)
      ]
]

-- When two cables with ids other than 0 are joined by connected cables, `findPath` gives a list of
-- connected cables from the one to the other.
pub find_path-Route :
    (g : CableGraph) (source target : ℕ) (way : List ℕ)
    → source ≢ 0
    → target ≢ 0
    → Route g source way target
    → (path : List ℕ) × (find_path g source target ≡ some path) × Route g source path target
unfolding find_path queue_ids
find_path-Route g source target way a b r =
    let s : SearchState = record {
      queue = record { node_id = source; path = source ∷ [] } ∷ [];
      visited = source ∷ [];
    } in
    let l = absent-le (node_ids g.nodes) (source ∷ []) in
    let (path, found, ok) =
      search_complete (suc (suc (length g.nodes))) g source target s way (start, tt)
        (omega (arith, l, length-node_ids g.nodes)) (λ c h. inl h) (has_id-one source) r in
    let both : ((source == 0) || (target == 0)) ≡ false = ground arith in (path, rw both found, ok)
