-- ===== src/Cable/Routes.antt =====
-- Routes along connected cables, and what one round of the search of `findPath` does.
use gtnh_platform.Base.{
  ℕ, ◌+◌, ◌≤◌, ◌≡◌, refl, ◌⊎◌, inl, inr, ap, subst, true, false, ◌&&◌, none, some, List, [], ◌∷◌,
  ◌++◌, arith, Bool-cases, Option-cases, ◌==◌, length, length-append, All, All-append,
}
use gtnh_platform.Base.Ids.{has_id, absent, absent-append_lt}
use gtnh_platform.Cable.{
  CableNode, CableGraph, find_node, map_find, face_pos, has_face, opposite, link, faces, Visit,
  SearchState, visit_face, visit_faces, after_visit,
}

-- The cable `b` is connected to the cable `a` at one of its six faces.
pub record Linked (g : CableGraph) (a b : ℕ) : Type 0 where
  pub node : CableNode
  pub face : ℕ
  pub is_face : has_id face faces ≡ true
  pub found : find_node g.nodes a ≡ some node
  pub linked : link g node face ≡ some b

-- The lists of connected cables from `source` to a cable.
pub data Route (g : CableGraph) (source : ℕ) : List ℕ → ℕ → Type 0 where
  start : Route g source (source ∷ []) source
  onward :
      (path : List ℕ) (a b : ℕ)
      → Route g source path a
      → Linked g a b
      → Route g source (path ++ (b ∷ [])) b

pub node_ids : List CableNode → List ℕ
node_ids [] = []
node_ids (n ∷ ns) = n.id ∷ node_ids ns

unfoldable pub queue_ids : List Visit → List ℕ
queue_ids [] = []
queue_ids (v ∷ vs) = v.node_id ∷ queue_ids vs

pub queue_ids-append :
    (vs : List Visit) (v : Visit) → queue_ids (vs ++ (v ∷ [])) ≡ queue_ids vs ++ (v.node_id ∷ [])
unfolding queue_ids
queue_ids-append [] v = refl
queue_ids-append (w ∷ vs) v = ap (λ l. w.node_id ∷ l) (queue_ids-append vs v)

pub length-node_ids : (ns : List CableNode) → length (node_ids ns) ≡ length ns
unfolding node_ids
length-node_ids [] = refl
length-node_ids (n ∷ ns) = omega (arith, length-node_ids ns)

pub find_node-has :
    (ns : List CableNode) (id : ℕ) (n : CableNode)
    → find_node ns id ≡ some n
    → has_id id (node_ids ns) ≡ true
unfolding find_node node_ids has_id
find_node-has [] id n e = ground arith
find_node-has (m ∷ ns) id n e = elim (Bool-cases (m.id == id)) [
  | inl y ↦ ground arith
  | inr y ↦ ground (arith, find_node-has ns id n)
]

-- A cable is connected to cables of the graph only.
link-has :
    (g : CableGraph) (node : CableNode) (f b : ℕ)
    → link g node f ≡ some b
    → has_id b (node_ids g.nodes) ≡ true
unfolding link
link-has g node f b e =
    elim (Option-cases (map_find g.pos_to_node (face_pos f node.x node.y node.z))) [
      | inl n ↦ let z : link g node f ≡ none = rw (link, n) refl in absurd cc
      | inr (k, p) ↦ elim (Option-cases (find_node g.nodes k)) [
        | inl n ↦ let z : link g node f ≡ none = rw (link, p, n) refl in absurd cc
        | inr (m, q) ↦ elim (Bool-cases (has_face node.meta f && has_face m.meta (opposite f))) [
          | inl y ↦
              let z : link g node f ≡ some k = rw (link, p, q, y) refl in
              let same : k ≡ b = cc in
              subst (λ i. has_id i (node_ids g.nodes) ≡ true) same (find_node-has g.nodes k m q)
          | inr y ↦ let z : link g node f ≡ none = rw (link, p, q, y) refl in absurd cc
        ]
      ]
    ]

-- The state with one more visit.
abbrev pub added : ℕ → List ℕ → Visit
added b path = record { node_id = b; path = path ++ (b ∷ []) }

abbrev pub with_visit : SearchState → ℕ → List ℕ → SearchState
with_visit s b path = record {
  queue = s.queue ++ (added b path ∷ []);
  visited = s.visited ++ (b ∷ []);
}

-- A face without a new cable changes nothing.
pub visit_face_cases :
    (g : CableGraph) (node : CableNode) (path : List ℕ) (f : ℕ) (s : SearchState)
    → ((visit_face g node path f s ≡ s)
        × ((b : ℕ) → link g node f ≡ some b → has_id b s.visited ≡ true))
      ⊎ ((b : ℕ) × (visit_face g node path f s ≡ with_visit s b path)
          × (link g node f ≡ some b)
          × (has_id b s.visited ≡ false))
unfolding visit_face
visit_face_cases g node path f s = elim (Option-cases (link g node f)) [
  | inl n ↦ inl (rw (visit_face, n) refl, λ b e. absurd cc)
  | inr (b, e) ↦ elim (Bool-cases (has_id b s.visited)) [
    | inl y ↦ inl (rw (visit_face, e, y) refl, λ b' e'. ground arith)
    | inr y ↦ inr (b, rw (visit_face, e, y) refl, e, y)
  ]
]

-- The rounds that are left at most: the queued visits and the nodes not visited.
abbrev pub rounds_left : CableGraph → SearchState → ℕ
rounds_left g s = length s.queue + absent (node_ids g.nodes) s.visited

-- What holds of the search from `source`: the paths are routes.
abbrev pub HasRoutes : CableGraph → ℕ → SearchState → Type 0
HasRoutes g source s = All (λ v. Route g source v.path v.node_id) s.queue

-- A face keeps the bound and the routes.
visit_face_lem :
    (g : CableGraph) (source a : ℕ) (node : CableNode) (path : List ℕ) (f : ℕ) (s : SearchState)
    → find_node g.nodes a ≡ some node
    → has_id f faces ≡ true
    → Route g source path a
    → HasRoutes g source s
    → HasRoutes g source (visit_face g node path f s)
      × (rounds_left g (visit_face g node path f s) ≤ rounds_left g s)
visit_face_lem g source a node path f s found isf r rs = elim (visit_face_cases g node path f s) [
  | inl (e, old) ↦ rw e (rs, omega arith)
  | inr (b, e, l, new) ↦
      let onto : Linked g a b = record {
        node = node;
        face = f;
        is_face = isf;
        found = found;
        linked = l;
      } in
      rw e (
        All-append (λ (v : Visit). Route g source v.path v.node_id) s.queue (added b path ∷ []) rs
            (onward path a b r onto, tt),
        omega (
          arith,
          length-append s.queue (added b path ∷ []),
          absent-append_lt (node_ids g.nodes) s.visited b (link-has g node f b l) new,
        ),
      )
]

pub visit_faces_lem :
    (g : CableGraph) (source a : ℕ) (node : CableNode) (path fs : List ℕ) (s : SearchState)
    → find_node g.nodes a ≡ some node
    → All (λ f. has_id f faces ≡ true) fs
    → Route g source path a
    → HasRoutes g source s
    → HasRoutes g source (visit_faces g node path fs s)
      × (rounds_left g (visit_faces g node path fs s) ≤ rounds_left g s)
unfolding visit_faces
visit_faces_lem g source a node path [] s found isf r rs = (rs, omega arith)
visit_faces_lem g source a node path (f ∷ fs) s found isf r rs =
    let (rs', l) = visit_face_lem g source a node path f s found isf.0 r rs in
    let (rs'', l') =
      visit_faces_lem g source a node path fs (visit_face g node path f s) found isf.1 r rs' in
    (rs'', omega (arith, l, l'))

faces_listed : All (λ f. has_id f faces ≡ true) faces
unfolding has_id
faces_listed = (refl, (refl, (refl, (refl, (refl, (refl, tt))))))

pub after_visit_lem :
    (g : CableGraph) (source : ℕ) (v : Visit) (s : SearchState)
    → Route g source v.path v.node_id
    → HasRoutes g source s
    → HasRoutes g source (after_visit g v s) × (rounds_left g (after_visit g v s) ≤ rounds_left g s)
unfolding after_visit
after_visit_lem g source v s r rs = elim (Option-cases (find_node g.nodes v.node_id)) [
  | inl n ↦ rw (after_visit, n) (rs, omega arith)
  | inr (node, e) ↦
      rw (after_visit, e)
        (visit_faces_lem g source v.node_id node v.path faces s e faces_listed r rs)
]
