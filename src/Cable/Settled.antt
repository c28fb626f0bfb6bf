-- ===== src/Cable/Settled.antt =====
-- What one round of the search keeps of the visited cables: each is queued, or done.
use gtnh_platform.Base.{
  ℕ, ◌≡◌, refl, ◌≢◌, ◌⊎◌, inl, inr, subst, sym, ◌∙◌, true, false, none, some, List, [], ◌∷◌, ◌++◌,
  arith, Bool-cases, Option-cases, ◌==◌,
}
use gtnh_platform.Base.Ids.{has_id, has_id-append, has_id-one}
use gtnh_platform.Cable.{
  CableNode, CableGraph, find_node, link, faces, Visit, SearchState, visit_face, visit_faces,
  after_visit,
}
use gtnh_platform.Cable.Routes.{Linked, queue_ids, queue_ids-append, added, visit_face_cases}

-- A cable that the search is done with: it is not the target, and all its neighbours are visited.
abbrev pub IsDone : CableGraph → ℕ → List ℕ → ℕ → Type 0
IsDone g target visited a = (a ≢ target) × ((b : ℕ) → Linked g a b → has_id b visited ≡ true)

-- Each visited cable is in the queue, or done, or the one being visited.
abbrev pub IsSettledBut : CableGraph → ℕ → ℕ → SearchState → Type 0
IsSettledBut g target c s =
    (a : ℕ)
    → has_id a s.visited ≡ true
    → (has_id a (queue_ids s.queue) ≡ true) ⊎ (IsDone g target s.visited a ⊎ (a ≡ c))

abbrev pub IsSettled : CableGraph → ℕ → SearchState → Type 0
IsSettled g target s =
    (a : ℕ)
    → has_id a s.visited ≡ true
    → (has_id a (queue_ids s.queue) ≡ true) ⊎ IsDone g target s.visited a

has_id-split :
    (id : ℕ) (us vs : List ℕ)
    → has_id id (us ++ vs) ≡ true
    → (has_id id us ≡ true) ⊎ (has_id id vs ≡ true)
unfolding has_id
has_id-split id [] vs h = inr h
has_id-split id (u ∷ us) vs h = elim (Bool-cases (u == id)) [
  | inl y ↦ inl (ground arith)
  | inr y ↦ elim (has_id-split id us vs (ground arith)) [
    | inl k ↦ inl (ground arith)
    | inr k ↦ inr k
  ]
]

pub has_id-tail :
    (f id : ℕ) (fs : List ℕ) → (f == id) ≡ false → has_id id (f ∷ fs) ≡ true → has_id id fs ≡ true
unfolding has_id
has_id-tail f id fs y h = ground arith

pub same_id : (f id : ℕ) → (f == id) ≡ true → id ≡ f
same_id f id y = ground arith

none_in : (f : ℕ) → has_id f [] ≢ true
unfolding has_id
none_in f h = ground arith

one_id : (a b : ℕ) → has_id a (b ∷ []) ≡ true → b ≡ a
unfolding has_id
one_id a b h = ground arith

visit_face-keeps :
    (g : CableGraph) (n : CableNode) (path : List ℕ) (f : ℕ) (s : SearchState) (a : ℕ)
    → has_id a s.visited ≡ true
    → has_id a (visit_face g n path f s).visited ≡ true
visit_face-keeps g n path f s a h = elim (visit_face_cases g n path f s) [
  | inl (e, old) ↦ rw e h
  | inr (b, e, l, new) ↦ rw e (has_id-append a s.visited (b ∷ []) (inl h))
]

visit_face-covers :
    (g : CableGraph) (n : CableNode) (path : List ℕ) (f : ℕ) (s : SearchState) (b : ℕ)
    → link g n f ≡ some b
    → has_id b (visit_face g n path f s).visited ≡ true
visit_face-covers g n path f s b h = elim (visit_face_cases g n path f s) [
  | inl (e, old) ↦ rw e (old b h)
  | inr (b', e, l, new) ↦
      let same : b' ≡ b = cc in
      rw e (
        subst (λ i. has_id i (s.visited ++ (b' ∷ [])) ≡ true) same
          (has_id-append b' s.visited (b' ∷ []) (inr (has_id-one b'))))
]

visit_face-settled :
    (g : CableGraph) (target c : ℕ) (n : CableNode) (path : List ℕ) (f : ℕ) (s : SearchState)
    → IsSettledBut g target c s
    → IsSettledBut g target c (visit_face g n path f s)
visit_face-settled g target c n path f s settled = elim (visit_face_cases g n path f s) [
  | inl (e, old) ↦ subst (IsSettledBut g target c) (sym e) settled
  | inr (b, e, l, new) ↦ subst (IsSettledBut g target c) (sym e) (λ a h.
      elim (has_id-split a s.visited (b ∷ []) h) [
        | inl k ↦ elim (settled a k) [
          | inl q ↦ inl (
              subst (λ ids. has_id a ids ≡ true) (sym (queue_ids-append s.queue (added b path)))
                (has_id-append a (queue_ids s.queue) (b ∷ []) (inl q)))
          | inr (inl (miss, all)) ↦
              inr (inl (miss, λ d m. has_id-append d s.visited (b ∷ []) (inl (all d m))))
          | inr (inr same) ↦ inr (inr same)
        ]
        | inr k ↦ inl (
            subst (λ ids. has_id a ids ≡ true) (sym (queue_ids-append s.queue (added b path)))
              (has_id-append a (queue_ids s.queue) (b ∷ []) (inr k)))
      ])
]

-- The loop over the faces: nothing visited is lost, all neighbours are visited, the rest stays settled.
visit_faces_lem :
    (g : CableGraph) (target c : ℕ) (n : CableNode) (path fs : List ℕ) (s : SearchState)
    → IsSettledBut g target c s
    → IsSettledBut g target c (visit_faces g n path fs s)
      × ((a : ℕ) → has_id a s.visited ≡ true → has_id a (visit_faces g n path fs s).visited ≡ true)
      × ((f b : ℕ)
          → has_id f fs ≡ true
          → link g n f ≡ some b
          → has_id b (visit_faces g n path fs s).visited ≡ true)
unfolding visit_faces
visit_faces_lem g target c n path [] s settled =
    (settled, λ a h. h, λ f b h l. absurd (none_in f h))
visit_faces_lem g target c n path (f ∷ fs) s settled =
    let s' = visit_face g n path f s in
    let (ok, keeps, covers) =
      visit_faces_lem g target c n path fs (visit_face g n path f s)
        (visit_face-settled g target c n path f s settled) in
    (
      ok,
      λ a h. keeps a (visit_face-keeps g n path f s a h),
      λ f' b h l. elim (Bool-cases (f == f')) [
        | inl y ↦
            let same : f' ≡ f = same_id f f' y in
            keeps b (visit_face-covers g n path f s b (subst (λ i. link g n i ≡ some b) same l))
        | inr y ↦ covers f' b (has_id-tail f f' fs y h) l
      ],
    )

after_visit-none :
    (g : CableGraph) (v : Visit) (s : SearchState)
    → find_node g.nodes v.node_id ≡ none
    → after_visit g v s ≡ s
unfolding after_visit
after_visit-none g v s n = rw (after_visit, n) refl

after_visit-some :
    (g : CableGraph) (v : Visit) (s : SearchState) (node : CableNode)
    → find_node g.nodes v.node_id ≡ some node
    → after_visit g v s ≡ visit_faces g node v.path faces s
unfolding after_visit
after_visit-some g v s node n = rw (after_visit, n) refl

no_node : (g : CableGraph) (a b c : ℕ) → a ≡ c → find_node g.nodes c ≡ none → ¬ Linked g a b
no_node g a b c same n l =
    let f : find_node g.nodes c ≡ some l.node =
      subst (λ i. find_node g.nodes i ≡ some l.node) same l.found in
    absurd cc

face_from :
    (g : CableGraph) (a b c : ℕ) (node : CableNode)
    → a ≡ c
    → find_node g.nodes c ≡ some node
    → (l : Linked g a b) → link g node l.face ≡ some b
face_from g a b c node same e l =
    let f : find_node g.nodes c ≡ some l.node =
      subst (λ i. find_node g.nodes i ≡ some l.node) same l.found in
    let n : l.node ≡ node = cc in subst (λ m. link g m l.face ≡ some b) n l.linked

-- The visit of a cable that is not the target leaves everything settled.
pub after_visit-IsSettled :
    (g : CableGraph) (target : ℕ) (v : Visit) (s : SearchState)
    → v.node_id ≢ target
    → IsSettledBut g target v.node_id s
    → IsSettled g target (after_visit g v s)
      × ((a : ℕ) → has_id a s.visited ≡ true → has_id a (after_visit g v s).visited ≡ true)
after_visit-IsSettled g target v s miss settled =
    elim (Option-cases (find_node g.nodes v.node_id)) [
      | inl n ↦ rw (after_visit-none g v s n) (
        λ a h. elim (settled a h) [
          | inl q ↦ inl q
          | inr (inl d) ↦ inr d
          | inr (inr same) ↦
              inr ((λ e. miss (sym same ∙ e)), λ b l. absurd (no_node g a b v.node_id same n l))
        ],
        λ a h. h,
      )
      | inr (node, e) ↦
          let (ok, keeps, covers) =
            visit_faces_lem g target v.node_id node v.path faces s settled in
          rw (after_visit-some g v s node e) (
            λ a h. elim (ok a h) [
              | inl q ↦ inl q
              | inr (inl d) ↦ inr d
              | inr (inr same) ↦ inr (
                (λ e. miss (sym same ∙ e)),
                λ b l. covers l.face b l.is_face (face_from g a b v.node_id node same e l),
              )
            ],
            keeps,
          )
    ]
