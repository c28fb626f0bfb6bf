-- ===== src/Quests/Manager/Status.antt =====
-- The player's status map as the quest manager writes it: a key stands once, and what a write changes.
use gtnh_platform.Base.{
  ℕ, ◌≡◌, refl, ap, subst, sym, ◌∙◌, ◌≢◌, inl, inr, true, false, none, some, List, [], ◌∷◌, ◌==◌,
  arith, Bool-cases, Option-cases, All,
}
use gtnh_platform.Quests.{
  QuestStatus, locked, available, in_progress, completed, StatusMap, QuestGraph, find,
  has_completed, all_completed, can_complete, is_completed, is_locked, newly_among, newly_available,
}
use gtnh_platform.Quests.Manager.{put_status, make_available}

-- No key stands twice.
unfoldable pub HasUniqueKeys : StatusMap → Type 0
unfolding find
HasUniqueKeys [] = Unit
HasUniqueKeys (e ∷ m) = (find e.0 m ≡ none) × HasUniqueKeys m

pub find-put_same : (m : StatusMap) (q : ℕ) (s : QuestStatus) → find q (put_status m q s) ≡ some s
unfolding find put_status
find-put_same [] q s = ground arith
find-put_same (e ∷ m) q s = ground (arith, find-put_same m q s)

pub find-put_other :
    (m : StatusMap) (p q : ℕ) (s : QuestStatus) → p ≢ q → find p (put_status m q s) ≡ find p m
unfolding find put_status
find-put_other [] p q s h = ground arith
find-put_other (e ∷ m) p q s h = ground (arith, find-put_other m p q s h)

pub put_status-HasUniqueKeys :
    (m : StatusMap) (q : ℕ) (s : QuestStatus) → HasUniqueKeys m → HasUniqueKeys (put_status m q s)
unfolding find put_status HasUniqueKeys
put_status-HasUniqueKeys [] q s u = (refl, tt)
put_status-HasUniqueKeys (e ∷ m) q s (fresh_key, u) =
    let rest = put_status-HasUniqueKeys m q s u in
    ground (arith, rest, fresh_key, u, find-put_other m e.0 q s)

behind :
    (e : ℕ × QuestStatus) (m : StatusMap) (q : ℕ)
    → find e.0 m ≡ none
    → find q m ≡ some locked
    → find q (e ∷ m) ≡ some locked
unfolding find
behind e m q new h = ground (arith, new, h, λ (y : e.0 ≡ q). ap (λ (k : ℕ). find k m) y)

-- An entry in front hides no later one.
All-behind :
    (e : ℕ × QuestStatus) (m : StatusMap)
    → find e.0 m ≡ none
    → (qs : List ℕ) → All (λ q. find q m ≡ some locked) qs
    → All (λ q. find q (e ∷ m) ≡ some locked) qs
unfolding find
All-behind e m new [] h = tt
All-behind e m new (q ∷ qs) (h, hs) = (behind e m q new h, All-behind e m new qs hs)

locked_head :
    (e : ℕ × QuestStatus) (m : StatusMap) → is_locked e.1 ≡ true → find e.0 (e ∷ m) ≡ some locked
unfolding find
locked_head (q, locked) m h = ground arith
locked_head (q, available) m h = cc
locked_head (q, in_progress) m h = cc
locked_head (q, completed) m h = cc

-- Every quest of `NewlyAvailable` is not completed, since its one entry is locked.
newly_among-fresh :
    (g : QuestGraph) (current m : StatusMap)
    → HasUniqueKeys m
    → All (λ q. find q m ≡ some locked) (newly_among g current m)
unfolding find newly_among HasUniqueKeys
newly_among-fresh g current [] u = tt
newly_among-fresh g current (e ∷ m) (new, u) =
    let rest = newly_among-fresh g current m u in
    let later = All-behind e m new (newly_among g current m) rest in
    elim (Bool-cases (is_locked e.1)) [
      | inl y ↦ elim (Bool-cases (can_complete g e.0 current)) [
        | inl z ↦ rw (newly_among, y, z) (locked_head e m y, later)
        | inr z ↦ rw (newly_among, y, z) later
      ]
      | inr y ↦ rw (newly_among, y) later
    ]

pub newly_available-fresh :
    (g : QuestGraph) (m : StatusMap)
    → HasUniqueKeys m
    → All (λ q. find q m ≡ some locked) (newly_available g m)
unfolding newly_available
newly_available-fresh g m u = newly_among-fresh g m m u

-- A quest that is not completed may get another status than completed without a change to what is
-- completed.
pub has_completed-put :
    (m : StatusMap) (q : ℕ) (s : QuestStatus)
    → has_completed m q ≡ false
    → is_completed (some s) ≡ false
    → (p : ℕ) → has_completed (put_status m q s) p ≡ has_completed m p
unfolding has_completed
has_completed-put m q s h k p = elim (Bool-cases (p == q)) [
  | inl y ↦
      let same : q ≡ p = ground arith in
      subst (λ r. has_completed (put_status m q s) r ≡ has_completed m r) same
        (rw (has_completed, find-put_same m q s, h) k)
  | inr y ↦ ap is_completed (find-put_other m p q s (ground arith))
]

pub has_completed_complete :
    (m : StatusMap) (q : ℕ) → has_completed (put_status m q completed) q ≡ true
unfolding has_completed
has_completed_complete m q = ap is_completed (find-put_same m q completed)

pub has_completed-other :
    (m : StatusMap) (p q : ℕ) (s : QuestStatus)
    → p ≢ q
    → has_completed (put_status m q s) p ≡ has_completed m p
unfolding has_completed
has_completed-other m p q s h = ap is_completed (find-put_other m p q s h)

-- What stays completed under a write of completed.
pub has_completed-kept :
    (m : StatusMap) (p q : ℕ)
    → has_completed m p ≡ true
    → has_completed (put_status m q completed) p ≡ true
has_completed-kept m p q h = elim (Bool-cases (p == q)) [
  | inl y ↦
      subst (λ r. has_completed (put_status m q completed) r ≡ true) (ground arith)
        (has_completed_complete m q)
  | inr y ↦ has_completed-other m p q completed (ground arith) ∙ h
]

-- More completed quests keep the prerequisites completed.
all_completed_mono :
    (m n : StatusMap)
    → ((p : ℕ) → has_completed m p ≡ true → has_completed n p ≡ true)
    → (ps : List ℕ) → all_completed m ps ≡ true
    → all_completed n ps ≡ true
unfolding all_completed
all_completed_mono m n more [] h = refl
all_completed_mono m n more (p ∷ ps) h = ground (arith, h, more p, all_completed_mono m n more ps)

pub can_complete_mono :
    (g : QuestGraph) (m n : StatusMap)
    → ((p : ℕ) → has_completed m p ≡ true → has_completed n p ≡ true)
    → (q : ℕ) → can_complete g q m ≡ true
    → can_complete g q n ≡ true
unfolding can_complete
can_complete_mono g m n more q h = elim (Option-cases (find q g.prereqs)) [
  | inl e ↦ rw (can_complete, e) refl
  | inr (ps, e) ↦
      let before : all_completed m ps ≡ true =
        sym (ap (λ o. elim o [ none ↦ true | some qs ↦ all_completed m qs ]) e) ∙ h in
      rw (can_complete, e) (all_completed_mono m n more ps before)
]

pub All-still :
    (m : StatusMap) (q : ℕ)
    → has_completed m q ≡ false
    → (qs : List ℕ) → All (λ p. has_completed m p ≡ false) qs
    → All (λ p. has_completed (put_status m q available) p ≡ false) qs
All-still m q h [] hs = tt
All-still m q h (p ∷ ps) (k, ks) =
    (has_completed-put m q available h refl p ∙ k, All-still m q h ps ks)

-- `unlockNewlyAvailable` changes nothing of what is completed.
pub has_completed-make_available :
    (qs : List ℕ) (m : StatusMap)
    → All (λ q. has_completed m q ≡ false) qs
    → (p : ℕ) → has_completed (make_available m qs) p ≡ has_completed m p
unfolding make_available
has_completed-make_available [] m h p = refl
has_completed-make_available (q ∷ qs) m (h, hs) p =
    has_completed-make_available qs (put_status m q available) (All-still m q h qs hs) p
    ∙ has_completed-put m q available h refl p
