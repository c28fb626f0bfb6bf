-- ===== src/Drain/Entries.antt =====
-- Sound entries and distinct ids under the loops and writes of PipeConsumeTracker.
use gtnh_platform.Base.{
  ℕ, ◌≤◌, ◌≡◌, refl, ◌≢◌, ◌⊎◌, inl, inr, Bool, true, false, none, some, [], ◌∷◌, arith, Bool-cases,
  ◌==◌, ==_iff, subst,
}
use gtnh_platform.Base.Int.{◌<ℤ◌, -ℤ_parts}
use gtnh_platform.Drain.{PendingConsume}
use gtnh_platform.Drain.Tracker.{
  PendingMap, PipeConsumeTracker, find_pending, erase, update, Plan, planned, is_plannable,
}
use gtnh_platform.Drain.Sweeps.{
  Visit, leave, change, discard, take_out, Swept, visited, sweep, retry_visit, cancel_visit,
  expire_visit, clear_visit,
}

-- An entry under its own nonzero request id, with a source, an unserved part and at most four
-- retries.
pub record IsSound (k : ℕ) (p : PendingConsume) : Type 0 where
  pub keyed : k ≡ p.drain_request_id
  pub has_id : p.drain_request_id ≢ 0
  pub has_source : p.source_node_id ≢ 0
  pub unserved : p.pipe_accepted <ℤ p.requested
  pub retried : p.retry_count ≤ 4

abbrev pub AllSound : PendingMap → Type 0
AllSound [] = Unit {0}
AllSound (e ∷ m) = IsSound e.0 e.1 × AllSound m

-- No request id stands twice.
abbrev pub Distinct : PendingMap → Type 0
Distinct [] = Unit {0}
Distinct (e ∷ m) = (find_pending e.0 m ≡ none) × Distinct m

-- A visit that keeps an entry sound.
abbrev pub KeepsSound : {B : Type 0} → PendingConsume → Visit B → Type 0
KeepsSound p leave = Unit {0}
KeepsSound p (change q b) =
    (q.drain_request_id ≡ p.drain_request_id)
    × (q.source_node_id ≡ p.source_node_id)
    × (q.requested ≡ p.requested)
    × (q.pipe_accepted ≡ p.pipe_accepted)
    × ((q.retry_count ≡ p.retry_count) ⊎ (q.retry_count ≤ 4))
KeepsSound p discard = Unit {0}
KeepsSound p (take_out b) = Unit {0}

visited-find :
    {B : Type 0} (j k : ℕ) (p : PendingConsume) (v : Visit B) (r : Swept B)
    → (k == j) ≡ false
    → find_pending j r.entries ≡ none
    → find_pending j (visited k p v r).entries ≡ none
unfolding visited find_pending
visited-find j k p leave r e h = ground arith
visited-find j k p (change q b) r e h = ground arith
visited-find j k p discard r e h = h
visited-find j k p (take_out b) r e h = h

find_pending-tail :
    (j k : ℕ) (p : PendingConsume) (m : PendingMap)
    → find_pending j ((k, p) ∷ m) ≡ none
    → ((k == j) ≡ false) × (find_pending j m ≡ none)
unfolding find_pending
find_pending-tail j k p m h = ground arith

pub sweep-find :
    {B : Type 0} (j : ℕ) (f : PendingConsume → Visit B) (m : PendingMap)
    → find_pending j m ≡ none
    → find_pending j (sweep f m).entries ≡ none
unfolding sweep
sweep-find j f [] h = h
sweep-find j f ((k, p) ∷ m) h =
    let t = find_pending-tail j k p m h in
    visited-find j k p (f p) (sweep f m) t.0 (sweep-find j f m t.1)

pub kept-IsSound :
    (k : ℕ) (p q : PendingConsume)
    → (q.drain_request_id ≡ p.drain_request_id)
      × (q.source_node_id ≡ p.source_node_id)
      × (q.requested ≡ p.requested)
      × (q.pipe_accepted ≡ p.pipe_accepted)
      × ((q.retry_count ≡ p.retry_count) ⊎ (q.retry_count ≤ 4))
    → IsSound k p
    → IsSound k q
kept-IsSound k p q h s = ground arith

visited-Inv :
    {B : Type 0} (k : ℕ) (p : PendingConsume) (v : Visit B) (r : Swept B)
    → KeepsSound p v
    → IsSound k p
    → find_pending k r.entries ≡ none
    → AllSound r.entries × Distinct r.entries
    → AllSound (visited k p v r).entries × Distinct (visited k p v r).entries
unfolding visited
visited-Inv k p leave r h s e a = ((s, a.0), (e, a.1))
visited-Inv k p (change q b) r h s e a = ((kept-IsSound k p q h s, a.0), (e, a.1))
visited-Inv k p discard r h s e a = a
visited-Inv k p (take_out b) r h s e a = a

pub sweep-Inv :
    {B : Type 0} (f : PendingConsume → Visit B)
    → ((p : PendingConsume) → KeepsSound p (f p))
    → (m : PendingMap) → AllSound m
    → Distinct m
    → AllSound (sweep f m).entries × Distinct (sweep f m).entries
unfolding sweep
sweep-Inv f h [] s d = (tt, tt)
sweep-Inv f h ((k, p) ∷ m) s d =
    visited-Inv k p (f p) (sweep f m) (h p) s.0 (sweep-find k f m d.0) (sweep-Inv f h m s.1 d.1)

pub retry_visit-KeepsSound : (now : ℕ) (p : PendingConsume) → KeepsSound p (retry_visit now p)
unfolding retry_visit
retry_visit-KeepsSound now p = ground arith

pub cancel_visit-KeepsSound :
    (hit : PendingConsume → Bool) (p : PendingConsume) → KeepsSound p (cancel_visit hit p)
unfolding cancel_visit
cancel_visit-KeepsSound hit p = ground arith

pub expire_visit-KeepsSound : (now : ℕ) (p : PendingConsume) → KeepsSound p (expire_visit now p)
unfolding expire_visit
expire_visit-KeepsSound now p = ground arith

pub clear_visit-KeepsSound :
    (owner port : ℕ) (p : PendingConsume) → KeepsSound p (clear_visit owner port p)
unfolding clear_visit
clear_visit-KeepsSound owner port p = ground arith

erase-find :
    (j id : ℕ) (m : PendingMap) → find_pending j m ≡ none → find_pending j (erase id m) ≡ none
unfolding find_pending erase
erase-find j id [] h = refl
erase-find j id ((k, p) ∷ m) h = ground (arith, erase-find j id m)

pub erase-Inv :
    (id : ℕ) (m : PendingMap)
    → AllSound m
    → Distinct m
    → AllSound (erase id m) × Distinct (erase id m)
unfolding erase
erase-Inv id [] s d = (tt, tt)
erase-Inv id ((k, p) ∷ m) s d = elim (Bool-cases (k == id)) [
  | inl e ↦ rw e (s.1, d.1)
  | inr e ↦ let r = erase-Inv id m s.1 d.1 in rw e ((s.0, r.0), (erase-find k id m d.0, r.1))
]

update-find :
    (j id : ℕ) (q : PendingConsume) (m : PendingMap)
    → find_pending j m ≡ none
    → find_pending j (update id q m) ≡ none
unfolding find_pending update
update-find j id q [] h = refl
update-find j id q ((k, p) ∷ m) h = ground (arith, update-find j id q m)

pub update-Inv :
    (id : ℕ) (q : PendingConsume) (m : PendingMap)
    → IsSound id q
    → AllSound m
    → Distinct m
    → AllSound (update id q m) × Distinct (update id q m)
unfolding update
update-Inv id q [] i s d = (tt, tt)
update-Inv id q ((k, p) ∷ m) i s d = elim (Bool-cases (k == id)) [
  | inl e ↦
      let same = (==_iff k id).0 e in
      rw e ((i, s.1), (subst (λ j. find_pending j m ≡ none) same d.0, d.1))
  | inr e ↦
      let r = update-Inv id q m i s.1 d.1 in rw e ((s.0, r.0), (update-find k id q m d.0, r.1))
]

pub find_pending-IsSound :
    (id : ℕ) (m : PendingMap) (p : PendingConsume)
    → AllSound m
    → find_pending id m ≡ some p
    → IsSound id p
unfolding find_pending
find_pending-IsSound id [] p s e = cc
find_pending-IsSound id ((k, q) ∷ m) p s e = ground (arith, find_pending-IsSound id m p s.1)

pub planned-IsSound :
    (t : PipeConsumeTracker) (a : Plan)
    → is_plannable t a ≡ true
    → IsSound a.drain_request_id (planned t.ttl_ticks a)
unfolding is_plannable planned
planned-IsSound t a h = ground (arith, -ℤ_parts a.requested a.pipe_accepted)
