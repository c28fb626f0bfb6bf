-- ===== src/Drain/Live.antt =====
-- The live entries of the pending map of PipeConsumeTracker under its loops and writes.
use gtnh_platform.Base.{
  ℕ, ◌+◌, ◌≡◌, refl, Bool, true, false, some, List, [], ◌∷◌, ◌++◌, arith, All, ◌==◌, if◌then◌else◌,
}
use gtnh_platform.Drain.{PendingConsume}
use gtnh_platform.Drain.Tracker.{PendingMap, find_pending, erase, update}
use gtnh_platform.Drain.Sweeps.{
  Visit, leave, change, discard, take_out, Swept, visited, sweep, retry_visit, cancel_visit,
  expire_visit, clear_visit,
}

-- The live entries of the request `id`: those that are not marked cancelled.
abbrev pub live : ℕ → PendingMap → ℕ
live id [] = 0
live id (e ∷ m) = (if e.0 == id then (if e.1.cancelled then 0 else 1) else 0) + live id m

-- How often the request `id` stands in a list of consumes to complete.
abbrev pub completions : ℕ → List PendingConsume → ℕ
completions id [] = 0
completions id (p ∷ ps) = (if p.drain_request_id == id then 1 else 0) + completions id ps

-- Every entry stands under its own request id.
abbrev pub Keyed : PendingMap → Type 0
Keyed m = All (λ e. e.0 ≡ e.1.drain_request_id) m

pub completions-append :
    (id : ℕ) (ps qs : List PendingConsume)
    → completions id (ps ++ qs) ≡ completions id ps + completions id qs
completions-append id [] qs = omega arith
completions-append id (p ∷ ps) qs = omega (arith, completions-append id ps qs)

-- A visit that returns exactly the live entries that it cancels or erases.
abbrev pub Completes : PendingConsume → Visit PendingConsume → Type 0
Completes p leave = Unit {0}
Completes p (change q b) =
    (p.cancelled ≡ false)
    × (q.cancelled ≡ true)
    × (q.drain_request_id ≡ p.drain_request_id)
    × (b.drain_request_id ≡ p.drain_request_id)
Completes p discard = p.cancelled ≡ true
Completes p (take_out b) = (p.cancelled ≡ false) × (b.drain_request_id ≡ p.drain_request_id)

-- A visit that changes no entry's id or mark.
abbrev pub KeepsLive : {B : Type 0} → PendingConsume → Visit B → Type 0
KeepsLive p leave = Unit {0}
KeepsLive p (change q b) = (q.cancelled ≡ p.cancelled) × (q.drain_request_id ≡ p.drain_request_id)
KeepsLive p discard = ⊥
KeepsLive p (take_out b) = ⊥

abbrev pub Accounted : ℕ → PendingMap → Swept PendingConsume → Type 0
Accounted id m r = (completions id r.out + live id r.entries ≡ live id m) × Keyed r.entries

visited-Accounted :
    (id k : ℕ) (p : PendingConsume) (m : PendingMap) (v : Visit PendingConsume)
    (r : Swept PendingConsume)
    → k ≡ p.drain_request_id
    → Completes p v
    → Accounted id m r
    → Accounted id ((k, p) ∷ m) (visited k p v r)
unfolding visited
visited-Accounted id k p m leave r e h a = ground arith
visited-Accounted id k p m (change q b) r e h a = ground arith
visited-Accounted id k p m discard r e h a = ground arith
visited-Accounted id k p m (take_out b) r e h a = ground arith

pub sweep-Accounted :
    (id : ℕ) (f : PendingConsume → Visit PendingConsume)
    → ((p : PendingConsume) → Completes p (f p))
    → (m : PendingMap) → Keyed m
    → Accounted id m (sweep f m)
unfolding sweep
sweep-Accounted id f h [] key = (refl, tt)
sweep-Accounted id f h ((k, p) ∷ m) key =
    visited-Accounted id k p m (f p) (sweep f m) key.0 (h p) (sweep-Accounted id f h m key.1)

visited-live :
    {B : Type 0} (id k : ℕ) (p : PendingConsume) (m : PendingMap) (v : Visit B) (r : Swept B)
    → k ≡ p.drain_request_id
    → KeepsLive p v
    → (live id r.entries ≡ live id m) × Keyed r.entries
    → (live id (visited k p v r).entries ≡ live id ((k, p) ∷ m)) × Keyed (visited k p v r).entries
unfolding visited
visited-live id k p m leave r e h a = ground arith
visited-live id k p m (change q b) r e h a = ground arith
visited-live id k p m discard r e h a = absurd h
visited-live id k p m (take_out b) r e h a = absurd h

pub sweep-live :
    {B : Type 0} (id : ℕ) (f : PendingConsume → Visit B)
    → ((p : PendingConsume) → KeepsLive p (f p))
    → (m : PendingMap) → Keyed m
    → (live id (sweep f m).entries ≡ live id m) × Keyed (sweep f m).entries
unfolding sweep
sweep-live id f h [] key = (refl, tt)
sweep-live id f h ((k, p) ∷ m) key =
    visited-live id k p m (f p) (sweep f m) key.0 (h p) (sweep-live id f h m key.1)

pub retry_visit-KeepsLive : (now : ℕ) (p : PendingConsume) → KeepsLive p (retry_visit now p)
unfolding retry_visit
retry_visit-KeepsLive now p = ground arith

pub cancel_visit-Completes :
    (hit : PendingConsume → Bool) (p : PendingConsume) → Completes p (cancel_visit hit p)
unfolding cancel_visit
cancel_visit-Completes hit p = ground arith

pub expire_visit-Completes : (now : ℕ) (p : PendingConsume) → Completes p (expire_visit now p)
unfolding expire_visit
expire_visit-Completes now p = ground arith

pub clear_visit-Completes :
    (owner port : ℕ) (p : PendingConsume) → Completes p (clear_visit owner port p)
unfolding clear_visit
clear_visit-Completes owner port p = ground arith

pub find_pending-Keyed :
    (id : ℕ) (m : PendingMap) (p : PendingConsume)
    → Keyed m
    → find_pending id m ≡ some p
    → p.drain_request_id ≡ id
unfolding find_pending
find_pending-Keyed id [] p key e = cc
find_pending-Keyed id ((k, q) ∷ m) p key e = ground (arith, find_pending-Keyed id m p key.1)

pub erase-live :
    (j id : ℕ) (m : PendingMap) (p : PendingConsume)
    → Keyed m
    → find_pending id m ≡ some p
    → p.cancelled ≡ false
    → ((if id == j then 1 else 0) + live j (erase id m) ≡ live j m) × Keyed (erase id m)
unfolding find_pending erase
erase-live j id [] p key e c = cc
erase-live j id ((k, q) ∷ m) p key e c = ground (arith, erase-live j id m p key.1)

pub update-live :
    (j id : ℕ) (m : PendingMap) (p q : PendingConsume)
    → Keyed m
    → find_pending id m ≡ some p
    → p.cancelled ≡ false
    → q.cancelled ≡ true
    → q.drain_request_id ≡ id
    → ((if id == j then 1 else 0) + live j (update id q m) ≡ live j m) × Keyed (update id q m)
unfolding find_pending update
update-live j id [] p q key e c d i = cc
update-live j id ((k, r) ∷ m) p q key e c d i = ground (arith, update-live j id m p q key.1)
