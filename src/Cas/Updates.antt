-- ===== src/Cas/Updates.antt =====
-- Any number of `casBlock` calls on one handler: what they leave in the queue for `flush`.
use mathlib.Core.List.{append-nil}
use gtnh_platform.Base.{
  ℕ, ◌≡◌, refl, sym, inl, inr, ap, ◌∙◌, ◌++◌, Option-cases, Bool-cases, Bool, true, false, ◌&&◌,
  List, [], ◌∷◌, ◌==◌, if◌then◌else◌, append_assoc,
}
use gtnh_platform.Base.Int.{ℤ}
use gtnh_platform.Cas.Queue.{OneEach, changes_for, changes_for-enqueue, enqueue-OneEach}
use gtnh_platform.Cas.{
  Backend, CasHandler, Reply, Status, conflict, ok, PendingChange, pack_idx, chunk_of, position,
  chunk_for, swap_in, cas_block, enqueue,
}

-- The arguments of a call.
pub record CasCall : Type 0 where
  pub x : ℤ
  pub y : ℤ
  pub z : ℤ
  pub expected : ℕ
  pub id : ℕ
  pub meta : ℕ

abbrev pub is_ok : Status → Bool
is_ok conflict = false
is_ok ok = true

module _ {C W K D : Type 0} (b : Backend C W K D) where
  abbrev pub key_of : CasCall → ℕ
  key_of c = b.make_key (chunk_of c.x) (chunk_of c.y) (chunk_of c.z)

  abbrev pub reply : CasHandler b → CasCall → Reply b
  reply h c = cas_block b h c.x c.y c.z c.expected c.id c.meta

  -- The change that a call asks for.
  abbrev pub asked : CasCall → PendingChange
  asked c = record { idx = pack_idx (position b c.x c.y c.z); block_id = c.id; meta = c.meta }

  -- The changes to the chunk `key` that the calls have been answered `Ok` for, in their order.
  unfoldable pub accepted : ℕ → CasHandler b → List CasCall → List PendingChange
  accepted key h [] = []
  accepted key h (c ∷ cs) =
      (if is_ok (reply h c).result.status && (key_of c == key) then asked c ∷ [] else [])
      ++ accepted key (reply h c).handler cs

  -- The handler after the calls, and the keys it has notified.
  pub run : CasHandler b → List CasCall → CasHandler b × List ℕ
  run h [] = (h, [])
  run h (c ∷ cs) = let rest = run (reply h c).handler cs in (rest.0, (reply h c).notified ++ rest.1)

  -- The keys of the calls that have been answered `Ok`, in their order.
  pub swapped_keys : CasHandler b → List CasCall → List ℕ
  swapped_keys h [] = []
  swapped_keys h (c ∷ cs) =
      (if is_ok (reply h c).result.status then key_of c ∷ [] else [])
      ++ swapped_keys (reply h c).handler cs

  record Recorded (h : CasHandler b) (c : CasCall) (r : Reply b) : Type 0 where
    one_each : OneEach h.pending → OneEach r.handler.pending
    same_disk : r.handler.disk ≡ h.disk
    told : r.notified ≡ (if is_ok r.result.status then key_of c ∷ [] else [])
    added :
        (key : ℕ)
        → changes_for key r.handler.pending
          ≡ changes_for key h.pending
            ++ (if is_ok r.result.status && (key_of c == key) then asked c ∷ [] else [])

  refused-Recorded :
      (h : CasHandler b) (c : CasCall) (r : Reply b)
      → r.handler ≡ h
      → r.notified ≡ []
      → is_ok r.result.status ≡ false
      → Recorded h c r
  refused-Recorded h c r e n f = record {
    one_each = λ o. rw e o;
    same_disk = rw e refl;
    told = rw (f, n) refl;
    added = λ key. rw (f, e) (sym (append-nil (changes_for key h.pending)));
  }

  swapped-Recorded :
      (h : CasHandler b) (c : CasCall) (r : Reply b)
      → r.handler.pending ≡ enqueue (key_of c) (asked c) h.pending
      → r.handler.disk ≡ h.disk
      → r.notified ≡ key_of c ∷ []
      → is_ok r.result.status ≡ true
      → Recorded h c r
  swapped-Recorded h c r e d n f = record {
    one_each = λ o. rw e (enqueue-OneEach (key_of c) (asked c) h.pending o);
    same_disk = d;
    told = rw (f, n) refl;
    added = λ key. rw (f, e) (changes_for-enqueue key (key_of c) (asked c) h.pending);
  }

  reply-Recorded : (h : CasHandler b) (c : CasCall) → Recorded h c (reply h c)
  unfolding cas_block swap_in
  reply-Recorded h c = elim (Option-cases (chunk_for b h (key_of c))) [
    | inl e ↦ rw (cas_block, e) (refused-Recorded h c _ refl refl refl)
    | inr (chunk, e) ↦
        elim (Bool-cases (b.get_block chunk (position b c.x c.y c.z) == c.expected)) [
          | inl y ↦ rw (cas_block, e, y) (swapped-Recorded h c _ refl refl refl refl)
          | inr n ↦ rw (cas_block, e, n) (refused-Recorded h c _ refl refl refl)
        ]
  ]

  -- After any `casBlock` calls, a key still has at most one entry in the queue, the store is as it
  -- was, and the changes queued for a key are those from before with, behind them in order, the changes of
  -- the calls in this chunk that were answered `Ok`; the keys notified are the chunks of
  -- these calls, in order.
  pub run-queues :
      (h : CasHandler b) (cs : List CasCall) (key : ℕ)
      → OneEach h.pending
      → let r = run h cs in
        OneEach r.0.pending
        × (r.0.disk ≡ h.disk)
        × (changes_for key r.0.pending ≡ changes_for key h.pending ++ accepted key h cs)
        × (r.1 ≡ swapped_keys h cs)
  unfolding run accepted swapped_keys
  run-queues h [] key o = (o, refl, sym (append-nil (changes_for key h.pending)), refl)
  run-queues h (c ∷ cs) key o =
      let s = reply-Recorded h c in
      let rest = run-queues (reply h c).handler cs key (s.one_each o) in
      (
        rest.0,
        rest.1 ∙ s.same_disk,
        rest.2
            ∙ (ap (λ l. l ++ accepted key (reply h c).handler cs) (s.added key)
                ∙ append_assoc (changes_for key h.pending) _ _),
        rw (s.told, rest.3) refl,
      )
