-- ===== src/Drain/Sweeps.antt =====
-- The methods of PipeConsumeTracker that answer, retry, cancel, expire and clear pending consumes
-- (apps/pipe_network/PipeConsumeTransactions.h), and the calls of all its methods as a history.
use gtnh_platform.Base.{
  ℕ, ◌+◌, Bool, true, false, not, ◌&&◌, ◌||◌, none, some, List, [], ◌∷◌, ◌++◌, ltb, leb, ◌==◌,
  if◌then◌else◌,
}
use gtnh_platform.Base.Int.{ℤ, pos, ◌+ℤ◌, ◌-ℤ◌, ltb_ℤ}
use gtnh_platform.Drain.{
  add64, max_drain_retries, drain_retry_backoff_ticks, PendingConsume, no_pending, DrainApplyResult,
  DrainRetry, SourceKey,
}
use gtnh_platform.Drain.Tracker.{
  PendingMap, PipeConsumeTracker, find_pending, erase, update, Plan, plan_shortfall,
  note_source_rejection, clear_source_rejection, clear_rejection_backoff_for_port, erase_rejections,
}

abbrev pub not_applied : DrainApplyResult
not_applied = record {
  applied = false;
  source_accepted = pos 0;
  combined_accepted = pos 0;
  remaining = pos 0;
  completed = no_pending;
}

-- The accepted amount clamped to `[0, shortfall]`.
unfoldable pub clamp_accepted : ℤ → ℤ → ℤ
clamp_accepted shortfall accepted =
    let a = if ltb_ℤ accepted (pos 0) then pos 0 else accepted in
    if ltb_ℤ shortfall a then shortfall else a

-- The result for a pending consume that a response completes.
unfoldable pub completion : PendingConsume → ℤ → DrainApplyResult
completion p accepted_amount =
    let accepted = clamp_accepted (p.requested -ℤ p.pipe_accepted) accepted_amount in
    record {
      applied = true;
      source_accepted = accepted;
      combined_accepted = p.pipe_accepted +ℤ accepted;
      remaining = p.requested -ℤ (p.pipe_accepted +ℤ accepted);
      completed = p;
    }

unfoldable pub apply_drain_response :
    PipeConsumeTracker → ℕ → ℕ → ℤ → DrainApplyResult × PipeConsumeTracker
apply_drain_response t id fluid accepted_amount = elim (find_pending id t.pending) [
  | none ↦ (not_applied, t)
  | some p ↦
      if p.cancelled || not (fluid == p.fluid_id)
      then (not_applied, t)
      else (completion p accepted_amount, record t { pending = erase id t.pending })
]

-- What one round of a loop over the pending map does with an entry: leave it, change it and return
-- something, erase it, or erase it and return something.
pub data Visit (B : Type 0) : Type 0 where
  leave : Visit B
  change : PendingConsume → B → Visit B
  discard : Visit B
  take_out : B → Visit B

-- The entries after a loop, and what it returned.
pub record Swept (B : Type 0) : Type 0 where
  pub entries : PendingMap
  pub out : List B

unfoldable pub visited : {B : Type 0} → ℕ → PendingConsume → Visit B → Swept B → Swept B
visited k p leave r = record r { entries = (k, p) ∷ r.entries }
visited k p (change q b) r = record { entries = (k, q) ∷ r.entries; out = b ∷ r.out }
visited k p discard r = r
visited k p (take_out b) r = record r { out = b ∷ r.out }

unfoldable pub sweep : {B : Type 0} → (PendingConsume → Visit B) → PendingMap → Swept B
unfolding visited
sweep f [] = record { entries = []; out = [] }
sweep f ((k, p) ∷ m) = visited k p (f p) (sweep f m)

-- The loop body of `collectRetries`.
unfoldable pub retry_visit : ℕ → PendingConsume → Visit DrainRetry
retry_visit now p =
    if p.cancelled
      || leb max_drain_retries p.retry_count
      || ltb now p.next_retry_at
      || leb p.expires_at now
    then leave
    else (let count = p.retry_count + 1 in
        change
          (record p {
            retry_count = count;
            next_retry_at = add64 now (drain_retry_backoff_ticks count);
          })
          (record {
            drain_request_id = p.drain_request_id;
            source_node_id = p.source_node_id;
            source_owner_id = p.source_owner_id;
            source_port_id = p.source_port_id;
            source_epoch = p.source_epoch;
            fluid_id = p.fluid_id;
            shortfall = p.requested -ℤ p.pipe_accepted;
            retry_count = count;
          }))

unfoldable pub collect_retries : PipeConsumeTracker → ℕ → List DrainRetry × PipeConsumeTracker
collect_retries t now =
    let r = sweep (retry_visit now) t.pending in (r.out, record t { pending = r.entries })

-- `pending.cancelled = true; cancelled.push_back(pending);` for the live entries with a property.
unfoldable pub cancel_visit : (PendingConsume → Bool) → PendingConsume → Visit PendingConsume
cancel_visit hit p =
    let q : PendingConsume = record p { cancelled = true } in
    if p.cancelled then leave else (if hit p then change q q else leave)

unfoldable pub cancel_request : PipeConsumeTracker → ℕ → List PendingConsume × PipeConsumeTracker
cancel_request t id = elim (find_pending id t.pending) [
  | none ↦ ([], t)
  | some p ↦
      if p.cancelled
      then ([], t)
      else (let q : PendingConsume = record p { cancelled = true } in
          (q ∷ [], record t { pending = update id q t.pending }))
]

unfoldable pub is_stale : ℕ → ℕ → ℕ → PendingConsume → Bool
is_stale owner port epoch p =
    (p.source_owner_id == owner) && (p.source_port_id == port) && not (p.source_epoch == epoch)

unfoldable pub cancel_stale_epoch :
    PipeConsumeTracker → ℕ → ℕ → ℕ → List PendingConsume × PipeConsumeTracker
cancel_stale_epoch t owner port epoch =
    let r = sweep (cancel_visit (is_stale owner port epoch)) t.pending in
    if port == 0 then ([], t) else (r.out, record t { pending = r.entries })

unfoldable pub is_tied : ℕ → PendingConsume → Bool
is_tied node p = (p.source_node_id == node) || (p.sink_node_id == node)

unfoldable pub cancel_for_node : PipeConsumeTracker → ℕ → List PendingConsume × PipeConsumeTracker
cancel_for_node t node =
    let r = sweep (cancel_visit (is_tied node)) t.pending in
    if node == 0 then ([], t) else (
      r.out,
      record t {
        pending = r.entries;
        reject_backoff = erase_rejections (λ k. k.node_id == node) t.reject_backoff;
      },
    )

unfoldable pub expire_visit : ℕ → PendingConsume → Visit PendingConsume
expire_visit now p =
    if leb p.expires_at now then (if p.cancelled then discard else take_out p) else leave

unfoldable pub expire : PipeConsumeTracker → ℕ → List PendingConsume × PipeConsumeTracker
expire t now =
    let r = sweep (expire_visit now) t.pending in (r.out, record t { pending = r.entries })

unfoldable pub clear_visit : ℕ → ℕ → PendingConsume → Visit PendingConsume
clear_visit owner port p =
    if (p.source_port_id == port) && (p.source_owner_id == owner) && not p.cancelled
    then take_out p
    else leave

unfoldable pub clear_for_port :
    PipeConsumeTracker → ℕ → ℕ → List PendingConsume × PipeConsumeTracker
clear_for_port t owner port =
    let r = sweep (clear_visit owner port) t.pending in
    if port == 0
    then ([], t)
    else (r.out, record (clear_rejection_backoff_for_port t owner port) { pending = r.entries })

-- A call of one of the methods that change the tracker.
pub data Call : Type 0 where
  plans : Plan → Call
  responds : ℕ → ℕ → ℤ → Call
  retries : ℕ → Call
  cancels : ℕ → Call
  cancels_epoch : ℕ → ℕ → ℕ → Call
  cancels_node : ℕ → Call
  expires : ℕ → Call
  clears_port : ℕ → ℕ → Call
  rejects : SourceKey → ℕ → Call
  accepts : SourceKey → Call
  resets_port : ℕ → ℕ → Call

abbrev pub applied_only : DrainApplyResult → List PendingConsume
applied_only r = if r.applied then r.completed ∷ [] else []

-- One call: the consumes that the caller has to complete now, and the tracker.
unfoldable pub step : PipeConsumeTracker → Call → List PendingConsume × PipeConsumeTracker
step t (plans a) = ([], (plan_shortfall t a).1)
step t (responds id fluid accepted) =
    let r = apply_drain_response t id fluid accepted in (applied_only r.0, r.1)
step t (retries now) = ([], (collect_retries t now).1)
step t (cancels id) = cancel_request t id
step t (cancels_epoch owner port epoch) = cancel_stale_epoch t owner port epoch
step t (cancels_node node) = cancel_for_node t node
step t (expires now) = expire t now
step t (clears_port owner port) = clear_for_port t owner port
step t (rejects key now) = ([], note_source_rejection t key now)
step t (accepts key) = ([], clear_source_rejection t key)
step t (resets_port owner port) = ([], clear_rejection_backoff_for_port t owner port)

-- A history of calls: all consumes that it completes, and the tracker after it.
unfoldable pub run : PipeConsumeTracker → List Call → List PendingConsume × PipeConsumeTracker
run t [] = ([], t)
run t (c ∷ cs) = let r = step t c in let s = run r.1 cs in (r.0 ++ s.0, s.1)
