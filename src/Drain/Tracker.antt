-- ===== src/Drain/Tracker.antt =====
-- The class PipeConsumeTracker of apps/pipe_network/PipeConsumeTransactions.h. Its hash maps are
-- association lists; what a loop over a map returns stands in the order of the list.
use gtnh_platform.Base.{
  ℕ, ◌+◌, Bool, true, false, not, ◌&&◌, Option, none, some, List, [], ◌∷◌, ltb, ◌==◌, if◌then◌else◌,
}
use gtnh_platform.Base.Int.{ℤ, pos, ◌-ℤ◌, leb_ℤ}
use gtnh_platform.Drain.{
  add64, drain_retry_base_backoff_ticks, source_reject_backoff_ticks, PendingConsume,
  ShortfallDecision, SourceKey, same_key, SourceRejection,
}

abbrev pub PendingMap : Type 0
PendingMap = List (ℕ × PendingConsume)

abbrev pub RejectMap : Type 0
RejectMap = List (SourceKey × SourceRejection)

pub record PipeConsumeTracker : Type 0 where
  pub ttl_ticks : ℕ
  pub pending : PendingMap
  pub reject_backoff : RejectMap

unfoldable pub empty_tracker : ℕ → PipeConsumeTracker
empty_tracker ttl = record { ttl_ticks = ttl; pending = []; reject_backoff = [] }

-- `findPending`, and the lookup of the other methods.
unfoldable pub find_pending : ℕ → PendingMap → Option PendingConsume
find_pending id [] = none
find_pending id ((k, p) ∷ m) = if k == id then some p else find_pending id m

-- `emplace` keeps an entry that is there.
unfoldable pub emplace : ℕ → PendingConsume → PendingMap → PendingMap
unfolding find_pending
emplace id p m = elim (find_pending id m) [ none ↦ (id, p) ∷ m | some _ ↦ m ]

unfoldable pub erase : ℕ → PendingMap → PendingMap
erase id [] = []
erase id (e ∷ m) = if e.0 == id then m else e ∷ erase id m

-- A write through the iterator of the entry `id`.
unfoldable pub update : ℕ → PendingConsume → PendingMap → PendingMap
update id p [] = []
update id p (e ∷ m) = if e.0 == id then (id, p) ∷ m else e ∷ update id p m

unfoldable pub find_rejection : SourceKey → RejectMap → Option SourceRejection
find_rejection key [] = none
find_rejection key ((k, r) ∷ m) = if same_key k key then some r else find_rejection key m

pub put_rejection : SourceKey → SourceRejection → RejectMap → RejectMap
put_rejection key r [] = (key, r) ∷ []
put_rejection key r (e ∷ m) = if same_key e.0 key then (key, r) ∷ m else e ∷ put_rejection key r m

-- The loops that erase the rejections with a property of their key.
pub erase_rejections : (SourceKey → Bool) → RejectMap → RejectMap
erase_rejections gone [] = []
erase_rejections gone (e ∷ m) =
    if gone e.0 then erase_rejections gone m else e ∷ erase_rejections gone m

unfoldable pub source_in_rejection_backoff : PipeConsumeTracker → SourceKey → ℕ → Bool
unfolding find_rejection
source_in_rejection_backoff t key now = elim (find_rejection key t.reject_backoff) [
  | none ↦ false
  | some r ↦ ltb now r.until_tick
]

-- The state of a source before its first rejection is the default one.
abbrev pub rejection_or : Option SourceRejection → SourceRejection
rejection_or none = record { until_tick = 0; consecutive = 0 }
rejection_or (some r) = r

unfoldable pub note_source_rejection : PipeConsumeTracker → SourceKey → ℕ → PipeConsumeTracker
unfolding find_rejection put_rejection
note_source_rejection t key now =
    let state = rejection_or (find_rejection key t.reject_backoff) in
    let consecutive =
      if ltb state.consecutive 32 then state.consecutive + 1 else state.consecutive in
    record t {
      reject_backoff =
          put_rejection key
            (record {
              until_tick = add64 now (source_reject_backoff_ticks consecutive);
              consecutive = consecutive;
            })
            t.reject_backoff;
    }

unfoldable pub clear_source_rejection : PipeConsumeTracker → SourceKey → PipeConsumeTracker
unfolding erase_rejections
clear_source_rejection t key = record t {
  reject_backoff = erase_rejections (λ k. same_key k key) t.reject_backoff;
}

unfoldable pub clear_rejection_backoff_for_port : PipeConsumeTracker → ℕ → ℕ → PipeConsumeTracker
unfolding erase_rejections
clear_rejection_backoff_for_port t owner port = record t {
  reject_backoff =
      erase_rejections (λ k. (k.owner_id == owner) && (k.port_id == port)) t.reject_backoff;
}

-- The arguments of `planShortfall`.
pub record Plan : Type 0 where
  pub drain_request_id : ℕ
  pub consume_request_id : ℕ
  pub sink_node_id : ℕ
  pub fluid_id : ℕ
  pub requested : ℤ
  pub pipe_accepted : ℤ
  pub source_node_id : ℕ
  pub source_owner_id : ℕ
  pub source_port_id : ℕ
  pub now_tick : ℕ
  pub source_epoch : ℕ

abbrev pub no_decision : ShortfallDecision
no_decision = record {
  request_source = false;
  drain_request_id = 0;
  source_node_id = 0;
  source_owner_id = 0;
  source_port_id = 0;
  shortfall = pos 0;
}

unfoldable pub planned : ℕ → Plan → PendingConsume
planned ttl a = record {
  drain_request_id = a.drain_request_id;
  consume_request_id = a.consume_request_id;
  sink_node_id = a.sink_node_id;
  source_node_id = a.source_node_id;
  source_owner_id = a.source_owner_id;
  source_port_id = a.source_port_id;
  source_epoch = a.source_epoch;
  fluid_id = a.fluid_id;
  requested = a.requested;
  pipe_accepted = a.pipe_accepted;
  expires_at = add64 a.now_tick ttl;
  retry_count = 0;
  next_retry_at = add64 a.now_tick drain_retry_base_backoff_ticks;
  cancelled = false;
}

-- The guards of `planShortfall`.
unfoldable pub is_plannable : PipeConsumeTracker → Plan → Bool
is_plannable t a =
    not (leb_ℤ (a.requested -ℤ a.pipe_accepted) (pos 0))
    && not (a.source_node_id == 0)
    && not (a.drain_request_id == 0)
    && not (
        source_in_rejection_backoff t
          (record {
            node_id = a.source_node_id;
            owner_id = a.source_owner_id;
            port_id = a.source_port_id;
          })
          a.now_tick)

unfoldable pub plan_shortfall : PipeConsumeTracker → Plan → ShortfallDecision × PipeConsumeTracker
plan_shortfall t a =
    if is_plannable t a
    then (
      record {
        request_source = true;
        drain_request_id = a.drain_request_id;
        source_node_id = a.source_node_id;
        source_owner_id = a.source_owner_id;
        source_port_id = a.source_port_id;
        shortfall = a.requested -ℤ a.pipe_accepted;
      },
      record t { pending = emplace a.drain_request_id (planned t.ttl_ticks a) t.pending },
    )
    else (no_decision, t)
