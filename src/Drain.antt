-- ===== src/Drain.antt =====
-- The pending fluid consumes of the pipe network, apps/pipe_network/PipeConsumeTransactions.h: its
-- constants, its records and the two backoff schedules. The tracker's operations are in
-- Drain/Tracker. Ticks and ids are 64-bit words; the amounts, `int32_t` in the source, are integers.
pub mod Tracker
pub mod Sweeps
pub mod Live
pub mod Accounts
pub mod Entries
pub mod Invariant
pub mod Response
pub mod Timing
mod Tests
use gtnh_platform.Base.{
  ℕ, zero, suc, ◌+◌, ◌-◌, ◌*◌, ◌%◌, Bool, true, false, ◌&&◌, ltb, leb, ◌==◌, if◌then◌else◌,
}
use gtnh_platform.Base.Int.{ℤ, pos}

abbrev pub u64_mod : ℕ
u64_mod = 18446744073709551616

-- `a + b` on `uint64_t`.
pub add64 : ℕ → ℕ → ℕ
add64 a b = (a + b) % u64_mod

abbrev pub pending_consume_ttl_ticks : ℕ
pending_consume_ttl_ticks = 50

abbrev pub drain_retry_base_backoff_ticks : ℕ
drain_retry_base_backoff_ticks = 2

abbrev pub drain_retry_backoff_multiplier : ℕ
drain_retry_backoff_multiplier = 2

abbrev pub drain_retry_max_backoff_ticks : ℕ
drain_retry_max_backoff_ticks = 16

abbrev pub max_drain_retries : ℕ
max_drain_retries = 4

abbrev pub source_reject_base_backoff_ticks : ℕ
source_reject_base_backoff_ticks = 5

abbrev pub source_reject_max_backoff_ticks : ℕ
source_reject_max_backoff_ticks = 50

-- `for (i = 1; i < consecutive && window < max; ++i) window *= 2;` with `n` rounds left.
pub reject_loop : ℕ → ℕ → ℕ
reject_loop zero window = window
reject_loop (suc n) window = elim (ltb window source_reject_max_backoff_ticks) [
  | true ↦ reject_loop n (window * 2)
  | false ↦ window
]

pub source_reject_backoff_ticks : ℕ → ℕ
unfolding reject_loop
source_reject_backoff_ticks consecutive =
    let window = reject_loop (consecutive - 1) source_reject_base_backoff_ticks in
    if ltb source_reject_max_backoff_ticks window then source_reject_max_backoff_ticks else window

-- `for (i = 1; i < retry_count; ++i) …` with its early return.
pub retry_loop : ℕ → ℕ → ℕ
retry_loop zero backoff = backoff
retry_loop (suc n) backoff =
    elim (leb drain_retry_max_backoff_ticks (backoff * drain_retry_backoff_multiplier)) [
      | true ↦ drain_retry_max_backoff_ticks
      | false ↦ retry_loop n (backoff * drain_retry_backoff_multiplier)
    ]

pub drain_retry_backoff_ticks : ℕ → ℕ
unfolding retry_loop
drain_retry_backoff_ticks retry_count = retry_loop (retry_count - 1) drain_retry_base_backoff_ticks

pub record PendingConsume : Type 0 where
  pub drain_request_id : ℕ
  pub consume_request_id : ℕ
  pub sink_node_id : ℕ
  pub source_node_id : ℕ
  pub source_owner_id : ℕ
  pub source_port_id : ℕ
  pub source_epoch : ℕ
  pub fluid_id : ℕ
  pub requested : ℤ
  pub pipe_accepted : ℤ
  pub expires_at : ℕ
  pub retry_count : ℕ
  pub next_retry_at : ℕ
  pub cancelled : Bool

-- The default values of its fields.
abbrev pub no_pending : PendingConsume
no_pending = record {
  drain_request_id = 0;
  consume_request_id = 0;
  sink_node_id = 0;
  source_node_id = 0;
  source_owner_id = 0;
  source_port_id = 0;
  source_epoch = 0;
  fluid_id = 0;
  requested = pos 0;
  pipe_accepted = pos 0;
  expires_at = 0;
  retry_count = 0;
  next_retry_at = 0;
  cancelled = false;
}

pub record DrainApplyResult : Type 0 where
  pub applied : Bool
  pub source_accepted : ℤ
  pub combined_accepted : ℤ
  pub remaining : ℤ
  pub completed : PendingConsume

pub record ShortfallDecision : Type 0 where
  pub request_source : Bool
  pub drain_request_id : ℕ
  pub source_node_id : ℕ
  pub source_owner_id : ℕ
  pub source_port_id : ℕ
  pub shortfall : ℤ

pub record DrainRetry : Type 0 where
  pub drain_request_id : ℕ
  pub source_node_id : ℕ
  pub source_owner_id : ℕ
  pub source_port_id : ℕ
  pub source_epoch : ℕ
  pub fluid_id : ℕ
  pub shortfall : ℤ
  pub retry_count : ℕ

unfoldable pub drain_response_port_live : PendingConsume → Bool → ℕ → Bool
drain_response_port_live pending port_registered registered_epoch =
    if pending.source_port_id == 0
    then true
    else port_registered && (registered_epoch == pending.source_epoch)

pub record SourceKey : Type 0 where
  pub node_id : ℕ
  pub owner_id : ℕ
  pub port_id : ℕ

unfoldable pub same_key : SourceKey → SourceKey → Bool
same_key a b = (a.node_id == b.node_id) && (a.owner_id == b.owner_id) && (a.port_id == b.port_id)

pub record SourceRejection : Type 0 where
  pub until_tick : ℕ
  pub consecutive : ℕ
