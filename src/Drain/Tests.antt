-- ===== src/Drain/Tests.antt =====
-- Tests and examples for the pending fluid consumes.
use gtnh_platform.Base.{◌+◌, ◌≡◌, refl, true, false, List, [], ◌∷◌, arith}
use gtnh_platform.Base.Int.{pos, ◌-ℤ◌}
use gtnh_platform.Drain.{
  PendingConsume, source_reject_backoff_ticks, reject_loop, drain_retry_backoff_ticks, retry_loop,
  add64,
}
use gtnh_platform.Drain.Tracker.{
  PipeConsumeTracker, Plan, empty_tracker, find_pending, emplace, planned, is_plannable,
  plan_shortfall, source_in_rejection_backoff, find_rejection,
}
use gtnh_platform.Drain.Sweeps.{
  Call, plans, responds, retries, expires, not_applied, completion, apply_drain_response, expire,
  run,
}
use gtnh_platform.Drain.Live.{live, completions, Keyed}
use gtnh_platform.Drain.Accounts.{recorded_in, run_completes_once}
use gtnh_platform.Drain.Invariant.{Inv, run-empty-Inv}
use gtnh_platform.Drain.Response.{
  Credits, apply_drain_response-Credits, apply_drain_response-replay,
}
use gtnh_platform.Drain.Timing.{expire_due, ripe_count, left_at}

-- A sink asks 100 units, its pipe has 30, and source 5 is asked for the rest.
abbrev wish : Plan
wish = record {
  drain_request_id = 7;
  consume_request_id = 70;
  sink_node_id = 2;
  fluid_id = 3;
  requested = pos 100;
  pipe_accepted = pos 30;
  source_node_id = 5;
  source_owner_id = 50;
  source_port_id = 1;
  now_tick = 10;
  source_epoch = 4;
}

abbrev entry : PendingConsume
entry = record {
  drain_request_id = 7;
  consume_request_id = 70;
  sink_node_id = 2;
  source_node_id = 5;
  source_owner_id = 50;
  source_port_id = 1;
  source_epoch = 4;
  fluid_id = 3;
  requested = pos 100;
  pipe_accepted = pos 30;
  expires_at = 60;
  retry_count = 0;
  next_retry_at = 12;
  cancelled = false;
}

abbrev waiting : PipeConsumeTracker
waiting = record { ttl_ticks = 50; pending = (7, entry) ∷ []; reject_backoff = [] }

wish_is_planned : plan_shortfall (empty_tracker 50) wish ≡ (
  record {
    request_source = true;
    drain_request_id = 7;
    source_node_id = 5;
    source_owner_id = 50;
    source_port_id = 1;
    shortfall = pos 70;
  },
  waiting,
)
unfolding plan_shortfall is_plannable empty_tracker emplace find_pending planned add64
    source_in_rejection_backoff find_rejection ◌-ℤ◌
wish_is_planned = refl

rejected_three_times : source_reject_backoff_ticks 3 ≡ 20
unfolding source_reject_backoff_ticks reject_loop
rejected_three_times = refl

retried_four_times : drain_retry_backoff_ticks 4 ≡ 16
unfolding drain_retry_backoff_ticks retry_loop
retried_four_times = refl

waiting-Inv : Inv waiting
unfolding find_pending
waiting-Inv = record {
  sound = (
    record {
      keyed = refl;
      has_id = omega arith;
      has_source = omega arith;
      unserved = omega arith;
      retried = omega arith;
    },
    tt,
  );
  distinct = (refl, tt);
}

-- Planned, answered, and answered again.
abbrev history : List Call
history = plans wish ∷ retries 12 ∷ responds 7 3 (pos 90) ∷ responds 7 3 (pos 90) ∷ expires 99 ∷ []

new_tracker-Keyed : Keyed (empty_tracker 50).pending
unfolding empty_tracker
new_tracker-Keyed = tt

run_completes_once_example :
    completions 7 (run (empty_tracker 50) history).0
      + live 7 (run (empty_tracker 50) history).1.pending
    ≡ live 7 (empty_tracker 50).pending + recorded_in 7 (empty_tracker 50) history
run_completes_once_example = run_completes_once 7 (empty_tracker 50) history new_tracker-Keyed

run-empty-Inv_example : Inv (run (empty_tracker 50) history).1
run-empty-Inv_example = run-empty-Inv 50 history

is_applied : (apply_drain_response waiting 7 3 (pos 90)).0.applied ≡ true
unfolding apply_drain_response find_pending completion
is_applied = refl

apply_drain_response-Credits_example :
    let r = (apply_drain_response waiting 7 3 (pos 90)).0 in
    Credits r.completed r.source_accepted r.combined_accepted r.remaining
apply_drain_response-Credits_example =
    apply_drain_response-Credits waiting waiting-Inv 7 3 (pos 90) is_applied

abbrev later : List Call
later = retries 20 ∷ expires 40 ∷ []

apply_drain_response-replay_example :
    let t = (run (apply_drain_response waiting 7 3 (pos 90)).1 later).1 in
    apply_drain_response t 7 3 (pos 5) ≡ (not_applied, t)
apply_drain_response-replay_example =
    apply_drain_response-replay waiting waiting-Inv 7 3 (pos 90) 3 (pos 5) later is_applied refl

expire_due_example :
    (completions 7 (expire waiting 60).0 ≡ ripe_count 60 (find_pending 7 waiting.pending))
    × (find_pending 7 (expire waiting 60).1.pending ≡ left_at 60 (find_pending 7 waiting.pending))
expire_due_example = expire_due waiting 60 7 waiting-Inv
