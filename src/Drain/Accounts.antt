-- ===== src/Drain/Accounts.antt =====
-- Every recorded consume is completed exactly once: what each method of PipeConsumeTracker returns
-- for completion is what stops being live.
use gtnh_platform.Base.{
  ℕ, ◌+◌, ◌≡◌, inl, inr, Bool, true, false, ◌&&◌, Option, none, some, List, [], ◌∷◌, arith,
  Option-cases, ◌==◌, if◌then◌else◌,
}
use gtnh_platform.Base.Int.{ℤ}
use gtnh_platform.Drain.{PendingConsume}
use gtnh_platform.Drain.Tracker.{
  PipeConsumeTracker, find_pending, emplace, Plan, planned, is_plannable, plan_shortfall,
  note_source_rejection, clear_source_rejection, clear_rejection_backoff_for_port,
}
use gtnh_platform.Drain.Sweeps.{
  completion, apply_drain_response, retry_visit, collect_retries, cancel_visit, cancel_request,
  is_stale, cancel_stale_epoch, is_tied, cancel_for_node, expire_visit, expire, clear_visit,
  clear_for_port, Call, plans, responds, retries, cancels, cancels_epoch, cancels_node, expires,
  clears_port, rejects, accepts, resets_port, step, run,
}
use gtnh_platform.Drain.Live.{
  live, completions, Keyed, completions-append, sweep-Accounted, sweep-live, retry_visit-KeepsLive,
  cancel_visit-Completes, expire_visit-Completes, clear_visit-Completes, find_pending-Keyed,
  erase-live, update-live,
}

abbrev is_none : Option PendingConsume → Bool
is_none none = true
is_none (some _) = false

-- 1 if the call records a new pending consume under the request `id`, else 0.
abbrev pub recorded : ℕ → PipeConsumeTracker → Call → ℕ
recorded id t (plans a) =
    if is_plannable t a && (a.drain_request_id == id) && is_none (find_pending id t.pending)
    then 1
    else 0
recorded id t _ = 0

abbrev pub recorded_in : ℕ → PipeConsumeTracker → List Call → ℕ
recorded_in id t [] = 0
recorded_in id t (c ∷ cs) = recorded id t c + recorded_in id (step t c).1 cs

module _ (id : ℕ) (t : PipeConsumeTracker) (key : Keyed t.pending) where
  abbrev Balanced : Call → Type 0
  Balanced c =
      (completions id (step t c).0 + live id (step t c).1.pending
        ≡ live id t.pending + recorded id t c)
      × Keyed (step t c).1.pending

  plans-Balanced : (a : Plan) → Balanced (plans a)
  unfolding step plan_shortfall emplace planned
  plans-Balanced a = elim (Option-cases (find_pending a.drain_request_id t.pending)) [
    | inl e ↦ ground arith
    | inr (p, e) ↦ ground arith
  ]

  responds-Balanced : (r fluid : ℕ) (accepted : ℤ) → Balanced (responds r fluid accepted)
  unfolding step apply_drain_response completion
  responds-Balanced r fluid accepted = elim (Option-cases (find_pending r t.pending)) [
    | inl e ↦ ground arith
    | inr (p, e) ↦
        ground (arith, find_pending-Keyed r t.pending p key e, erase-live id r t.pending p key e)
  ]

  cancels-Balanced : (r : ℕ) → Balanced (cancels r)
  unfolding step cancel_request
  cancels-Balanced r = elim (Option-cases (find_pending r t.pending)) [
    | inl e ↦ ground arith
    | inr (p, e) ↦ ground (
      arith,
      find_pending-Keyed r t.pending p key e,
      update-live id r t.pending p (record p { cancelled = true }) key e,
    )
  ]

  pub step-Balanced : (c : Call) → Balanced c
  unfolding step collect_retries cancel_stale_epoch cancel_for_node expire clear_for_port
      note_source_rejection clear_source_rejection clear_rejection_backoff_for_port
  step-Balanced (plans a) = plans-Balanced a
  step-Balanced (responds r fluid accepted) = responds-Balanced r fluid accepted
  step-Balanced (retries now) =
      ground (arith, sweep-live id (retry_visit now) (retry_visit-KeepsLive now) t.pending key)
  step-Balanced (cancels r) = cancels-Balanced r
  step-Balanced (cancels_epoch owner port epoch) = ground (
    arith,
    sweep-Accounted id (cancel_visit (is_stale owner port epoch))
        (cancel_visit-Completes (is_stale owner port epoch)) t.pending key,
  )
  step-Balanced (cancels_node node) = ground (
    arith,
    sweep-Accounted id (cancel_visit (is_tied node)) (cancel_visit-Completes (is_tied node))
        t.pending key,
  )
  step-Balanced (expires now) =
      ground
        (arith, sweep-Accounted id (expire_visit now) (expire_visit-Completes now) t.pending key)
  step-Balanced (clears_port owner port) = ground (
    arith,
    sweep-Accounted id (clear_visit owner port) (clear_visit-Completes owner port) t.pending key,
  )
  step-Balanced (rejects k now) = ground arith
  step-Balanced (accepts k) = ground arith
  step-Balanced (resets_port owner port) = ground arith

-- Over any history of calls, the number of times that a request is handed out for completion and
-- the number of its live entries afterwards make up its live entries before and the times that the
-- history recorded it.
pub run_completes_once :
    (id : ℕ) (t : PipeConsumeTracker) (cs : List Call)
    → Keyed t.pending
    → completions id (run t cs).0 + live id (run t cs).1.pending
      ≡ live id t.pending + recorded_in id t cs
unfolding run
run_completes_once id t [] key = omega arith
run_completes_once id t (c ∷ cs) key =
    let b = step-Balanced id t key c in
    omega (
      arith,
      b.0,
      completions-append id (step t c).0 (run (step t c).1 cs).0,
      run_completes_once id (step t c).1 cs b.1,
    )
