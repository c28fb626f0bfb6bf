-- ===== src/Drain/Invariant.antt =====
-- What holds of the pending map of PipeConsumeTracker after any history of calls, and what a
-- response can do to it.
use gtnh_platform.Base.{ℕ, refl, inl, inr, true, List, [], ◌∷◌, arith, Option-cases}
use gtnh_platform.Base.Int.{ℤ}
use gtnh_platform.Drain.{PendingConsume}
use gtnh_platform.Drain.Tracker.{
  PipeConsumeTracker, find_pending, emplace, Plan, plan_shortfall, note_source_rejection,
  clear_source_rejection, clear_rejection_backoff_for_port, empty_tracker,
}
use gtnh_platform.Drain.Sweeps.{
  apply_drain_response, retry_visit, collect_retries, cancel_visit, cancel_request, is_stale,
  cancel_stale_epoch, is_tied, cancel_for_node, expire_visit, expire, clear_visit, clear_for_port,
  Call, plans, responds, retries, cancels, cancels_epoch, cancels_node, expires, clears_port,
  rejects, accepts, resets_port, step, run,
}
use gtnh_platform.Drain.Entries.{
  AllSound, Distinct, kept-IsSound, sweep-Inv, retry_visit-KeepsSound, cancel_visit-KeepsSound,
  expire_visit-KeepsSound, clear_visit-KeepsSound, erase-Inv, update-Inv, planned-IsSound,
  find_pending-IsSound,
}

pub record Inv (t : PipeConsumeTracker) : Type 0 where
  pub sound : AllSound t.pending
  pub distinct : Distinct t.pending

module _ (t : PipeConsumeTracker) (v : Inv t) where
  plans-Inv : (a : Plan) → Inv (step t (plans a)).1
  unfolding step plan_shortfall emplace
  plans-Inv a = elim (Option-cases (find_pending a.drain_request_id t.pending)) [
    | inl e ↦ ground (arith, planned-IsSound t a)
    | inr (p, e) ↦ ground arith
  ]

  responds-Inv : (r fluid : ℕ) (accepted : ℤ) → Inv (step t (responds r fluid accepted)).1
  unfolding step apply_drain_response
  responds-Inv r fluid accepted = elim (Option-cases (find_pending r t.pending)) [
    | inl e ↦ ground arith
    | inr (p, e) ↦ ground (arith, erase-Inv r t.pending v.sound v.distinct)
  ]

  cancels-Inv : (r : ℕ) → Inv (step t (cancels r)).1
  unfolding step cancel_request
  cancels-Inv r = elim (Option-cases (find_pending r t.pending)) [
    | inl e ↦ ground arith
    | inr (p, e) ↦
        let q : PendingConsume = record p { cancelled = true } in
        let s = find_pending-IsSound r t.pending p v.sound e in
        let i = kept-IsSound r p q (refl, refl, refl, refl, inl refl) s in
        ground (arith, update-Inv r q t.pending i v.sound v.distinct)
  ]

  step-Inv : (c : Call) → Inv (step t c).1
  unfolding step collect_retries cancel_stale_epoch cancel_for_node expire clear_for_port
      note_source_rejection clear_source_rejection clear_rejection_backoff_for_port
  step-Inv (plans a) = plans-Inv a
  step-Inv (responds r fluid accepted) = responds-Inv r fluid accepted
  step-Inv (retries now) =
      ground (
        arith,
        sweep-Inv (retry_visit now) (retry_visit-KeepsSound now) t.pending v.sound v.distinct,
      )
  step-Inv (cancels r) = cancels-Inv r
  step-Inv (cancels_epoch owner port epoch) = ground (
    arith,
    sweep-Inv (cancel_visit (is_stale owner port epoch))
        (cancel_visit-KeepsSound (is_stale owner port epoch)) t.pending v.sound v.distinct,
  )
  step-Inv (cancels_node node) = ground (
    arith,
    sweep-Inv (cancel_visit (is_tied node)) (cancel_visit-KeepsSound (is_tied node)) t.pending
        v.sound v.distinct,
  )
  step-Inv (expires now) = ground (
    arith,
    sweep-Inv (expire_visit now) (expire_visit-KeepsSound now) t.pending v.sound v.distinct,
  )
  step-Inv (clears_port owner port) = ground (
    arith,
    sweep-Inv (clear_visit owner port) (clear_visit-KeepsSound owner port) t.pending v.sound
        v.distinct,
  )
  step-Inv (rejects k now) = ground arith
  step-Inv (accepts k) = ground arith
  step-Inv (resets_port owner port) = ground arith

pub run-Inv : (t : PipeConsumeTracker) (cs : List Call) → Inv t → Inv (run t cs).1
unfolding run
run-Inv t [] v = v
run-Inv t (c ∷ cs) v = run-Inv (step t c).1 cs (step-Inv t v c)

-- After any history of calls on a new tracker every pending consume stands under its own nonzero
-- request id, no id stands twice, and each has a source, a shortfall of at least one unit and at
-- most four retries.
pub run-empty-Inv : (ttl : ℕ) (cs : List Call) → Inv (run (empty_tracker ttl) cs).1
unfolding empty_tracker
run-empty-Inv ttl cs = run-Inv _ cs (record { sound = tt; distinct = tt })
