-- ===== src/Drain/Response.antt =====
-- What a drain response does to its pending consume: it is applied at most once, and credits
-- between nothing and the shortfall.
use mathlib.Core.Bool.{false≢true}
use gtnh_platform.Base.{
  ℕ, ◌≡◌, refl, inl, inr, Bool, true, false, Option, none, some, List, [], ◌∷◌, arith, Option-cases,
  ◌==◌, Bool-cases, ◌||◌, not, if◌then◌else◌,
}
use gtnh_platform.Base.Int.{ℤ, pos, ◌+ℤ◌, ◌-ℤ◌, ◌≤ℤ◌, ◌<ℤ◌, int_laws}
use gtnh_platform.Drain.{PendingConsume, DrainApplyResult}
use gtnh_platform.Drain.Tracker.{PendingMap, PipeConsumeTracker, find_pending, erase}
use gtnh_platform.Drain.Sweeps.{
  not_applied, apply_drain_response, completion, clamp_accepted, Call, responds, step, run,
}
use gtnh_platform.Drain.Live.{live, Keyed}
use gtnh_platform.Drain.Accounts.{recorded_in, step-Balanced, run_completes_once}
use gtnh_platform.Drain.Entries.{AllSound, Distinct, find_pending-IsSound}
use gtnh_platform.Drain.Invariant.{Inv}

clamp_bounds :
    (shortfall accepted : ℤ)
    → pos 0 <ℤ shortfall
    → (pos 0 ≤ℤ clamp_accepted shortfall accepted)
      × (clamp_accepted shortfall accepted ≤ℤ shortfall)
unfolding clamp_accepted
clamp_bounds s a h = ground arith

find_pending-erase : (id : ℕ) (m : PendingMap) → Distinct m → find_pending id (erase id m) ≡ none
unfolding find_pending erase
find_pending-erase id [] d = refl
find_pending-erase id ((k, p) ∷ m) d = elim (Bool-cases (k == id)) [
  | inl e ↦ ground arith
  | inr e ↦ ground (arith, find_pending-erase id m d.1)
]

live-none : (id : ℕ) (m : PendingMap) → find_pending id m ≡ none → live id m ≡ 0
unfolding find_pending
live-none id [] h = refl
live-none id ((k, p) ∷ m) h = ground (arith, live-none id m)

live-some :
    (id : ℕ) (m : PendingMap) (p : PendingConsume)
    → find_pending id m ≡ some p
    → live id m ≡ 0
    → p.cancelled ≡ true
unfolding find_pending
live-some id [] p e h = cc
live-some id ((k, q) ∷ m) p e h = ground (arith, live-some id m p)

AllSound-Keyed : (m : PendingMap) → AllSound m → Keyed m
AllSound-Keyed [] s = tt
AllSound-Keyed (e ∷ m) s = (s.0.keyed, AllSound-Keyed m s.1)

-- A response for an id without a live entry is ignored.
ignored :
    (t : PipeConsumeTracker) (id fluid : ℕ) (accepted : ℤ)
    → live id t.pending ≡ 0
    → apply_drain_response t id fluid accepted ≡ (not_applied, t)
unfolding apply_drain_response
ignored t id fluid accepted h = elim (Option-cases (find_pending id t.pending)) [
  | inl e ↦ rw (apply_drain_response, e) refl
  | inr (p, e) ↦ rw (apply_drain_response, e, live-some id t.pending p e h) refl
]

-- What an applied response reports: the part from the source is not negative, the consume ends up
-- between its pipe part and its request, and what it got and what remains make up the request.
abbrev pub Credits : PendingConsume → ℤ → ℤ → ℤ → Type 0
Credits p source combined remaining =
    (pos 0 ≤ℤ source)
    × (p.pipe_accepted +ℤ source ≡ combined)
    × (combined ≤ℤ p.requested)
    × (combined +ℤ remaining ≡ p.requested)

module _ (t : PipeConsumeTracker) (v : Inv t) (id fluid : ℕ) (accepted : ℤ) where
  completion-Credits :
      (p : PendingConsume)
      → p.pipe_accepted <ℤ p.requested
      → let r = completion p accepted in Credits p r.source_accepted r.combined_accepted r.remaining
  unfolding completion
  completion-Credits p s =
      let short = p.requested -ℤ p.pipe_accepted in
      let b = clamp_bounds short accepted (omega int_laws) in
      (b.0, refl, omega (int_laws, b.1), omega int_laws)

  answer-Credits :
      (refused : Bool) (p : PendingConsume) (t' : PipeConsumeTracker)
      → p.pipe_accepted <ℤ p.requested
      → let a : DrainApplyResult × PipeConsumeTracker =
          if refused then (not_applied, t) else (completion p accepted, t') in
        let r = a.0 in
        r.applied ≡ true → Credits r.completed r.source_accepted r.combined_accepted r.remaining
  unfolding completion
  answer-Credits true p t' s h = absurd (false≢true h)
  answer-Credits false p t' s h = completion-Credits p s

  found-Credits :
      (o : Option PendingConsume)
      → ((p : PendingConsume) → o ≡ some p → p.pipe_accepted <ℤ p.requested)
      → let r =
          (elim o as (λ _. DrainApplyResult × PipeConsumeTracker) [
            | none ↦ (not_applied, t)
            | some p ↦
                if p.cancelled || not (fluid == p.fluid_id)
                then (not_applied, t)
                else (completion p accepted, record t { pending = erase id t.pending })
          ]).0 in
        r.applied ≡ true → Credits r.completed r.source_accepted r.combined_accepted r.remaining
  found-Credits none s h = absurd (false≢true h)
  found-Credits (some p) s h =
      answer-Credits (p.cancelled || not (fluid == p.fluid_id)) p
        (record t { pending = erase id t.pending }) (s p refl) h

  -- An applied response, whatever amount it names, credits the consume with at least 0 and at most
  -- its shortfall, and the request is what the consume got and what remains.
  pub apply_drain_response-Credits :
      let r = (apply_drain_response t id fluid accepted).0 in
      r.applied ≡ true → Credits r.completed r.source_accepted r.combined_accepted r.remaining
  unfolding apply_drain_response
  apply_drain_response-Credits h =
      found-Credits (find_pending id t.pending)
        (λ p e. (find_pending-IsSound id t.pending p v.sound e).unserved) h

  applied-live :
      (apply_drain_response t id fluid accepted).0.applied ≡ true
      → live id (apply_drain_response t id fluid accepted).1.pending ≡ 0
  unfolding apply_drain_response
  applied-live h = elim (Option-cases (find_pending id t.pending)) [
    | inl e ↦ ground arith
    | inr (p, e) ↦
        let gone = find_pending-erase id t.pending v.distinct in
        ground (arith, live-none id (erase id t.pending) gone)
  ]

  -- Once a response has been applied in a well-formed tracker, and after any further calls that do not
  -- record its id again, a response with this id is ignored.
  pub apply_drain_response-replay :
      (fluid' : ℕ) (accepted' : ℤ) (cs : List Call)
      → (apply_drain_response t id fluid accepted).0.applied ≡ true
      → recorded_in id (apply_drain_response t id fluid accepted).1 cs ≡ 0
      → let t' = (run (apply_drain_response t id fluid accepted).1 cs).1 in
        apply_drain_response t' id fluid' accepted' ≡ (not_applied, t')
  unfolding step
  apply_drain_response-replay fluid' accepted' cs h none_recorded =
      let after = (apply_drain_response t id fluid accepted).1 in
      let key : Keyed after.pending =
        (step-Balanced id t (AllSound-Keyed t.pending v.sound) (responds id fluid accepted)).1 in
      let account = run_completes_once id after cs key in
      let dead : live id (run after cs).1.pending ≡ 0 =
        omega (arith, account, none_recorded, applied-live h) in
      ignored (run after cs).1 id fluid' accepted' dead
