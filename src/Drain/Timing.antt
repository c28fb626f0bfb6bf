-- ===== src/Drain/Timing.antt =====
-- Deadlines, retries and cooldowns of PipeConsumeTracker.
use native.Mathlib.Nat.{pow-suc}
use gtnh_platform.Base.{
  ℕ, zero, suc, ◌+◌, ◌-◌, ◌*◌, ◌^◌, ◌≤◌, ◌<◌, ◌≡◌, refl, inl, inr, min, ap, not, leb, ◌&&◌,
  if◌then◌else◌, Option, none, some, [], ◌∷◌, arith, Bool-cases, ◌==◌, ==_iff, subst,
}
use gtnh_platform.Drain.{
  add64, u64_mod, reject_loop, source_reject_backoff_ticks, retry_loop, drain_retry_backoff_ticks,
  PendingConsume, DrainRetry,
}
use gtnh_platform.Drain.Tracker.{PendingMap, PipeConsumeTracker, find_pending}
use gtnh_platform.Drain.Sweeps.{sweep, visited, retry_visit, expire_visit, expire, leave, change}
use gtnh_platform.Drain.Live.{completions}
use gtnh_platform.Drain.Entries.{AllSound, Distinct}
use gtnh_platform.Drain.Invariant.{Inv}

pow_pos : (n : ℕ) → 1 ≤ 2 ^ n
pow_pos zero = omega arith
pow_pos (suc n) = omega (arith, pow-suc 2 n, pow_pos n)

le-mul_pow : (w n : ℕ) → w ≤ w * 2 ^ n
le-mul_pow w n = grind (arith, pow_pos n)

reject_loop-eq : (n w : ℕ) → min 50 (reject_loop n w) ≡ min 50 (w * 2 ^ n)
unfolding reject_loop
reject_loop-eq zero w = grind arith
reject_loop-eq (suc n) w =
    ground (arith, ap (λ (t : ℕ). w * t) (pow-suc 2 n), reject_loop-eq n (w * 2), le-mul_pow w n)

-- The cooldown after the n-th rejection in a row is 5 * 2^(n-1) ticks, at most 50.
pub source_reject_backoff_ticks-eq :
    (n : ℕ) → source_reject_backoff_ticks n ≡ min 50 (5 * 2 ^ (n - 1))
unfolding source_reject_backoff_ticks
source_reject_backoff_ticks-eq n = ground (arith, reject_loop-eq (n - 1) 5)

retry_loop_bounds : (n b : ℕ) → 2 ≤ b → b ≤ 16 → (2 ≤ retry_loop n b) × (retry_loop n b ≤ 16)
unfolding retry_loop
retry_loop_bounds zero b h k = (h, k)
retry_loop_bounds (suc n) b h k = ground (arith, retry_loop_bounds n (b * 2))

-- The pause after any number of retries is between 2 and 16 ticks.
pub drain_retry_backoff_ticks_bounds :
    (n : ℕ) → (2 ≤ drain_retry_backoff_ticks n) × (drain_retry_backoff_ticks n ≤ 16)
unfolding drain_retry_backoff_ticks
drain_retry_backoff_ticks_bounds n = retry_loop_bounds (n - 1) 2 (omega arith) (omega arith)

add64-lt : (now d : ℕ) → 0 < d → now + d < u64_mod → now < add64 now d
unfolding add64
add64-lt now d h k = omega arith

-- How often a pending consume is due: once if it is live and its deadline has come.
abbrev pub ripe_count : ℕ → Option PendingConsume → ℕ
ripe_count now none = 0
ripe_count now (some p) = if leb p.expires_at now && not p.cancelled then 1 else 0

-- What is left of an entry whose deadline may have come.
abbrev pub left_at : ℕ → Option PendingConsume → Option PendingConsume
left_at now none = none
left_at now (some p) = if leb p.expires_at now then none else some p

expire_visit-out :
    (id now : ℕ) (m : PendingMap)
    → AllSound m
    → find_pending id m ≡ none
    → completions id (sweep (expire_visit now) m).out ≡ 0
unfolding sweep visited expire_visit find_pending
expire_visit-out id now [] s h = refl
expire_visit-out id now ((k, p) ∷ m) s h = ground (arith, s.0.keyed, expire_visit-out id now m s.1)

expire_visit-gone :
    (id now : ℕ) (m : PendingMap)
    → find_pending id m ≡ none
    → find_pending id (sweep (expire_visit now) m).entries ≡ none
unfolding sweep visited expire_visit find_pending
expire_visit-gone id now [] h = refl
expire_visit-gone id now ((k, p) ∷ m) h = ground (arith, expire_visit-gone id now m)

expire_visit-ripe_count :
    (id now : ℕ) (m : PendingMap)
    → AllSound m
    → Distinct m
    → completions id (sweep (expire_visit now) m).out ≡ ripe_count now (find_pending id m)
unfolding sweep visited expire_visit find_pending
expire_visit-ripe_count id now [] s d = refl
expire_visit-ripe_count id now ((k, q) ∷ m) s d = elim (Bool-cases (k == id)) [
  | inl y ↦
      let same = (==_iff k id).0 y in
      let none_left = subst (λ j. find_pending j m ≡ none) same d.0 in
      ground (arith, s.0.keyed, expire_visit-out id now m s.1 none_left)
  | inr y ↦ ground (arith, s.0.keyed, expire_visit-ripe_count id now m s.1 d.1)
]

expire_visit-left :
    (id now : ℕ) (m : PendingMap)
    → Distinct m
    → find_pending id (sweep (expire_visit now) m).entries ≡ left_at now (find_pending id m)
unfolding sweep visited expire_visit find_pending
expire_visit-left id now [] d = refl
expire_visit-left id now ((k, q) ∷ m) d = elim (Bool-cases (k == id)) [
  | inl y ↦
      let same = (==_iff k id).0 y in
      let none_left = subst (λ j. find_pending j m ≡ none) same d.0 in
      ground (arith, expire_visit-gone id now m none_left)
  | inr y ↦ ground (arith, expire_visit-left id now m d.1)
]

-- For every request id, in a well-formed tracker: `expire` hands the pending consume of the id out once
-- if it is live and its deadline has come, and else never; and it drops the entry of the id if its
-- deadline has come, and else keeps it as it was.
pub expire_due :
    (t : PipeConsumeTracker) (now id : ℕ)
    → Inv t
    → (completions id (expire t now).0 ≡ ripe_count now (find_pending id t.pending))
      × (find_pending id (expire t now).1.pending ≡ left_at now (find_pending id t.pending))
unfolding expire
expire_due t now id v = (
  expire_visit-ripe_count id now t.pending v.sound v.distinct,
  expire_visit-left id now t.pending v.distinct,
)

-- An entry that was retried at `now` is not due again at `now`.
retry_visit-again :
    (now : ℕ) (p q : PendingConsume) (b : DrainRetry)
    → now + 16 < u64_mod
    → retry_visit now p ≡ change q b
    → retry_visit now q ≡ leave
unfolding retry_visit
retry_visit-again now p q b h e = ground (
  arith,
  drain_retry_backoff_ticks_bounds (p.retry_count + 1),
  add64-lt now (drain_retry_backoff_ticks (p.retry_count + 1)),
)
