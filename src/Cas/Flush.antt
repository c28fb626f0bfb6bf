-- ===== src/Cas/Flush.antt =====
-- `flush`: which cells it writes, and which changes it keeps.
use gtnh_platform.Base.{
  ℕ, ◌<◌, ◌≡◌, refl, sym, ap, subst, ◌∙◌, ◌↔◌, ◌⊎◌, inl, inr, ◌++◌, Option-cases, true, false, none,
  some, List, [], ◌∷◌, arith, ◌==◌, if◌then◌else◌, length,
}
use gtnh_platform.Cas.Queue.{queued, among, OneEach, queued-dequeue_all, OneEach-split}
use gtnh_platform.Cas.{
  Local, Backend, CasHandler, pack_idx, unpack_idx, PendingQueue, PendingChange, dequeue,
  dequeue_all, apply_changes, flush_loop, flush, ReadResult, failed, missing, found,
}

-- The cell that `flush` writes for a change queued at `p` is the cell at `p` only for the cells of
-- the first row of a chunk's first layer, and there only for the first 16 of its 32.
pub unpack-pack :
    (p : Local)
    → p.lx < 32
    → p.ly < 32
    → p.lz < 32
    → (unpack_idx (pack_idx p) ≡ p) ↔ ((p.lx < 16) × (p.ly ≡ 0) × (p.lz ≡ 0))
unfolding unpack_idx pack_idx
unpack-pack p x y z = ground arith

Read-cases :
    {W : Type 0} (r : ReadResult W) → (r ≡ failed) ⊎ (r ≡ missing) ⊎ ((w : W) × (r ≡ found w))
Read-cases failed = inl refl
Read-cases missing = inr (inl refl)
Read-cases (found w) = inr (inr (w, refl))

module _ {C W K D : Type 0} (b : Backend C W K D) where
  -- The keys that the loop of `flush` defers.
  abbrev pub deferred : D → PendingQueue → List ℕ
  deferred d q = (flush_loop b d q).1

  -- The chunk of a key cannot be read, or is read and decoded, and its write with the changes fails.
  pub data IsFailure (d : D) (key : ℕ) (changes : List PendingChange) : Type 0 where
    unread : b.read_raw d key ≡ failed → IsFailure d key changes
    unwritten :
        (w : W) (c : C)
        → b.read_raw d key ≡ found w
        → b.from_wire w ≡ some c
        → b.write_raw d key (b.encode_to_wire (apply_changes b changes c)) ≡ none
        → IsFailure d key changes

  not_missing :
      (d : D) (key : ℕ) (changes : List PendingChange)
      → b.read_raw d key ≡ missing
      → IsFailure d key changes
      → ⊥
  not_missing d key changes f (unread e) = cc
  not_missing d key changes f (unwritten w c e g x) = cc

  not_decoded :
      (d : D) (key : ℕ) (changes : List PendingChange) (w : W)
      → b.read_raw d key ≡ found w
      → b.from_wire w ≡ none
      → IsFailure d key changes
      → ⊥
  not_decoded d key changes w f n (unread e) = cc
  not_decoded d key changes w f n (unwritten v c e g x) = cc

  not_written :
      (d : D) (key : ℕ) (changes : List PendingChange) (w : W) (c : C) (d' : D)
      → b.read_raw d key ≡ found w
      → b.from_wire w ≡ some c
      → b.write_raw d key (b.encode_to_wire (apply_changes b changes c)) ≡ some d'
      → IsFailure d key changes
      → ⊥
  not_written d key changes w c d' f g y (unread e) = cc
  not_written d key changes w c d' f g y (unwritten v a e i x) = cc

  -- One round of the loop: the key is deferred, or the loop goes on without it.
  abbrev Round : D → ℕ → List PendingChange → Type 0
  Round d key changes =
      (IsFailure d key changes
        × ((q : PendingQueue)
            → flush_loop b d ((key, changes) ∷ q)
              ≡ ((flush_loop b d q).0, key ∷ (flush_loop b d q).1)))
      ⊎ ((IsFailure d key changes → ⊥)
          × ((d' : D) × ((q : PendingQueue)
                → flush_loop b d ((key, changes) ∷ q) ≡ flush_loop b d' q)))

  round : (d : D) (key : ℕ) (changes : List PendingChange) → Round d key changes
  unfolding flush_loop
  round d key changes = elim (Read-cases (b.read_raw d key)) [
    | inl f ↦ inl (unread f, λ q. rw (flush_loop, f) refl)
    | inr (inl f) ↦ inr (not_missing d key changes f, (d, λ q. rw (flush_loop, f) refl))
    | inr (inr (w, f)) ↦ elim (Option-cases (b.from_wire w)) [
      | inl g ↦ inr (not_decoded d key changes w f g, (d, λ q. rw (flush_loop, f, g) refl))
      | inr (c, g) ↦
          elim (Option-cases (b.write_raw d key (b.encode_to_wire (apply_changes b changes c)))) [
            | inl x ↦ inl (unwritten w c f g x, λ q. rw (flush_loop, f, g, x) refl)
            | inr (d', x) ↦
                inr
                  (not_written d key changes w c d' f g x, (d', λ q. rw (flush_loop, f, g, x) refl))
          ]
    ]
  ]

  deferred-other :
      (d : D) (q : PendingQueue) (key : ℕ) → queued key q ≡ none → among key (deferred d q) ≡ false
  unfolding flush_loop queued among
  deferred-other d [] key h = refl
  deferred-other d ((k, changes) ∷ q) key h = elim (round d k changes) [
    | inl (bad, e) ↦
        ap (λ (r : D × List ℕ). among key r.1) (e q) ∙ ground (arith, h, deferred-other d q key)
    | inr (good, (d', e)) ↦
        ap (λ (r : D × List ℕ). among key r.1) (e q) ∙ deferred-other d' q key (ground (arith, h))
  ]

  -- The first key of a queue is deferred exactly when it is a failure.
  deferred-first :
      (d : D) (key : ℕ) (changes : List PendingChange) (q : PendingQueue)
      → queued key q ≡ none
      → (IsFailure d key changes × (among key (deferred d ((key, changes) ∷ q)) ≡ true))
        ⊎ ((IsFailure d key changes → ⊥) × (among key (deferred d ((key, changes) ∷ q)) ≡ false))
  unfolding among
  deferred-first d key changes q h = elim (round d key changes) [
    | inl (bad, e) ↦ inl (bad, ap (λ (r : D × List ℕ). among key r.1) (e q) ∙ ground arith)
    | inr (good, (d', e)) ↦
        inr (good, ap (λ (r : D × List ℕ). among key r.1) (e q) ∙ deferred-other d' q key h)
  ]

  -- The store when the loop has gone through a part of the queue.
  abbrev pub disk_after : D → PendingQueue → D
  disk_after d q = (flush_loop b d q).0

  deferred-behind :
      (d : D) (before : PendingQueue) (key : ℕ) (q : PendingQueue)
      → queued key before ≡ none
      → among key (deferred d (before ++ q)) ≡ among key (deferred (disk_after d before) q)
  unfolding flush_loop queued among
  deferred-behind d [] key q h = refl
  deferred-behind d ((k, changes) ∷ before) key q h = elim (round d k changes) [
    | inl (bad, e) ↦
        let rest = deferred-behind d before key q (ground (arith, h)) in
        let other : (k == key) ≡ false = ground (arith, h) in
        let disk = ap (λ (r : D × List ℕ). r.0) (e before) in
        (ap (λ (r : D × List ℕ). among key r.1) (e (before ++ q)) ∙ ground (arith, other))
        ∙ (rest ∙ ap (λ x. among key (deferred x q)) (sym disk))
    | inr (good, (d', e)) ↦
        let rest = deferred-behind d' before key q (ground (arith, h)) in
        let disk = ap (λ (r : D × List ℕ). r.0) (e before) in
        ap (λ (r : D × List ℕ). among key r.1) (e (before ++ q))
        ∙ (rest ∙ ap (λ x. among key (deferred x q)) (sym disk))
  ]

  -- What becomes of the changes that are queued for a key, behind those of `before`: `flush` drops them
  -- when the chunk cannot be read or written at its turn, and else keeps them, written or not.
  pub flush-pending :
      (h : CasHandler b) (before after : PendingQueue) (key : ℕ) (changes : List PendingChange)
      → h.pending ≡ before ++ ((key, changes) ∷ after)
      → OneEach h.pending
      → let d = disk_after h.disk before in
        let left = queued key (flush b h).1.pending in
        (IsFailure d key changes × (left ≡ none))
        ⊎ ((IsFailure d key changes → ⊥) × (left ≡ some changes))
  unfolding flush
  flush-pending h before after key changes e o =
      let parts = OneEach-split before after key changes (subst OneEach e o) in
      let keys = deferred h.disk h.pending in
      let left = queued-dequeue_all key keys h.pending o in
      let there : queued key h.pending ≡ some changes = ap (queued key) e ∙ parts.there in
      let turn =
        ap (λ q. among key (deferred h.disk q)) e
        ∙ deferred-behind h.disk before key ((key, changes) ∷ after) parts.not_before in
      let kept : queued key (dequeue_all keys h.pending)
          ≡ (if among key keys then none else some changes) =
        left ∙ ap (λ x. if among key keys then none else x) there in
      elim (deferred-first (disk_after h.disk before) key changes after parts.not_after) [
        | inl (bad, hit) ↦ inl (bad, kept ∙ ap (λ x. if x then none else some changes) (turn ∙ hit))
        | inr (good, miss) ↦
            inr (good, kept ∙ ap (λ x. if x then none else some changes) (turn ∙ miss))
      ]

  flush_loop-failed :
      (d : D) (q : PendingQueue)
      → ((key : ℕ) → b.read_raw d key ≡ failed)
      → (flush_loop b d q).0 ≡ d
  unfolding flush_loop
  flush_loop-failed d [] f = refl
  flush_loop-failed d ((key, cs) ∷ q) f = rw (flush_loop, f key) (flush_loop-failed d q f)

  flush_loop-dropped :
      (d : D) (q : PendingQueue)
      → ((key : ℕ) → b.read_raw d key ≡ failed)
      → dequeue_all (flush_loop b d q).1 q ≡ []
  unfolding flush_loop dequeue_all dequeue
  flush_loop-dropped d [] f = refl
  flush_loop-dropped d ((key, cs) ∷ q) f = ground (arith, f key, flush_loop-dropped d q f)

  flush_loop-count :
      (d : D) (q : PendingQueue)
      → ((key : ℕ) → b.read_raw d key ≡ failed)
      → length (flush_loop b d q).1 ≡ length q
  unfolding flush_loop
  flush_loop-count d [] f = refl
  flush_loop-count d ((key, cs) ∷ q) f = ground (arith, f key, flush_loop-count d q f)

  -- While no chunk can be read, `flush` returns 0, writes nothing, and forgets every queued change.
  pub flush-failed :
      (h : CasHandler b)
      → ((key : ℕ) → b.read_raw h.disk key ≡ failed)
      → ((flush b h).0 ≡ 0) × ((flush b h).1.disk ≡ h.disk) × ((flush b h).1.pending ≡ [])
  unfolding flush
  flush-failed h f = (
    omega (arith, flush_loop-count h.disk h.pending f),
    flush_loop-failed h.disk h.pending f,
    flush_loop-dropped h.disk h.pending f,
  )
