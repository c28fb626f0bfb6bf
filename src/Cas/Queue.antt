-- ===== src/Cas/Queue.antt =====
-- The queue of pending changes, and what taking keys out of it and adding changes to it does.
use mathlib.Core.List.{append-nil}
use gtnh_platform.Base.{
  ℕ, ◌≡◌, refl, sym, ap, subst, ◌∙◌, inl, inr, ◌++◌, Bool-cases, Bool, false, ◌||◌, Option, none,
  some, List, [], ◌∷◌, arith, ◌==◌, if◌then◌else◌,
}
use gtnh_platform.Cas.{PendingQueue, PendingChange, dequeue, enqueue, dequeue_all}

-- The changes queued for a key.
unfoldable pub queued : ℕ → PendingQueue → Option (List PendingChange)
queued key [] = none
queued key (e ∷ q) = if e.0 == key then some e.1 else queued key q

unfoldable pub among : ℕ → List ℕ → Bool
among key [] = false
among key (k ∷ ks) = (k == key) || among key ks

-- No key is queued twice.
abbrev pub OneEach : PendingQueue → Type 0
OneEach [] = Unit {0}
OneEach (e ∷ q) = (queued e.0 q ≡ none) × OneEach q

queued-dequeue :
    (j key : ℕ) (q : PendingQueue)
    → OneEach q
    → queued j (dequeue key q) ≡ (if key == j then none else queued j q)
unfolding queued dequeue
queued-dequeue j key [] o = ground arith
queued-dequeue j key (e ∷ q) o = ground (arith, queued-dequeue j key q o.1)

dequeue-OneEach : (key : ℕ) (q : PendingQueue) → OneEach q → OneEach (dequeue key q)
unfolding dequeue
dequeue-OneEach key [] o = o
dequeue-OneEach key (e ∷ q) o =
    ground (arith, dequeue-OneEach key q o.1, queued-dequeue e.0 key q o.1)

pub queued-dequeue_all :
    (j : ℕ) (keys : List ℕ) (q : PendingQueue)
    → OneEach q
    → queued j (dequeue_all keys q) ≡ (if among j keys then none else queued j q)
unfolding dequeue_all among
queued-dequeue_all j [] q o = refl
queued-dequeue_all j (k ∷ ks) q o =
    ground
      (arith, queued-dequeue_all j ks (dequeue k q) (dequeue-OneEach k q o), queued-dequeue j k q o)

-- A key of a queue that stands between two parts of it stands in neither.
pub record IsBetween (before after : PendingQueue) (key : ℕ) (changes : List PendingChange)
    : Type 0 where
  pub not_before : queued key before ≡ none
  pub not_after : queued key after ≡ none
  pub there : queued key (before ++ ((key, changes) ∷ after)) ≡ some changes

pub OneEach-split :
    (before after : PendingQueue) (key : ℕ) (changes : List PendingChange)
    → OneEach (before ++ ((key, changes) ∷ after))
    → IsBetween before after key changes
unfolding queued
OneEach-split [] after key changes o = record {
  not_before = refl;
  not_after = o.0;
  there = ground arith;
}
OneEach-split (e ∷ before) after key changes o =
    let rest = OneEach-split before after key changes o.1 in
    let apart : (e.0 == key) ≡ false = elim (Bool-cases (e.0 == key)) [
      | inl y ↦
          let same : e.0 ≡ key = ground arith in
          let both =
            sym o.0 ∙ (ap (λ k. queued k (before ++ ((key, changes) ∷ after))) same ∙ rest.there) in
          cc
      | inr y ↦ y
    ] in
    record {
      not_before = ground (arith, apart, rest.not_before);
      not_after = rest.not_after;
      there = ground (arith, apart, rest.there);
    }

-- The changes queued for a key, none when the key is not there.
pub changes_for : ℕ → PendingQueue → List PendingChange
changes_for key [] = []
changes_for key (e ∷ q) = if e.0 == key then e.1 else changes_for key q

pub changes_for-enqueue :
    (j key : ℕ) (c : PendingChange) (q : PendingQueue)
    → changes_for j (enqueue key c q) ≡ changes_for j q ++ (if key == j then c ∷ [] else [])
unfolding changes_for enqueue
changes_for-enqueue j key c [] = ground arith
changes_for-enqueue j key c (e ∷ q) = elim (Bool-cases (e.0 == key)) [
  | inl y ↦
      let same : (e.0 == j) ≡ (key == j) = ground arith in
      elim (Bool-cases (key == j)) [
        | inl k ↦ rw (y, same, k) (ground (arith, same, k))
        | inr k ↦ rw (y, same, k) (ground (arith, same, k, append-nil (changes_for j q)))
      ]
  | inr n ↦ elim (Bool-cases (e.0 == j)) [
    | inl y ↦
        let apart : (key == j) ≡ false = ground arith in rw (n, apart, y) (sym (append-nil e.1))
    | inr m ↦ rw (n, m) (changes_for-enqueue j key c q)
  ]
]

queued-enqueue :
    (j key : ℕ) (c : PendingChange) (q : PendingQueue)
    → (key == j) ≡ false
    → queued j (enqueue key c q) ≡ queued j q
unfolding queued enqueue
queued-enqueue j key c [] h = ground (arith, h)
queued-enqueue j key c (e ∷ q) h = ground (arith, h, queued-enqueue j key c q h)

pub enqueue-OneEach :
    (key : ℕ) (c : PendingChange) (q : PendingQueue) → OneEach q → OneEach (enqueue key c q)
unfolding queued enqueue
enqueue-OneEach key c [] o = (refl, tt)
enqueue-OneEach key c (e ∷ q) o = elim (Bool-cases (e.0 == key)) [
  | inl y ↦
      let same : e.0 ≡ key = ground arith in rw y (subst (λ k. queued k q ≡ none) same o.0, o.1)
  | inr n ↦
      let apart : (key == e.0) ≡ false = ground arith in
      rw n (queued-enqueue e.0 key c q apart ∙ o.0, enqueue-OneEach key c q o.1)
]
