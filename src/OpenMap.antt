-- ===== src/OpenMap.antt =====
-- The open-addressing hash map, engine/registry/OpenHashMap.h, with linear probing and backward-shift
-- deletion. A `Layout` has the template's capacity and sentinel key and the hash function; the pointer
-- that a call returns is the index of its slot.
pub mod Positions
pub mod Slots
pub mod Sound
pub mod Shift
pub mod Writes
pub mod Search
pub mod Returned
pub mod Moves
pub mod Closed
pub mod Well
pub mod Inserted
pub mod Erased
pub mod Laws
pub mod Full
pub mod History
mod Tests
use gtnh_platform.Base.{
  ℕ, zero, suc, ◌+◌, ◌-◌, ◌*◌, ◌/◌, ◌%◌, ◌^◌, Bool, true, false, ◌&&◌, ◌||◌, Option, none, some,
  List, [], ◌∷◌, ◌==◌, ltb, leb, if◌then◌else◌, get_elem?, set, replicate,
}

pub record Layout : Type 0 where
  pub capacity : ℕ
  pub sentinel : ℕ
  pub hash : ℕ → ℕ

-- `hash` for a capacity of `2 ^ bits`.
pub knuth_hash : ℕ → ℕ → ℕ
knuth_hash bits key = key % 2 ^ 32 * 2654435761 % 2 ^ 32 / 2 ^ (32 - bits) % 2 ^ bits

abbrev pub knuth : ℕ → ℕ → Layout
knuth bits s = record { capacity = 2 ^ bits; sentinel = s; hash = knuth_hash bits }

-- `(idx + 1) & mask_`
abbrev pub next : Layout → ℕ → ℕ
next l idx = (idx + 1) % l.capacity

pub record MapEntry (V : Type 0) : Type 0 where
  pub key : ℕ
  pub value : V

pub record OpenMap (V : Type 0) : Type 0 where
  pub entries : List (MapEntry V)
  pub size : ℕ

abbrev pub key_at : {V : Type 0} → Layout → List (MapEntry V) → ℕ → ℕ
key_at l es i = elim (get_elem? es i) [ none ↦ l.sentinel | some e ↦ e.key ]

-- The loop of `insert`, for `n` more slots.
pub insert_slot : {V : Type 0} → Layout → List (MapEntry V) → ℕ → ℕ → ℕ → Option ℕ
insert_slot l es k idx zero = none
insert_slot l es k idx (suc n) =
    let rest = insert_slot l es k (next l idx) n in
    if (key_at l es idx == l.sentinel) || (key_at l es idx == k) then some idx else rest

pub insert : {V : Type 0} → Layout → OpenMap V → ℕ → V → OpenMap V × Option ℕ
unfolding insert_slot
insert l t k v =
    if k == l.sentinel then (t, none) else elim (insert_slot l t.entries k (l.hash k) l.capacity) [
      | none ↦ (t, none)
      | some idx ↦ (
        record {
          entries = set t.entries idx (record { key = k; value = v });
          size = if key_at l t.entries idx == l.sentinel then t.size + 1 else t.size;
        },
        some idx,
      )
    ]

-- The loop of `find`.
pub find_from : {V : Type 0} → Layout → List (MapEntry V) → ℕ → ℕ → ℕ → Option V
find_from l es k idx zero = none
find_from l es k idx (suc n) =
    let rest = find_from l es k (next l idx) n in
    elim (get_elem? es idx) [
      | none ↦ none
      | some e ↦ if e.key == k then some e.value else (if e.key == l.sentinel then none else rest)
    ]

unfoldable pub find : {V : Type 0} → Layout → OpenMap V → ℕ → Option V
unfolding find_from
find l t k = if k == l.sentinel then none else find_from l t.entries k (l.hash k) l.capacity

-- The outer loop of `erase`.
pub erase_slot : {V : Type 0} → Layout → List (MapEntry V) → ℕ → ℕ → ℕ → Option ℕ
erase_slot l es k idx zero = none
erase_slot l es k idx (suc n) =
    let rest = erase_slot l es k (next l idx) n in if key_at l es idx == k then some idx else rest

abbrev pub on_path : ℕ → ℕ → ℕ → Bool
on_path ideal hole nxt =
    if leb ideal nxt then leb ideal hole && leb hole nxt else leb ideal hole || leb hole nxt

abbrev pub empty_entry : {V : Type 0} → Layout → V → MapEntry V
empty_entry l v = record { key = l.sentinel; value = v }

-- The inner loop of `erase`, for `n` more slots; `v` is `Value{}`.
pub shift : {V : Type 0} → Layout → V → List (MapEntry V) → ℕ → ℕ → ℕ → List (MapEntry V)
shift l v es hole nxt zero = es
shift l v es hole nxt (suc n) = elim (get_elem? es nxt) [
  | none ↦ es
  | some e ↦
      let moved = set (set es hole e) nxt (empty_entry l v) in
      let on_moved = shift l v moved nxt (next l nxt) n in
      let on_kept = shift l v es hole (next l nxt) n in
      if e.key == l.sentinel
      then es
      else (if on_path (l.hash e.key) hole nxt then on_moved else on_kept)
]

unfoldable pub erase : {V : Type 0} → Layout → V → OpenMap V → ℕ → OpenMap V × Bool
unfolding erase_slot shift
erase l v t k =
    if k == l.sentinel then (t, false) else elim (erase_slot l t.entries k (l.hash k) l.capacity) [
      | none ↦ (t, false)
      | some idx ↦
          let cleared = set t.entries idx (empty_entry l v) in
          (
            record {
              entries = shift l v cleared idx (next l idx) (l.capacity - 1);
              size = t.size - 1;
            },
            true,
          )
    ]

pub for_each : {V : Type 0} → Layout → List (MapEntry V) → List (ℕ × V)
for_each l [] = []
for_each l (e ∷ es) =
    let rest = for_each l es in if e.key == l.sentinel then rest else (e.key, e.value) ∷ rest

-- `clear`, and the map at first.
pub clear : {V : Type 0} → Layout → V → OpenMap V
clear l v = record { entries = replicate l.capacity (empty_entry l v); size = 0 }
