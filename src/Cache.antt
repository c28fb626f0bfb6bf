-- ===== src/Cache.antt =====
-- The chunk cache, apps/chunk_store/Storage/cache/ClockCache.h: sets of four slots. The calls run one
-- after another, so that a compare-and-swap of a slot just loaded succeeds. A key is its 64-bit word,
-- a value a word whose bit 63, here `has_ref`, is the reference bit.
pub mod Slots
pub mod Eviction
mod Tests
use gtnh_platform.Base.{
  ℕ, zero, suc, ◌+◌, ◌-◌, ◌*◌, ◌/◌, ◌%◌, ◌^◌, Bool, true, false, not, ◌&&◌, ◌||◌, Option, none,
  some, List, [], ◌∷◌, ◌++◌, ◌==◌, if◌then◌else◌,
}
use gtnh_platform.Base.Bits.{or_bits, xor_bits}

-- `PackedSlot`, unpacked.
pub record PackedSlot : Type 0 where
  pub key : ℕ
  pub value : ℕ
  pub has_ref : Bool

-- A `Set` and its clock hand.
pub record SlotSet : Type 0 where
  pub slot_0 : PackedSlot
  pub slot_1 : PackedSlot
  pub slot_2 : PackedSlot
  pub slot_3 : PackedSlot
  pub hand : ℕ

abbrev pub empty_slot : PackedSlot
empty_slot = record { key = 0; value = 0; has_ref = false }

-- `pack`
abbrev pub packed : ℕ → ℕ → PackedSlot
packed key value = record { key = key; value = value; has_ref = true }

abbrev pub slot_of : SlotSet → ℕ → PackedSlot
slot_of s zero = s.slot_0
slot_of s (suc zero) = s.slot_1
slot_of s (suc (suc zero)) = s.slot_2
slot_of s (suc (suc (suc i))) = s.slot_3

abbrev pub with_slot : SlotSet → ℕ → PackedSlot → SlotSet
with_slot s zero v = record s { slot_0 = v }
with_slot s (suc zero) v = record s { slot_1 = v }
with_slot s (suc (suc zero)) v = record s { slot_2 = v }
with_slot s (suc (suc (suc i))) v = record s { slot_3 = v }

-- `set_idx` for a number of sets that is a power of two, so that `&` is a remainder.
unfoldable pub set_idx : ℕ → ℕ → ℕ
unfolding xor_bits
set_idx sets key =
    let a = xor_bits 64 key (key / 2 ^ 32) in
    let b = xor_bits 64 a (a / 2 ^ 16) in let c = xor_bits 64 b (b / 2 ^ 8) in c % sets

-- Whether the mask `any` or `same` is not 0.
pub has_key : SlotSet → ℕ → Bool
has_key s key =
    (s.slot_0.key == key) || (s.slot_1.key == key) || (s.slot_2.key == key) || (s.slot_3.key == key)

-- A mask: no bit or all 64.
abbrev pub mask_of : Bool → ℕ
mask_of false = 0
mask_of true = 18446744073709551615

-- `__builtin_ctzll`, with a bound on the number of bits.
pub ctz : ℕ → ℕ → ℕ
ctz zero n = 0
ctz (suc bits) n = let rest = ctz bits (n / 2) in if n % 2 == 1 then 0 else suc rest

-- The slot that a hit acts on: the lowest bit of the joined masks.
pub hit_index : SlotSet → ℕ → ℕ
unfolding ctz has_key
hit_index s key = ctz 64 (mask_of (has_key s key))

abbrev pub masked_value : PackedSlot → ℕ → ℕ
masked_value v key = if v.key == key then v.value else 0

-- The joined values of the matching slots.
pub joined_value : SlotSet → ℕ → ℕ
unfolding or_bits
joined_value s key =
    or_bits 64
      (or_bits 64 (or_bits 64 (masked_value s.slot_0 key) (masked_value s.slot_1 key))
        (masked_value s.slot_2 key))
      (masked_value s.slot_3 key)

-- `get`
pub cache_get : SlotSet → ℕ → Option ℕ × SlotSet
unfolding has_key joined_value hit_index
cache_get s key =
    let i = hit_index s key in
    if has_key s key
    then (some (joined_value s key), with_slot s i (record (slot_of s i) { has_ref = true }))
    else (none, s)

-- The set after a call and the values that `on_evict` was called with.
pub record Evicting : Type 0 where
  pub after : SlotSet
  pub evicted : List ℕ

pub is_empty_slot : PackedSlot → Bool
is_empty_slot v = (v.key == 0) && (v.value == 0) && not v.has_ref

-- Pass 2: the first empty slot.
pub first_empty : SlotSet → Option ℕ
unfolding is_empty_slot
first_empty s =
    if is_empty_slot s.slot_0
    then some 0
    else (if is_empty_slot s.slot_1
        then some 1
        else (if is_empty_slot s.slot_2
            then some 2
            else (if is_empty_slot s.slot_3 then some 3 else none)))

-- Pass 3: the first slot from the hand on whose reference bit is clear.
pub first_unreferenced : SlotSet → Option ℕ
first_unreferenced s =
    if not (slot_of s (s.hand % 4)).has_ref
    then some (s.hand % 4)
    else (if not (slot_of s ((s.hand + 1) % 4)).has_ref
        then some ((s.hand + 1) % 4)
        else (if not (slot_of s ((s.hand + 2) % 4)).has_ref
            then some ((s.hand + 2) % 4)
            else (if not (slot_of s ((s.hand + 3) % 4)).has_ref
                then some ((s.hand + 3) % 4)
                else none)))

-- Pass 4: the reference bit at the hand is cleared and the hand moves on.
pub advance_hand : SlotSet → SlotSet
advance_hand s =
    let cleared = with_slot s s.hand (record (slot_of s s.hand) { has_ref = false }) in
    record cleared { hand = (s.hand + 1) % 4 }

abbrev pub evicted_value : PackedSlot → List ℕ
evicted_value v = if v.key == 0 then [] else v.value ∷ []

-- `put`: `none` means that `fuel` rounds of its loop were not enough.
pub cache_put : ℕ → SlotSet → ℕ → ℕ → Option Evicting
unfolding has_key hit_index first_empty first_unreferenced advance_hand
cache_put zero s key value = none
cache_put (suc fuel) s key value =
    let again = cache_put fuel (advance_hand s) key value in
    let i = hit_index s key in
    let hit : Evicting = record {
      after = with_slot s i (packed key value);
      evicted = (slot_of s i).value ∷ [];
    } in
    if has_key s key then some hit else elim (first_empty s) [
      | some i ↦ some (record { after = with_slot s i (packed key value); evicted = [] })
      | none ↦ elim (first_unreferenced s) [
        | some i ↦ some (record {
          after = record (with_slot s i (packed key value)) { hand = (i + 1) % 4 };
          evicted = evicted_value (slot_of s i);
        })
        | none ↦ again
      ]
    ]

-- `erase`
pub cache_erase : SlotSet → ℕ → Evicting
unfolding has_key hit_index
cache_erase s key =
    let i = hit_index s key in
    if has_key s key
    then record { after = with_slot s i empty_slot; evicted = (slot_of s i).value ∷ [] }
    else record { after = s; evicted = [] }

-- `clear` of one set.
unfoldable pub cache_clear : SlotSet → Evicting
cache_clear s = record {
  after = record {
    slot_0 = if s.slot_0.key == 0 then s.slot_0 else empty_slot;
    slot_1 = if s.slot_1.key == 0 then s.slot_1 else empty_slot;
    slot_2 = if s.slot_2.key == 0 then s.slot_2 else empty_slot;
    slot_3 = if s.slot_3.key == 0 then s.slot_3 else empty_slot;
    hand = s.hand;
  };
  evicted =
      evicted_value s.slot_0
      ++ (evicted_value s.slot_1 ++ (evicted_value s.slot_2 ++ evicted_value s.slot_3));
}
