-- ===== src/Cache/Tests.antt =====
-- Tests and examples for the cache.
use gtnh_platform.Base.{◌≡◌, refl, some, [], ◌∷◌, arith}
use gtnh_platform.Base.Bits.{or_bits}
use gtnh_platform.Cache.{
  SlotSet, Evicting, empty_slot, packed, slot_of, has_key, hit_index, ctz, joined_value,
  first_empty, is_empty_slot, first_unreferenced, advance_hand, cache_get, cache_put, cache_erase,
}
use gtnh_platform.Cache.Eviction.{IsPut, cache_put_lem, cache_erase-misses}

-- four entries in use
abbrev full_set : SlotSet
full_set = record {
  slot_0 = packed 10 100;
  slot_1 = packed 11 104;
  slot_2 = packed 12 112;
  slot_3 = packed 13 128;
  hand = 2;
}

abbrev second_chance : SlotSet
second_chance = record {
  slot_0 = packed 10 100;
  slot_1 = packed 11 104;
  slot_2 = packed 14 136;
  slot_3 = packed 13 128;
  hand = 3;
}

evicts_at_hand :
    cache_put 2 full_set 14 136 ≡ some (record { after = second_chance; evicted = 112 ∷ [] })
unfolding cache_put has_key first_empty is_empty_slot first_unreferenced advance_hand hit_index ctz
evicts_at_hand = refl

cache_put_lem_example :
    (r : Evicting) × (cache_put 2 full_set 14 136 ≡ some r) × IsPut full_set 14 136 r
unfolding has_key
cache_put_lem_example = cache_put_lem 0 full_set 14 136 (omega arith) refl

cache_erase-misses_example :
    (slot_of (cache_erase full_set 12).after 2 ≡ packed 12 112)
    × (slot_of (cache_erase full_set 12).after 0 ≡ empty_slot)
    × ((cache_erase full_set 12).evicted ≡ 100 ∷ [])
cache_erase-misses_example = cache_erase-misses full_set 12 1 (omega arith) refl

-- a known key in another slot than the first gets a second entry, and a read joins the two values
abbrev twice : SlotSet
twice = record {
  slot_0 = packed 11 136;
  slot_1 = packed 11 104;
  slot_2 = packed 12 112;
  slot_3 = packed 13 128;
  hand = 2;
}

is_put_twice : cache_put 1 full_set 11 136 ≡ some (record { after = twice; evicted = 100 ∷ [] })
unfolding cache_put has_key hit_index ctz
is_put_twice = refl

reads_both : (cache_get twice 11).0 ≡ some 232
unfolding cache_get has_key joined_value or_bits hit_index ctz
reads_both = refl
