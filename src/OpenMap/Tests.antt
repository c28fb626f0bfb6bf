-- ===== src/OpenMap/Tests.antt =====
-- Tests and examples for the hash map.
use gtnh_platform.Base.{ℕ, ◌≡◌, ◌≢◌, refl, none, List, [], ◌∷◌, arith}
use gtnh_platform.OpenMap.{
  Layout, knuth, knuth_hash, OpenMap, insert, insert_slot, find, erase, erase_slot, shift, clear,
  for_each,
}
use gtnh_platform.OpenMap.Well.{IsWell}
use gtnh_platform.OpenMap.Laws.{insert_lem, erase_lem, clear-IsWell, Erased}
use gtnh_platform.OpenMap.Full.{insert-none}
use gtnh_platform.OpenMap.History.{
  MapCall, inserting, erasing, call, run, run-refines, Stands, knuth-IsLayout,
}

-- Two slots, and the sentinel 0.
abbrev two_slots : Layout
two_slots = knuth 1 0

abbrev one_entry : OpenMap ℕ
one_entry = (insert two_slots (clear two_slots 0) 5 50).0

one_entry-IsWell : IsWell two_slots one_entry
one_entry-IsWell =
    (insert_lem two_slots (knuth-IsLayout 1 0) (clear two_slots 0)
      (clear-IsWell two_slots (knuth-IsLayout 1 0) 0) 5 50).0

abbrev full_map : OpenMap ℕ
full_map = (insert two_slots one_entry 7 70).0

full_map-IsWell : IsWell two_slots full_map
full_map-IsWell = (insert_lem two_slots (knuth-IsLayout 1 0) one_entry one_entry-IsWell 7 70).0

third_fails : (insert two_slots full_map 9 90).1 ≡ none
unfolding insert insert_slot clear knuth_hash
third_fails = refl

abbrev nine : ℕ
nine = 9

nine_real : nine ≢ 0
nine_real h = omega (arith, h)

insert-none_example : (full_map.size ≡ 2) × (find two_slots full_map nine ≡ none)
insert-none_example =
    insert-none two_slots (knuth-IsLayout 1 0) full_map full_map-IsWell nine nine_real 90
      third_fails

erase_lem_example :
    Erased two_slots (knuth-IsLayout 1 0) full_map full_map-IsWell 5 (erase two_slots 0 full_map 5)
erase_lem_example = erase_lem two_slots (knuth-IsLayout 1 0) full_map full_map-IsWell 5 0

abbrev calls : List (MapCall ℕ)
calls =
    inserting 5 50 ∷ inserting 7 70 ∷ inserting 9 90 ∷ erasing 5 ∷ inserting 9 91 ∷ erasing 8 ∷ []

run-refines_example : Stands two_slots (run two_slots 0 (clear two_slots 0, λ k. none) calls)
run-refines_example = run-refines two_slots (knuth-IsLayout 1 0) 0 calls

what_is_left :
    for_each two_slots (run two_slots 0 (clear two_slots 0, λ k. none) calls).0.entries
    ≡ (7, 70) ∷ (9, 91) ∷ []
unfolding run call insert insert_slot erase erase_slot shift clear knuth_hash for_each
what_is_left = refl
