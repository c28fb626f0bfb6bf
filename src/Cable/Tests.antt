-- ===== src/Cable/Tests.antt =====
-- Tests and examples for the graph of cables.
use gtnh_platform.Base.{ℕ, ◌≡◌, refl, ◌⊎◌, some, List, [], ◌∷◌, arith}
use gtnh_platform.Base.Bits.{or_bits}
use gtnh_platform.Base.Ids.{has_id}
use gtnh_platform.Cable.{
  CableNode, CableDef, CableGraph, find_node, map_find, map_put, put_node, link, face_pos, pack_pos,
  has_face, opposite, find_path,
}
use gtnh_platform.Cable.Operations.{add_cable_node}
use gtnh_platform.Cable.Routes.{Linked, Route, start, onward}
use gtnh_platform.Cable.Search.{find_path_lem}
use gtnh_platform.Cable.Complete.{find_path-Route}

abbrev empty_graph : CableGraph
empty_graph = record {
  nodes = [];
  pos_to_node = [];
  cable_networks = [];
  generator_to_cable = [];
  machine_to_cable = [];
}

abbrev tin : CableDef
tin = record { def_tier = 1; def_max_voltage = 32; def_ampacity = 32; def_block_id = 5 }

abbrev cable : ℕ → ℕ → CableNode
cable id x = record {
  id = id;
  x = x;
  y = 4;
  z = 5;
  tier = 1;
  max_voltage = 32;
  ampacity = 32;
  block_id = 5;
  packets_in = [];
  packets_out = [];
  meta = 0;
}

-- two cables side by side
abbrev two_cables : CableGraph
two_cables = record empty_graph {
  nodes = cable 11 1 ∷ cable 12 2 ∷ [];
  pos_to_node = (4398054899717, 11) ∷ (8796101410821, 12) ∷ [];
}

are_added : add_cable_node (add_cable_node empty_graph 11 tin 1 4 5 0) 12 tin 2 4 5 0 ≡ two_cables
unfolding add_cable_node put_node map_put pack_pos or_bits
are_added = refl

-- with z = -1 the low bits of y are lost, so two cables have one position
is_lost : pack_pos 3 4 4294967295 ≡ pack_pos 3 5 4294967295
unfolding pack_pos or_bits
is_lost = refl

find_path_lem_example :
    (path : List ℕ) × (find_path two_cables 11 12 ≡ some path)
    × ((path ≡ []) ⊎ Route two_cables 11 path 12)
find_path_lem_example = find_path_lem two_cables 11 12

side_by_side : Linked two_cables 11 12
unfolding link find_node map_find face_pos pack_pos or_bits has_face opposite has_id
side_by_side = record { node = cable 11 1; face = 0; is_face = refl; found = refl; linked = refl }

find_path-Route_example :
    (path : List ℕ) × (find_path two_cables 11 12 ≡ some path) × Route two_cables 11 path 12
find_path-Route_example =
    find_path-Route two_cables 11 12 (11 ∷ 12 ∷ []) (omega arith) (omega arith)
      (onward (11 ∷ []) 11 12 start side_by_side)
