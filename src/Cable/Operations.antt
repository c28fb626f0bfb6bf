-- ===== src/Cable/Operations.antt =====
-- The operations of `CableGraph` that change its state, except the tick. `rebuildGraph` iterates over
-- the nodes in the order of the list.
use gtnh_platform.Base.{
  ℕ, zero, suc, Bool, true, false, Option, none, some, List, [], ◌∷◌, ◌++◌, ◌==◌, if◌then◌else◌,
  length,
}
use gtnh_platform.Base.Ids.{has_id}
use gtnh_platform.Cable.{
  EnergyPacket, CableNode, CableDef, CableGraph, map_find, map_put, map_erase, find_node, put_node,
  erase_node, pack_pos, face_pos, link, faces,
}

-- The queue, the visited cables and the component of the loop of `rebuildGraph`.
pub record Flood : Type 0 where
  pub flood_queue : List ℕ
  pub flood_visited : List ℕ
  pub component : List ℕ

pub spread_faces : CableGraph → CableNode → List ℕ → Flood → Flood
unfolding link has_id
spread_faces g node [] s = s
spread_faces g node (f ∷ fs) s = spread_faces g node fs (elim (link g node f) [
  | none ↦ s
  | some b ↦ if has_id b s.flood_visited then s else record s {
    flood_queue = s.flood_queue ++ (b ∷ []);
    flood_visited = s.flood_visited ++ (b ∷ []);
  }
])

-- The inner loop: `none` means that `fuel` rounds were not enough.
pub flood : ℕ → CableGraph → Flood → Option Flood
unfolding spread_faces find_node
flood zero g s = none
flood (suc fuel) g s = elim s.flood_queue [
  | [] ↦ some s
  | c ∷ cs ↦
      let s' = record s { flood_queue = cs; component = s.component ++ (c ∷ []) } in
      elim (find_node g.nodes c) [
        | none ↦ flood fuel g s'
        | some node ↦ flood fuel g (spread_faces g node faces s')
      ]
]

-- The outer loop over the nodes, with the visited cables and the networks so far.
pub flood_nodes : CableGraph → List CableNode → List ℕ → List (List ℕ) → Option (List (List ℕ))
unfolding flood has_id
flood_nodes g [] visited networks = some networks
flood_nodes g (n ∷ ns) visited networks =
    let skipped = flood_nodes g ns visited networks in
    let reached = flood (suc (suc (length g.nodes))) g (record {
      flood_queue = n.id ∷ [];
      flood_visited = visited ++ (n.id ∷ []);
      component = [];
    }) in
    if has_id n.id visited then skipped else elim reached [
      | none ↦ none
      | some s ↦ flood_nodes g ns s.flood_visited (networks ++ (s.component ∷ []))
    ]

pub rebuild_graph : CableGraph → Option CableGraph
unfolding flood_nodes
rebuild_graph g = elim (flood_nodes g g.nodes [] []) [
  | none ↦ none
  | some networks ↦ some (record g { cable_networks = networks })
]

-- A known id is overwritten; the entry of its old position stays.
unfoldable pub add_cable_node : CableGraph → ℕ → CableDef → ℕ → ℕ → ℕ → ℕ → CableGraph
unfolding put_node map_put pack_pos
add_cable_node g node_id def x y z meta =
    let node : CableNode = record {
      id = node_id;
      x = x;
      y = y;
      z = z;
      tier = def.def_tier;
      max_voltage = def.def_max_voltage;
      ampacity = def.def_ampacity;
      block_id = def.def_block_id;
      packets_in = [];
      packets_out = [];
      meta = meta;
    } in
    record g {
      nodes = put_node g.nodes node;
      pos_to_node = map_put g.pos_to_node (pack_pos x y z) node_id;
    }

unfoldable pub set_cable_meta : CableGraph → ℕ → ℕ → Option CableGraph
unfolding find_node put_node rebuild_graph
set_cable_meta g node_id meta = elim (find_node g.nodes node_id) [
  | none ↦ some g
  | some node ↦
      if node.meta == meta
      then some g
      else rebuild_graph (record g { nodes = put_node g.nodes (record node { meta = meta }) })
]

unfoldable pub has_cable_node : CableGraph → ℕ → Bool
unfolding find_node
has_cable_node g node_id = elim (find_node g.nodes node_id) [ none ↦ false | some node ↦ true ]

unfoldable pub remove_cable_node : CableGraph → ℕ → Option CableGraph
unfolding find_node erase_node map_erase pack_pos rebuild_graph
remove_cable_node g node_id = elim (find_node g.nodes node_id) [
  | none ↦ some g
  | some node ↦ rebuild_graph (record g {
    nodes = erase_node g.nodes node_id;
    pos_to_node = map_erase g.pos_to_node (pack_pos node.x node.y node.z);
    generator_to_cable = map_erase g.generator_to_cable node.id;
    machine_to_cable = map_erase g.machine_to_cable node.id;
  })
]

unfoldable pub inject_packet : CableGraph → EnergyPacket → ℕ → CableGraph
unfolding find_node put_node
inject_packet g packet start_node_id = elim (find_node g.nodes start_node_id) [
  | none ↦ g
  | some node ↦ record g {
    nodes = put_node g.nodes (record node { packets_in = node.packets_in ++ (packet ∷ []) });
  }
]

-- The packets of the cable next to a machine, which the cable then has no more.
unfoldable pub collect_packets : CableGraph → ℕ → List EnergyPacket × CableGraph
unfolding map_find find_node put_node
collect_packets g machine_node_id = elim (map_find g.machine_to_cable machine_node_id) [
  | none ↦ ([], g)
  | some cable ↦ elim (find_node g.nodes cable) [
    | none ↦ ([], g)
    | some node ↦
        (node.packets_out, record g { nodes = put_node g.nodes (record node { packets_out = [] }) })
  ]
]

unfoldable pub set_cable_params : CableGraph → ℕ → CableDef → CableGraph
unfolding find_node put_node
set_cable_params g node_id def = elim (find_node g.nodes node_id) [
  | none ↦ g
  | some node ↦ record g {
    nodes = put_node g.nodes (record node {
      max_voltage = def.def_max_voltage;
      ampacity = def.def_ampacity;
      tier = def.def_tier;
    });
  }
]

-- The loop of `findAdjacentCable`; `none` is the exception of `m_nodes.at`, and 0 stands for no cable.
pub adjacent_cable : CableGraph → ℕ → ℕ → ℕ → ℕ → List ℕ → Option ℕ
unfolding map_find face_pos find_node
adjacent_cable g x y z tier [] = some 0
adjacent_cable g x y z tier (f ∷ fs) =
    let rest = adjacent_cable g x y z tier fs in
    elim (map_find g.pos_to_node (face_pos f x y z)) [
      | none ↦ rest
      | some cable ↦ if tier == 0 then some cable else elim (find_node g.nodes cable) [
        | none ↦ none
        | some node ↦ if node.tier == tier then some cable else rest
      ]
    ]

pub find_adjacent_cable : CableGraph → ℕ → ℕ → ℕ → ℕ → Option ℕ
unfolding adjacent_cable
find_adjacent_cable g x y z tier = adjacent_cable g x y z tier faces

unfoldable pub register_generator : CableGraph → ℕ → ℕ → ℕ → ℕ → ℕ → Option CableGraph
unfolding find_adjacent_cable map_put
register_generator g gen_entity_id x y z tier = elim (find_adjacent_cable g x y z tier) [
  | none ↦ none
  | some cable ↦
      if cable == 0
      then some g
      else some (record g { generator_to_cable = map_put g.generator_to_cable gen_entity_id cable })
]

unfoldable pub register_machine : CableGraph → ℕ → ℕ → ℕ → ℕ → ℕ → Option CableGraph
unfolding find_adjacent_cable map_put
register_machine g machine_entity_id x y z tier = elim (find_adjacent_cable g x y z tier) [
  | none ↦ none
  | some cable ↦
      if cable == 0
      then some g
      else some (record g { machine_to_cable = map_put g.machine_to_cable machine_entity_id cable })
]

unfoldable pub unregister_generator : CableGraph → ℕ → CableGraph
unfolding map_erase
unregister_generator g gen_entity_id = record g {
  generator_to_cable = map_erase g.generator_to_cable gen_entity_id;
}

unfoldable pub unregister_machine : CableGraph → ℕ → CableGraph
unfolding map_erase
unregister_machine g machine_entity_id = record g {
  machine_to_cable = map_erase g.machine_to_cable machine_entity_id;
}

unfoldable pub is_registered_generator : CableGraph → ℕ → Bool
unfolding map_find
is_registered_generator g gen_entity_id = elim (map_find g.generator_to_cable gen_entity_id) [
  | none ↦ false
  | some cable ↦ true
]
