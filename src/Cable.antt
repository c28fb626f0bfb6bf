-- ===== src/Cable.antt =====
-- The graph of energy cables, apps/pipe_network/CableGraph.{h,cpp}. A coordinate is the 32-bit word that
-- `packPos` casts it to. An unordered map is the list of its entries, in the order of iteration. The
-- tick, which moves packets and heats the cables in floating point, is not here.
pub mod Operations
pub mod Search
pub mod Routes
pub mod Settled
pub mod Complete
mod Tests
use gtnh_platform.Base.{
  ℕ, zero, suc, ◌+◌, ◌-◌, ◌*◌, ◌/◌, ◌%◌, ◌^◌, Bool, true, false, ◌&&◌, ◌||◌, Option, none, some,
  List, [], ◌∷◌, ◌++◌, ◌==◌, ltb, if◌then◌else◌, length,
}
use gtnh_platform.Base.Bits.{or_bits}
use gtnh_platform.Base.Ids.{has_id}

pub pack_pos : ℕ → ℕ → ℕ → ℕ
unfolding or_bits
pack_pos x y z = or_bits 64 (or_bits 64 ((x * 2 ^ 42) % 2 ^ 64) (y * 2 ^ 21)) z

-- What the graph reads of an `EnergyPacket`.
pub record EnergyPacket : Type 0 where
  pub voltage : ℕ
  pub amp_count : ℕ
  pub source_id : ℕ
  pub target_id : ℕ
  pub tick_issued : ℕ

-- `CableNode`, without the temperature and the loss per block.
pub record CableNode : Type 0 where
  pub id : ℕ
  pub x : ℕ
  pub y : ℕ
  pub z : ℕ
  pub tier : ℕ
  pub max_voltage : ℕ
  pub ampacity : ℕ
  pub block_id : ℕ
  pub packets_in : List EnergyPacket
  pub packets_out : List EnergyPacket
  pub meta : ℕ

-- What `addCableNode` and `setCableParams` read of a `CableDef`.
pub record CableDef : Type 0 where
  pub def_tier : ℕ
  pub def_max_voltage : ℕ
  pub def_ampacity : ℕ
  pub def_block_id : ℕ

pub record CableGraph : Type 0 where
  pub nodes : List CableNode
  pub pos_to_node : List (ℕ × ℕ)
  pub cable_networks : List (List ℕ)
  pub generator_to_cable : List (ℕ × ℕ)
  pub machine_to_cable : List (ℕ × ℕ)

-- A map from 64-bit keys to ids.
pub map_find : List (ℕ × ℕ) → ℕ → Option ℕ
map_find [] k = none
map_find ((a, v) ∷ es) k = let rest = map_find es k in if a == k then some v else rest

pub map_put : List (ℕ × ℕ) → ℕ → ℕ → List (ℕ × ℕ)
map_put [] k v = (k, v) ∷ []
map_put ((a, u) ∷ es) k v =
    let rest = map_put es k v in if a == k then (k, v) ∷ es else (a, u) ∷ rest

pub map_erase : List (ℕ × ℕ) → ℕ → List (ℕ × ℕ)
map_erase [] k = []
map_erase ((a, u) ∷ es) k = let rest = map_erase es k in if a == k then es else (a, u) ∷ rest

-- `m_nodes`, whose keys are the ids of the nodes.
pub find_node : List CableNode → ℕ → Option CableNode
find_node [] id = none
find_node (n ∷ ns) id = let rest = find_node ns id in if n.id == id then some n else rest

pub put_node : List CableNode → CableNode → List CableNode
put_node [] node = node ∷ []
put_node (n ∷ ns) node =
    let rest = put_node ns node in if n.id == node.id then node ∷ ns else n ∷ rest

pub erase_node : List CableNode → ℕ → List CableNode
erase_node [] id = []
erase_node (n ∷ ns) id = let rest = erase_node ns id in if n.id == id then ns else n ∷ rest

-- `offsets[f]` added to a coordinate, as a 32-bit word.
abbrev pub plus_one : ℕ → ℕ
plus_one v = (v + 1) % 4294967296

abbrev pub minus_one : ℕ → ℕ
minus_one v = (v + 4294967295) % 4294967296

-- The packed position next to the face `f` of a position.
pub face_pos : ℕ → ℕ → ℕ → ℕ → ℕ
unfolding pack_pos
face_pos f x y z =
    if f == 0
    then pack_pos (plus_one x) y z
    else (if f == 1
        then pack_pos (minus_one x) y z
        else (if f == 2
            then pack_pos x (plus_one y) z
            else (if f == 3
                then pack_pos x (minus_one y) z
                else (if f == 4 then pack_pos x y (plus_one z) else pack_pos x y (minus_one z)))))

-- `f ^ 1`
pub opposite : ℕ → ℕ
opposite f = if f % 2 == 0 then f + 1 else f - 1

-- Whether the bit of a face is set in a mask, where 0 stands for all faces.
pub has_face : ℕ → ℕ → Bool
has_face meta f = let mask = if meta == 0 then 63 else meta in (mask / 2 ^ f) % 2 == 1

-- The cable that a node is connected to at a face.
pub link : CableGraph → CableNode → ℕ → Option ℕ
unfolding map_find find_node face_pos has_face opposite
link g node f = elim (map_find g.pos_to_node (face_pos f node.x node.y node.z)) [
  | none ↦ none
  | some neighbor ↦ elim (find_node g.nodes neighbor) [
    | none ↦ none
    | some n ↦ if has_face node.meta f && has_face n.meta (opposite f) then some neighbor else none
  ]
]

abbrev pub faces : List ℕ
faces = 0 ∷ 1 ∷ 2 ∷ 3 ∷ 4 ∷ 5 ∷ []

-- An entry of the queue of `findPath`, and the state of its loop.
pub record Visit : Type 0 where
  pub node_id : ℕ
  pub path : List ℕ

pub record SearchState : Type 0 where
  pub queue : List Visit
  pub visited : List ℕ

-- The body of the loop over the faces.
pub visit_face : CableGraph → CableNode → List ℕ → ℕ → SearchState → SearchState
unfolding link has_id
visit_face g node path f s = elim (link g node f) [
  | none ↦ s
  | some b ↦ if has_id b s.visited then s else record {
    queue = s.queue ++ (record { node_id = b; path = path ++ (b ∷ []) } ∷ []);
    visited = s.visited ++ (b ∷ []);
  }
]

pub visit_faces : CableGraph → CableNode → List ℕ → List ℕ → SearchState → SearchState
unfolding visit_face
visit_faces g node path [] s = s
visit_faces g node path (f ∷ fs) s = visit_faces g node path fs (visit_face g node path f s)

-- The search after a visit that was not the target.
pub after_visit : CableGraph → Visit → SearchState → SearchState
unfolding visit_faces find_node
after_visit g v s = elim (find_node g.nodes v.node_id) [
  | none ↦ s
  | some node ↦ visit_faces g node v.path faces s
]

-- The loop of `findPath`: `none` means that `fuel` rounds were not enough.
pub search : ℕ → CableGraph → ℕ → SearchState → Option (List ℕ)
unfolding after_visit
search zero g target s = none
search (suc fuel) g target s = elim s.queue [
  | [] ↦ some []
  | v ∷ vs ↦
      let rest = search fuel g target (after_visit g v (record s { queue = vs })) in
      if v.node_id == target then some v.path else rest
]

-- `findPath`, with one round for the start, one for each node and one for the empty queue.
pub find_path : CableGraph → ℕ → ℕ → Option (List ℕ)
unfolding search
find_path g source target =
    if (source == 0) || (target == 0)
    then some []
    else search (suc (suc (length g.nodes))) g target (record {
      queue = record { node_id = source; path = source ∷ [] } ∷ [];
      visited = source ∷ [];
    })
