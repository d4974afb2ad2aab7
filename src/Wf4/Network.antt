-- ===== src/Wf4/Network.antt =====
-- wf4/include/wf4/graph.hpp and full_graph.hpp: the nodes and edges of the trade network, and what
-- the code uses of the distributed graph that holds them.
use graph_log_sketch.Base.{ℕ, Bool, true, false, List, ◌==◌, if◌then◌else◌}
use graph_log_sketch.Base.Int.{ℤ, pos}

-- `agile::workflow1::TYPES`, as far as the code names its values.
pub data Types : Type 0 where
  person device sale purchase uses friend communication : Types

abbrev pub is_sale : Types → Bool
is_sale sale = true
is_sale _ = false

abbrev pub is_purchase : Types → Bool
is_purchase purchase = true
is_purchase _ = false

abbrev pub is_person : Types → Bool
is_person person = true
is_person _ = false

-- An edge weight is a quotient of two amounts.
pub record Ratio : Type 0 where
  pub numerator : ℤ
  pub denominator : ℤ

-- `wf4::NetworkEdge`. Amounts are exact numbers: the rounding of double is not modelled.
pub record NetworkEdge : Type 0 where
  pub date : ℕ
  pub amount : ℤ
  pub weight : Ratio
  pub type : Types
  pub src_type : Types
  pub dst_type : Types
  pub src : ℕ
  pub dst : ℕ
  pub src_glbid : ℕ
  pub dst_glbid : ℕ

-- `NodeData`.
pub record NodeData : Type 0 where
  pub id : ℕ
  pub frequency : ℕ
  pub sold : ℤ
  pub bought : ℤ
  pub desired : ℤ

-- `NodeData::Cancel`.
unfoldable pub cancel : NodeData → NodeData
cancel d = record d { sold = pos 0; bought = pos 0; desired = pos 0 }

-- An element of `graph.edges(node)`: `getEdgeDst` and `getEdgeData`.
pub record Arc : Type 0 where
  pub dst_node : ℕ
  pub edge_data : NetworkEdge

-- How `galois::graphs::WMDGraph` numbers and places the nodes, on the host that runs the code: a
-- node has a global id, and on the hosts that store it a local one; it is owned by one host.
pub record Partition : Type 0 where
  pub host : ℕ
  pub num_hosts : ℕ
  pub is_local : ℕ → Bool
  pub is_owned : ℕ → Bool
  pub get_lid : ℕ → ℕ
  pub get_gid : ℕ → ℕ
  pub get_host_id : ℕ → ℕ

-- The node data of a host, by local id.
abbrev pub Nodes : Type 0
Nodes = ℕ → NodeData

-- A write through `graph.getData(v)`.
abbrev pub update : Nodes → ℕ → (NodeData → NodeData) → Nodes
update nodes v f w = if v == w then f (nodes w) else nodes w

abbrev pub Edges : Type 0
Edges = ℕ → List Arc
