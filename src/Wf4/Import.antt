-- ===== src/Wf4/Import.antt =====
-- wf4/src/import.cpp and wf4/include/wf4/full_graph.hpp: the lines of the input files as nodes and
-- edges of the full graph, and what the projection to the trade network keeps of it.
pub mod Ids
use graph_log_sketch.Base.{
  ℕ, ◌+◌, ◌%◌, Bool, true, false, ◌&&◌, ◌||◌, Option, none, some, List, [], ◌∷◌, ◌==◌, ◌>>=◌,
  if◌then◌else◌, get_or,
}
use graph_log_sketch.Base.Int.{ℤ, pos}
use graph_log_sketch.Base.Text.{Text, same_text, stoull}
use graph_log_sketch.Wf4.Network.{
  Types, person, device, uses, friend, communication, is_sale, is_purchase, is_person, Ratio,
  NetworkEdge, NodeData,
}
use graph_log_sketch.Wf4.Quiesce.{is_positive}

-- `wf4::FullNetworkEdge`.
pub record FullNetworkEdge : Type 0 where
  pub date : ℕ
  pub amount : ℤ
  pub weight : Ratio
  pub type : Types
  pub src_type : Types
  pub dst_type : Types
  pub src : ℕ
  pub dst : ℕ
  pub src_glbid : ℕ
  pub dst_glbid : ℕ
  pub topic : ℕ
  pub epoch_time : ℕ
  pub duration : ℕ
  pub protocol : ℕ
  pub src_port : ℕ
  pub dst_port : ℕ
  pub src_packets : ℕ
  pub dst_packets : ℕ
  pub src_bytes : ℕ
  pub dst_bytes : ℕ

-- `wf4::FullNetworkNode`.
pub record FullNetworkNode : Type 0 where
  pub id : ℕ
  pub glbid : ℕ
  pub frequency : ℕ
  pub sold : ℤ
  pub bought : ℤ
  pub desired : ℤ
  pub type : Types

-- `std::numeric_limits<uint64_t>::max() / 2`.
abbrev pub half_max : ℕ
half_max = 9223372036854775807

-- Where the parsers put the number of a device.
abbrev pub device_id : ℕ → ℕ
device_id uid = half_max + (uid % half_max)

-- The constructor `FullNetworkEdge(type, tokens)`. `raw` is the edge with its default values, and
-- with whatever the memory holds in the fields without one; those that the constructor does not
-- write stay so. `none` means that a conversion throws.
unfoldable pub uses_edge : FullNetworkEdge → List Text → Option FullNetworkEdge
uses_edge raw tokens = do
  src ← stoull (get_or tokens 0 [])
  dst ← stoull (get_or tokens 1 [])
  some (record raw {
    type = uses;
    src_type = person;
    dst_type = device;
    src = src;
    dst = device_id dst;
  })

unfoldable pub friend_edge : FullNetworkEdge → List Text → Option FullNetworkEdge
friend_edge raw tokens = do
  src ← stoull (get_or tokens 0 [])
  dst ← stoull (get_or tokens 1 [])
  some (record raw { type = friend; src_type = person; dst_type = person; src = src; dst = dst })

unfoldable pub communication_edge : FullNetworkEdge → List Text → Option FullNetworkEdge
communication_edge raw tokens = do
  src ← stoull (get_or tokens 0 [])
  dst ← stoull (get_or tokens 1 [])
  epoch_time ← stoull (get_or tokens 2 [])
  duration ← stoull (get_or tokens 3 [])
  protocol ← stoull (get_or tokens 4 [])
  src_port ← stoull (get_or tokens 5 [])
  dst_port ← stoull (get_or tokens 6 [])
  src_packets ← stoull (get_or tokens 7 [])
  dst_packets ← stoull (get_or tokens 8 [])
  src_bytes ← stoull (get_or tokens 9 [])
  dst_bytes ← stoull (get_or tokens 10 [])
  some (record raw {
    type = communication;
    src_type = device;
    dst_type = device;
    src = device_id src;
    dst = device_id dst;
    epoch_time = epoch_time;
    duration = duration;
    protocol = protocol;
    src_port = src_port;
    dst_port = dst_port;
    src_packets = src_packets;
    dst_packets = dst_packets;
    src_bytes = src_bytes;
    dst_bytes = dst_bytes;
  })

-- `ParsedGraphStructure`: one node, or edges.
pub data Parsed : Type 0 where
  parsed_node : FullNetworkNode → Parsed
  parsed_edges : List FullNetworkEdge → Parsed

-- `ParseLine` of `CyberParser`, `SocialParser` and `UsesParser` on the fields of a line.
unfoldable pub parse_cyber : FullNetworkEdge → List Text → Option Parsed
unfolding communication_edge
parse_cyber raw tokens = do edge ← communication_edge raw tokens; some (parsed_edges (edge ∷ []))

unfoldable pub parse_social : FullNetworkEdge → List Text → Option Parsed
unfolding friend_edge
parse_social raw tokens = do edge ← friend_edge raw tokens; some (parsed_edges (edge ∷ []))

unfoldable pub parse_uses : FullNetworkEdge → List Text → Option Parsed
unfolding uses_edge
parse_uses raw tokens = do edge ← uses_edge raw tokens; some (parsed_edges (edge ∷ []))

-- "Device"
abbrev pub device_text : Text
device_text = 68 ∷ 101 ∷ 118 ∷ 105 ∷ 99 ∷ 101 ∷ []

-- The constructor `FullNetworkNode(id, _, type)`; it does not write `frequency_`.
abbrev pub new_node : ℕ → ℕ → Types → FullNetworkNode
new_node raw_frequency uid type = record {
  id = uid;
  glbid = uid;
  frequency = raw_frequency;
  sold = pos 0;
  bought = pos 0;
  desired = pos 0;
  type = type;
}

-- `ParseLine` of `NodeParser`; `encode` is `shad::data_types::encode`.
unfoldable pub parse_node : (Text → ℕ) → ℕ → List Text → Parsed
parse_node encode raw_frequency tokens =
    let uid = encode (get_or tokens 1 []) in
    if same_text (get_or tokens 0 []) device_text
    then parsed_node (new_node raw_frequency (device_id uid) device)
    else parsed_node (new_node raw_frequency uid person)

-- `NetworkGraphProjection`; `data_of` gives the data of a node of the full graph.
unfoldable pub keep_node : (ℕ → FullNetworkNode) → ℕ → Bool
keep_node data_of node = is_person (data_of node).type

unfoldable pub keep_edge : (ℕ → FullNetworkNode) → FullNetworkEdge → ℕ → Bool
unfolding keep_node
keep_edge data_of edge dst =
    (is_purchase edge.type || is_sale edge.type)
    && edge.topic == 8486
    && is_positive edge.amount
    && keep_node data_of dst

unfoldable pub project_node : FullNetworkNode → NodeData
project_node node = record {
  id = node.id;
  frequency = node.frequency;
  sold = node.sold;
  bought = node.bought;
  desired = node.desired;
}

unfoldable pub project_edge : FullNetworkEdge → NetworkEdge
project_edge edge = record {
  date = edge.date;
  amount = edge.amount;
  weight = edge.weight;
  type = edge.type;
  src_type = edge.src_type;
  dst_type = edge.dst_type;
  src = edge.src;
  dst = edge.dst;
  src_glbid = edge.src_glbid;
  dst_glbid = edge.dst_glbid;
}
