-- ===== src/Wf4/Tests.antt =====
-- Runs of the workload on small markets, and its theorems there.
use graph_log_sketch.Base.{
  List, map, ℕ, ◌≡◌, refl, true, false, [], ◌∷◌, Memᴰ, arith, ◌==◌, if◌then◌else◌,
}
use graph_log_sketch.Base.Int.{pos, ltb_ℤ, negsuc, ◌-ℤ◌, ◌+ℤ◌, ◌≤ℤ◌}
use graph_log_sketch.Base.DoAll.{in_order, pairwise_swapped}
use graph_log_sketch.Wf4.Network.{
  Types, sale, purchase, person, NetworkEdge, NodeData, Arc, Partition, Nodes, Edges,
}
use graph_log_sketch.Wf4.Network
use graph_log_sketch.Wf4.Quiesce.{ProposedEdge, Market}
use graph_log_sketch.Wf4.Quiesce
use graph_log_sketch.Wf4.Quiesce.Trade.{IsConsistent, try_quiesce_graph-IsConsistent}
use graph_log_sketch.Wf4.Quiesce.Proposals.{Doubles, serialize_set, incoming_edges, try_add_edges}
use graph_log_sketch.Wf4.Quiesce.Proposals.Received.{
  received, incoming_edges-serialize_set, try_add_edges-IsConsistent,
}
use graph_log_sketch.Wf4.Quiesce.Cancel.{
  traded, cancel_node-traded, IsCancelled, cancel_nodes-IsCancelled,
}
use graph_log_sketch.Wf4.Quiesce.Reservation.{
  Reach, idle, Rounding, exact_limit, Reach-sold_le_bought, Reach-kept_le_bought,
}
use graph_log_sketch.Wf4.Quiesce.Solvency.{Seller}
use graph_log_sketch.Wf4.Quiesce.Reservation
use graph_log_sketch.Wf4.Quiesce.Claims.{Claim}

-- One host that stores and owns the nodes 0, 1 and 2; node 3 is a mirror.
abbrev partition : Partition
partition = record {
  host = 0;
  num_hosts = 2;
  is_local = λ v. true;
  is_owned = λ v. if v == 3 then false else true;
  get_lid = λ v. v;
  get_gid = λ v. v;
  get_host_id = λ v. if v == 3 then 1 else 0;
}

abbrev edge : Types → ℕ → ℕ → ℕ → Arc
edge type src dst amount = record {
  dst_node = dst;
  edge_data = record {
    date = 0;
    amount = pos amount;
    weight = record { numerator = pos 0; denominator = pos 1 };
    type = type;
    src_type = person;
    dst_type = person;
    src = src;
    dst = dst;
    src_glbid = src;
    dst_glbid = dst;
  };
}

-- 0 buys from 1 and from 3, and 1 sells to 0.
abbrev edges : Edges
edges v =
    if v == 0
    then edge purchase 0 1 5 ∷ edge purchase 0 3 4 ∷ []
    else if v == 1
    then edge sale 1 0 5 ∷ []
    else []

abbrev trader : ℕ → ℕ → ℕ → ℕ → NodeData
trader v sold bought desired = record {
  id = v;
  frequency = 0;
  sold = pos sold;
  bought = pos bought;
  desired = pos desired;
}

abbrev nodes : Nodes
nodes v =
    if v == 0
    then trader 0 0 2 9
    else if v == 1
    then trader 1 5 8 8
    else if v == 3
    then trader 3 0 6 0
    else trader v 0 0 0

abbrev market : Market
market = record { nodes = nodes; bitset_bought = []; bitset_sold = []; remote_edges = [] ∷ [] ∷ [] }

-- Node 0 lacks 7: it takes the 3 that node 1 has left, and proposes to buy 4 from node 3.
quiesce_run :
    (Quiesce.try_quiesce_node partition edges market 0).remote_edges
    ≡ [] ∷ (record { src = 0; dst = 3; weight = pos 4 } ∷ []) ∷ []
unfolding Quiesce.try_quiesce_node Quiesce.same_edge ◌+ℤ◌ ◌-ℤ◌
quiesce_run = refl

quiesce_run_bought : ((Quiesce.try_quiesce_node partition edges market 0).nodes 0).bought ≡ pos 5
unfolding Quiesce.try_quiesce_node Quiesce.same_edge ◌+ℤ◌ ◌-ℤ◌
quiesce_run_bought = refl

nodes-IsConsistent : IsConsistent partition nodes
nodes-IsConsistent = record { solvent = λ v. ground arith; restrained = λ v owned. ground arith }

try_quiesce_graph-IsConsistent_example :
    IsConsistent partition
      (Quiesce.try_quiesce_graph partition edges pairwise_swapped market (0 ∷ 1 ∷ 2 ∷ [])).nodes
try_quiesce_graph-IsConsistent_example =
    try_quiesce_graph-IsConsistent partition edges pairwise_swapped market (0 ∷ 1 ∷ 2 ∷ [])
      nodes-IsConsistent

abbrev proposals : List ProposedEdge
proposals =
    (record { src = 3; dst = 1; weight = pos 2 })
    ∷ (record { src = 3; dst = 0; weight = pos 9 })
    ∷ []

try_add_edges-IsConsistent_example :
    IsConsistent partition
      (try_add_edges partition pairwise_swapped market ([] ∷ proposals ∷ [])).nodes
try_add_edges-IsConsistent_example =
    try_add_edges-IsConsistent partition pairwise_swapped ([] ∷ proposals ∷ []) market
      nodes-IsConsistent

-- Whole amounts convert to themselves, and a small word is no double of any size.
abbrev doubles : Doubles
doubles = record { to_uint64 = λ a. elim a [ pos n ↦ n | negsuc n ↦ 0 ]; of_bits = λ n. pos 0 }

-- The weight of a proposal is lost on the way.
incoming_edges_run :
    incoming_edges doubles
      (serialize_set doubles ((record { src = 3; dst = 1; weight = pos 2 }) ∷ []))
    ≡ (record { src = 3; dst = 1; weight = pos 0 }) ∷ []
unfolding incoming_edges serialize_set
incoming_edges_run = refl

incoming_edges-serialize_set_example :
    incoming_edges doubles (serialize_set doubles proposals) ≡ map (received doubles) proposals
incoming_edges-serialize_set_example = incoming_edges-serialize_set doubles proposals

cancel_node-traded_example :
    (((Quiesce.cancel_node partition edges market 1).nodes 0).bought
      ≡ pos 2 -ℤ traded Network.is_sale (edge sale 1 0 5 ∷ []) 0)
    × (((Quiesce.cancel_node partition edges market 1).nodes 0).sold
        ≡ pos 0 -ℤ traded Network.is_purchase (edge sale 1 0 5 ∷ []) 0)
cancel_node-traded_example =
    cancel_node-traded partition 0 refl edges market 1 refl refl (omega arith)

cancel_nodes-IsCancelled_example :
    IsCancelled (
      (Quiesce.cancel_nodes partition edges in_order (λ m. m) (λ m. m) market (0 ∷ 1 ∷ [])).nodes 1)
cancel_nodes-IsCancelled_example =
    cancel_nodes-IsCancelled partition edges in_order (λ m. m) (λ m. m) market (0 ∷ 1 ∷ []) 1
      (Memᴰ.tail (Memᴰ.head refl)) refl

-- Doubles that hold no integer above the limit but the largest they know.
abbrev capped : Rounding
capped = record {
  round = λ a. if ltb_ℤ exact_limit a then exact_limit else a;
  exact = λ a p le. ground arith;
}

-- Two threads reserve 2 and 3 of the 4 that are left: the second is refused, and before it gives
-- back the seller is credited 2 and the first keeps its goods.
abbrev through : Seller
through = record {
  sold = pos 2;
  bought = pos 6;
  claims = [];
  refused = [];
  kept = pos 2;
  asked = pos 11;
}

abbrev first_claim : Claim
first_claim = record { delta = pos 2; seller_sold = pos 2 }

abbrev second_claim : Claim
second_claim = record { delta = pos 3; seller_sold = pos 5 }

race : Reach capped (idle (pos 0) (pos 4)) through
unfolding ◌+ℤ◌ ◌-ℤ◌
race =
    Reservation.next
      (Reservation.next
        (Reservation.next
          (Reservation.next
            (Reservation.next
              (Reservation.next Reservation.start (Reservation.add _ (pos 2) (omega arith)))
              (Reservation.add _ (pos 3) (omega arith)))
            (Reservation.refuse _ (first_claim ∷ []) [] second_claim refl (omega arith)))
          (Reservation.buy _ (pos 2) (omega arith)))
        (Reservation.keep _ [] [] first_claim refl (omega arith)))
      (Reservation.give_back _ [] [] (pos 3) refl)

Reach-sold_le_bought_example : (through.sold ≤ℤ through.bought) × (through.sold ≡ through.kept)
Reach-sold_le_bought_example =
    Reach-sold_le_bought capped (pos 0) (pos 4) through (omega arith) (omega arith) race
      (omega arith) refl refl

Reach-kept_le_bought_example : (through.kept ≤ℤ through.bought) × (through.kept ≤ℤ through.sold)
Reach-kept_le_bought_example =
    Reach-kept_le_bought capped (pos 0) (pos 4) through (omega arith) (omega arith) race
      (omega arith)
