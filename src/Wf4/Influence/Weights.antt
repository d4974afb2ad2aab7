-- ===== src/Wf4/Influence/Weights.antt =====
-- wf4/src/influence_maximization.cpp: what each trader sold and bought, and the edge weights that
-- are made of it.
pub mod Amounts
use graph_log_sketch.Base.{
  ℕ, ◌≡◌, ◌≢◌, refl, sym, ap, subst, ◌∙◌, inl, inr, Bool, true, false, ◌&&◌, List, [], ◌∷◌, map,
  foldl, arith, ◌==◌, ==_iff, ==_refl, if◌then◌else◌, Bool-cases, All,
}
use graph_log_sketch.Base.Int.{ℤ, pos, ◌+ℤ◌, +ℤ_assoc, int_laws}
use graph_log_sketch.Base.DoAll.{Schedule}
use mathlib.Core.Bool.{false≢true}
use graph_log_sketch.Wf4.Network.{
  Types, person, device, sale, purchase, uses, friend, communication, is_sale, is_purchase, Ratio,
  NetworkEdge, NodeData, Arc, Nodes, Edges, update,
}
use graph_log_sketch.Wf4.Quiesce.{is_positive, add_sold}

abbrev pub set_id : ℕ → NodeData → NodeData
set_id gid d = record d { id = gid }

abbrev pub add_purchase : ℤ → NodeData → NodeData
add_purchase amount d = record d { bought = d.bought +ℤ amount; desired = d.desired +ℤ amount }

-- One round of the loop of `FillNodeValues`.
pub fill_edge : ℕ → Nodes → Arc → Nodes
fill_edge node nodes arc =
    let e = arc.edge_data in
    let named = update (update nodes node (set_id e.src)) arc.dst_node (set_id e.dst) in
    if is_sale e.type
    then update named node (add_sold e.amount)
    else if is_purchase e.type
    then update named node (add_purchase e.amount)
    else named

-- `FillNodeValues`: the node data, and the nodes whose bit in `bitset_sold_` is set.
unfoldable pub fill_node_values : Edges → Nodes × List ℕ → ℕ → Nodes × List ℕ
unfolding fill_edge
fill_node_values edges (nodes, bitset_sold) node =
    let filled = foldl (fill_edge node) nodes (edges node) in
    (filled, if is_positive (filled node).sold then node ∷ bitset_sold else bitset_sold)

-- The first loop of `CalculateEdgeProbabilities` over the nodes that the host owns.
unfoldable pub fill_all : Edges → Schedule → Nodes → List ℕ → Nodes × List ℕ
unfolding fill_node_values
fill_all edges sched nodes masters =
    foldl (fill_node_values edges) (nodes, []) (sched.order masters)

-- One round of the loop of `CalculateEdgeProbability`. The totals are only printed.
pub weigh_edge : Nodes → ℕ → Arc → Arc
weigh_edge nodes node arc =
    let e = arc.edge_data in
    let amount_sold = (nodes node).sold in
    let dst_sold = (nodes arc.dst_node).sold in
    if is_sale e.type && is_positive amount_sold
    then record arc {
      edge_data = record e { weight = record { numerator = e.amount; denominator = amount_sold } };
    }
    else if is_purchase e.type && is_positive dst_sold
    then record arc {
      edge_data = record e { weight = record { numerator = e.amount; denominator = dst_sold } };
    }
    else arc

-- `CalculateEdgeProbability`: the edges of a node with their weights.
unfoldable pub calculate_edge_probability : Nodes → ℕ → List Arc → List Arc
unfolding weigh_edge
calculate_edge_probability nodes node arcs = map (weigh_edge nodes node) arcs
