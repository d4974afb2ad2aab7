-- ===== src/Wf4/Quiesce.antt =====
-- wf4/src/quiesce.cpp: cancelled traders are taken out of the market, and traders that lack goods
-- buy what other traders have left.
pub mod Deals
pub mod Trade
pub mod Cancel
pub mod Claims
pub mod Solvency
pub mod Reservation
pub mod Proposals
use graph_log_sketch.Base.{
  ℕ, ◌≡◌, Bool, true, false, not, ◌&&◌, List, [], ◌∷◌, ◌++◌, foldl, ◌==◌, if◌then◌else◌, get_or,
  set,
}
use graph_log_sketch.Base.Int.{ℤ, pos, ◌+ℤ◌, ◌-ℤ◌, ltb_ℤ}
use graph_log_sketch.Base.DoAll.{Schedule}
use graph_log_sketch.Wf4.Network.{
  Types, is_sale, is_purchase, NetworkEdge, NodeData, cancel, Arc, Partition, Nodes, Edges, update,
}

-- `wf4::internal::ProposedEdge`; the sets compare edges by their ends.
pub record ProposedEdge : Type 0 where
  pub src : ℕ
  pub dst : ℕ
  pub weight : ℤ

unfoldable pub same_edge : ProposedEdge → ProposedEdge → Bool
same_edge a b = a.src == b.src && a.dst == b.dst

-- `lazy_emplace_l` with a callback that leaves an edge that is already there as it is.
pub emplace : ProposedEdge → List ProposedEdge → List ProposedEdge
unfolding same_edge
emplace e [] = e ∷ []
emplace e (x ∷ xs) = if same_edge x e then x ∷ xs else x ∷ emplace e xs

-- The state of a host: node data, the nodes whose bits are set, and the proposals for each host.
pub record Market : Type 0 where
  pub nodes : Nodes
  pub bitset_bought : List ℕ
  pub bitset_sold : List ℕ
  pub remote_edges : List (List ProposedEdge)

abbrev pub add_sold : ℤ → NodeData → NodeData
add_sold delta d = record d { sold = d.sold +ℤ delta }

abbrev pub add_bought : ℤ → NodeData → NodeData
add_bought delta d = record d { bought = d.bought +ℤ delta }

abbrev pub sub_sold : ℤ → NodeData → NodeData
sub_sold delta d = record d { sold = d.sold -ℤ delta }

abbrev pub sub_bought : ℤ → NodeData → NodeData
sub_bought delta d = record d { bought = d.bought -ℤ delta }

-- `std::min`.
abbrev pub min_ℤ : ℤ → ℤ → ℤ
min_ℤ a b = if ltb_ℤ b a then b else a

abbrev pub is_positive : ℤ → Bool
is_positive a = ltb_ℤ (pos 0) a

module _ (p : Partition) where
  -- `galois::atomicMin(…, 0.0)` on a mirror.
  pub clear_mirror_bought : ℕ → NodeData → NodeData
  clear_mirror_bought v d =
      if p.is_owned (p.get_gid v) then d else record d { bought = min_ℤ d.bought (pos 0) }

  pub clear_mirror_sold : ℕ → NodeData → NodeData
  clear_mirror_sold v d =
      if p.is_owned (p.get_gid v) then d else record d { sold = min_ℤ d.sold (pos 0) }

  -- One round of the loop of `CancelNode`.
  pub cancel_edge : Market → Arc → Market
  unfolding clear_mirror_bought clear_mirror_sold
  cancel_edge m arc =
      let v = arc.dst_node in
      if is_sale arc.edge_data.type
      then record m {
        nodes = update m.nodes v (λ d. sub_bought arc.edge_data.amount (clear_mirror_bought v d));
        bitset_bought = v ∷ m.bitset_bought;
      }
      else if is_purchase arc.edge_data.type
      then record m {
        nodes = update m.nodes v (λ d. sub_sold arc.edge_data.amount (clear_mirror_sold v d));
        bitset_sold = v ∷ m.bitset_sold;
      }
      else m

  unfoldable pub cancel_node : Edges → Market → ℕ → Market
  unfolding cancel_edge cancel
  cancel_node edges m node_gid =
      let node = p.get_lid node_gid in
      let cancelled = record m { nodes = update m.nodes node cancel } in
      if not (p.is_local node_gid)
      then m
      else if not (p.is_owned node_gid)
      then cancelled
      else foldl cancel_edge cancelled (edges node)

  -- The loop at the end of `CancelNodes`.
  pub cancel_again : Market → ℕ → Market
  unfolding cancel
  cancel_again m node_gid =
      if not (p.is_local node_gid)
      then m
      else record m { nodes = update m.nodes (p.get_lid node_gid) cancel }

  -- `CancelNodes`; `sync_bought` and `sync_sold` stand for the two calls of `substrate.sync`.
  unfoldable pub cancel_nodes :
      Edges → Schedule → (Market → Market) → (Market → Market) → Market → List ℕ → Market
  unfolding cancel_node cancel_again
  cancel_nodes edges sched sync_bought sync_sold m gids =
      let fresh = record m { bitset_bought = []; bitset_sold = [] } in
      let cancelled = foldl (cancel_node edges) fresh (sched.order gids) in
      foldl cancel_again (sync_sold (sync_bought cancelled)) gids

  -- The seller accepts: the buyer is credited at once, or a proposal is stored for the host that
  -- owns the seller. The amount of the edge is raised in a local copy only.
  pub accept : ℕ → ℕ → ℤ → Market → Market
  unfolding emplace
  accept node seller delta m =
      let gid = p.get_gid seller in
      let h = p.get_host_id gid in
      let edge : ProposedEdge = record { src = p.get_gid node; dst = gid; weight = delta } in
      if p.is_owned gid
      then record m {
        nodes = update m.nodes node (add_bought delta);
        bitset_bought = node ∷ m.bitset_bought;
        bitset_sold = seller ∷ m.bitset_sold;
      }
      else record m {
        remote_edges = set m.remote_edges h (emplace edge (get_or m.remote_edges h []));
      }

  -- Goods are reserved by an addition to what the seller sold, and given back if that was too much.
  pub reserve : ℕ → ℕ → ℤ → ℤ → Market → Market × ℤ
  unfolding accept
  reserve node seller delta needed m =
      let reserved = record m { nodes = update m.nodes seller (add_sold delta) } in
      let seller_sold = (m.nodes seller).sold +ℤ delta in
      if ltb_ℤ (reserved.nodes seller).bought seller_sold
      then (record m { nodes = update reserved.nodes seller (sub_sold delta) }, needed)
      else (accept node seller delta reserved, needed -ℤ delta)

  -- One round of the loop of `TryQuiesceNode`, behind its test of `needed`.
  pub try_quiesce_edge : ℕ → Arc → ℤ → Market → Market × ℤ
  unfolding reserve
  try_quiesce_edge node arc needed m =
      let seller = m.nodes arc.dst_node in
      let trade_delta = min_ℤ needed (seller.bought -ℤ seller.sold) in
      if not (is_purchase arc.edge_data.type)
      then (m, needed)
      else if not (is_positive trade_delta)
      then (m, needed)
      else reserve node arc.dst_node trade_delta needed m

  pub try_quiesce_edges : ℕ → List Arc → ℤ → Market → Market × ℤ
  unfolding try_quiesce_edge
  try_quiesce_edges node [] needed m = (m, needed)
  try_quiesce_edges node (arc ∷ arcs) needed m =
      let next = try_quiesce_edge node arc needed m in
      let rest = try_quiesce_edges node arcs next.1 next.0 in
      if not (is_positive needed) then (m, needed) else rest

  unfoldable pub try_quiesce_node : Edges → Market → ℕ → Market
  unfolding try_quiesce_edges
  try_quiesce_node edges m node =
      let d = m.nodes node in (try_quiesce_edges node (edges node) (d.desired -ℤ d.bought) m).0

  -- The loop `TryQuiesceGraph` over the nodes that the host owns.
  unfoldable pub try_quiesce_graph : Edges → Schedule → Market → List ℕ → Market
  unfolding try_quiesce_node
  try_quiesce_graph edges sched m masters = foldl (try_quiesce_node edges) m (sched.order masters)

  -- `TryAddEdge` on the host that owns the seller.
  unfoldable pub try_add_edge : Market → ProposedEdge → Market
  unfolding emplace
  try_add_edge m edge =
      let seller_lid = p.get_lid edge.dst in
      let seller = m.nodes seller_lid in
      let trade_delta = min_ℤ edge.weight (seller.bought -ℤ seller.sold) in
      let seller_sold = seller.sold +ℤ trade_delta in
      let h = p.get_host_id edge.src in
      let reserved = update m.nodes seller_lid (add_sold trade_delta) in
      let proposed : ProposedEdge = record {
        src = edge.src;
        dst = edge.dst;
        weight = trade_delta;
      } in
      if not (is_positive trade_delta)
      then m
      else if ltb_ℤ (reserved seller_lid).bought seller_sold
      then record m { nodes = update reserved seller_lid (sub_sold trade_delta) }
      else record m {
        nodes = reserved;
        bitset_sold = seller_lid ∷ m.bitset_sold;
        remote_edges = set m.remote_edges h (emplace proposed (get_or m.remote_edges h []));
      }

  -- `AddPurchaseEdge` on the host that owns the buyer.
  unfoldable pub add_purchase_edge : Market → ProposedEdge → Market
  add_purchase_edge m edge =
      let buyer_lid = p.get_lid edge.src in
      record m {
        nodes = update m.nodes buyer_lid (add_bought edge.weight);
        bitset_bought = buyer_lid ∷ m.bitset_bought;
      }
