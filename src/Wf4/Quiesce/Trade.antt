-- ===== src/Wf4/Quiesce/Trade.antt =====
-- `TryQuiesceNode` and `TryAddEdge`, beside the two conditions that `verifyState` tests up to a
-- tolerance.
use graph_log_sketch.Base.{ℕ, inl, inr, List, [], ◌∷◌, foldl, ==_refl, Bool-cases}
use graph_log_sketch.Base.Int.{ℤ, ◌+ℤ◌, ◌-ℤ◌, ltb_ℤ, int_laws, ltb_ℤ_false}
use graph_log_sketch.Base.DoAll.{Schedule}
use graph_log_sketch.Wf4.Network.{Partition, Nodes, Edges, update}
use graph_log_sketch.Wf4.Quiesce.{
  ProposedEdge, Market, add_sold, min_ℤ, is_positive, try_quiesce_node, try_quiesce_graph,
  try_add_edge,
}
use graph_log_sketch.Wf4.Quiesce.Deals.{
  IsSolvent, IsRestrained, Kept, sell-Kept, undo-Kept, try_quiesce_edges-Kept,
}

module _ (p : Partition) where
  -- Nobody has sold more than it bought, and no owned node has bought more than it desires.
  pub record IsConsistent (nodes : Nodes) : Type 0 where
    pub solvent : IsSolvent nodes
    pub restrained : IsRestrained p nodes

  -- Whatever its edges, a node that looks for goods keeps both conditions: on the whole host
  -- nobody has sold more than was bought, and no owned node has bought more than it desires.
  pub try_quiesce_node-IsConsistent :
      (edges : Edges) (m : Market) (node : ℕ)
      → IsConsistent m.nodes
      → IsConsistent (try_quiesce_node p edges m node).nodes
  unfolding try_quiesce_node
  try_quiesce_node-IsConsistent edges m node c =
      let kept =
        try_quiesce_edges-Kept p node (edges node) ((m.nodes node).desired -ℤ (m.nodes node).bought)
          m (record { solvent = c.solvent; restrained = c.restrained; room = omega int_laws }) in
      record { solvent = kept.solvent; restrained = kept.restrained }

  quiesce-IsConsistent :
      (edges : Edges) (nodes : List ℕ) (m : Market)
      → IsConsistent m.nodes
      → IsConsistent (foldl (try_quiesce_node p edges) m nodes).nodes
  quiesce-IsConsistent edges [] m c = c
  quiesce-IsConsistent edges (v ∷ nodes) m c =
      quiesce-IsConsistent edges nodes (try_quiesce_node p edges m v)
        (try_quiesce_node-IsConsistent edges m v c)

  -- If nobody has sold more than it bought and no owned node has bought more than it desires, the
  -- same holds after `TryQuiesceGraph` has run over any owned nodes, in whatever order, one node at
  -- a time.
  pub try_quiesce_graph-IsConsistent :
      (edges : Edges) (sched : Schedule) (m : Market) (masters : List ℕ)
      → IsConsistent m.nodes
      → IsConsistent (try_quiesce_graph p edges sched m masters).nodes
  unfolding try_quiesce_graph
  try_quiesce_graph-IsConsistent edges sched m masters =
      quiesce-IsConsistent edges (sched.order masters) m

  module _ (m : Market) (edge : ProposedEdge) (c : IsConsistent m.nodes) where
    abbrev seller : ℕ
    seller = p.get_lid edge.dst

    abbrev delta : ℤ
    delta = min_ℤ edge.weight ((m.nodes seller).bought -ℤ (m.nodes seller).sold)

    kept : Kept p seller ((m.nodes seller).desired -ℤ (m.nodes seller).bought) m.nodes
    kept = record { solvent = c.solvent; restrained = c.restrained; room = omega int_laws }

    -- If nobody has sold more than it bought and no owned node has bought more than it desires, the
    -- same holds after `TryAddEdge`, whether the seller accepts the proposal or not.
    pub try_add_edge-IsConsistent : IsConsistent (try_add_edge p m edge).nodes
    unfolding try_add_edge
    try_add_edge-IsConsistent = elim (Bool-cases (is_positive delta)) [
      | inr e ↦ rw e c
      | inl e ↦
          rw e
            (elim (Bool-cases (
              ltb_ℤ (update m.nodes seller (add_sold delta) seller).bought
                ((m.nodes seller).sold +ℤ delta))) [
                  | inl e' ↦
                      let k = undo-Kept p m.nodes seller seller delta _ kept in
                      rw e' (record { solvent = k.solvent; restrained = k.restrained })
                  | inr e' ↦
                      let k = sell-Kept p m.nodes seller seller delta _ kept (
                        ltb_ℤ_false (m.nodes seller).bought ((m.nodes seller).sold +ℤ delta)
                          (rw (==_refl seller) at e')) in
                      rw e' (record { solvent = k.solvent; restrained = k.restrained })
                ])
    ]
