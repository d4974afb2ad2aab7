-- ===== src/Wf4/Quiesce/Cancel.antt =====
-- `CancelNode` and `CancelNodes`.
use graph_log_sketch.Base.{
  ℕ, ◌≡◌, ◌≢◌, refl, subst, ◌∙◌, ◌⊎◌, inl, inr, ⊎_elim, Bool, true, ◌&&◌, List, [], ◌∷◌, foldl,
  Memᴰ, arith, ◌==◌, ==_iff, if◌then◌else◌, Bool-cases,
}
use graph_log_sketch.Base.Int.{ℤ, pos, ◌+ℤ◌, ◌-ℤ◌, int_laws}
use graph_log_sketch.Base.DoAll.{Schedule}
use graph_log_sketch.Wf4.Network.{
  Types, is_sale, is_purchase, NodeData, cancel, Arc, Partition, Edges, update,
}
use graph_log_sketch.Wf4.Quiesce.{Market, cancel_edge, cancel_node, cancel_again, cancel_nodes}
use mathlib.Core.List.Memᴰ

-- The amounts of the chosen edges to `v` together.
pub traded : (Types → Bool) → List Arc → ℕ → ℤ
traded chosen [] v = pos 0
traded chosen (arc ∷ arcs) v =
    let rest = traded chosen arcs v in
    if chosen arc.edge_data.type && arc.dst_node == v then arc.edge_data.amount +ℤ rest else rest

sub_zero : (a : ℤ) → a ≡ a -ℤ pos 0
sub_zero a = omega int_laws

sub_sub : (a b c : ℤ) → a -ℤ b -ℤ c ≡ a -ℤ (b +ℤ c)
sub_sub a b c = omega int_laws

module _ (p : Partition) (v : ℕ) (owned : p.is_owned (p.get_gid v) ≡ true) where
  -- One edge takes its amount from the partner, if the edge is of that kind and leads there.
  cancel_edge-bought :
      (arc : Arc) (m : Market) (rest : ℤ)
      → ((cancel_edge p m arc).nodes v).bought -ℤ rest
        ≡ (m.nodes v).bought
          -ℤ (if is_sale arc.edge_data.type && arc.dst_node == v
              then arc.edge_data.amount +ℤ rest
              else rest)
  unfolding cancel_edge
  cancel_edge-bought arc m rest =
      ground (arith, sub_sub (m.nodes v).bought arc.edge_data.amount rest)

  cancel_edge-sold :
      (arc : Arc) (m : Market) (rest : ℤ)
      → ((cancel_edge p m arc).nodes v).sold -ℤ rest
        ≡ (m.nodes v).sold
          -ℤ (if is_purchase arc.edge_data.type && arc.dst_node == v
              then arc.edge_data.amount +ℤ rest
              else rest)
  unfolding cancel_edge
  cancel_edge-sold arc m rest = ground (arith, sub_sub (m.nodes v).sold arc.edge_data.amount rest)

  cancel_edges-traded :
      (arcs : List Arc) (m : Market)
      → (((foldl (cancel_edge p) m arcs).nodes v).bought
          ≡ (m.nodes v).bought -ℤ traded is_sale arcs v)
        × (((foldl (cancel_edge p) m arcs).nodes v).sold
            ≡ (m.nodes v).sold -ℤ traded is_purchase arcs v)
  unfolding traded
  cancel_edges-traded [] m = (sub_zero (m.nodes v).bought, sub_zero (m.nodes v).sold)
  cancel_edges-traded (arc ∷ arcs) m =
      let (bought, sold) = cancel_edges-traded arcs (cancel_edge p m arc) in
      (
        bought ∙ cancel_edge-bought arc m (traded is_sale arcs v),
        sold ∙ cancel_edge-sold arc m (traded is_purchase arcs v),
      )

  -- `CancelNode` on an owned trader that is stored lowers what every other owned trader bought by
  -- the amounts of the sale edges to it, and what it sold by the amounts of the purchase edges.
  pub cancel_node-traded :
      (edges : Edges) (m : Market) (gid : ℕ)
      → p.is_local gid ≡ true
      → p.is_owned gid ≡ true
      → p.get_lid gid ≢ v
      → (((cancel_node p edges m gid).nodes v).bought
          ≡ (m.nodes v).bought -ℤ traded is_sale (edges (p.get_lid gid)) v)
        × (((cancel_node p edges m gid).nodes v).sold
            ≡ (m.nodes v).sold -ℤ traded is_purchase (edges (p.get_lid gid)) v)
  unfolding cancel_node
  cancel_node-traded edges m gid is_here is_mine ne =
      let cancelled : Market = record m { nodes = update m.nodes (p.get_lid gid) cancel } in
      let (bought, sold) = cancel_edges-traded (edges (p.get_lid gid)) cancelled in
      rw (is_here, is_mine)
        (elim (Bool-cases (p.get_lid gid == v)) [
          | inl e ↦ absurd (ne ((==_iff _ _).0 e))
          | inr e ↦ (rw e at bought, rw e at sold)
        ])

-- Nothing is traded, and nothing is wanted.
pub record IsCancelled (d : NodeData) : Type 0 where
  pub sold : d.sold ≡ pos 0
  pub bought : d.bought ≡ pos 0
  pub desired : d.desired ≡ pos 0

module _ (p : Partition) where
  cancel_again-IsCancelled :
      (m : Market) (gid v : ℕ)
      → ((p.is_local gid ≡ true) × (p.get_lid gid ≡ v)) ⊎ IsCancelled (m.nodes v)
      → IsCancelled ((cancel_again p m gid).nodes v)
  unfolding cancel_again
  cancel_again-IsCancelled m gid v h = ground arith

  cancels_again-IsCancelled :
      (gids : List ℕ) (m : Market) (gid : ℕ)
      → p.is_local gid ≡ true
      → Memᴰ gid gids ⊎ IsCancelled (m.nodes (p.get_lid gid))
      → IsCancelled ((foldl (cancel_again p) m gids).nodes (p.get_lid gid))
  cancels_again-IsCancelled [] m gid here h =
      ⊎_elim (λ mem. absurd (Memᴰ.not-nil mem)) (λ done. done) h
  cancels_again-IsCancelled (g ∷ gids) m gid here h =
      cancels_again-IsCancelled gids (cancel_again p m g) gid here (
        ⊎_elim
          (λ mem.
            ⊎_elim
              (λ same. inr (
                cancel_again-IsCancelled m g (p.get_lid gid) (
                  inl (
                    subst (λ x. (p.is_local x ≡ true) × (p.get_lid x ≡ p.get_lid gid)) same
                      (here, refl)))))
              inl (Memᴰ.cases_cons mem))
          (λ done. inr (cancel_again-IsCancelled m g (p.get_lid gid) (inr done))) h)

  -- After `CancelNodes` a cancelled trader that the host stores has sold, bought and desires
  -- nothing, whatever order the loop takes and whatever the two synchronisations do.
  pub cancel_nodes-IsCancelled :
      (edges : Edges) (sched : Schedule) (sync_bought sync_sold : Market → Market) (m : Market)
      (gids : List ℕ) (gid : ℕ)
      → Memᴰ gid gids
      → p.is_local gid ≡ true
      → IsCancelled
          ((cancel_nodes p edges sched sync_bought sync_sold m gids).nodes (p.get_lid gid))
  unfolding cancel_nodes
  cancel_nodes-IsCancelled edges sched sync_bought sync_sold m gids gid mem here =
      cancels_again-IsCancelled gids _ gid here (inl mem)
