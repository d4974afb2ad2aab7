-- ===== src/Wf4/Influence/Weights/Amounts.antt =====
-- `FillNodeValues` and `CalculateEdgeProbability`: the sums over the edges of a node.
use graph_log_sketch.Base.{
  ℕ, ◌≡◌, refl, sym, ap, subst, ◌∙◌, inl, inr, Bool, true, false, ◌&&◌, List, [], ◌∷◌, map, foldl,
  arith, ◌==◌, ==_iff, if◌then◌else◌, Bool-cases, All,
}
use graph_log_sketch.Base.Int.{ℤ, pos, ◌+ℤ◌, +ℤ_assoc, int_laws}
use graph_log_sketch.Base.DoAll.{Schedule}
use mathlib.Core.Bool.{false≢true}
use graph_log_sketch.Wf4.Network.{
  Types, person, device, sale, purchase, uses, friend, communication, is_sale, is_purchase, Arc,
  Nodes, Edges,
}
use graph_log_sketch.Wf4.Quiesce.{is_positive}
use graph_log_sketch.Wf4.Influence.Weights.{
  fill_edge, fill_node_values, fill_all, weigh_edge, calculate_edge_probability,
}

-- The amounts of the chosen edges together.
pub amounts : (Types → Bool) → List Arc → ℤ
amounts chosen [] = pos 0
amounts chosen (arc ∷ arcs) =
    let rest = amounts chosen arcs in
    if chosen arc.edge_data.type then arc.edge_data.amount +ℤ rest else rest

-- The numerators of the weights of the sale edges together.
pub sale_numerators : List Arc → ℤ
sale_numerators [] = pos 0
sale_numerators (arc ∷ arcs) =
    let rest = sale_numerators arcs in
    if is_sale arc.edge_data.type then arc.edge_data.weight.numerator +ℤ rest else rest

sale_apart : (t : Types) → is_sale t ≡ true → is_purchase t ≡ false
sale_apart sale h = refl
sale_apart purchase h = absurd (false≢true h)
sale_apart person h = refl
sale_apart device h = refl
sale_apart uses h = refl
sale_apart friend h = refl
sale_apart communication h = refl

add_zero : (a : ℤ) → a ≡ a +ℤ pos 0
add_zero a = omega int_laws

from_zero : (a : ℤ) → a ≡ pos 0 +ℤ a
from_zero a = omega int_laws

module _ (node : ℕ) where
  fill_edge-sold :
      (nodes : Nodes) (arc : Arc) (rest : ℤ)
      → (fill_edge node nodes arc node).sold +ℤ rest
        ≡ (nodes node).sold
          +ℤ (if is_sale arc.edge_data.type then arc.edge_data.amount +ℤ rest else rest)
  unfolding fill_edge
  fill_edge-sold nodes arc rest =
      ground (arith, +ℤ_assoc (nodes node).sold arc.edge_data.amount rest)

  fill_edge-bought :
      (nodes : Nodes) (arc : Arc) (rest : ℤ)
      → ((fill_edge node nodes arc node).bought +ℤ rest
          ≡ (nodes node).bought
            +ℤ (if is_purchase arc.edge_data.type then arc.edge_data.amount +ℤ rest else rest))
        × ((fill_edge node nodes arc node).desired +ℤ rest
            ≡ (nodes node).desired
              +ℤ (if is_purchase arc.edge_data.type then arc.edge_data.amount +ℤ rest else rest))
  unfolding fill_edge
  fill_edge-bought nodes arc rest = (
    ground (
      arith,
      sale_apart arc.edge_data.type,
      +ℤ_assoc (nodes node).bought arc.edge_data.amount rest,
    ),
    ground (
      arith,
      sale_apart arc.edge_data.type,
      +ℤ_assoc (nodes node).desired arc.edge_data.amount rest,
    ),
  )

  fill_edge-others :
      (nodes : Nodes) (arc : Arc) (v : ℕ)
      → (node == v) ≡ false
      → ((fill_edge node nodes arc v).sold ≡ (nodes v).sold)
        × ((fill_edge node nodes arc v).bought ≡ (nodes v).bought)
        × ((fill_edge node nodes arc v).desired ≡ (nodes v).desired)
  unfolding fill_edge
  fill_edge-others nodes arc v ne = (ground arith, ground arith, ground arith)

  fill_edges-amounts :
      (arcs : List Arc) (nodes : Nodes)
      → ((foldl (fill_edge node) nodes arcs node).sold ≡ (nodes node).sold +ℤ amounts is_sale arcs)
        × ((foldl (fill_edge node) nodes arcs node).bought
            ≡ (nodes node).bought +ℤ amounts is_purchase arcs)
        × ((foldl (fill_edge node) nodes arcs node).desired
            ≡ (nodes node).desired +ℤ amounts is_purchase arcs)
  unfolding amounts
  fill_edges-amounts [] nodes =
      (add_zero (nodes node).sold, add_zero (nodes node).bought, add_zero (nodes node).desired)
  fill_edges-amounts (arc ∷ arcs) nodes =
      let (sold, bought, desired) = fill_edges-amounts arcs (fill_edge node nodes arc) in
      (
        sold ∙ fill_edge-sold nodes arc (amounts is_sale arcs),
        bought ∙ (fill_edge-bought nodes arc (amounts is_purchase arcs)).0,
        desired ∙ (fill_edge-bought nodes arc (amounts is_purchase arcs)).1,
      )

  fill_edges-others :
      (arcs : List Arc) (nodes : Nodes) (v : ℕ)
      → (node == v) ≡ false
      → ((foldl (fill_edge node) nodes arcs v).sold ≡ (nodes v).sold)
        × ((foldl (fill_edge node) nodes arcs v).bought ≡ (nodes v).bought)
        × ((foldl (fill_edge node) nodes arcs v).desired ≡ (nodes v).desired)
  fill_edges-others [] nodes v ne = (refl, refl, refl)
  fill_edges-others (arc ∷ arcs) nodes v ne =
      let (sold, bought, desired) = fill_edges-others arcs (fill_edge node nodes arc) v ne in
      let (s, b, d) = fill_edge-others nodes arc v ne in (sold ∙ s, bought ∙ b, desired ∙ d)

module _ (edges : Edges) where
  fill_node_values-desired :
      (nodes : Nodes) (bits : List ℕ) (node v : ℕ)
      → (nodes v).desired ≡ (nodes v).bought
      → ((fill_node_values edges (nodes, bits) node).0 v).desired
        ≡ ((fill_node_values edges (nodes, bits) node).0 v).bought
  unfolding fill_node_values
  fill_node_values-desired nodes bits node v h = elim (Bool-cases (node == v)) [
    | inl e ↦
        let same = (==_iff node v).0 e in
        let (_, bought, desired) = fill_edges-amounts v (edges v) nodes in
        subst
          (λ w.
            (foldl (fill_edge w) nodes (edges w) v).desired
            ≡ (foldl (fill_edge w) nodes (edges w) v).bought)
          (sym same) (desired ∙ ap (λ d. d +ℤ amounts is_purchase (edges v)) h ∙ sym bought)
    | inr e ↦
        let (_, bought, desired) = fill_edges-others node (edges node) nodes v e in
        desired ∙ h ∙ sym bought
  ]

  fills-desired :
      (todo : List ℕ) (state : Nodes × List ℕ) (v : ℕ)
      → (state.0 v).desired ≡ (state.0 v).bought
      → ((foldl (fill_node_values edges) state todo).0 v).desired
        ≡ ((foldl (fill_node_values edges) state todo).0 v).bought
  fills-desired [] state v h = h
  fills-desired (node ∷ todo) (nodes, bits) v h =
      fills-desired todo (fill_node_values edges (nodes, bits) node) v
        (fill_node_values-desired nodes bits node v h)

  -- If every node has bought what it desires, the same holds after the values of the nodes are
  -- filled in, whatever nodes the host owns and in whatever order the loop runs.
  pub fill_all-desired :
      (sched : Schedule) (nodes : Nodes) (masters : List ℕ)
      → ((v : ℕ) → (nodes v).desired ≡ (nodes v).bought)
      → (v : ℕ)
      → ((fill_all edges sched nodes masters).0 v).desired
        ≡ ((fill_all edges sched nodes masters).0 v).bought
  unfolding fill_all
  fill_all-desired sched nodes masters h v = fills-desired (sched.order masters) (nodes, []) v (h v)

weigh-numerators :
    (nodes : Nodes) (node : ℕ) (arcs : List Arc)
    → is_positive (nodes node).sold ≡ true
    → (sale_numerators (map (weigh_edge nodes node) arcs) ≡ amounts is_sale arcs)
      × All
          (λ arc.
            is_sale arc.edge_data.type ≡ true
            → arc.edge_data.weight.denominator ≡ (nodes node).sold)
          (map (weigh_edge nodes node) arcs)
unfolding weigh_edge sale_numerators amounts
weigh-numerators nodes node [] h = (refl, tt)
weigh-numerators nodes node (arc ∷ arcs) h =
    let (sums, all) = weigh-numerators nodes node arcs h in
    elim (Bool-cases (is_sale arc.edge_data.type)) [
      | inl e ↦ rw (e, h) (rw e (ap (λ a. arc.edge_data.amount +ℤ a) sums), (λ _. refl, all))
      | inr e ↦
          elim (Bool-cases
            (is_purchase arc.edge_data.type && is_positive (nodes arc.dst_node).sold)) [
              | inl e' ↦ rw (e, e') (rw e sums, (λ q. absurd (false≢true (sym e ∙ q)), all))
              | inr e' ↦ rw (e, e') (rw e sums, (λ q. absurd (false≢true (sym e ∙ q)), all))
            ]
    ]

-- A node had sold nothing and its values are filled in. If it then has sold a positive amount, the
-- weights of its sale edges are fractions of that amount whose numerators add up to it, so that
-- the probabilities of the sale edges add up to 1.
pub calculate_edge_probability-fill_node_values :
    (edges : Edges) (nodes : Nodes) (bits : List ℕ) (node : ℕ)
    → (nodes node).sold ≡ pos 0
    → is_positive ((fill_node_values edges (nodes, bits) node).0 node).sold ≡ true
    → (sale_numerators (
          calculate_edge_probability
            (fill_node_values edges (nodes, bits) node).0
            node
            (edges node))
        ≡ ((fill_node_values edges (nodes, bits) node).0 node).sold)
      × All
          (λ arc.
            is_sale arc.edge_data.type ≡ true
            → arc.edge_data.weight.denominator
              ≡ ((fill_node_values edges (nodes, bits) node).0 node).sold)
          (calculate_edge_probability
            (fill_node_values edges (nodes, bits) node).0
            node
            (edges node))
unfolding calculate_edge_probability fill_node_values
calculate_edge_probability-fill_node_values edges nodes bits node none_sold h =
    let filled = foldl (fill_edge node) nodes (edges node) in
    let (sums, all) = weigh-numerators filled node (edges node) h in
    let (sold, _, _) = fill_edges-amounts node (edges node) nodes in
    (
      sums
          ∙ from_zero (amounts is_sale (edges node))
          ∙ ap (λ a. a +ℤ amounts is_sale (edges node)) (sym none_sold)
          ∙ sym sold,
      all,
    )
