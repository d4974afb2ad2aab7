-- ===== src/Wf4/Quiesce/Proposals/Received.antt =====
-- `SerializeSet`, `IncomingEdges` and `TryAddEdges`.
use graph_log_sketch.Base.{
  ℕ, ◌*◌, ◌≡◌, refl, ap, false, List, [], ◌∷◌, map, foldl, arith, ltb, length, get_or,
}
use graph_log_sketch.Base.DoAll.{Schedule, range}
use graph_log_sketch.Wf4.Network.{Partition}
use graph_log_sketch.Wf4.Quiesce.{ProposedEdge, Market, try_add_edge}
use graph_log_sketch.Wf4.Quiesce.Trade.{IsConsistent, try_add_edge-IsConsistent}
use graph_log_sketch.Wf4.Quiesce.Proposals.{
  Doubles, edge_words, serialize_set, read_edges, incoming_edges, no_edge, try_add_edges,
}

module _ (doubles : Doubles) where
  -- An edge as another host gets it.
  abbrev pub received : ProposedEdge → ProposedEdge
  received edge = record edge { weight = doubles.of_bits (doubles.to_uint64 edge.weight) }

  read_edges-edge_words :
      (edges : List ProposedEdge)
      → read_edges doubles (length edges) (edge_words doubles edges) ≡ map received edges
  unfolding read_edges edge_words
  read_edges-edge_words [] = refl
  read_edges-edge_words (edge ∷ edges) = ap (λ es. received edge ∷ es) (read_edges-edge_words edges)

  -- A set of proposals arrives with the same sellers and buyers, in the same order, but each weight
  -- becomes the double whose bits are the weight converted to a uint64_t.
  pub incoming_edges-serialize_set :
      (edges : List ProposedEdge)
      → incoming_edges doubles (serialize_set doubles edges) ≡ map received edges
  unfolding incoming_edges serialize_set edge_words
  incoming_edges-serialize_set [] = refl
  incoming_edges-serialize_set (edge ∷ edges) =
      let all = edge ∷ edges in
      let long : ltb (8 * length (length all ∷ edge_words doubles all)) 16 ≡ false = ground arith in
      rw long (read_edges-edge_words all)

module _ (p : Partition) (sched : Schedule) where
  answers-IsConsistent :
      (edges : List ProposedEdge) (is : List ℕ) (m : Market)
      → IsConsistent p m.nodes
      → IsConsistent p (foldl (λ m' i. try_add_edge p m' (get_or edges i no_edge)) m is).nodes
  answers-IsConsistent edges [] m c = c
  answers-IsConsistent edges (i ∷ is) m c =
      answers-IsConsistent edges is (try_add_edge p m (get_or edges i no_edge))
        (try_add_edge-IsConsistent p m (get_or edges i no_edge) c)

  -- If nobody has sold more than it bought and no owned node has bought more than it desires, the
  -- same holds after `TryAddEdges`, whatever proposals arrive and in whatever order those of a host
  -- are answered, one at a time.
  pub try_add_edges-IsConsistent :
      (incoming : List (List ProposedEdge)) (m : Market)
      → IsConsistent p m.nodes
      → IsConsistent p (try_add_edges p sched m incoming).nodes
  unfolding try_add_edges
  try_add_edges-IsConsistent [] m c = c
  try_add_edges-IsConsistent (edges ∷ incoming) m c =
      try_add_edges-IsConsistent incoming _
        (answers-IsConsistent edges (sched.order (range (length edges))) m c)
