-- ===== src/Wf4/Quiesce/Proposals.antt =====
-- wf4/src/quiesce.cpp: proposals on their way between the hosts, and what a host does with those
-- that it gets. A buffer is the list of its 64-bit words.
pub mod Received
use graph_log_sketch.Base.{
  ℕ, zero, suc, ◌+◌, ◌*◌, List, [], ◌∷◌, ◌++◌, map, foldl, ltb, ◌==◌, if◌then◌else◌, length, get_or,
}
use graph_log_sketch.Base.Int.{ℤ, pos}
use graph_log_sketch.Base.DoAll.{Schedule, range}
use graph_log_sketch.Wf4.Network.{Partition}
use graph_log_sketch.Wf4.Quiesce.{ProposedEdge, Market, try_add_edge, add_purchase_edge}

-- What the code does with a double: `to_uint64` is the conversion in an assignment to a uint64_t,
-- and `of_bits` the number that 64 bits are when they are read as a double.
pub record Doubles : Type 0 where
  pub to_uint64 : ℤ → ℕ
  pub of_bits : ℕ → ℤ

module _ (doubles : Doubles) where
  open doubles use {to_uint64, of_bits}

  pub edge_words : List ProposedEdge → List ℕ
  edge_words [] = []
  edge_words (edge ∷ edges) = edge.src ∷ edge.dst ∷ to_uint64 edge.weight ∷ edge_words edges

  -- `SerializeSet`.
  unfoldable pub serialize_set : List ProposedEdge → List ℕ
  unfolding edge_words
  serialize_set edges = length edges ∷ edge_words edges

  -- The elements of `reinterpret_cast<ProposedEdge*>`, as far as the buffer goes.
  pub read_edges : ℕ → List ℕ → List ProposedEdge
  read_edges (suc n) (src ∷ dst ∷ bits ∷ data_) =
      (record { src = src; dst = dst; weight = of_bits bits }) ∷ read_edges n data_
  read_edges _ _ = []

  -- `IncomingEdges`: no edges if the buffer is short.
  unfoldable pub incoming_edges : List ℕ → List ProposedEdge
  unfolding read_edges
  incoming_edges [] = []
  incoming_edges (num_edges ∷ data_) =
      if ltb (8 * length (num_edges ∷ data_)) 16 then [] else read_edges num_edges data_

  -- `SendNewEdges` on the host `host`: `outboxes` has for each host, from `i` on, the sets of the
  -- edges that it keeps for each host. The result has an entry for each host.
  unfoldable pub send_new_edges : ℕ → ℕ → List (List (List ProposedEdge)) → List (List ProposedEdge)
  unfolding serialize_set incoming_edges
  send_new_edges host i [] = []
  send_new_edges host i (outbox ∷ outboxes) =
      (if i == host then [] else incoming_edges (serialize_set (get_or outbox host [])))
      ∷ send_new_edges host (suc i) outboxes

abbrev pub no_edge : ProposedEdge
no_edge = record { src = 0; dst = 0; weight = pos 0 }

module _ (p : Partition) (sched : Schedule) where
  -- `TryAddEdges`.
  unfoldable pub try_add_edges : Market → List (List ProposedEdge) → Market
  try_add_edges m [] = m
  try_add_edges m (edges ∷ incoming) =
      try_add_edges
        (foldl (λ m' i. try_add_edge p m' (get_or edges i no_edge)) m
          (sched.order (range (length edges))))
        incoming

  -- `AddPurchaseEdges`.
  unfoldable pub add_purchase_edges : Market → List (List ProposedEdge) → Market
  add_purchase_edges m [] = m
  add_purchase_edges m (edges ∷ decided) =
      add_purchase_edges
        (foldl (λ m' i. add_purchase_edge p m' (get_or edges i no_edge)) m
          (sched.order (range (length edges))))
        decided
