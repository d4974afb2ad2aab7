-- ===== src/Bench.antt =====
-- microbench/edit_scalability_large.cpp: the edges of a file are ingested batch by batch, and an
-- algorithm runs after each batch. Here on the adjacency vector.
pub mod Ranges
pub mod Counts
pub mod Edges
mod Tests
use graph_log_sketch.Base.{
  ℕ, zero, suc, ◌+◌, ◌-◌, ◌*◌, ◌/◌, ◌%◌, min, List, [], ◌∷◌, ◌++◌, foldl, ltb, leb, ◌==◌,
  if◌then◌else◌, length, get_or,
}
use graph_log_sketch.Base.DoAll.{Schedule, range_from}
use graph_log_sketch.Graph.{u64_mod}
use graph_log_sketch.Graph.Adj
use graph_log_sketch.Graph.Adj.{AdjGraph}

-- `lazy_emplace_l` of `prepare_batch`: the target is appended to the list of its source, or begins
-- one. The pairs of the map are listed in the order in which they came.
unfoldable pub add_edge : List (ℕ × List ℕ) → ℕ × ℕ → List (ℕ × List ℕ)
add_edge [] (src, dst) = (src, dst ∷ []) ∷ []
add_edge ((s, dsts) ∷ adj_map) (src, dst) =
    let rest = add_edge adj_map (src, dst) in
    if s == src then (s, dsts ++ dst ∷ []) ∷ adj_map else (s, dsts) ∷ rest

-- `prepare_batch`, whose loop takes the edges of the range in any order. The file is the list of
-- its edges.
unfoldable pub prepare_batch : Schedule → List (ℕ × ℕ) → ℕ → ℕ → List (ℕ × List ℕ)
unfolding add_edge
prepare_batch sched file start_index end_index =
    if leb end_index start_index
    then []
    else foldl (λ adj_map i. add_edge adj_map (get_or file i (0, 0))) []
        (sched.order (range_from start_index (end_index - start_index)))

-- `num_edges_per_batch`.
unfoldable pub edges_per_batch : ℕ → ℕ → ℕ → ℕ
edges_per_batch num_edges pre_ingest num_batches =
    (num_edges + u64_mod - pre_ingest + (num_batches + u64_mod - 1)) % u64_mod / num_batches

-- Where a batch starts, and the batch before it ends.
unfoldable pub batch_bound : ℕ → ℕ → ℕ → ℕ → ℕ
batch_bound num_edges pre_ingest per_batch batch_number =
    min num_edges ((pre_ingest + batch_number * per_batch) % u64_mod)

module _ (sched : Schedule) (algo : AdjGraph → AdjGraph) (file : List (ℕ × ℕ)) where
  -- One round of the loop: the batch is ingested, and the algorithm runs.
  pub run_batch : ℕ → ℕ → AdjGraph → ℕ → AdjGraph
  unfolding prepare_batch batch_bound
  run_batch pre_ingest per_batch g batch_number =
      let start_edge = batch_bound (length file) pre_ingest per_batch batch_number in
      let end_edge = batch_bound (length file) pre_ingest per_batch (batch_number + 1) in
      algo (Adj.post_ingest (Adj.ingest sched g (prepare_batch sched file start_edge end_edge)))

  -- The loop, with the number of batches that are left.
  pub run_batches : ℕ → ℕ → ℕ → ℕ → AdjGraph → AdjGraph
  unfolding run_batch
  run_batches pre_ingest per_batch batch_number zero g = g
  run_batches pre_ingest per_batch batch_number (suc left) g =
      run_batches pre_ingest per_batch (batch_number + 1) left
        (run_batch pre_ingest per_batch g batch_number)

  -- The edges that are loaded before the batches, and the batches.
  unfoldable pub run : ℕ → ℕ → AdjGraph → AdjGraph
  unfolding prepare_batch edges_per_batch run_batches
  run num_edges_to_pre_ingest num_batches g =
      let loaded =
        if ltb 0 num_edges_to_pre_ingest
        then Adj.post_ingest
            (Adj.ingest sched g (prepare_batch sched file 0 num_edges_to_pre_ingest))
        else g in
      run_batches num_edges_to_pre_ingest
        (edges_per_batch (length file) num_edges_to_pre_ingest num_batches) 0 num_batches loaded
