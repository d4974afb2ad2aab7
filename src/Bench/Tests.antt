-- ===== src/Bench/Tests.antt =====
-- A run of the benchmark on a small file, and its theorem there.
use graph_log_sketch.Base.{ℕ, ◌+◌, ◌≡◌, refl, List, [], ◌∷◌, arith, length}
use graph_log_sketch.Base.DoAll.{pairwise_swapped, range}
use graph_log_sketch.Base.Sums.{count, sum}
use graph_log_sketch.Graph.Adj
use graph_log_sketch.Graph.Adj.{AdjGraph}
use graph_log_sketch.Bench.{prepare_batch, run}
use graph_log_sketch.Bench.Edges.{edge_at, run-count}
use graph_log_sketch.Bench.Counts.{FitsBelow}

abbrev file : List (ℕ × ℕ)
file = (0, 1) ∷ (0, 2) ∷ (1, 0) ∷ (0, 2) ∷ (2, 1) ∷ []

abbrev old : AdjGraph
old = record { m_edges = (2 ∷ []) ∷ [] }

batch_run :
    prepare_batch pairwise_swapped file 1 5 ≡ (1, 0 ∷ []) ∷ (0, 2 ∷ 2 ∷ []) ∷ (2, 1 ∷ []) ∷ []
unfolding prepare_batch
batch_run = refl

fits : FitsBelow 18446744073709551614 file
fits = omega arith

run-count_example :
    count 2 (Adj.neighbors (run pairwise_swapped (λ g. g) file 1 3 old) 0)
    ≡ count 2 (Adj.neighbors old 0)
      + sum (range (length file)) (edge_at pairwise_swapped file fits 0 2)
run-count_example =
    run-count pairwise_swapped file fits (λ g. g) (λ g v d. refl) 1 3 old (omega arith)
      (omega arith) (omega arith) 0 2
