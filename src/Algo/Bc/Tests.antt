-- ===== src/Algo/Bc/Tests.antt =====
-- Runs of `BetweennessCentrality` of include/scea/algo/bc.hpp on two small graphs, and its theorems
-- there.
use graph_log_sketch.Base.{
  ℕ, ◌+◌, ◌*◌, ◌/◌, ◌≡◌, refl, some, Memᴰ, min, List, [], ◌∷◌, arith, length, replicate, ltb,
  if◌then◌else◌, ◌<◌,
}
use graph_log_sketch.Base.DoAll.{in_order, pairwise_swapped}
use graph_log_sketch.Base.Sums.{count}
use graph_log_sketch.Graph.Walk.{IsClosed}
use graph_log_sketch.Graph.Adj
use graph_log_sketch.Graph.Adj.{AdjGraph, adj_graph}
use graph_log_sketch.Graph.Adj.Laws.{IsClosed-rows}
use graph_log_sketch.Algo.Bc.{infinity, Sssp, level_sssp}
use graph_log_sketch.Algo.Bc.Shortest.{level_sssp-IsCounted}
use graph_log_sketch.Algo.Bc.Stacks.{IsCounted}
use graph_log_sketch.Algo.Bc.Brandes.{Double, select_sources, compute}
use graph_log_sketch.Algo.Bc.Brandes.Sources.{select_sources-bounds}
use graph_log_sketch.Algo.Bc.Brandes.Result.{IsBetweenness, compute-IsBetweenness}

-- Two shortest walks from 0 to 3, and two parallel edges from 3 to 4, so four to 4.
abbrev diamond : AdjGraph
diamond = record {
  m_edges = (1 ∷ 2 ∷ []) ∷ (3 ∷ []) ∷ (3 ∷ 1 ∷ []) ∷ (4 ∷ 4 ∷ 0 ∷ []) ∷ [] ∷ [] ∷ [];
}

diamond_closed : IsClosed (adj_graph in_order) diamond
unfolding Adj.size
diamond_closed = IsClosed-rows in_order diamond (omega arith)

-- Thousandths.
abbrev thousandths : Double ℕ
thousandths = record {
  of_nat = λ n. n * 1000;
  plus = λ a b. a + b;
  times = λ a b. a * b / 1000;
  over = λ a b. a * 1000 / b;
}

level_sssp_run :
    level_sssp
      (adj_graph in_order)
      diamond
      pairwise_swapped
      0
      (replicate 6 infinity)
      (replicate 6 0)
    ≡ some (
      (0 ∷ []) ∷ (1 ∷ 2 ∷ []) ∷ (3 ∷ []) ∷ (4 ∷ []) ∷ [] ∷ [],
      record {
        distance = 0 ∷ 1 ∷ 1 ∷ 2 ∷ 3 ∷ infinity ∷ [];
        shortest_path_count = 1 ∷ 1 ∷ 1 ∷ 2 ∷ 4 ∷ 0 ∷ [];
        worklist = [];
      },
    )
unfolding level_sssp Adj.size Adj.neighbors
level_sssp_run = refl

-- With one selected source the scores are its dependencies.
compute_run :
    compute thousandths (adj_graph in_order) diamond in_order in_order 1
    ≡ some (0 ∷ 1000 ∷ 1000 ∷ 1000 ∷ 0 ∷ 0 ∷ [])
unfolding compute level_sssp Adj.size Adj.neighbors
compute_run = refl

level_sssp-IsCounted_example :
    (stack : List (List ℕ)) × (s : Sssp) × (level_sssp
        (adj_graph in_order)
        diamond
        pairwise_swapped
        0
        (replicate (Adj.size diamond) infinity)
        (replicate (Adj.size diamond) 0)
      ≡ some (stack, s))
    × IsCounted (adj_graph in_order) diamond 0 stack s
unfolding Adj.size
level_sssp-IsCounted_example =
    level_sssp-IsCounted (adj_graph in_order) diamond 0 diamond_closed pairwise_swapped
      (omega arith) (omega arith)

select_sources-bounds_example :
    (length (select_sources in_order pairwise_swapped 6 4) ≡ (if ltb 0 4 then min 6 4 else 6))
    × ((v : ℕ)
        → Memᴰ v (select_sources in_order pairwise_swapped 6 4)
        → (v < 6) × (count v (select_sources in_order pairwise_swapped 6 4) ≡ 1))
select_sources-bounds_example = select_sources-bounds in_order pairwise_swapped 6 4

compute-IsBetweenness_example :
    (new : List ℕ) × (compute thousandths (adj_graph in_order) diamond pairwise_swapped in_order 0
      ≡ some new)
    × (length new ≡ Adj.size diamond)
    × IsBetweenness thousandths
        (adj_graph in_order)
        diamond
        (select_sources pairwise_swapped in_order (Adj.size diamond) 0)
        (replicate (Adj.size diamond) (thousandths.of_nat 0))
        new
unfolding Adj.size
compute-IsBetweenness_example =
    compute-IsBetweenness thousandths (adj_graph in_order) diamond diamond_closed (omega arith)
      pairwise_swapped in_order 0
