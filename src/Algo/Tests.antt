-- ===== src/Algo/Tests.antt =====
-- Runs of the algorithms on the graph of the repository's tests, and their theorems there.
use graph_log_sketch.Base.{ℕ, ◌%◌, ◌≡◌, refl, some, List, [], ◌∷◌, arith, length}
use graph_log_sketch.Base.DoAll.{in_order, pairwise_swapped}
use graph_log_sketch.Graph.{u64_mod}
use graph_log_sketch.Graph.Walk.{IsClosed}
use graph_log_sketch.Graph.Adj
use graph_log_sketch.Graph.Adj.{AdjGraph, adj_graph}
use graph_log_sketch.Graph.Adj.Laws.{IsClosed-rows}
use graph_log_sketch.Algo.Bfs
use graph_log_sketch.Algo.Bfs.{unvisited}
use graph_log_sketch.Algo.Bfs.Correct.{IsCorrect, compute-IsCorrect}
use graph_log_sketch.Algo.Triangles
use graph_log_sketch.Algo.Triangles.Interface.{adj_sorts_edges}
use graph_log_sketch.Algo.Triangles.Correct.{triangles, compute-triangles}

abbrev small_graph : AdjGraph
small_graph = record {
  m_edges =
      (1 ∷ 2 ∷ 3 ∷ [])
      ∷ (0 ∷ 2 ∷ 3 ∷ [])
      ∷ (0 ∷ 1 ∷ 3 ∷ [])
      ∷ (0 ∷ 1 ∷ 2 ∷ 4 ∷ 5 ∷ [])
      ∷ (3 ∷ 5 ∷ [])
      ∷ (3 ∷ 4 ∷ 6 ∷ [])
      ∷ (5 ∷ [])
      ∷ [];
}

small_graph_closed : IsClosed (adj_graph in_order) small_graph
unfolding Adj.size
small_graph_closed = IsClosed-rows in_order small_graph (omega arith)

bfs_run :
    Bfs.compute (adj_graph in_order) small_graph pairwise_swapped 1
    ≡ some (1 ∷ 0 ∷ 1 ∷ 1 ∷ 2 ∷ 2 ∷ 3 ∷ [])
unfolding Bfs.compute Adj.size Adj.neighbors
bfs_run = refl

triangles_run : (Triangles.compute (adj_graph in_order) in_order pairwise_swapped small_graph).1 ≡ 5
unfolding Triangles.compute Adj.size Adj.neighbors Adj.sort_edges Adj.find_edge_sorted
triangles_run = refl

compute-IsCorrect_example :
    (sp : List ℕ) × (Bfs.compute (adj_graph in_order) small_graph pairwise_swapped 1 ≡ some sp)
    × (length sp ≡ Adj.size small_graph)
    × IsCorrect (adj_graph in_order) small_graph 1 small_graph_closed pairwise_swapped sp
unfolding Adj.size
compute-IsCorrect_example =
    compute-IsCorrect (adj_graph in_order) small_graph 1 small_graph_closed pairwise_swapped
      (omega arith) (omega arith)

compute-triangles_example :
    (Triangles.compute (adj_graph in_order) in_order pairwise_swapped small_graph).1
    ≡ triangles (adj_graph in_order) small_graph % u64_mod
compute-triangles_example =
    compute-triangles (adj_graph in_order) (adj_sorts_edges in_order) in_order pairwise_swapped
      small_graph small_graph_closed
