-- ===== src/Algo/Triangles.antt =====
-- include/scea/algo/tc.hpp: triangle counting.
pub mod Interface
pub mod Correct
use graph_log_sketch.Base.{ℕ, ◌+◌, ◌%◌, List, [], ◌∷◌, foldl, leb, if◌then◌else◌}
use graph_log_sketch.Base.DoAll.{Schedule, range}
use graph_log_sketch.Graph.{MutableGraph, u64_mod}

module _ {S : Type 0} (G : MutableGraph S) where
  -- The loop `SortEdges`.
  pub sort_all : Schedule → S → S
  sort_all sched g = foldl G.sort_edges g (sched.order (range (G.size g)))

  -- The callback on `v2`. `num_triangles` is a `galois::GAccumulator<uint64_t>`.
  pub count_closing : S → ℕ → ℕ → ℕ → ℕ → ℕ
  count_closing g v0 v1 num_triangles v2 =
      if leb v2 v1
      then num_triangles
      else if G.find_edge_sorted g v0 v2
      then (num_triangles + 1) % u64_mod
      else num_triangles

  -- The callback on `v1`.
  pub count_from_edge : S → ℕ → ℕ → ℕ → ℕ
  unfolding count_closing
  count_from_edge g v0 num_triangles v1 =
      if leb v1 v0
      then num_triangles
      else foldl (count_closing g v0 v1) num_triangles (G.neighbors g v1)

  -- The body of the loop `TriangleCounting`.
  pub count_from_vertex : S → ℕ → ℕ → ℕ
  unfolding count_from_edge
  count_from_vertex g num_triangles v0 =
      foldl (count_from_edge g v0) num_triangles (G.neighbors g v0)

  -- `TriangleCounting::compute`; each parallel loop has its own schedule.
  unfoldable pub compute : Schedule → Schedule → S → S × ℕ
  unfolding sort_all count_from_vertex
  compute sort_order count_order g =
      let sorted = sort_all sort_order g in
      (sorted, foldl (count_from_vertex sorted) 0 (count_order.order (range (G.size sorted))))
