-- ===== src/Graph/Adj/Sorted.antt =====
-- `sort_edges` and `find_edge_sorted` of include/scea/graph/adj.hpp.
use graph_log_sketch.Base.{
  ℕ, ◌<◌, ◌≡◌, ◌≢◌, sym, ap, ◌∙◌, ◌↔◌, true, List, [], Memᴰ, length, get_or-set_self, get_or-set_ne,
}
use graph_log_sketch.Base.DoAll.{Permᴰ-Memᴰ}
use graph_log_sketch.Graph.Sorting.{sort, binary_search}
use graph_log_sketch.Graph.Sorting.Laws.{sort-perm, sort-IsAscending, binary_search-mem}
use graph_log_sketch.Graph.Adj.{AdjGraph, size, neighbors, sort_edges, find_edge_sorted}
use mathlib.Core.List.Permᴰ

module _ (g : AdjGraph) (src : ℕ) (inside : src < size g) where
  pub neighbors-sort_edges : neighbors (sort_edges g src) src ≡ sort (neighbors g src)
  unfolding neighbors sort_edges size
  neighbors-sort_edges = get_or-set_self g.m_edges src _ [] inside

  find_edge_sorted-row :
      (row : List ℕ) (dst : ℕ)
      → neighbors (sort_edges g src) src ≡ row
      → find_edge_sorted (sort_edges g src) src dst ≡ binary_search row 0 (length row) dst
  unfolding find_edge_sorted neighbors
  find_edge_sorted-row row dst e = ap (λ r. binary_search r 0 (length r) dst) e

  -- For a vertex `src` of the graph, after `sort_edges(src)` the search `find_edge_sorted(src, dst)`
  -- is true exactly if `dst` was a target of `src`.
  pub find_edge_sorted_iff :
      (dst : ℕ) → (find_edge_sorted (sort_edges g src) src dst ≡ true) ↔ Memᴰ dst (neighbors g src)
  find_edge_sorted_iff dst =
      let row = sort (neighbors g src) in
      let search = binary_search-mem row dst (sort-IsAscending (neighbors g src)) in
      let perm = sort-perm (neighbors g src) in
      let same = find_edge_sorted-row row dst neighbors-sort_edges in
      (
        λ e. Permᴰ-Memᴰ perm (search.0 (sym same ∙ e)),
        λ m. same ∙ search.1 (Permᴰ-Memᴰ (Permᴰ.symm perm) m),
      )

  -- The other rows stay as they are.
  pub neighbors-sort_edges_ne : (v : ℕ) → src ≢ v → neighbors (sort_edges g src) v ≡ neighbors g v
  unfolding neighbors sort_edges
  neighbors-sort_edges_ne v ne = get_or-set_ne g.m_edges src v _ [] ne
