-- ===== src/Algo/Triangles/Interface.antt =====
-- What triangle counting relies on in a graph representation, and the adjacency vector as one that
-- provides it.
use graph_log_sketch.Base.{ℕ, ◌<◌, ◌≡◌, sym, ◌↔◌, inl, inr, true, Memᴰ, length-set, eq-cases, subst}
use graph_log_sketch.Base.DoAll.{Schedule}
use graph_log_sketch.Graph.{MutableGraph}
use graph_log_sketch.Graph.Sorting.Laws.{
  IsAscending, sort-perm, sort-IsAscending, binary_search-mem,
}
use graph_log_sketch.Graph.Adj
use graph_log_sketch.Graph.Adj.{AdjGraph, adj_graph}
use graph_log_sketch.Graph.Adj.Sorted.{neighbors-sort_edges, neighbors-sort_edges_ne}
use mathlib.Core.List.{Permᴰ}
use mathlib.Core.List.Permᴰ

-- `sort_edges` rearranges one row and makes it searchable.
pub record SortsEdges {S : Type 0} (G : MutableGraph S) : Type 1 where
  pub IsSearchable : S → ℕ → Type 0
  pub size-sort : (g : S) (u : ℕ) → G.size (G.sort_edges g u) ≡ G.size g
  pub neighbors-sort :
      (g : S) (u v : ℕ) → u < G.size g → Permᴰ (G.neighbors (G.sort_edges g u) v) (G.neighbors g v)
  pub sort-IsSearchable : (g : S) (u : ℕ) → u < G.size g → IsSearchable (G.sort_edges g u) u
  pub sort_keeps_IsSearchable :
      (g : S) (u v : ℕ) → u < G.size g → IsSearchable g v → IsSearchable (G.sort_edges g u) v
  pub find-mem :
      (g : S) (u v : ℕ)
      → IsSearchable g u
      → (G.find_edge_sorted g u v ≡ true) ↔ Memᴰ v (G.neighbors g u)

pub adj_size-sort : (g : AdjGraph) (u : ℕ) → Adj.size (Adj.sort_edges g u) ≡ Adj.size g
unfolding Adj.size Adj.sort_edges
adj_size-sort g u = length-set g.m_edges u _

pub adj_neighbors-sort :
    (g : AdjGraph) (u v : ℕ)
    → u < Adj.size g
    → Permᴰ (Adj.neighbors (Adj.sort_edges g u) v) (Adj.neighbors g v)
adj_neighbors-sort g u v h = elim (eq-cases u v) [
  | inl e ↦
      subst (λ w. Permᴰ (Adj.neighbors (Adj.sort_edges g u) w) (Adj.neighbors g w)) e
        (subst (λ row. Permᴰ row (Adj.neighbors g u)) (sym (neighbors-sort_edges g u h))
          (sort-perm (Adj.neighbors g u)))
  | inr ne ↦
      subst (λ row. Permᴰ row (Adj.neighbors g v)) (sym (neighbors-sort_edges_ne g u h v ne))
        (Permᴰ.refl _)
]

pub adj_sort-IsAscending :
    (g : AdjGraph) (u : ℕ) → u < Adj.size g → IsAscending (Adj.neighbors (Adj.sort_edges g u) u)
adj_sort-IsAscending g u h =
    subst IsAscending (sym (neighbors-sort_edges g u h)) (sort-IsAscending (Adj.neighbors g u))

pub adj_sort_keeps :
    (g : AdjGraph) (u v : ℕ)
    → u < Adj.size g
    → IsAscending (Adj.neighbors g v)
    → IsAscending (Adj.neighbors (Adj.sort_edges g u) v)
adj_sort_keeps g u v h s = elim (eq-cases u v) [
  | inl e ↦
      subst (λ w. IsAscending (Adj.neighbors (Adj.sort_edges g u) w)) e (adj_sort-IsAscending g u h)
  | inr ne ↦ subst IsAscending (sym (neighbors-sort_edges_ne g u h v ne)) s
]

pub adj_find-mem :
    (g : AdjGraph) (u v : ℕ)
    → IsAscending (Adj.neighbors g u)
    → (Adj.find_edge_sorted g u v ≡ true) ↔ Memᴰ v (Adj.neighbors g u)
unfolding Adj.find_edge_sorted Adj.neighbors
adj_find-mem g u v s = binary_search-mem (Adj.neighbors g u) v s

abbrev pub adj_sorts_edges : (sched : Schedule) → SortsEdges (adj_graph sched)
adj_sorts_edges sched = record {
  IsSearchable = λ g u. IsAscending (Adj.neighbors g u);
  size-sort = adj_size-sort;
  neighbors-sort = adj_neighbors-sort;
  sort-IsSearchable = adj_sort-IsAscending;
  sort_keeps_IsSearchable = adj_sort_keeps;
  find-mem = adj_find-mem;
}
