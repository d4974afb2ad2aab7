-- ===== src/Graph/Tests.antt =====
-- Runs of the graph representations, and their theorems at concrete inputs.
use graph_log_sketch.Base.{
  ℕ, ◌+◌, ◌<◌, max, ◌≡◌, ◌↔◌, refl, true, false, List, [], ◌∷◌, ◌++◌, Memᴰ, ◌≤◌, arith,
}
use graph_log_sketch.Base.DoAll.{pairwise_swapped}
use graph_log_sketch.Graph.Walk.{IsClosed}
use graph_log_sketch.Graph.Adj
use graph_log_sketch.Graph.Adj.{AdjGraph, adj_graph, max_vertex_id}
use graph_log_sketch.Graph.Adj.Laws.{
  size-ingest, neighbors-ingest, ingest-IsClosed, max_vertex_id-least, IsClosed-rows,
}
use graph_log_sketch.Graph.Adj.Inserted.{inserted, Below}
use graph_log_sketch.Graph.Adj.Sorted.{find_edge_sorted_iff}
use graph_log_sketch.Graph.Csr
use graph_log_sketch.Graph.Csr.{CsrGraph, PrefixSum, inclusive_scan}
use graph_log_sketch.Graph.Csr.Laws.{post_ingest-refines_adj, sort_edges_idle}

abbrev old : AdjGraph
old = record { m_edges = (1 ∷ []) ∷ [] ∷ [] }

abbrev batch : List (ℕ × List ℕ)
batch = (0, 3 ∷ 1 ∷ []) ∷ (2, []) ∷ (1, 4 ∷ []) ∷ []

ingest_run :
    Adj.ingest pairwise_swapped old batch
    ≡ record { m_edges = (1 ∷ 3 ∷ 1 ∷ []) ∷ (4 ∷ []) ∷ [] ∷ [] ∷ [] ∷ [] }
unfolding Adj.ingest
ingest_run = refl

small : max_vertex_id batch + 1 < 18446744073709551616
unfolding max_vertex_id
small = omega arith

size-ingest_example :
    Adj.size (Adj.ingest pairwise_swapped old batch) ≡ max (Adj.size old) (max_vertex_id batch + 1)
size-ingest_example = size-ingest pairwise_swapped old batch small

neighbors-ingest_example :
    Adj.neighbors (Adj.ingest pairwise_swapped old batch) 0
    ≡ Adj.neighbors old 0 ++ inserted batch 0
neighbors-ingest_example =
    neighbors-ingest pairwise_swapped old batch small (refl, (refl, (refl, tt))) 0

old_closed : IsClosed (adj_graph pairwise_swapped) old
unfolding Adj.size
old_closed = IsClosed-rows pairwise_swapped old (omega arith)

ingest-IsClosed_example :
    IsClosed (adj_graph pairwise_swapped) (Adj.ingest pairwise_swapped old batch)
ingest-IsClosed_example = ingest-IsClosed pairwise_swapped old batch small old_closed

max_vertex_id-least_example : Below 7 batch ↔ (max_vertex_id batch ≤ 7)
max_vertex_id-least_example = max_vertex_id-least 7 batch

find_edge_sorted_iff_example :
    (Adj.find_edge_sorted (Adj.sort_edges (Adj.ingest pairwise_swapped old batch) 0) 0 3 ≡ true)
    ↔ Memᴰ 3 (Adj.neighbors (Adj.ingest pairwise_swapped old batch) 0)
unfolding Adj.ingest Adj.size
find_edge_sorted_iff_example =
    find_edge_sorted_iff (Adj.ingest pairwise_swapped old batch) 0 (omega arith) 3

-- A prefix sum that meets the documented behaviour.
abbrev scans : PrefixSum
scans = record {
  compute_prefix_sum_serially = λ first op join rows. inclusive_scan first op rows;
  compute_prefix_sum = λ first op join rows. inclusive_scan first op rows;
  serially_scans = λ first op join rows. refl;
  parallel_scans = λ first op join rows fit assoc. refl;
}

abbrev built_from : CsrGraph
built_from = record {
  adj = record { m_edges = (2 ∷ 1 ∷ []) ∷ [] ∷ (0 ∷ []) ∷ [] };
  m_vertices = 0 ∷ [];
  m_edges_compact = [];
}

post_ingest_run : Csr.post_ingest scans pairwise_swapped built_from ≡ record {
  adj = built_from.adj;
  m_vertices = 0 ∷ 2 ∷ 2 ∷ 3 ∷ [];
  m_edges_compact = 2 ∷ 1 ∷ 0 ∷ [];
}
unfolding Csr.post_ingest Csr.transmute Csr.scan_op
post_ingest_run = refl

post_ingest-refines_adj_example :
    (Csr.size (Csr.post_ingest scans pairwise_swapped built_from) ≡ Adj.size built_from.adj)
    × ((src : ℕ)
        → src < Adj.size built_from.adj
        → (Csr.neighbors (Csr.post_ingest scans pairwise_swapped built_from) src
            ≡ Adj.neighbors built_from.adj src)
          × (Csr.get_out_degree (Csr.post_ingest scans pairwise_swapped built_from) src
              ≡ Adj.get_out_degree built_from.adj src))
unfolding Csr.Offsets.offset
post_ingest-refines_adj_example =
    post_ingest-refines_adj scans pairwise_swapped built_from refl (omega arith) (omega arith)

-- The edge from 0 to 1 is there, and the search misses it after `sort_edges`.
abbrev built : CsrGraph
built = record {
  adj = built_from.adj;
  m_vertices = 0 ∷ 2 ∷ 2 ∷ 3 ∷ [];
  m_edges_compact = 2 ∷ 1 ∷ 0 ∷ [];
}

sorted_search_misses : Csr.find_edge_sorted (Csr.sort_edges built 0) 0 1 ≡ false
unfolding Csr.find_edge_sorted Csr.sort_edges
sorted_search_misses = refl

sort_edges_idle_example : Csr.sort_edges built 0 ≡ built
sort_edges_idle_example = sort_edges_idle built 0
