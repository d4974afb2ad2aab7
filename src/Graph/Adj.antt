-- ===== src/Graph/Adj.antt =====
-- include/scea/graph/adj.hpp: the adjacency vector, which the CSR classes extend.
pub mod Inserted
pub mod Laws
pub mod Sorted
use graph_log_sketch.Base.{
  ℕ, suc, ◌+◌, ◌-◌, ◌%◌, max, Bool, List, [], ◌∷◌, ◌++◌, foldl, ltb, if◌then◌else◌, length, get_or,
  set, take, replicate,
}
use graph_log_sketch.Base.DoAll.{Schedule, range}
use graph_log_sketch.Graph.{MutableGraph, u64_mod}
use graph_log_sketch.Graph.Sorting.{sort, binary_search}

-- `m_edges[src]` is the list of the targets of `src`.
pub record AdjGraph : Type 0 where
  pub m_edges : List (List ℕ)

-- `std::max_element` of a list that is not empty.
abbrev pub max_element : ℕ → List ℕ → ℕ
max_element m [] = m
max_element m (x ∷ xs) = max_element (max m x) xs

-- The body of the loop `FindMaxVertex`: `max_vertex_id.update` with the source and, if there is
-- one, with the largest target.
pub update_max : ℕ → ℕ × List ℕ → ℕ
update_max m (src, []) = max m src
update_max m (src, d ∷ dsts) = max (max m src) (max_element d dsts)

-- `galois::GReduceMax` starts from 0; a maximum does not depend on the order of the loop.
unfoldable pub max_vertex_id : List (ℕ × List ℕ) → ℕ
unfolding update_max
max_vertex_id edges = foldl update_max 0 edges

-- `std::vector::resize`, which fills with empty rows.
abbrev pub resize : ℕ → List (List ℕ) → List (List ℕ)
resize n rows = if ltb n (length rows) then take n rows else rows ++ replicate (n - length rows) []

-- The body of the loop `Ingest`: the targets are appended to `m_edges[src]`.
pub append_row : List (List ℕ) → ℕ × List ℕ → List (List ℕ)
append_row rows (src, dsts) = set rows src (get_or rows src [] ++ dsts)

-- The body for the pair at an index.
pub ingest_pair : List (ℕ × List ℕ) → List (List ℕ) → ℕ → List (List ℕ)
unfolding append_row
ingest_pair edges rows i = append_row rows (get_or edges i (0, []))

unfoldable pub size : AdjGraph → ℕ
size g = length g.m_edges

unfoldable pub neighbors : AdjGraph → ℕ → List ℕ
neighbors g src = get_or g.m_edges src []

unfoldable pub get_out_degree : AdjGraph → ℕ → ℕ
get_out_degree g src = length (get_or g.m_edges src [])

-- The loop `Ingest` takes the pairs in any order. It has no lock: one pair is one step, which is so
-- in the code if no other pair has the same source.
unfoldable pub ingest : Schedule → AdjGraph → List (ℕ × List ℕ) → AdjGraph
unfolding max_vertex_id ingest_pair
ingest sched g edges = record {
  m_edges =
      let n = max (length g.m_edges) ((max_vertex_id edges + 1) % u64_mod) in
      foldl (ingest_pair edges) (resize n g.m_edges) (sched.order (range (length edges)));
}

unfoldable pub post_ingest : AdjGraph → AdjGraph
post_ingest g = g

unfoldable pub sort_edges : AdjGraph → ℕ → AdjGraph
unfolding sort
sort_edges g src = record { m_edges = set g.m_edges src (sort (get_or g.m_edges src [])) }

unfoldable pub find_edge_sorted : AdjGraph → ℕ → ℕ → Bool
unfolding binary_search
find_edge_sorted g src dst =
    let row = get_or g.m_edges src [] in binary_search row 0 (length row) dst

abbrev pub adj_graph : Schedule → MutableGraph AdjGraph
adj_graph sched = record {
  size = size;
  get_out_degree = get_out_degree;
  ingest = ingest sched;
  post_ingest = post_ingest;
  neighbors = neighbors;
  sort_edges = sort_edges;
  find_edge_sorted = find_edge_sorted;
}
