-- ===== src/Graph/Csr.antt =====
-- include/scea/graph/csr.hpp: the custom CSR, which is rebuilt from the adjacency vector after each
-- batch.
pub mod Offsets
pub mod Laws
use graph_log_sketch.Base.{
  ℕ, zero, suc, ◌+◌, ◌-◌, ◌%◌, ◌≡◌, Bool, List, [], ◌∷◌, ◌++◌, foldl, ltb, if◌then◌else◌, length,
  get_or, set, take, replicate,
}
use graph_log_sketch.Base.DoAll.{Schedule, range}
use graph_log_sketch.Graph.{MutableGraph, u64_mod}
use graph_log_sketch.Graph.Sorting.{sort_range, binary_search}
use graph_log_sketch.Graph.Adj
use graph_log_sketch.Graph.Adj.{AdjGraph}

-- `class CSR : public AdjGraph`.
pub record CsrGraph : Type 0 where
  pub adj : AdjGraph
  pub m_vertices : List ℕ
  pub m_edges_compact : List ℕ

unfoldable pub empty : CsrGraph
empty = record { adj = record { m_edges = [] }; m_vertices = 0 ∷ []; m_edges_compact = [] }

-- The three functions that the class hands to `galois::PrefixSum`.
unfoldable pub transmute : List ℕ → ℕ
transmute p = length p

unfoldable pub scan_op : List ℕ → ℕ → ℕ
scan_op p l = (length p + l) % u64_mod

unfoldable pub combiner : ℕ → ℕ → ℕ
combiner f s = (f + s) % u64_mod

-- An inclusive prefix sum, by its defining equations.
abbrev pub scan_from : (List ℕ → ℕ → ℕ) → ℕ → List (List ℕ) → List ℕ
scan_from op l [] = []
scan_from op l (p ∷ ps) = op p l ∷ scan_from op (op p l) ps

abbrev pub inclusive_scan : (List ℕ → ℕ) → (List ℕ → ℕ → ℕ) → List (List ℕ) → List ℕ
inclusive_scan first op [] = []
inclusive_scan first op (p ∷ ps) = first p ∷ scan_from op (first p) ps

-- `galois::PrefixSum`, which is not part of the repository: both ways to compute write the
-- inclusive prefix sum, the parallel one if the three functions fit together.
pub record PrefixSum : Type 0 where
  pub compute_prefix_sum_serially :
      (List ℕ → ℕ) → (List ℕ → ℕ → ℕ) → (ℕ → ℕ → ℕ) → List (List ℕ) → List ℕ
  pub compute_prefix_sum : (List ℕ → ℕ) → (List ℕ → ℕ → ℕ) → (ℕ → ℕ → ℕ) → List (List ℕ) → List ℕ
  pub serially_scans :
      (first : List ℕ → ℕ) (op : List ℕ → ℕ → ℕ) (join : ℕ → ℕ → ℕ) (rows : List (List ℕ))
      → compute_prefix_sum_serially first op join rows ≡ inclusive_scan first op rows
  pub parallel_scans :
      (first : List ℕ → ℕ) (op : List ℕ → ℕ → ℕ) (join : ℕ → ℕ → ℕ) (rows : List (List ℕ))
      → ((p : List ℕ) (l : ℕ) → op p l ≡ join (first p) l)
      → ((a b c : ℕ) → join (join a b) c ≡ join a (join b c))
      → compute_prefix_sum first op join rows ≡ inclusive_scan first op rows

abbrev pub parallel_prefix_sum_vertex_threshold : ℕ
parallel_prefix_sum_vertex_threshold = 33554432

-- `std::vector<uint64_t>::resize`.
abbrev pub resize_cells : ℕ → List ℕ → List ℕ
resize_cells n cells =
    if ltb n (length cells) then take n cells else cells ++ replicate (n - length cells) 0

-- `std::copy(src.begin(), src.end(), dst.begin() + at)`.
abbrev pub copy_at : List ℕ → ℕ → List ℕ → List ℕ
copy_at dst at [] = dst
copy_at dst at (x ∷ xs) = copy_at (set dst at x) (suc at) xs

-- `m_vertices.back()`.
abbrev pub back : List ℕ → ℕ
back [] = 0
back (x ∷ []) = x
back (x ∷ y ∷ xs) = back (y ∷ xs)

-- The body of the loop `CreateCSR`.
pub copy_row : List (List ℕ) → List ℕ → List ℕ → ℕ → List ℕ
copy_row rows vertices compact i = copy_at compact (get_or vertices i 0) (get_or rows i [])

module _ (ps : PrefixSum) (sched : Schedule) where
  -- `m_vertices` after the prefix sum.
  pub row_offsets : CsrGraph → List ℕ
  unfolding transmute scan_op combiner
  row_offsets c =
      let n = length c.adj.m_edges in
      copy_at (resize_cells (n + 1) c.m_vertices) 1 (
        if ltb n parallel_prefix_sum_vertex_threshold
        then ps.compute_prefix_sum_serially transmute scan_op combiner c.adj.m_edges
        else ps.compute_prefix_sum transmute scan_op combiner c.adj.m_edges)

  unfoldable pub post_ingest : CsrGraph → CsrGraph
  unfolding row_offsets copy_row
  post_ingest c =
      let n = length c.adj.m_edges in
      let vertices = row_offsets c in
      if ltb 0 n
      then record {
        adj = c.adj;
        m_vertices = vertices;
        m_edges_compact =
            foldl (copy_row c.adj.m_edges vertices) (resize_cells (back vertices) c.m_edges_compact)
              (sched.order (range n));
      }
      else c

unfoldable pub size : CsrGraph → ℕ
size c = length c.m_vertices - 1

unfoldable pub get_out_degree : CsrGraph → ℕ → ℕ
get_out_degree c src =
    (get_or c.m_vertices (src + 1) 0 + u64_mod - get_or c.m_vertices src 0) % u64_mod

-- `ingest` is inherited.
unfoldable pub ingest : Schedule → CsrGraph → List (ℕ × List ℕ) → CsrGraph
ingest sched c edges = record c { adj = Adj.ingest sched c.adj edges }

-- The loop of `for_each_edge` from cell `i`, with the number of rounds that are left.
abbrev pub read_cells : List ℕ → ℕ → ℕ → List ℕ
read_cells cells i zero = []
read_cells cells i (suc k) = get_or cells i 0 ∷ read_cells cells (suc i) k

unfoldable pub neighbors : CsrGraph → ℕ → List ℕ
neighbors c src =
    let first = get_or c.m_vertices src 0 in
    read_cells c.m_edges_compact first (get_or c.m_vertices (src + 1) 0 - first)

-- Both ends of the range that is sorted are `m_vertices[src]`, as in the source.
unfoldable pub sort_edges : CsrGraph → ℕ → CsrGraph
unfolding sort_range
sort_edges c src =
    let first = get_or c.m_vertices src 0 in
    record c { m_edges_compact = sort_range c.m_edges_compact first first }

unfoldable pub find_edge_sorted : CsrGraph → ℕ → ℕ → Bool
unfolding binary_search
find_edge_sorted c src dst =
    binary_search c.m_edges_compact (get_or c.m_vertices src 0) (get_or c.m_vertices (src + 1) 0)
      dst

abbrev pub csr_graph : PrefixSum → Schedule → MutableGraph CsrGraph
csr_graph ps sched = record {
  size = size;
  get_out_degree = get_out_degree;
  ingest = ingest sched;
  post_ingest = post_ingest ps sched;
  neighbors = neighbors;
  sort_edges = sort_edges;
  find_edge_sorted = find_edge_sorted;
}
