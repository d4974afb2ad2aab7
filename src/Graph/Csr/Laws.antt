-- ===== src/Graph/Csr/Laws.antt =====
-- `post_ingest` and `sort_edges` of include/scea/graph/csr.hpp.
use graph_log_sketch.Base.{
  ℕ, zero, suc, ◌+◌, ◌-◌, ◌%◌, ◌≤◌, ◌<◌, ◌≡◌, refl, sym, ap, ap₂, ◌∙◌, inl, inr, List, [], ◌∷◌,
  ◌++◌, foldl, Memᴰ, arith, ltb, lt→ltb, if◌then◌else◌, Bool-cases, eq-cases, length, get_or, take,
  drop,
}
use graph_log_sketch.Base.DoAll.{Schedule, range, range_from, Permᴰ-Memᴰ}
use graph_log_sketch.Graph.{u64_mod}
use graph_log_sketch.Graph.Adj
use graph_log_sketch.Graph.Sorting.{sort_range, sort}
use graph_log_sketch.Graph.Csr.{
  CsrGraph, PrefixSum, transmute, scan_op, combiner, scan_from, inclusive_scan, resize_cells,
  copy_at, back, copy_row, read_cells, parallel_prefix_sum_vertex_threshold, row_offsets,
  post_ingest, size, get_out_degree, neighbors, sort_edges,
}
use graph_log_sketch.Graph.Csr.Offsets.{
  offset, offset-zero, offset-suc, offset_mono, scan_from-offset, length-scan_from, length-copy_at,
  get_or-copy_at_below, get_or-copy_at, length-resize_cells, get_or-resize_cells, back-get_or,
  read_cells-eq, copy_rows-cell,
}
use mathlib.Core.List.Permᴰ

combiner_assoc : (a b c : ℕ) → combiner (combiner a b) c ≡ combiner a (combiner b c)
unfolding combiner
combiner_assoc a b c = omega arith

inclusive_scan-scan_from :
    (rows : List (List ℕ))
    → offset rows (length rows) < u64_mod
    → inclusive_scan transmute scan_op rows ≡ scan_from scan_op 0 rows
unfolding transmute scan_op offset
inclusive_scan-scan_from [] h = refl
inclusive_scan-scan_from (r ∷ rows) h =
    let same : length r ≡ (length r + 0) % u64_mod = omega arith in
    ap (λ l. l ∷ scan_from scan_op l rows) same

scan_op-combiner : (p : List ℕ) (l : ℕ) → scan_op p l ≡ combiner (transmute p) l
unfolding scan_op combiner transmute
scan_op-combiner p l = refl

mem-range_from : (i n x : ℕ) → i ≤ x → x < i + n → Memᴰ x (range_from i n)
mem-range_from i zero x h p = absurd (omega arith)
mem-range_from i (suc n) x h p = elim (eq-cases x i) [
  | inl e ↦ Memᴰ.head e
  | inr ne ↦ Memᴰ.tail (mem-range_from (suc i) n x (omega arith) (omega arith))
]

module _ (ps : PrefixSum) (sched : Schedule) (c : CsrGraph)
    (starts_at_zero : get_or c.m_vertices 0 0 ≡ 0)
    (fits : offset c.adj.m_edges (length c.adj.m_edges) < u64_mod) where
  abbrev rows : List (List ℕ)
  rows = c.adj.m_edges

  prefix_sum-scan_from :
      (if ltb (length rows) parallel_prefix_sum_vertex_threshold
        then ps.compute_prefix_sum_serially transmute scan_op combiner rows
        else ps.compute_prefix_sum transmute scan_op combiner rows)
      ≡ scan_from scan_op 0 rows
  prefix_sum-scan_from =
      elim (Bool-cases (ltb (length rows) parallel_prefix_sum_vertex_threshold)) [
        | inl e ↦
            rw e (
              ps.serially_scans transmute scan_op combiner rows
              ∙ inclusive_scan-scan_from rows fits)
        | inr e ↦ rw e (
            ps.parallel_scans transmute scan_op combiner rows scan_op-combiner combiner_assoc
            ∙ inclusive_scan-scan_from rows fits)
      ]

  -- Either way to compute the prefix sum writes the offsets of the rows.
  row_offsets-copy_at :
      row_offsets ps sched c
      ≡ copy_at (resize_cells (length rows + 1) c.m_vertices) 1 (scan_from scan_op 0 rows)
  unfolding row_offsets
  row_offsets-copy_at =
      ap (copy_at (resize_cells (length rows + 1) c.m_vertices) 1) prefix_sum-scan_from

  length-row_offsets : length (row_offsets ps sched c) ≡ suc (length rows)
  length-row_offsets =
      ap length row_offsets-copy_at
      ∙ length-copy_at _ 1 (scan_from scan_op 0 rows)
      ∙ length-resize_cells (length rows + 1) c.m_vertices
      ∙ omega arith

  pub get_or-row_offsets :
      (i : ℕ) → i ≤ length rows → get_or (row_offsets ps sched c) i 0 ≡ offset rows i
  get_or-row_offsets zero h =
      ap (λ v. get_or v 0 0) row_offsets-copy_at
      ∙ get_or-copy_at_below _ 1 (scan_from scan_op 0 rows) 0 (omega arith)
      ∙ ap (λ k. get_or (resize_cells k c.m_vertices) 0 0) (omega arith)
      ∙ get_or-resize_cells (length rows) c.m_vertices
      ∙ starts_at_zero
      ∙ sym (offset-zero rows)
  get_or-row_offsets (suc i) h =
      ap (λ v. get_or v (suc i) 0) row_offsets-copy_at
      ∙ ap
          (λ k.
            get_or
              (copy_at (resize_cells (length rows + 1) c.m_vertices) 1 (scan_from scan_op 0 rows)) k
              0)
          (omega arith)
      ∙ get_or-copy_at (resize_cells (length rows + 1) c.m_vertices) 1 (scan_from scan_op 0 rows) i
          (omega
            (arith, length-resize_cells (length rows + 1) c.m_vertices, length-scan_from rows 0))
          (omega (arith, length-scan_from rows 0))
      ∙ scan_from-offset rows 0 i (omega arith) (omega arith)
      ∙ omega arith

  module _ (src : ℕ) (inside : src < length rows) where
    compact_cells : List ℕ
    compact_cells =
        foldl (copy_row rows (row_offsets ps sched c))
          (resize_cells (back (row_offsets ps sched c)) c.m_edges_compact)
          (sched.order (range (length rows)))

    abbrev row : List ℕ
    row = get_or rows src []

    compact_cells-row :
        (k : ℕ) → k < length row → get_or compact_cells (offset rows src + k) 0 ≡ get_or row k 0
    unfolding compact_cells
    compact_cells-row k h =
        copy_rows-cell rows (row_offsets ps sched c) get_or-row_offsets src k inside h
          (sched.order (range (length rows)))
          (resize_cells (back (row_offsets ps sched c)) c.m_edges_compact)
          (length-resize_cells _ c.m_edges_compact
            ∙ back-get_or (length rows) (row_offsets ps sched c) length-row_offsets
            ∙ get_or-row_offsets (length rows) (omega arith))
          (inl (
            Permᴰ-Memᴰ (Permᴰ.symm (sched.order-perm _))
              (mem-range_from 0 (length rows) src (omega arith) (omega arith))))

    row_ends : get_or (row_offsets ps sched c) (src + 1) 0 ≡ offset rows src + length row
    row_ends =
        ap (λ k. get_or (row_offsets ps sched c) k 0) (omega arith)
        ∙ get_or-row_offsets (suc src) (omega arith)
        ∙ offset-suc rows src

    neighbors-post_ingest : neighbors (post_ingest ps sched c) src ≡ Adj.neighbors c.adj src
    unfolding neighbors post_ingest Adj.neighbors compact_cells
    neighbors-post_ingest = rw (lt→ltb 0 (length rows) (omega arith)) (
        ap₂ (read_cells compact_cells) (get_or-row_offsets src (omega arith))
          (omega (arith, row_ends, get_or-row_offsets src (omega arith)))
        ∙ read_cells-eq compact_cells (offset rows src) row compact_cells-row)

    get_out_degree-post_ingest :
        get_out_degree (post_ingest ps sched c) src ≡ Adj.get_out_degree c.adj src
    unfolding get_out_degree post_ingest Adj.get_out_degree
    get_out_degree-post_ingest = rw (lt→ltb 0 (length rows) (omega arith)) (
        omega (
          arith,
          row_ends,
          get_or-row_offsets src (omega arith),
          offset-suc rows src,
          offset_mono rows (suc src) (length rows),
        ))

  -- If the first offset is 0 and fewer than 2^64 edges are stored, the first offset is 0 after
  -- `post_ingest`, which is what the function asserts.
  pub starts_at_zero-post_ingest : get_or (post_ingest ps sched c).m_vertices 0 0 ≡ 0
  unfolding post_ingest
  starts_at_zero-post_ingest = elim (Bool-cases (ltb 0 (length rows))) [
    | inl e ↦ rw e (get_or-row_offsets 0 (omega arith) ∙ offset-zero rows)
    | inr e ↦ rw e starts_at_zero
  ]

  -- If the adjacency vector is not empty, the first offset is 0 and fewer than 2^64 edges are
  -- stored, then after `post_ingest` the CSR has the vertices of the adjacency vector, and for each
  -- of them the loop of `for_each_edge` meets exactly its row, in the row's order, and the degree is
  -- the length of the row. This holds whichever way the prefix sum is computed and in whatever order
  -- the rows are copied.
  pub post_ingest-refines_adj :
      0 < length rows
      → (size (post_ingest ps sched c) ≡ Adj.size c.adj)
        × ((src : ℕ)
            → src < Adj.size c.adj
            → (neighbors (post_ingest ps sched c) src ≡ Adj.neighbors c.adj src)
              × (get_out_degree (post_ingest ps sched c) src ≡ Adj.get_out_degree c.adj src))
  unfolding size Adj.size post_ingest
  post_ingest-refines_adj h = (
    rw (lt→ltb 0 (length rows) h) (omega (arith, length-row_offsets)),
    λ src inside. (neighbors-post_ingest src inside, get_out_degree-post_ingest src inside),
  )

-- Without edges nothing is rebuilt.
pub post_ingest_empty :
    (ps : PrefixSum) (sched : Schedule) (c : CsrGraph)
    → c.adj.m_edges ≡ []
    → post_ingest ps sched c ≡ c
unfolding post_ingest
post_ingest_empty ps sched c e = ground arith

take-append-drop : (n : ℕ) (xs : List ℕ) → take n xs ++ drop n xs ≡ xs
take-append-drop zero xs = refl
take-append-drop (suc n) [] = refl
take-append-drop (suc n) (x ∷ xs) = rw (take-append-drop n xs)

-- `sort_edges` changes nothing, whatever the graph and the vertex: the range that it sorts is
-- empty, since both of its ends are `m_vertices[src]`.
pub sort_edges_idle : (c : CsrGraph) (src : ℕ) → sort_edges c src ≡ c
unfolding sort_edges sort_range sort
sort_edges_idle c src =
    let first = get_or c.m_vertices src 0 in
    let none_left : first - first ≡ 0 = omega arith in
    ap (λ cells. record c { m_edges_compact = cells })
      (rw none_left (take-append-drop first c.m_edges_compact))
