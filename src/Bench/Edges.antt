-- ===== src/Bench/Edges.antt =====
-- The main loop of microbench/edit_scalability_large.cpp: the edges that reach the graph.
use graph_log_sketch.Base.{
  ℕ, zero, suc, ◌+◌, ◌-◌, ◌*◌, ◌≤◌, ◌<◌, ◌≡◌, refl, ap, ◌∙◌, inl, inr, List, [], ◌∷◌, foldl, arith,
  ltb, leb, if◌then◌else◌, Bool-cases, length, get_or,
}
use native.Mathlib.Nat.{add-mul}
use graph_log_sketch.Base.DoAll.{Schedule, range_from, range}
use graph_log_sketch.Base.Sums.{count, sum, sum-perm, sum-split}
use graph_log_sketch.Graph.{u64_mod}
use graph_log_sketch.Graph.Adj
use graph_log_sketch.Graph.Adj.{AdjGraph, max_vertex_id}
use graph_log_sketch.Graph.Adj.Laws.{neighbors-ingest, max_vertex_id-least}
use graph_log_sketch.Graph.Adj.Inserted.{inserted, Below, sources}
use graph_log_sketch.Base.Sets.{HasNoRepeats}
use graph_log_sketch.Bench.{
  add_edge, prepare_batch, edges_per_batch, batch_bound, run_batch, run_batches, run,
}
use graph_log_sketch.Bench.Ranges.{
  count-append, per_batch-covers, batch_bound-zero, batch_bound-last,
}
use graph_log_sketch.Bench.Counts.{
  is_edge, FitsBelow, add_edge-count, add_edge-Below, add_edge-HasNoRepeats, get_or-fits,
}

-- One if the edge is the one from `v` to `d`.
module _ (sched : Schedule) (file : List (ℕ × ℕ)) (fits : FitsBelow 18446744073709551614 file) where
  abbrev take_edge : List (ℕ × List ℕ) → ℕ → List (ℕ × List ℕ)
  take_edge adj_map i = add_edge adj_map (get_or file i (0, 0))

  abbrev pub edge_at : ℕ → ℕ → ℕ → ℕ
  edge_at v d i = is_edge v d (get_or file i (0, 0))

  take_edges-count :
      (v d : ℕ) (is : List ℕ) (adj_map : List (ℕ × List ℕ))
      → count d (inserted (foldl take_edge adj_map is) v)
        ≡ count d (inserted adj_map v) + sum is (edge_at v d)
  take_edges-count v d [] adj_map = omega arith
  take_edges-count v d (i ∷ is) adj_map =
      let e = get_or file i (0, 0) in
      omega
        (arith, take_edges-count v d is (take_edge adj_map i), add_edge-count v d adj_map e.0 e.1)

  take_edges-Below :
      (is : List ℕ) (adj_map : List (ℕ × List ℕ))
      → Below 18446744073709551614 adj_map
      → Below 18446744073709551614 (foldl take_edge adj_map is)
  take_edges-Below [] adj_map h = h
  take_edges-Below (i ∷ is) adj_map h =
      let (p, q) = get_or-fits 18446744073709551614 file i fits in
      take_edges-Below is (take_edge adj_map i) (add_edge-Below _ adj_map _ _ p q h)

  batch-count :
      (v d first last : ℕ)
      → count d (inserted (prepare_batch sched file first last) v)
        ≡ sum (range_from first (last - first)) (edge_at v d)
  unfolding prepare_batch inserted
  batch-count v d first last = elim (Bool-cases (leb last first)) [
    | inl e ↦ let none : last - first ≡ 0 = ground arith in rw (e, none) refl
    | inr e ↦ rw e (
        omega (
          arith,
          take_edges-count v d (sched.order (range_from first (last - first))) [],
          sum-perm (edge_at v d) (sched.order-perm (range_from first (last - first))),
        ))
  ]

  batch-Below : (first last : ℕ) → Below 18446744073709551614 (prepare_batch sched file first last)
  unfolding prepare_batch
  batch-Below first last = elim (Bool-cases (leb last first)) [
    | inl e ↦ rw e tt
    | inr e ↦ rw e (take_edges-Below (sched.order (range_from first (last - first))) [] tt)
  ]

  take_edges-HasNoRepeats :
      (is : List ℕ) (adj_map : List (ℕ × List ℕ))
      → HasNoRepeats (sources adj_map)
      → HasNoRepeats (sources (foldl take_edge adj_map is))
  take_edges-HasNoRepeats [] adj_map h = h
  take_edges-HasNoRepeats (i ∷ is) adj_map h =
      take_edges-HasNoRepeats is (take_edge adj_map i) (add_edge-HasNoRepeats adj_map _ _ h)

  batch-HasNoRepeats :
      (first last : ℕ) → HasNoRepeats (sources (prepare_batch sched file first last))
  unfolding prepare_batch
  batch-HasNoRepeats first last = elim (Bool-cases (leb last first)) [
    | inl e ↦ rw e tt
    | inr e ↦ rw e (take_edges-HasNoRepeats (sched.order (range_from first (last - first))) [] tt)
  ]

  -- Ingesting the batch of a range adds the edges of the range.
  ingest-count :
      (v d first last : ℕ) (g : AdjGraph)
      → count d (
          Adj.neighbors
            (Adj.post_ingest (Adj.ingest sched g (prepare_batch sched file first last)))
            v)
        ≡ count d (Adj.neighbors g v) + sum (range_from first (last - first)) (edge_at v d)
  unfolding Adj.post_ingest
  ingest-count v d first last g =
      let batch = prepare_batch sched file first last in
      let small = (max_vertex_id-least 18446744073709551614 batch).0 (batch-Below first last) in
      ap (count d) (neighbors-ingest sched g batch (omega arith) (batch-HasNoRepeats first last) v)
      ∙ count-append d (Adj.neighbors g v) (inserted batch v)
      ∙ omega (arith, batch-count v d first last)

  module _ (algo : AdjGraph → AdjGraph)
      (keeps : (g : AdjGraph) (v d : ℕ)
        → count d (Adj.neighbors (algo g) v) ≡ count d (Adj.neighbors g v))
      (pre per : ℕ) (v d : ℕ) where
    abbrev bound : ℕ → ℕ
    bound b = batch_bound (length file) pre per b

    bound_mono : (b k : ℕ) → pre + (b + k) * per < u64_mod → bound b ≤ bound (b + k)
    unfolding batch_bound
    bound_mono b k h =
        let grows : (b + k) * per ≡ b * per + k * per = add-mul b k per in omega arith

    sum-join :
        (i j k : ℕ)
        → i ≤ j
        → j ≤ k
        → sum (range_from i (j - i)) (edge_at v d) + sum (range_from j (k - j)) (edge_at v d)
          ≡ sum (range_from i (k - i)) (edge_at v d)
    sum-join i j k p q =
        let whole : k - i ≡ (j - i) + (k - j) = omega arith in
        let middle : i + (j - i) ≡ j = omega arith in
        rw (whole, sum-split i (j - i) (k - j) (edge_at v d), middle) refl

    run_batches-count :
        (b left : ℕ) (g : AdjGraph)
        → pre + (b + left) * per < u64_mod
        → count d (Adj.neighbors (run_batches sched algo file pre per b left g) v)
          ≡ count d (Adj.neighbors g v)
            + sum (range_from (bound b) (bound (b + left) - bound b)) (edge_at v d)
    unfolding run_batches run_batch
    run_batches-count b zero g h =
        let same : b + 0 ≡ b = omega arith in
        let none : bound b - bound b ≡ 0 = omega arith in rw (same, none) (omega arith)
    run_batches-count b (suc left) g h =
        let shift : b + suc left ≡ b + 1 + left = omega arith in
        let fits_later = rw shift at h in
        let fits_next : pre + (b + 1) * per < u64_mod = omega (arith, add-mul (b + 1) left per) in
        let one =
          keeps
            (Adj.post_ingest
              (Adj.ingest sched g (prepare_batch sched file (bound b) (bound (b + 1)))))
            v d
          ∙ ingest-count v d (bound b) (bound (b + 1)) g in
        rw shift (
          omega (
            arith,
            run_batches-count (b + 1) left (run_batch sched algo file pre per g b) fits_later,
            one,
            sum-join (bound b) (bound (b + 1)) (bound (b + 1 + left)) (bound_mono b 1 fits_next)
                (bound_mono (b + 1) left fits_later),
          ))

  abbrev loaded : ℕ → AdjGraph → AdjGraph
  loaded pre g =
      if ltb 0 pre then Adj.post_ingest (Adj.ingest sched g (prepare_batch sched file 0 pre)) else g

  loaded-count :
      (pre : ℕ) (g : AdjGraph) (v d : ℕ)
      → count d (Adj.neighbors (loaded pre g) v)
        ≡ count d (Adj.neighbors g v) + sum (range_from 0 (pre - 0)) (edge_at v d)
  loaded-count pre g v d = elim (Bool-cases (ltb 0 pre)) [
    | inl e ↦ rw e (ingest-count v d 0 pre g)
    | inr e ↦ let none : pre - 0 ≡ 0 = ground arith in rw (e, none) (omega arith)
  ]

  -- The vertices of the file are below 2^64 - 1, there is a batch at least, at most all edges of
  -- the file are loaded first, there are together fewer edges and batches than 2^64, and the
  -- algorithm keeps the edges of the graph. Then the benchmark adds each edge of the file once:
  -- from v to d the graph has as many edges as before and as there are lines for it in the file.
  -- This holds whatever order the parallel loops take.
  pub run-count :
      (algo : AdjGraph → AdjGraph)
      → ((g : AdjGraph) (v d : ℕ)
          → count d (Adj.neighbors (algo g) v) ≡ count d (Adj.neighbors g v))
      → (pre num_batches : ℕ) (g : AdjGraph) → 0 < num_batches
      → pre ≤ length file
      → length file + num_batches < u64_mod
      → (v d : ℕ)
      → count d (Adj.neighbors (run sched algo file pre num_batches g) v)
        ≡ count d (Adj.neighbors g v) + sum (range (length file)) (edge_at v d)
  unfolding run
  run-count algo keeps pre num_batches g some_batch inside small v d =
      let n = length file in
      let per = edges_per_batch n pre num_batches in
      let (fits_all, covers) = per_batch-covers n pre num_batches some_batch inside small in
      let begins : batch_bound n pre per 0 ≡ pre =
        batch_bound-zero n pre per inside (omega arith) in
      let ends : batch_bound n pre per (0 + num_batches) ≡ n =
        batch_bound-last n pre per (0 + num_batches) fits_all covers in
      let whole : n - 0 ≡ n = omega arith in
      run_batches-count algo keeps pre per v d 0 num_batches (loaded pre g) fits_all
      ∙ omega (
        arith,
        ap (λ k. sum (range_from 0 k) (edge_at v d)) whole,
        ap (λ i. sum (range_from i (n - i)) (edge_at v d)) begins,
        ap
            (λ j.
              sum (range_from (batch_bound n pre per 0) (j - batch_bound n pre per 0))
                (edge_at v d))
            ends,
        loaded-count pre g v d,
        sum-join algo keeps pre per v d 0 pre n (omega arith) inside,
      )
