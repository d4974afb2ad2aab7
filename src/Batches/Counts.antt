-- ===== src/Batches/Counts.antt =====
-- microbench/edit_scalability.cpp: how often the batches of a file bring an edge.
use graph_log_sketch.Base.{
  ℕ, ◌+◌, ◌%◌, ◌≤◌, ◌<◌, ◌≡◌, refl, ap, ◌∙◌, ◌↔◌, Option, List, [], ◌∷◌, foldl, All, arith, ltb,
  if◌then◌else◌, length,
}
use graph_log_sketch.Base.Sums.{count}
use graph_log_sketch.Graph.{u64_mod}
use graph_log_sketch.Graph.Adj
use graph_log_sketch.Graph.Adj.{AdjGraph, adj_graph, max_vertex_id}
use graph_log_sketch.Graph.Adj.Laws.{neighbors-ingest, max_vertex_id-least}
use graph_log_sketch.Graph.Adj.Inserted.{inserted, Below, sources}
use graph_log_sketch.Base.Sets.{HasNoRepeats}
use graph_log_sketch.Base.DoAll.{Schedule}
use graph_log_sketch.Bench.Ranges.{count-append}
use graph_log_sketch.Bench.Counts.{is_edge, add_edge-count, add_edge-Below, add_edge-HasNoRepeats}
use graph_log_sketch.Batches.Streams.{is_empty}
use graph_log_sketch.Batches.Writer.{Edge}
use graph_log_sketch.Batches.Reader.{ParsedBatch, no_edges, insert_edge, run_parsed}
use graph_log_sketch.Batches.Counter.{Counts, count_target}
use graph_log_sketch.Batches.Written.{AllEnds}
use graph_log_sketch.Batches.Totals.{total, all_edges, total-append}
use graph_log_sketch.Batches.RoundTrip.{insert, parsed}
use graph_log_sketch.Batches.Recount.{count_edge}

pub count_edges-num_edges :
    (es : List Edge) (c : Counts)
    → c.num_edges < u64_mod
    → (foldl count_edge c es).num_edges ≡ (c.num_edges + total (λ _. 1) es) % u64_mod
unfolding count_target
count_edges-num_edges [] c h = omega arith
count_edges-num_edges (e ∷ es) c h =
    count_edges-num_edges es (count_edge c e) (omega arith) ∙ omega arith

abbrev pub beyond : ℕ → Edge → ℕ
beyond b (src, dst) = (if ltb b src then 1 else 0) + (if ltb b dst then 1 else 0)

pub count_edges-max :
    (b : ℕ) (es : List Edge) (c : Counts)
    → ((foldl count_edge c es).max_vertex_id ≤ b)
      ↔ ((c.max_vertex_id ≤ b) × (total (beyond b) es ≡ 0))
unfolding count_target
count_edges-max b [] c = (λ h. (h, refl), λ h. h.0)
count_edges-max b (e ∷ es) c =
    let (to, from) = count_edges-max b es (count_edge c e) in ground arith

pub total-length : (es : List Edge) → total (λ _. 1) es ≡ length es
total-length [] = refl
total-length (e ∷ es) = omega (arith, total-length es)

pub total-beyond : (b : ℕ) (es : List Edge) → (total (beyond b) es ≡ 0) ↔ AllEnds (λ v. v ≤ b) es
total-beyond b [] = (λ h. tt, λ h. refl)
total-beyond b ((src, dst) ∷ es) =
    let (to, from) = total-beyond b es in
    (λ h. ((ground arith, ground arith), to (omega arith)), λ ((p, q), h). ground arith)

inserted_none : (v d n : ℕ) → count d (inserted [] v) + n ≡ n
unfolding inserted
inserted_none v d n = omega arith

-- Ingesting a batch that has edges, and nothing otherwise.
ingested-count :
    (sched : Schedule) (g : AdjGraph) (ins : List (ℕ × List ℕ))
    → Below 18446744073709551614 ins
    → HasNoRepeats (sources ins)
    → (v d : ℕ)
    → count d
        (Adj.neighbors (if is_empty ins then g else Adj.post_ingest (Adj.ingest sched g ins)) v)
      ≡ count d (Adj.neighbors g v) + count d (inserted ins v)
unfolding Adj.post_ingest inserted
ingested-count sched g [] below distinct v d = omega arith
ingested-count sched g (i ∷ ins) below distinct v d =
    let fits = (max_vertex_id-least 18446744073709551614 (i ∷ ins)).0 below in
    ap (count d) (neighbors-ingest sched g (i ∷ ins) (omega arith) distinct v)
    ∙ count-append d (Adj.neighbors g v) (inserted (i ∷ ins) v)

-- The insertions of a parsed batch.
module _ (sched : Schedule) (checked : Option ℕ) (junk : ℕ) where
  insertions-count :
      (v d : ℕ) (es : List Edge) (p : ParsedBatch)
      → count d (inserted (foldl (insert checked junk) p es).insertions v)
        ≡ count d (inserted p.insertions v) + total (is_edge v d) es
  unfolding insert_edge
  insertions-count v d [] p = omega arith
  insertions-count v d ((src, dst) ∷ es) p = omega (
    arith,
    insertions-count v d es (insert_edge src p dst),
    add_edge-count v d p.insertions src dst,
  )

  insertions-Below :
      (b : ℕ) (es : List Edge) (p : ParsedBatch)
      → AllEnds (λ v. v ≤ b) es
      → Below b p.insertions
      → Below b (foldl (insert checked junk) p es).insertions
  unfolding insert_edge
  insertions-Below b [] p all h = h
  insertions-Below b ((src, dst) ∷ es) p ((s_le, d_le), all) h =
      insertions-Below b es (insert_edge src p dst) all
        (add_edge-Below b p.insertions src dst s_le d_le h)

  insertions-HasNoRepeats :
      (es : List Edge) (p : ParsedBatch)
      → HasNoRepeats (sources p.insertions)
      → HasNoRepeats (sources (foldl (insert checked junk) p es).insertions)
  unfolding insert_edge
  insertions-HasNoRepeats [] p h = h
  insertions-HasNoRepeats ((src, dst) ∷ es) p h =
      insertions-HasNoRepeats es (insert_edge src p dst)
        (add_edge-HasNoRepeats p.insertions src dst h)

  -- A parsed batch adds its edges to the graph.
  run_parsed-count :
      (algo : AdjGraph → AdjGraph)
      → ((g : AdjGraph) (v d : ℕ)
          → count d (Adj.neighbors (algo g) v) ≡ count d (Adj.neighbors g v))
      → (es : List Edge) (g : AdjGraph) → AllEnds (λ v. v ≤ 18446744073709551614) es
      → (v d : ℕ)
      → count d (
          Adj.neighbors
            (run_parsed (adj_graph sched) algo g (foldl (insert checked junk) no_edges es))
            v)
        ≡ count d (Adj.neighbors g v) + total (is_edge v d) es
  unfolding run_parsed
  run_parsed-count algo keeps es g fits v d =
      let ins = (foldl (insert checked junk) no_edges es).insertions in
      keeps _ v d
      ∙ ingested-count sched g ins (insertions-Below 18446744073709551614 es no_edges fits tt)
          (insertions-HasNoRepeats es no_edges tt) v d
      ∙ ap (λ n. count d (Adj.neighbors g v) + n)
          (insertions-count v d es no_edges ∙ inserted_none v d (total (is_edge v d) es))

  pub run_batches-count :
      (algo : AdjGraph → AdjGraph)
      → ((g : AdjGraph) (v d : ℕ)
          → count d (Adj.neighbors (algo g) v) ≡ count d (Adj.neighbors g v))
      → (bs : List (List Edge)) (g : AdjGraph) → All (AllEnds (λ v. v ≤ 18446744073709551614)) bs
      → (v d : ℕ)
      → count d
          (Adj.neighbors (foldl (run_parsed (adj_graph sched) algo) g (parsed checked junk bs)) v)
        ≡ count d (Adj.neighbors g v) + total (is_edge v d) (all_edges bs)
  run_batches-count algo keeps [] g fits v d = run_parsed-count algo keeps [] g tt v d
  run_batches-count algo keeps ([] ∷ bs) g (_, fits) v d =
      let once = run_parsed (adj_graph sched) algo g no_edges in
      run_batches-count algo keeps bs (run_parsed (adj_graph sched) algo once no_edges) fits v d
      ∙ omega (
        arith,
        run_parsed-count algo keeps [] once tt v d,
        run_parsed-count algo keeps [] g tt v d,
      )
  run_batches-count algo keeps ((e ∷ es) ∷ bs) g (one, fits) v d =
      run_batches-count algo keeps bs
        (run_parsed (adj_graph sched) algo g (foldl (insert checked junk) no_edges (e ∷ es))) fits v
        d
      ∙ omega (
        arith,
        run_parsed-count algo keeps (e ∷ es) g one v d,
        total-append (is_edge v d) (e ∷ es) (all_edges bs),
      )
