-- ===== src/Batches/Results.antt =====
-- The batch programs together: scripts/divide_into_batches.cpp writes a file that
-- microbench/edit_scalability.cpp and scripts/count_batched.cpp read.
use graph_log_sketch.Base.{
  ℕ, ◌+◌, ◌-◌, ◌*◌, ◌≤◌, ◌<◌, ◌≡◌, refl, sym, ap, ◌∙◌, ◌↔◌, Option, some, List, foldl, arith,
  length,
}
use mathlib.Core.List.{Permᴰ}
use graph_log_sketch.Base.Text.{Text}
use graph_log_sketch.Base.Sums.{count}
use graph_log_sketch.Graph.{u64_mod}
use graph_log_sketch.Graph.Adj
use graph_log_sketch.Base.DoAll.{Schedule}
use graph_log_sketch.Graph.Adj.{AdjGraph, adj_graph, max_vertex_id}
use graph_log_sketch.Bench.Counts.{is_edge}
use graph_log_sketch.Batches.Streams.{open_input}
use graph_log_sketch.Batches.Writer.{Edge, edges_per_batch, written, divide}
use graph_log_sketch.Batches.Reader.{parse_batches, run_parsed, run_file}
use graph_log_sketch.Batches.Counter.{Counts, no_counts, count_file}
use graph_log_sketch.Batches.Written.{AllEnds}
use graph_log_sketch.Batches.Division.{batches, divide-batches, total-batches, AllEnds-batches}
use graph_log_sketch.Batches.Ranges.{length-ranges}
use graph_log_sketch.Batches.Totals.{total, all_edges, file_text}
use graph_log_sketch.Batches.RoundTrip.{IsGood, parsed, parse_batches-file_text}
use graph_log_sketch.Batches.Recount.{count_edge, count_file-file_text}
use graph_log_sketch.Batches.Counts.{
  count_edges-num_edges, beyond, count_edges-max, total-length, total-beyond, run_batches-count,
}

-- The counts after some edges.
module _ (arrange : List Edge → List Edge) (edges : List Edge) (num_batches : ℕ)
    (arranged : Permᴰ (arrange edges) edges) (some_edge : 0 < length edges)
    (some_batch : 0 < num_batches) (small : length edges + num_batches < u64_mod)
    (fits : (num_batches - 1) * edges_per_batch (length edges) num_batches ≤ length edges) where
  -- There are edges and batches, together fewer than 2^64, random_shuffle permutes the edges, and
  -- the last batch does not begin behind the last edge. The parser accepts all vertices of the
  -- edges. Then the benchmark reads from the file that is written for them: for each batch the
  -- insertions of its edges one after the other, but for a batch without edges two batches without
  -- edges, and one such batch behind the last.
  pub parse_batches-divide :
      (checked : Option ℕ) (junk : ℕ)
      → AllEnds (IsGood checked junk) edges
      → (bs : List (List Edge)) × (text : Text) × (divide arrange edges num_batches ≡ written text)
        × (parse_batches checked junk (length (open_input text).lines + 2) (open_input text)
            ≡ some (parsed checked junk bs))
        × (length bs ≡ num_batches)
        × ((v d : ℕ) → total (is_edge v d) (all_edges bs) ≡ total (is_edge v d) edges)
  parse_batches-divide checked junk good =
      let bs = batches arrange edges num_batches in
      (
        bs,
        file_text bs,
        divide-batches arrange edges num_batches arranged some_edge some_batch small fits,
        parse_batches-file_text checked junk bs
            (AllEnds-batches (IsGood checked junk) arrange edges num_batches arranged good),
        length-ranges (arrange edges) (edges_per_batch (length edges) num_batches) 0 num_batches,
        λ v d.
            total-batches arrange edges num_batches arranged some_edge some_batch small fits
              (is_edge v d),
      )

  -- There are edges and batches, together fewer than 2^64, random_shuffle permutes the edges, the
  -- last batch does not begin behind the last edge, and the vertices are below 2^64. Then of the
  -- file that is written for them count_batched finds the number of the edges, and the least
  -- number that no end of an edge exceeds.
  pub count_file-divide :
      (junk : ℕ)
      → AllEnds (λ v. v < u64_mod) edges
      → (text : Text) × (c : Counts) × (divide arrange edges num_batches ≡ written text)
        × (count_file junk text ≡ some c)
        × (c.num_edges ≡ length edges)
        × ((b : ℕ) → (c.max_vertex_id ≤ b) ↔ AllEnds (λ v. v ≤ b) edges)
  count_file-divide junk good =
      let bs = batches arrange edges num_batches in
      let c = foldl count_edge no_counts (all_edges bs) in
      let same = total-batches arrange edges num_batches arranged some_edge some_batch small fits in
      (
        file_text bs,
        c,
        divide-batches arrange edges num_batches arranged some_edge some_batch small fits,
        count_file-file_text junk bs
            (AllEnds-batches (λ v. v < u64_mod) arrange edges num_batches arranged good),
        count_edges-num_edges (all_edges bs) no_counts (omega arith)
            ∙ omega (arith, same (λ _. 1), total-length edges),
        λ b.
            let (to, from) = count_edges-max b (all_edges bs) no_counts in
            let (to', from') = total-beyond b edges in
            (
              λ h. to' (sym (same (beyond b)) ∙ (to h).1),
              λ h. from (omega arith, same (beyond b) ∙ from' h),
            ),
      )

  -- There are edges and batches, together fewer than 2^64, random_shuffle permutes the edges, the
  -- last batch does not begin behind the last edge, the parser accepts all vertices of the edges,
  -- they are below 2^64 - 1, and the algorithm keeps the edges of the graph. Then the benchmark
  -- ends on the file that is written for them, and on the adjacency vector it adds each edge once:
  -- from v to d there are as many edges as before and as there are in the list, whatever
  -- order the loop of `ingest` takes.
  pub run_file-divide :
      (checked : Option ℕ) (junk : ℕ)
      → AllEnds (IsGood checked junk) edges
      → AllEnds (λ v. v ≤ 18446744073709551614) edges
      → (sched : Schedule) (algo : AdjGraph → AdjGraph)
      → ((g : AdjGraph) (v d : ℕ)
          → count d (Adj.neighbors (algo g) v) ≡ count d (Adj.neighbors g v))
      → (g : AdjGraph)
      → (text : Text) × (g' : AdjGraph) × (divide arrange edges num_batches ≡ written text)
        × (run_file (adj_graph sched) algo checked junk text g ≡ some g')
        × ((v d : ℕ)
            → count d (Adj.neighbors g' v)
              ≡ count d (Adj.neighbors g v) + total (is_edge v d) edges)
  unfolding run_file
  run_file-divide checked junk good below sched algo keeps g =
      let bs = batches arrange edges num_batches in
      (
        file_text bs,
        foldl (run_parsed (adj_graph sched) algo) g (parsed checked junk bs),
        divide-batches arrange edges num_batches arranged some_edge some_batch small fits,
        rw
            (parse_batches-file_text checked junk bs
              (AllEnds-batches (IsGood checked junk) arrange edges num_batches arranged good))
            refl,
        λ v d.
            run_batches-count sched checked junk algo keeps bs g
              (AllEnds-batches (λ v. v ≤ 18446744073709551614) arrange edges num_batches arranged
                below)
              v d
            ∙ ap (λ n. count d (Adj.neighbors g v) + n)
                (total-batches arrange edges num_batches arranged some_edge some_batch small fits
                  (is_edge v d)),
      )
