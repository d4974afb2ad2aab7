-- ===== src/Batches/Recount.antt =====
-- scripts/count_batched.cpp: what is counted in a file that was written.
use graph_log_sketch.Base.{
  ℕ, zero, suc, ◌+◌, max, ◌≤◌, ◌<◌, ◌≡◌, refl, sym, ap, subst, ◌∙◌, true, false, some, List, [],
  ◌∷◌, ◌++◌, foldl, All, arith, length, length-append, foldl-append,
}
use graph_log_sketch.Base.Text.{Text}
use graph_log_sketch.Graph.{u64_mod}
use graph_log_sketch.Batches.Streams.{going, Input, read_batch}
use graph_log_sketch.Batches.Writer.{Edge}
use graph_log_sketch.Batches.Counter.{
  Counts, no_counts, count_target, count_line, count_batches, count_file,
}
use graph_log_sketch.Batches.Lines.{Small, line_of, count_line-line_of}
use graph_log_sketch.Batches.Written.{read_batch-batch_lines, AllEnds}
use graph_log_sketch.Batches.Rendered.{pairs, batch_lines, lines_from}
use graph_log_sketch.Batches.Totals.{file_text, all_edges}
use graph_log_sketch.Batches.RoundTrip.{file_lines, input_of, open_input-file_text}

abbrev pub count_edge : Counts → Edge → Counts
count_edge c (src, dst) = count_target (record c { max_vertex_id = max c.max_vertex_id src }) dst

-- A source that has been counted is not counted again.
count_edge-pairs :
    (s : ℕ) (ds : List ℕ) (c : Counts)
    → s ≤ c.max_vertex_id
    → foldl count_edge c (pairs s ds) ≡ foldl count_target c ds
unfolding count_target
count_edge-pairs s [] c h = refl
count_edge-pairs s (d ∷ ds) c h =
    let same : max c.max_vertex_id s ≡ c.max_vertex_id = omega arith in
    ap (λ k. foldl count_edge (count_target (record c { max_vertex_id = k }) d) (pairs s ds)) same
    ∙ count_edge-pairs s ds (count_target c d) (omega arith)

count_edges-line :
    (s d : ℕ) (ds : List ℕ) (c : Counts)
    → foldl count_edge c (pairs s (d ∷ ds))
      ≡ foldl count_target (record c { max_vertex_id = max c.max_vertex_id s }) (d ∷ ds)
unfolding count_target
count_edges-line s d ds c =
    count_edge-pairs s ds (count_target (record c { max_vertex_id = max c.max_vertex_id s }) d)
      (omega arith)

module _ (junk : ℕ) where
  count_reads :
      (s d : ℕ) (ds : List ℕ) (c : Counts)
      → Small (s ∷ d ∷ ds)
      → count_line junk c (line_of s (d ∷ ds))
        ≡ some (going (foldl count_edge c (pairs s (d ∷ ds))))
  count_reads s d ds c h =
      count_line-line_of junk s (d ∷ ds) c h
      ∙ ap (λ q. some (going q)) (sym (count_edges-line s d ds c))

  count_step :
      (fuel : ℕ) (lines : List Text) (c c' : Counts) (inp : Input)
      → read_batch (count_line junk) lines [] false c ≡ some (c', inp)
      → count_batches junk (suc fuel) (record { lines = lines; tail = []; eof = false }) c
        ≡ count_batches junk fuel inp c'
  unfolding count_batches
  count_step fuel lines c c' inp e = rw e refl

  count_end :
      (fuel : ℕ) (c : Counts)
      → count_batches junk fuel (record { lines = []; tail = []; eof = true }) c ≡ some c
  unfolding count_batches
  count_end zero c = refl
  count_end (suc fuel) c = refl

  count_empty_line :
      (lines : List Text) (c : Counts)
      → read_batch (count_line junk) ([] ∷ lines) [] false c
        ≡ some (c, record { lines = lines; tail = []; eof = false })
  unfolding read_batch
  count_empty_line lines c = refl

  count_no_line :
      (c : Counts)
      → read_batch (count_line junk) [] [] false c
        ≡ some (c, record { lines = []; tail = []; eof = true })
  unfolding read_batch
  count_no_line c = refl

  count_batches-input_of :
      (bs : List (List Edge)) (fuel : ℕ) (c : Counts)
      → length (file_lines bs) < fuel
      → All (AllEnds (λ v. v < u64_mod)) bs
      → count_batches junk fuel (input_of bs) c ≡ some (foldl count_edge c (all_edges bs))
  count_batches-input_of bs zero c h all = absurd (omega arith)
  count_batches-input_of [] (suc fuel) c h all =
      count_step fuel [] c c _ (count_no_line c) ∙ count_end fuel c
  count_batches-input_of ([] ∷ bs) (suc zero) c h all = absurd (omega arith)
  count_batches-input_of ([] ∷ bs) (suc (suc fuel)) c h (one, all) =
      count_step (suc fuel) ([] ∷ [] ∷ file_lines bs) c c _
        (count_empty_line ([] ∷ file_lines bs) c)
      ∙ count_step fuel ([] ∷ file_lines bs) c c _ (count_empty_line (file_lines bs) c)
      ∙ count_batches-input_of bs fuel c (omega arith) all
  count_batches-input_of ((e ∷ es) ∷ bs) (suc fuel) c h (one, all) =
      let lines = batch_lines (e ∷ es) in
      let c' = foldl count_edge c (e ∷ es) in
      count_step fuel (lines ++ file_lines bs) c c' (input_of bs) (
        read_batch-batch_lines (count_line junk) count_edge (λ v. v < u64_mod) (λ v lt. lt)
          count_reads (e ∷ es) (file_lines bs) [] false c one)
      ∙ count_batches-input_of bs fuel c'
          (omega (
            arith,
            length-append lines (file_lines bs),
            length-append (lines_from e.0 e.1 [] es) ([] ∷ []),
          ))
          all
      ∙ ap some (sym (foldl-append count_edge c (e ∷ es) (all_edges bs)))

  pub count_file-file_text :
      (bs : List (List Edge))
      → All (AllEnds (λ v. v < u64_mod)) bs
      → count_file junk (file_text bs) ≡ some (foldl count_edge no_counts (all_edges bs))
  unfolding count_file
  count_file-file_text bs all =
      subst
        (λ (inp : Input).
          count_batches junk (length inp.lines + 2) inp no_counts
          ≡ some (foldl count_edge no_counts (all_edges bs)))
        (sym (open_input-file_text bs all))
        (count_batches-input_of bs (length (file_lines bs) + 2) no_counts (omega arith) all)
