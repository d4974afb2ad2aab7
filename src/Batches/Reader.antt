-- ===== src/Batches/Reader.antt =====
-- microbench/edit_scalability.cpp: the batches of a file are parsed and ingested, and the algorithm
-- runs after each.
use graph_log_sketch.Base.{
  ℕ, zero, suc, ◌+◌, ◌%◌, foldl, Bool, true, false, not, Option, none, some, ◌>>=◌, List, [], ◌∷◌,
  ltb, if◌then◌else◌, length,
}
use graph_log_sketch.Base.Text.{Text}
use graph_log_sketch.Graph.{MutableGraph, u64_mod}
use graph_log_sketch.Bench.{add_edge}
use graph_log_sketch.Batches.Streams.{
  Stream, open_stream, extract, Input, open_input, Outcome, going, stopped, read_batch, is_empty,
}

-- What the parser of a batch fills.
pub record ParsedBatch : Type 0 where
  pub insertions : List (ℕ × List ℕ)
  pub num_edges : ℕ

abbrev pub no_edges : ParsedBatch
no_edges = record { insertions = []; num_edges = 0 }

-- `++num_edges; insertions[src].emplace_back(tmp);`
unfoldable pub insert_edge : ℕ → ParsedBatch → ℕ → ParsedBatch
insert_edge src p tmp = record {
  insertions = add_edge p.insertions (src, tmp);
  num_edges = (p.num_edges + 1) % u64_mod;
}

-- `validate_vertex`, which is compiled without NDEBUG only: `checked` is the number of vertices, or
-- none with NDEBUG. `junk` is what the memory of a variable without initializer holds.
module _ (checked : Option ℕ) (junk : ℕ) where
  unfoldable pub validate_vertex : ℕ → Bool
  validate_vertex vertex = elim checked [
    | none ↦ true
    | some num_vertices ↦ ltb vertex num_vertices
  ]

  -- `while (!batch.eof())`, on fuel; `none` means that the fuel ran out.
  unfoldable pub parse_targets : ℕ → ℕ → Stream → ParsedBatch → Option ParsedBatch
  unfolding validate_vertex insert_edge
  parse_targets zero src s p = elim s.eof [ true ↦ some p | false ↦ none ]
  parse_targets (suc fuel) src s p = elim s.eof [
    | true ↦ some p
    | false ↦
        let (s', tmp) = extract junk s in
        parse_targets fuel src s' (if validate_vertex tmp then insert_edge src p tmp else p)
  ]

  -- A line: the source, and the edges to the targets behind it.
  unfoldable pub parse_line : ParsedBatch → Text → Option (Outcome ParsedBatch)
  unfolding parse_targets
  parse_line p batch_raw =
      let (s, src) = extract junk (open_stream batch_raw) in
      if not (validate_vertex src)
      then some (stopped p)
      else (parse_targets (length batch_raw) src s p >>= λ p'. some (going p'))

  -- One batch of the input.
  unfoldable pub parse_batch : Input → Option (ParsedBatch × Input)
  unfolding parse_line
  parse_batch inp = read_batch parse_line inp.lines inp.tail inp.eof no_edges

  -- `while (!in->eof())`, on fuel: the batches one after the other.
  unfoldable pub parse_batches : ℕ → Input → Option (List ParsedBatch)
  unfolding parse_batch
  parse_batches zero inp = elim inp.eof [ true ↦ some [] | false ↦ none ]
  parse_batches (suc fuel) inp = elim inp.eof [
    | true ↦ some []
    | false ↦
        parse_batch inp >>= λ (p, inp'). parse_batches fuel inp' >>= λ batches. some (p ∷ batches)
  ]

-- A batch that has edges is ingested, and the algorithm runs.
unfoldable pub run_parsed : {S : Type 0} → MutableGraph S → (S → S) → S → ParsedBatch → S
run_parsed G algo g p =
    algo (if is_empty p.insertions then g else G.post_ingest (G.ingest g p.insertions))

-- `main`, behind the command line: the loop over the batches of a file.
unfoldable pub run_file :
    {S : Type 0} → MutableGraph S → (S → S) → Option ℕ → ℕ → Text → S → Option S
unfolding parse_batches run_parsed
run_file G algo checked junk text g =
    let inp = open_input text in
    parse_batches checked junk (length inp.lines + 2) inp >>= λ batches.
    some (foldl (run_parsed G algo) g batches)
