-- ===== src/Batches/Counter.antt =====
-- scripts/count_batched.cpp: the largest vertex and the number of edges of a batch file.
use graph_log_sketch.Base.{
  ℕ, zero, suc, ◌+◌, ◌%◌, max, true, false, Option, none, some, ◌>>=◌, length,
}
use graph_log_sketch.Base.Text.{Text}
use graph_log_sketch.Graph.{u64_mod}
use graph_log_sketch.Batches.Streams.{
  Stream, open_stream, extract, Input, open_input, Outcome, going, read_batch,
}

pub record Counts : Type 0 where
  pub max_vertex_id : ℕ
  pub num_edges : ℕ

abbrev pub no_counts : Counts
no_counts = record { max_vertex_id = 0; num_edges = 0 }

-- The body of the loop over the targets.
unfoldable pub count_target : Counts → ℕ → Counts
count_target c tmp = record {
  max_vertex_id = max c.max_vertex_id tmp;
  num_edges = (c.num_edges + 1) % u64_mod;
}

-- `junk` is what the memory of a variable without initializer holds.
module _ (junk : ℕ) where
  -- `while (!batch.eof())`, on fuel; `none` means that the fuel ran out.
  unfoldable pub count_targets : ℕ → Stream → Counts → Option Counts
  unfolding count_target
  count_targets zero s c = elim s.eof [ true ↦ some c | false ↦ none ]
  count_targets (suc fuel) s c = elim s.eof [
    | true ↦ some c
    | false ↦ let (s', tmp) = extract junk s in count_targets fuel s' (count_target c tmp)
  ]

  unfoldable pub count_line : Counts → Text → Option (Outcome Counts)
  unfolding count_targets
  count_line c batch_raw =
      let (s, src) = extract junk (open_stream batch_raw) in
      count_targets (length batch_raw) s (record c { max_vertex_id = max c.max_vertex_id src })
      >>= λ c'. some (going c')

  -- `while (!in->eof())`, on fuel.
  unfoldable pub count_batches : ℕ → Input → Counts → Option Counts
  unfolding count_line
  count_batches zero inp c = elim inp.eof [ true ↦ some c | false ↦ none ]
  count_batches (suc fuel) inp c = elim inp.eof [
    | true ↦ some c
    | false ↦ read_batch count_line inp.lines inp.tail inp.eof c >>= λ (c', inp').
        count_batches fuel inp' c'
  ]

  -- `main`, behind the command line.
  unfoldable pub count_file : Text → Option Counts
  unfolding count_batches
  count_file text = let inp = open_input text in count_batches (length inp.lines + 2) inp no_counts
