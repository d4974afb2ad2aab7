-- ===== src/Batches/Lines.antt =====
-- The lines of a batch file: what the writer of Batches.Writer puts on a line, and what the two
-- readers take from it.
use graph_log_sketch.Base.{
  ℕ, zero, suc, max, ◌≤◌, ◌<◌, ◌≡◌, refl, true, false, Option, some, List, [], ◌∷◌, ◌++◌, foldl,
  All, arith, length, length-append,
}
use graph_log_sketch.Base.Text.{Text, starts_with_digit}
use graph_log_sketch.Graph.{u64_mod}
use graph_log_sketch.Batches.Streams.{space, decimal, Stream, is_empty, going}
use graph_log_sketch.Batches.Decimal.{extract-decimal, extract-space-decimal}
use graph_log_sketch.Batches.Reader.{
  ParsedBatch, validate_vertex, insert_edge, parse_targets, parse_line,
}
use graph_log_sketch.Batches.Counter.{Counts, count_target, count_targets, count_line}

abbrev pub Edge : Type 0
Edge = ℕ × ℕ

-- The targets on a line, and the line of a source.
abbrev pub targets : List ℕ → Text
targets [] = []
targets (d ∷ ds) = space ∷ decimal d ++ targets ds

abbrev pub line_of : ℕ → List ℕ → Text
line_of s ds = decimal s ++ targets ds

abbrev pub Small : List ℕ → Type 0
Small = All (λ d. d < u64_mod)

targets_off : (ds : List ℕ) → starts_with_digit (targets ds) ≡ false
targets_off [] = refl
targets_off (d ∷ ds) = refl

-- The stream behind the source, or behind a target.
abbrev stream_at : List ℕ → Stream
stream_at ds = record { rest = targets ds; eof = is_empty (targets ds); fail = false }

length-targets : (ds : List ℕ) → length ds ≤ length (targets ds)
length-targets [] = omega arith
length-targets (d ∷ ds) = omega (arith, length-append (decimal d) (targets ds), length-targets ds)

length-line_of : (s : ℕ) (ds : List ℕ) → length ds ≤ length (line_of s ds)
length-line_of s ds = omega (arith, length-append (decimal s) (targets ds), length-targets ds)

module _ (checked : Option ℕ) (junk : ℕ) where
  abbrev pub AllValid : List ℕ → Type 0
  AllValid = All (λ d. validate_vertex checked junk d ≡ true)

  parse_targets-stream_at :
      (fuel src : ℕ) (ds : List ℕ) (p : ParsedBatch)
      → length ds ≤ fuel
      → Small ds
      → AllValid ds
      → parse_targets checked junk fuel src (stream_at ds) p ≡ some (foldl (insert_edge src) p ds)
  unfolding parse_targets
  parse_targets-stream_at zero src [] p h small valid = refl
  parse_targets-stream_at (suc fuel) src [] p h small valid = refl
  parse_targets-stream_at zero src (d ∷ ds) p h small valid = absurd (omega arith)
  parse_targets-stream_at (suc fuel) src (d ∷ ds) p h (one, small) (ok, valid) =
      rw (extract-space-decimal junk d (targets ds) one (targets_off ds), ok)
        (parse_targets-stream_at fuel src ds (insert_edge src p d) (omega arith) small valid)

  pub parse_line-line_of :
      (s : ℕ) (ds : List ℕ) (p : ParsedBatch)
      → Small (s ∷ ds)
      → AllValid (s ∷ ds)
      → parse_line checked junk p (line_of s ds) ≡ some (going (foldl (insert_edge s) p ds))
  unfolding parse_line
  parse_line-line_of s ds p (one, small) (ok, valid) =
      rw
        (
          extract-decimal junk s (targets ds) one (targets_off ds),
          ok,
          parse_targets-stream_at (length (line_of s ds)) s ds p (length-line_of s ds) small valid,
        )
        refl

module _ (junk : ℕ) where
  count_targets-stream_at :
      (fuel : ℕ) (ds : List ℕ) (c : Counts)
      → length ds ≤ fuel
      → Small ds
      → count_targets junk fuel (stream_at ds) c ≡ some (foldl count_target c ds)
  unfolding count_targets
  count_targets-stream_at zero [] c h small = refl
  count_targets-stream_at (suc fuel) [] c h small = refl
  count_targets-stream_at zero (d ∷ ds) c h small = absurd (omega arith)
  count_targets-stream_at (suc fuel) (d ∷ ds) c h (one, small) =
      rw (extract-space-decimal junk d (targets ds) one (targets_off ds))
        (count_targets-stream_at fuel ds (count_target c d) (omega arith) small)

  pub count_line-line_of :
      (s : ℕ) (ds : List ℕ) (c : Counts)
      → Small (s ∷ ds)
      → count_line junk c (line_of s ds)
        ≡ some (going (foldl count_target (record c { max_vertex_id = max c.max_vertex_id s }) ds))
  unfolding count_line
  count_line-line_of s ds c (one, small) =
      rw
        (
          extract-decimal junk s (targets ds) one (targets_off ds),
          count_targets-stream_at (length (line_of s ds)) ds
              (record c { max_vertex_id = max c.max_vertex_id s }) (length-line_of s ds) small,
        )
        refl
