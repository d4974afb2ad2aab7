-- ===== src/Batches/RoundTrip.antt =====
-- A file of batches, as scripts/divide_into_batches.cpp writes it, read by
-- microbench/edit_scalability.cpp and by scripts/count_batched.cpp.
use graph_log_sketch.Base.{
  ℕ, zero, suc, ◌+◌, ◌<◌, ◌≡◌, refl, sym, ap, subst, ◌∙◌, true, false, Option, some, List, [], ◌∷◌,
  ◌++◌, foldl, All, arith, if◌then◌else◌, length, length-append,
}
use graph_log_sketch.Base.Text.{Text}
use graph_log_sketch.Graph.{u64_mod}
use graph_log_sketch.Batches.Streams.{going, Input, open_input, read_batch, split_lines, is_empty}
use graph_log_sketch.Batches.Writer.{Edge}
use graph_log_sketch.Batches.Reader.{
  ParsedBatch, no_edges, validate_vertex, insert_edge, parse_line, parse_batch, parse_batches,
}
use graph_log_sketch.Batches.Lines.{Small, line_of, parse_line-line_of}
use graph_log_sketch.Batches.Written.{read_batch-batch_lines, AllEnds, split_lines-batch_text}
use graph_log_sketch.Batches.Rendered.{pairs, batch_lines, lines_from}
use graph_log_sketch.Batches.Totals.{file_text}

abbrev pub file_lines : List (List Edge) → List Text
file_lines [] = []
file_lines (b ∷ bs) = batch_lines b ++ file_lines bs

split_lines-file_text :
    (bs : List (List Edge))
    → All (AllEnds (λ v. v < u64_mod)) bs
    → split_lines (file_text bs) ≡ (file_lines bs, [])
split_lines-file_text [] h = refl
split_lines-file_text (b ∷ bs) (one, h) =
    split_lines-batch_text b (file_text bs) one
    ∙ ap (λ (r : List Text × Text). (batch_lines b ++ r.0, r.1)) (split_lines-file_text bs h)

abbrev pub input_of : List (List Edge) → Input
input_of bs = record { lines = file_lines bs; tail = []; eof = false }

pub open_input-file_text :
    (bs : List (List Edge))
    → All (AllEnds (λ v. v < u64_mod)) bs
    → open_input (file_text bs) ≡ input_of bs
open_input-file_text bs h =
    ap (λ (r : List Text × Text). record { lines = r.0; tail = r.1; eof = false })
      (split_lines-file_text bs h)

pub All-weaker {ℓ κ ι} :
    {A : Type ℓ} (P : A → Type κ) (Q : A → Type ι)
    → ((a : A) → P a → Q a)
    → (xs : List A) → All P xs
    → All Q xs
All-weaker P Q imp [] h = tt
All-weaker P Q imp (x ∷ xs) (one, h) = (imp x one, All-weaker P Q imp xs h)

module _ (checked : Option ℕ) (junk : ℕ) where
  -- A vertex that fits into 64 bits and that the parser accepts.
  abbrev pub IsGood : ℕ → Type 0
  IsGood v = (v < u64_mod) × (validate_vertex checked junk v ≡ true)

  abbrev pub insert : ParsedBatch → Edge → ParsedBatch
  insert p (src, dst) = insert_edge src p dst

  -- What the benchmark makes of the batches: one without edges is read as two, and behind the last
  -- one it reads one more.
  abbrev pub parsed : List (List Edge) → List ParsedBatch
  parsed [] = no_edges ∷ []
  parsed (b ∷ bs) =
      let rest = foldl insert no_edges b ∷ parsed bs in if is_empty b then no_edges ∷ rest else rest

  All-both :
      (vs : List ℕ) → All IsGood vs → Small vs × All (λ v. validate_vertex checked junk v ≡ true) vs
  All-both [] h = (tt, tt)
  All-both (v ∷ vs) ((a, b), h) = let (p, q) = All-both vs h in ((a, p), (b, q))

  foldl-pairs :
      (s : ℕ) (ds : List ℕ) (p : ParsedBatch)
      → foldl insert p (pairs s ds) ≡ foldl (insert_edge s) p ds
  foldl-pairs s [] p = refl
  foldl-pairs s (d ∷ ds) p = foldl-pairs s ds (insert_edge s p d)

  parse_reads :
      (s d : ℕ) (ds : List ℕ) (p : ParsedBatch)
      → All IsGood (s ∷ d ∷ ds)
      → parse_line checked junk p (line_of s (d ∷ ds))
        ≡ some (going (foldl insert p (pairs s (d ∷ ds))))
  parse_reads s d ds p h =
      let (a, b) = All-both (s ∷ d ∷ ds) h in
      parse_line-line_of checked junk s (d ∷ ds) p a b
      ∙ ap (λ q. some (going q)) (sym (foldl-pairs s (d ∷ ds) p))

  parse_batch-batch_lines :
      (b : List Edge) (more : List Text)
      → AllEnds IsGood b
      → parse_batch checked junk (record { lines = batch_lines b ++ more; tail = []; eof = false })
        ≡ some (
          foldl insert no_edges b,
          record { lines = (if is_empty b then [] ∷ more else more); tail = []; eof = false },
        )
  unfolding parse_batch
  parse_batch-batch_lines b more h =
      read_batch-batch_lines (parse_line checked junk) insert IsGood (λ v g. g.0) parse_reads b more
        [] false no_edges h

  parse_step :
      (fuel : ℕ) (lines : List Text) (p : ParsedBatch) (inp : Input) (rest : List ParsedBatch)
      → parse_batch checked junk (record { lines = lines; tail = []; eof = false }) ≡ some (p, inp)
      → parse_batches checked junk fuel inp ≡ some rest
      → parse_batches checked junk (suc fuel) (record { lines = lines; tail = []; eof = false })
        ≡ some (p ∷ rest)
  unfolding parse_batches
  parse_step fuel lines p inp rest one more = rw (one, more) refl

  parse_end :
      (fuel : ℕ)
      → parse_batches checked junk fuel (record { lines = []; tail = []; eof = true }) ≡ some []
  unfolding parse_batches
  parse_end zero = refl
  parse_end (suc fuel) = refl

  parse_empty_line :
      (lines : List Text)
      → parse_batch checked junk (record { lines = [] ∷ lines; tail = []; eof = false })
        ≡ some (no_edges, record { lines = lines; tail = []; eof = false })
  unfolding parse_batch read_batch
  parse_empty_line lines = refl

  parse_no_line :
      parse_batch checked junk (record { lines = []; tail = []; eof = false })
      ≡ some (no_edges, record { lines = []; tail = []; eof = true })
  unfolding parse_batch read_batch
  parse_no_line = refl

  parse_batches-input_of :
      (bs : List (List Edge)) (fuel : ℕ)
      → length (file_lines bs) < fuel
      → All (AllEnds IsGood) bs
      → parse_batches checked junk fuel (input_of bs) ≡ some (parsed bs)
  parse_batches-input_of bs zero h all = absurd (omega arith)
  parse_batches-input_of [] (suc fuel) h all =
      parse_step fuel [] no_edges _ [] parse_no_line (parse_end fuel)
  parse_batches-input_of ([] ∷ bs) (suc zero) h all = absurd (omega arith)
  parse_batches-input_of ([] ∷ bs) (suc (suc fuel)) h (one, all) =
      parse_step (suc fuel) ([] ∷ [] ∷ file_lines bs) no_edges _ (no_edges ∷ parsed bs)
        (parse_empty_line ([] ∷ file_lines bs))
        (parse_step fuel ([] ∷ file_lines bs) no_edges _ (parsed bs)
          (parse_empty_line (file_lines bs)) (parse_batches-input_of bs fuel (omega arith) all))
  parse_batches-input_of ((e ∷ es) ∷ bs) (suc fuel) h (one, all) =
      let lines = batch_lines (e ∷ es) in
      parse_step fuel (lines ++ file_lines bs) _ (input_of bs) (parsed bs)
        (parse_batch-batch_lines (e ∷ es) (file_lines bs) one)
        (parse_batches-input_of bs fuel
          (omega (
            arith,
            length-append lines (file_lines bs),
            length-append (lines_from e.0 e.1 [] es) ([] ∷ []),
          ))
          all)

  pub parse_batches-file_text :
      (bs : List (List Edge))
      → All (AllEnds IsGood) bs
      → let inp = open_input (file_text bs) in
        parse_batches checked junk (length inp.lines + 2) inp ≡ some (parsed bs)
  parse_batches-file_text bs all =
      let small : All (AllEnds (λ v. v < u64_mod)) bs =
        All-weaker _ _ (λ b. All-weaker _ _ (λ e (p, q). (p.0, q.0)) b) bs all in
      subst
        (λ (inp : Input). parse_batches checked junk (length inp.lines + 2) inp ≡ some (parsed bs))
        (sym (open_input-file_text bs small))
        (parse_batches-input_of bs (length (file_lines bs) + 2) (omega arith) all)
