-- ===== src/Batches/Rendered.antt =====
-- A batch as it is written by Batches.Writer: its text, and the lines that it is to have.
use graph_log_sketch.Base.{
  ℕ, ◌≡◌, refl, sym, ap, ◌∙◌, inl, inr, true, false, Option, none, some, List, [], ◌∷◌, ◌++◌, map,
  foldl, ◌==◌, if◌then◌else◌, Bool-cases, append_assoc, append-nil,
}
use graph_log_sketch.Base.Text.{Text}
use graph_log_sketch.Batches.Streams.{newline, space, decimal}
use graph_log_sketch.Batches.Writer.{Edge, write_edge, write_batch}
use graph_log_sketch.Batches.Lines.{targets, line_of}

abbrev pub pairs : ℕ → List ℕ → List Edge
pairs s ds = map (λ d. (s, d)) ds

-- What the edges behind a line of `s` add to the text.
abbrev pub render : ℕ → List Edge → Text
render s [] = []
render s ((s', d) ∷ es) =
    let same = space ∷ (decimal d ++ render s es) in
    let other = newline ∷ (line_of s' (d ∷ []) ++ render s' es) in if s == s' then same else other

-- The lines, where the first is that of `s` and has the targets `d ∷ ds` so far.
abbrev pub lines_from : ℕ → ℕ → List ℕ → List Edge → List Text
lines_from s d ds [] = line_of s (d ∷ ds) ∷ []
lines_from s d ds ((s', d') ∷ es) =
    let same = lines_from s d (ds ++ d' ∷ []) es in
    let other = line_of s (d ∷ ds) ∷ lines_from s' d' [] es in if s == s' then same else other

-- The text of a batch, and its lines.
abbrev pub batch_text : List Edge → Text
batch_text [] = newline ∷ newline ∷ []
batch_text ((s, d) ∷ es) = line_of s (d ∷ []) ++ (render s es ++ newline ∷ newline ∷ [])

abbrev pub batch_lines : List Edge → List Text
batch_lines [] = [] ∷ [] ∷ []
batch_lines ((s, d) ∷ es) = lines_from s d [] es ++ [] ∷ []

write_edge_same :
    (s s' d : ℕ) (fout : Text)
    → (s == s') ≡ true
    → write_edge (some s, fout) (s', d) ≡ (some s, fout ++ space ∷ decimal d)
unfolding write_edge
write_edge_same s s' d fout e = rw e refl

write_edge_other :
    (s s' d : ℕ) (fout : Text)
    → (s == s') ≡ false
    → write_edge (some s, fout) (s', d) ≡ (some s', fout ++ newline ∷ line_of s' (d ∷ []))
unfolding write_edge
write_edge_other s s' d fout e = rw e (simp (append_assoc, append-nil))

write_edges-render :
    (es : List Edge) (s : ℕ) (fout : Text)
    → (foldl write_edge (some s, fout) es).1 ≡ fout ++ render s es
write_edges-render [] s fout = sym (append-nil fout)
write_edges-render ((s', d) ∷ es) s fout =
    let onwards = λ (st : Option ℕ × Text). (foldl write_edge st es).1 in
    elim (Bool-cases (s == s')) [
      | inl e ↦ rw e (
          ap onwards (write_edge_same s s' d fout e)
          ∙ write_edges-render es s (fout ++ space ∷ decimal d)
          ∙ append_assoc fout (space ∷ decimal d) (render s es))
      | inr e ↦ rw e (
          ap onwards (write_edge_other s s' d fout e)
          ∙ write_edges-render es s' (fout ++ newline ∷ line_of s' (d ∷ []))
          ∙ append_assoc fout (newline ∷ line_of s' (d ∷ [])) (render s' es))
    ]

write_edge_first :
    (s d : ℕ) (fout : Text) → write_edge (none, fout) (s, d) ≡ (some s, fout ++ line_of s (d ∷ []))
unfolding write_edge
write_edge_first s d fout = simp (append_assoc, append-nil)

pub write_batch-batch_text :
    (es : List Edge) (fout : Text) → write_batch fout es ≡ fout ++ batch_text es
unfolding write_batch
write_batch-batch_text [] fout = refl
write_batch-batch_text ((s, d) ∷ es) fout =
    ap (λ t. t ++ newline ∷ newline ∷ [])
      (ap (λ (st : Option ℕ × Text). (foldl write_edge st es).1) (write_edge_first s d fout)
        ∙ write_edges-render es s (fout ++ line_of s (d ∷ [])))
    ∙ append_assoc (fout ++ line_of s (d ∷ [])) (render s es) (newline ∷ newline ∷ [])
    ∙ append_assoc fout (line_of s (d ∷ [])) (render s es ++ newline ∷ newline ∷ [])

targets-snoc : (ds : List ℕ) (d : ℕ) → targets ds ++ space ∷ decimal d ≡ targets (ds ++ d ∷ [])
targets-snoc [] d = sym (ap (λ t. space ∷ t) (append-nil (decimal d)))
targets-snoc (d' ∷ ds) d =
    ap (λ t. space ∷ t)
      (append_assoc (decimal d') (targets ds) (space ∷ decimal d)
        ∙ ap (λ t. decimal d' ++ t) (targets-snoc ds d))

pub line_of-snoc :
    (s d : ℕ) (ds : List ℕ) → line_of s ds ++ space ∷ decimal d ≡ line_of s (ds ++ d ∷ [])
line_of-snoc s d ds =
    append_assoc (decimal s) (targets ds) (space ∷ decimal d)
    ∙ ap (λ t. decimal s ++ t) (targets-snoc ds d)
