-- ===== src/Batches/Written.antt =====
-- A batch as it is written by Batches.Writer: the lines of its text, and reading them.
use graph_log_sketch.Base.{
  ℕ, ◌<◌, ◌≡◌, ◌≢◌, refl, sym, ap, ◌∙◌, inl, inr, Bool, true, false, Option, some, List, [], ◌∷◌,
  ◌++◌, foldl, All, arith, ◌==◌, ==_iff, if◌then◌else◌, Bool-cases, append_assoc,
}
use graph_log_sketch.Base.Text.{Text, is_digit, starts_with_digit}
use mathlib.Core.Bool.{false≢true}
use graph_log_sketch.Graph.{u64_mod}
use graph_log_sketch.Batches.Streams.{
  newline, space, decimal, Outcome, going, read_batch, split_lines, is_empty,
}
use graph_log_sketch.Batches.Decimal.{decimal-IsNumeral}
use graph_log_sketch.Batches.Writer.{Edge}
use graph_log_sketch.Batches.Lines.{targets, line_of, Small}
use graph_log_sketch.Batches.Rendered.{
  pairs, render, lines_from, batch_text, batch_lines, line_of-snoc,
}

-- Texts without a line end.
abbrev IsLine : Text → Type 0
IsLine = All (λ c. (c == newline) ≡ false)

split_lines-line :
    (t rest : Text)
    → IsLine t
    → split_lines (t ++ newline ∷ rest) ≡ (t ∷ (split_lines rest).0, (split_lines rest).1)
split_lines-line [] rest h = refl
split_lines-line (c ∷ t) rest (one, h) = rw (one, split_lines-line t rest h) refl

IsLine-append : (t u : Text) → IsLine t → IsLine u → IsLine (t ++ u)
IsLine-append [] u h k = k
IsLine-append (c ∷ t) u (one, h) k = (one, IsLine-append t u h k)

digits-IsLine : (ds : Text) → All (λ c. is_digit c ≡ true) ds → IsLine ds
digits-IsLine [] h = tt
digits-IsLine (d ∷ ds) (one, h) = (ground arith, digits-IsLine ds h)

targets-IsLine : (ds : List ℕ) → Small ds → IsLine (targets ds)
targets-IsLine [] h = tt
targets-IsLine (d ∷ ds) (one, h) = (
  refl,
  IsLine-append (decimal d) (targets ds) (digits-IsLine (decimal d) (decimal-IsNumeral d one).0)
      (targets-IsLine ds h),
)

line_of-IsLine : (s : ℕ) (ds : List ℕ) → Small (s ∷ ds) → IsLine (line_of s ds)
line_of-IsLine s ds (one, h) =
    IsLine-append (decimal s) (targets ds) (digits-IsLine (decimal s) (decimal-IsNumeral s one).0)
      (targets-IsLine ds h)

-- Both ends of each edge.
abbrev pub AllEnds : (ℕ → Type 0) → List Edge → Type 0
AllEnds P = All (λ e. P e.0 × P e.1)

All-snoc : (P : ℕ → Type 0) (xs : List ℕ) (a : ℕ) → All P xs → P a → All P (xs ++ a ∷ [])
All-snoc P [] a h q = (q, tt)
All-snoc P (x ∷ xs) a (one, h) q = (one, All-snoc P xs a h q)

split_lines-render :
    (es : List Edge) (s d : ℕ) (ds : List ℕ) (rest : Text)
    → Small (s ∷ d ∷ ds)
    → AllEnds (λ v. v < u64_mod) es
    → split_lines (line_of s (d ∷ ds) ++ (render s es ++ newline ∷ rest))
      ≡ (lines_from s d ds es ++ (split_lines rest).0, (split_lines rest).1)
split_lines-render [] s d ds rest small h =
    split_lines-line (line_of s (d ∷ ds)) rest (line_of-IsLine s (d ∷ ds) small)
split_lines-render ((s', d') ∷ es) s d ds rest small ((small_s, small_d), h) =
    elim (Bool-cases (s == s')) [
      | inl e ↦ rw e (
          ap split_lines (
            ap (λ t. line_of s (d ∷ ds) ++ space ∷ t)
              (append_assoc (decimal d') (render s es) (newline ∷ rest))
            ∙ sym (
                append_assoc (line_of s (d ∷ ds)) (space ∷ decimal d')
                  (render s es ++ newline ∷ rest))
            ∙ ap (λ t. t ++ (render s es ++ newline ∷ rest)) (line_of-snoc s d' (d ∷ ds)))
          ∙ split_lines-render es s d (ds ++ d' ∷ []) rest
              (small.0, (small.1.0, All-snoc (λ v. v < u64_mod) ds d' small.1.1 small_d)) h)
      | inr e ↦
          let line = line_of s (d ∷ ds) in
          rw e (
            split_lines-line line ((line_of s' (d' ∷ []) ++ render s' es) ++ newline ∷ rest)
              (line_of-IsLine s (d ∷ ds) small)
            ∙ ap (λ (r : List Text × Text). (line ∷ r.0, r.1))
                (ap split_lines
                    (append_assoc (line_of s' (d' ∷ [])) (render s' es) (newline ∷ rest))
                  ∙ split_lines-render es s' d' [] rest (small_s, (small_d, tt)) h))
    ]

-- The lines of the text of a batch, with any text behind it.
pub split_lines-batch_text :
    (b : List Edge) (rest : Text)
    → AllEnds (λ v. v < u64_mod) b
    → split_lines (batch_text b ++ rest)
      ≡ (batch_lines b ++ (split_lines rest).0, (split_lines rest).1)
split_lines-batch_text [] rest h = refl
split_lines-batch_text ((s, d) ∷ es) rest ((small_s, small_d), h) =
    ap split_lines (
      append_assoc (line_of s (d ∷ [])) (render s es ++ newline ∷ newline ∷ []) rest
      ∙ ap (λ t. line_of s (d ∷ []) ++ t)
          (append_assoc (render s es) (newline ∷ newline ∷ []) rest))
    ∙ split_lines-render es s d [] (newline ∷ rest) (small_s, (small_d, tt)) h
    ∙ ap (λ ls. (ls, (split_lines rest).1))
        (sym (append_assoc (lines_from s d [] es) ([] ∷ []) (split_lines rest).0))

append-not_empty : (xs ys : Text) → starts_with_digit xs ≡ true → xs ++ ys ≢ []
append-not_empty [] ys h = absurd (false≢true h)
append-not_empty (x ∷ xs) ys h = λ e. false≢true (ap is_empty e)

line_of-not_empty : (s : ℕ) (ds : List ℕ) → s < u64_mod → line_of s ds ≢ []
line_of-not_empty s ds h = append-not_empty (decimal s) (targets ds) (decimal-IsNumeral s h).1

pairs-snoc {ℓ} :
    {A : Type ℓ} (step : A → Edge → A) (s d : ℕ) (ds : List ℕ) (acc : A)
    → foldl step acc (pairs s (ds ++ d ∷ [])) ≡ step (foldl step acc (pairs s ds)) (s, d)
pairs-snoc step s d [] acc = refl
pairs-snoc step s d (d' ∷ ds) acc = pairs-snoc step s d ds (step acc (s, d'))

-- A reader of lines that takes the edges of a line one after the other.
module _ {ℓ} {A : Type ℓ} (body : A → Text → Option (Outcome A)) (step : A → Edge → A)
    (Ok : ℕ → Type 0) (small : (v : ℕ) → Ok v → v < u64_mod)
    (reads : (s d : ℕ) (ds : List ℕ) (acc : A)
      → All Ok (s ∷ d ∷ ds)
      → body acc (line_of s (d ∷ ds)) ≡ some (going (foldl step acc (pairs s (d ∷ ds))))) where
  read_batch-line :
      (line : Text) (lines : List Text) (tail : Text) (eof : Bool) (acc acc' : A)
      → line ≢ []
      → body acc line ≡ some (going acc')
      → read_batch body (line ∷ lines) tail eof acc ≡ read_batch body lines tail eof acc'
  unfolding read_batch
  read_batch-line [] lines tail eof acc acc' ne e = absurd (ne refl)
  read_batch-line (c ∷ cs) lines tail eof acc acc' ne e = rw e refl

  read_batch-lines_from :
      (es : List Edge) (s d : ℕ) (ds : List ℕ) (more : List Text) (tail : Text) (eof : Bool)
      (acc : A)
      → All Ok (s ∷ d ∷ ds)
      → AllEnds Ok es
      → read_batch body (lines_from s d ds es ++ [] ∷ more) tail eof acc
        ≡ some (
          foldl step (foldl step acc (pairs s (d ∷ ds))) es,
          record { lines = more; tail = tail; eof = eof },
        )
  unfolding read_batch
  read_batch-lines_from [] s d ds more tail eof acc ok all =
      read_batch-line (line_of s (d ∷ ds)) ([] ∷ more) tail eof acc _
        (line_of-not_empty s (d ∷ ds) (small s ok.0)) (reads s d ds acc ok)
  read_batch-lines_from ((s', d') ∷ es) s d ds more tail eof acc ok ((ok_s, ok_d), all) =
      elim (Bool-cases (s == s')) [
        | inl e ↦
            rw (e, ← (==_iff s s').0 e)
              (read_batch-lines_from es s d (ds ++ d' ∷ []) more tail eof acc
                  (ok.0, (ok.1.0, All-snoc Ok ds d' ok.1.1 ok_d)) all
                ∙ ap (λ a. some (foldl step a es, record { lines = more; tail = tail; eof = eof }))
                    (pairs-snoc step s d' (d ∷ ds) acc))
        | inr e ↦ rw e (
            read_batch-line (line_of s (d ∷ ds)) (lines_from s' d' [] es ++ [] ∷ more) tail eof acc
              _ (line_of-not_empty s (d ∷ ds) (small s ok.0)) (reads s d ds acc ok)
            ∙ read_batch-lines_from es s' d' [] more tail eof _ (ok_s, (ok_d, tt)) all)
      ]

  -- A batch of the file is read up to its first empty line.
  pub read_batch-batch_lines :
      (b : List Edge) (more : List Text) (tail : Text) (eof : Bool) (acc : A)
      → AllEnds Ok b
      → read_batch body (batch_lines b ++ more) tail eof acc
        ≡ some (
          foldl step acc b,
          record { lines = (if is_empty b then [] ∷ more else more); tail = tail; eof = eof },
        )
  unfolding read_batch
  read_batch-batch_lines [] more tail eof acc all = refl
  read_batch-batch_lines ((s, d) ∷ es) more tail eof acc ((ok_s, ok_d), all) =
      ap (λ ls. read_batch body ls tail eof acc)
        (append_assoc (lines_from s d [] es) ([] ∷ []) more)
      ∙ read_batch-lines_from es s d [] more tail eof acc (ok_s, (ok_d, tt)) all
