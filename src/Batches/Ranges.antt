-- ===== src/Batches/Ranges.antt =====
-- scripts/divide_into_batches.cpp: the ranges of edges that make the batches.
use graph_log_sketch.Base.{
  ℕ, zero, suc, ◌+◌, ◌-◌, ◌*◌, ◌%◌, min, ◌≤◌, ◌<◌, ◌≡◌, refl, sym, ap, subst, ◌∙◌, inl, inr, true,
  false, none, some, List, [], ◌∷◌, ◌++◌, All, arith, ltb, Bool-cases, Option-cases, le_or_lt,
  length, take, drop, append_assoc, append-nil,
}
use native.Mathlib.Nat.{add-mul}
use graph_log_sketch.Graph.{u64_mod}
use graph_log_sketch.Base.Text.{Text}
use graph_log_sketch.Batches.Writer.{
  Edge, precedes, insert_pair, sort_pairs, write_batch, batch_of, write_batches,
}
use graph_log_sketch.Batches.Written.{AllEnds}
use graph_log_sketch.Batches.Rendered.{batch_text, write_batch-batch_text}
use graph_log_sketch.Batches.Totals.{
  total, all_edges, file_text, total-append, total-sort_pairs, total-take, drop-drop, drop_beyond,
}

module _ (edges : List Edge) (per : ℕ) where
  -- The edges of the batch of an index, sorted.
  abbrev range_of : ℕ → List Edge
  range_of i =
      sort_pairs (take (min (length edges) ((i + 1) * per) - i * per) (drop (i * per) edges))

  abbrev pub ranges : ℕ → ℕ → List (List Edge)
  ranges i zero = []
  ranges i (suc left) = range_of i ∷ ranges (i + 1) left

  batch_of-range_of :
      (i : ℕ)
      → (i + 1) * per < u64_mod
      → i * per ≤ length edges
      → batch_of edges per i ≡ some (range_of i)
  unfolding batch_of
  batch_of-range_of i small fits =
      let next : (i + 1) * per ≡ i * per + per = omega (arith, add-mul i 1 per) in
      let begin : i * per % u64_mod ≡ i * per = omega arith in
      let end : (i + 1) * per % u64_mod ≡ (i + 1) * per = omega arith in
      let ordered : ltb (min (length edges) ((i + 1) * per)) (i * per) ≡ false = ground arith in
      rw (begin, end, ordered) refl

  pub write_batches-ranges :
      (i left : ℕ) (fout : Text)
      → (i + left) * per < u64_mod
      → ((j : ℕ) → j < i + left → j * per ≤ length edges)
      → write_batches edges per i left fout ≡ some (fout ++ file_text (ranges i left))
  unfolding write_batches
  write_batches-ranges i zero fout small fits = ap some (sym (append-nil fout))
  write_batches-ranges i (suc left) fout small fits =
      let shift : i + suc left ≡ i + 1 + left = omega arith in
      let whole : (i + suc left) * per ≡ (i + 1) * per + left * per =
        ap (λ n. n * per) shift ∙ add-mul (i + 1) left per in
      rw
        (
          batch_of-range_of i (omega arith) (fits i (omega arith)),
          write_batches-ranges (i + 1) left (write_batch fout (range_of i))
              (subst (λ n. n * per < u64_mod) shift small) (λ j lt. fits j (omega arith)),
          write_batch-batch_text (range_of i) fout,
        )
        (ap some (append_assoc fout (batch_text (range_of i)) (file_text (ranges (i + 1) left))))

  batch_of-none :
      (i : ℕ) → (i + 1) * per < u64_mod → length edges < i * per → batch_of edges per i ≡ none
  unfolding batch_of
  batch_of-none i small over =
      let next : (i + 1) * per ≡ i * per + per = omega (arith, add-mul i 1 per) in
      let begin : i * per % u64_mod ≡ i * per = omega arith in
      let end : (i + 1) * per % u64_mod ≡ (i + 1) * per = omega arith in
      let over' : ltb (min (length edges) ((i + 1) * per)) (i * per) ≡ true = ground arith in
      rw (begin, end, over') refl

  pub write_batches_undefined :
      (i left : ℕ) (fout : Text)
      → (i + left + 1) * per < u64_mod
      → length edges < (i + left) * per
      → write_batches edges per i (suc left) fout ≡ none
  unfolding write_batches
  write_batches_undefined i zero fout small over =
      let same : i + 0 ≡ i = omega arith in
      rw
        (batch_of-none i (subst (λ n. (n + 1) * per < u64_mod) same small)
          (subst (λ n. length edges < n * per) same over))
        refl
  write_batches_undefined i (suc left) fout small over =
      let shift : i + suc left ≡ i + 1 + left = omega arith in
      elim (Option-cases (batch_of edges per i)) [
        | inl e ↦ rw e refl
        | inr (b, e) ↦ rw e (
            write_batches_undefined (i + 1) left (write_batch fout b)
              (subst (λ n. (n + 1) * per < u64_mod) shift small)
              (subst (λ n. length edges < n * per) shift over))
      ]

  range_end :
      (i : ℕ)
      → i * per ≤ length edges
      → drop (i * per + (min (length edges) ((i + 1) * per) - i * per)) edges
        ≡ drop ((i + 1) * per) edges
  range_end i fits =
      let next : (i + 1) * per ≡ i * per + per = omega (arith, add-mul i 1 per) in
      elim (le_or_lt ((i + 1) * per) (length edges)) [
        | inl le ↦ ap (λ n. drop n edges) (omega arith)
        | inr lt ↦
            drop_beyond _ edges (omega arith)
            ∙ sym (drop_beyond ((i + 1) * per) edges (omega arith))
      ]

  total-range_of :
      (w : Edge → ℕ) (i : ℕ)
      → i * per ≤ length edges
      → total w (range_of i) + total w (drop ((i + 1) * per) edges) ≡ total w (drop (i * per) edges)
  total-range_of w i fits =
      let k = min (length edges) ((i + 1) * per) - i * per in
      let next : (i + 1) * per ≡ i * per + per = omega (arith, add-mul i 1 per) in
      omega (
        arith,
        total-sort_pairs w (take k (drop (i * per) edges)),
        total-take w k (drop (i * per) edges),
        ap (total w) (drop-drop (i * per) k edges),
        ap (total w) (range_end i fits),
      )

  pub total-ranges :
      (w : Edge → ℕ) (i left : ℕ)
      → length edges ≤ (i + left) * per
      → ((j : ℕ) → j < i + left → j * per ≤ length edges)
      → total w (all_edges (ranges i left)) ≡ total w (drop (i * per) edges)
  total-ranges w i zero covers fits =
      let same : i + 0 ≡ i = omega arith in
      ap (total w)
        (sym (drop_beyond (i * per) edges (subst (λ n. length edges ≤ n * per) same covers)))
  total-ranges w i (suc left) covers fits =
      let shift : i + suc left ≡ i + 1 + left = omega arith in
      total-append w (range_of i) (all_edges (ranges (i + 1) left))
      ∙ omega (
        arith,
        total-ranges w (i + 1) left (subst (λ n. length edges ≤ n * per) shift covers)
            (λ j lt. fits j (omega arith)),
        total-range_of w i (fits i (omega arith)),
      )

AllEnds-insert_pair :
    (P : ℕ → Type 0) (e : Edge) (es : List Edge)
    → P e.0 × P e.1
    → AllEnds P es
    → AllEnds P (insert_pair e es)
AllEnds-insert_pair P e [] one all = (one, tt)
AllEnds-insert_pair P e (f ∷ es) one (two, all) = elim (Bool-cases (precedes f e)) [
  | inl p ↦ rw p (two, AllEnds-insert_pair P e es one all)
  | inr p ↦ rw p (one, (two, all))
]

AllEnds-sort_pairs : (P : ℕ → Type 0) (es : List Edge) → AllEnds P es → AllEnds P (sort_pairs es)
AllEnds-sort_pairs P [] all = tt
AllEnds-sort_pairs P (e ∷ es) (one, all) =
    AllEnds-insert_pair P e (sort_pairs es) one (AllEnds-sort_pairs P es all)

All-take {ℓ κ} : {A : Type ℓ} (P : A → Type κ) (k : ℕ) (xs : List A) → All P xs → All P (take k xs)
All-take P zero xs all = tt
All-take P (suc k) [] all = tt
All-take P (suc k) (x ∷ xs) (one, all) = (one, All-take P k xs all)

All-drop {ℓ κ} : {A : Type ℓ} (P : A → Type κ) (k : ℕ) (xs : List A) → All P xs → All P (drop k xs)
All-drop P zero xs all = all
All-drop P (suc k) [] all = tt
All-drop P (suc k) (x ∷ xs) (one, all) = All-drop P k xs all

pub AllEnds-ranges :
    (P : ℕ → Type 0) (edges : List Edge) (per i left : ℕ)
    → AllEnds P edges
    → All (AllEnds P) (ranges edges per i left)
AllEnds-ranges P edges per i zero all = tt
AllEnds-ranges P edges per i (suc left) all = (
  AllEnds-sort_pairs P (take (min (length edges) ((i + 1) * per) - i * per) (drop (i * per) edges))
      (All-take (λ e. P e.0 × P e.1) (min (length edges) ((i + 1) * per) - i * per)
        (drop (i * per) edges) (All-drop (λ e. P e.0 × P e.1) (i * per) edges all)),
  AllEnds-ranges P edges per (i + 1) left all,
)

pub length-ranges : (edges : List Edge) (per i left : ℕ) → length (ranges edges per i left) ≡ left
length-ranges edges per i zero = refl
length-ranges edges per i (suc left) = ap suc (length-ranges edges per (i + 1) left)
