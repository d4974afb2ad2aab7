-- ===== src/Batches/Division.antt =====
-- scripts/divide_into_batches.cpp: the batches into which the edges are divided.
use graph_log_sketch.Base.{
  ℕ, suc, ◌+◌, ◌-◌, ◌*◌, ◌%◌, ◌≤◌, ◌<◌, ◌≡◌, refl, sym, ap, subst, ◌∙◌, false, none, List, [], ◌∷◌,
  All, All-Memᴰ, Memᴰ-All, arith, ◌==◌, length, drop,
}
use mathlib.Core.List.{Permᴰ}
use native.Mathlib.Nat.{add-mul}
use graph_log_sketch.Base.DoAll.{length-perm, Permᴰ-Memᴰ}
use graph_log_sketch.Graph.{u64_mod}
use graph_log_sketch.Bench.Counts.{is_edge}
use graph_log_sketch.Bench.Ranges.{division}
use graph_log_sketch.Batches.Streams.{is_empty}
use graph_log_sketch.Batches.Writer.{
  Edge, edges_per_batch, write_batches, undefined, written, division_of, divide,
}
use graph_log_sketch.Batches.Written.{AllEnds}
use graph_log_sketch.Batches.Totals.{total, all_edges, file_text, total-perm}
use graph_log_sketch.Batches.Ranges.{
  ranges, write_batches-ranges, write_batches_undefined, total-ranges, AllEnds-ranges,
  length-ranges,
}

-- The number of edges in a batch is enough for all, and not too large for 64 bits.
per_batch-covers :
    (n num_batches : ℕ)
    → 0 < num_batches
    → n + num_batches < u64_mod
    → (num_batches * edges_per_batch n num_batches < u64_mod)
      × (n ≤ num_batches * edges_per_batch n num_batches)
unfolding edges_per_batch
per_batch-covers n num_batches h small =
    let same : (n + (num_batches + u64_mod - 1)) % u64_mod ≡ n + (num_batches - 1) = omega arith in
    let (le, ge) = division (n + (num_batches - 1)) num_batches h in
    rw same (omega arith, omega arith)

-- The batches that the program writes.
abbrev pub batches : (List Edge → List Edge) → List Edge → ℕ → List (List Edge)
batches arrange edges num_batches =
    ranges (arrange edges) (edges_per_batch (length edges) num_batches) 0 num_batches

pub AllEnds-perm : (P : ℕ → Type 0) {es fs : List Edge} → Permᴰ es fs → AllEnds P fs → AllEnds P es
AllEnds-perm P {es} {fs} p all = Memᴰ-All _ es (λ e m. All-Memᴰ _ fs all (Permᴰ-Memᴰ p m))

pub AllEnds-batches :
    (P : ℕ → Type 0) (arrange : List Edge → List Edge) (edges : List Edge) (num_batches : ℕ)
    → Permᴰ (arrange edges) edges
    → AllEnds P edges
    → All (AllEnds P) (batches arrange edges num_batches)
AllEnds-batches P arrange edges num_batches arranged all =
    AllEnds-ranges P (arrange edges) (edges_per_batch (length edges) num_batches) 0 num_batches
      (AllEnds-perm P arranged all)

module _ (arrange : List Edge → List Edge) (edges : List Edge) (num_batches : ℕ)
    (arranged : Permᴰ (arrange edges) edges) (some_edge : 0 < length edges)
    (some_batch : 0 < num_batches) (small : length edges + num_batches < u64_mod) where
  abbrev per : ℕ
  per = edges_per_batch (length edges) num_batches

  divide-main :
      divide arrange edges num_batches
      ≡ division_of (write_batches (arrange edges) per 0 num_batches [])
  unfolding divide
  divide-main =
      let not_none : is_empty edges ≡ false = go edges some_edge in
      let not_zero : (num_batches == 0) ≡ false = ground arith in rw (not_none, not_zero) refl
    where
      go : (es : List Edge) → 0 < length es → is_empty es ≡ false
      go [] h = absurd (omega arith)
      go (e ∷ es) h = refl

  fits_all :
      (num_batches - 1) * per ≤ length edges
      → (j : ℕ) → j < 0 + num_batches
      → j * per ≤ length (arrange edges)
  fits_all fits j lt =
      let rest : j + (num_batches - 1 - j) ≡ num_batches - 1 = omega arith in
      let grown : (num_batches - 1) * per ≡ j * per + (num_batches - 1 - j) * per =
        ap (λ n. n * per) (sym rest) ∙ add-mul j (num_batches - 1 - j) per in
      omega (arith, length-perm arranged)

  pub divide-batches :
      (num_batches - 1) * per ≤ length edges
      → divide arrange edges num_batches ≡ written (file_text (batches arrange edges num_batches))
  divide-batches fits =
      let (in_range, _) = per_batch-covers (length edges) num_batches some_batch small in
      let all : 0 + num_batches ≡ num_batches = omega arith in
      divide-main
      ∙ ap division_of (
          write_batches-ranges (arrange edges) per 0 num_batches []
            (subst (λ n. n * per < u64_mod) (sym all) in_range) (fits_all fits))

  pub total-batches :
      (num_batches - 1) * per ≤ length edges
      → (w : Edge → ℕ) → total w (all_edges (batches arrange edges num_batches)) ≡ total w edges
  total-batches fits w =
      let begin : 0 * per ≡ 0 = omega arith in
      let (_, covers) = per_batch-covers (length edges) num_batches some_batch small in
      let all : 0 + num_batches ≡ num_batches = omega arith in
      total-ranges (arrange edges) per w 0 num_batches
        (subst (λ n. length (arrange edges) ≤ n * per) (sym all)
          (omega (arith, length-perm arranged)))
        (fits_all fits)
      ∙ ap (λ n. total w (drop n (arrange edges))) begin
      ∙ total-perm w arranged

  -- There are edges and batches, together fewer than 2^64, and random_shuffle permutes the edges.
  -- If the last batch begins behind the last edge, the program runs into undefined behaviour.
  -- Otherwise it writes one text for each batch, one behind the other, and an edge is in the
  -- batches as often as in the input.
  pub divide_lem :
      (length edges < (num_batches - 1) * edges_per_batch (length edges) num_batches
        → divide arrange edges num_batches ≡ undefined)
      × ((num_batches - 1) * edges_per_batch (length edges) num_batches ≤ length edges
          → (bs : List (List Edge)) × (divide arrange edges num_batches ≡ written (file_text bs))
            × (length bs ≡ num_batches)
            × ((v d : ℕ) → total (is_edge v d) (all_edges bs) ≡ total (is_edge v d) edges))
  divide_lem = (
    λ over.
        let (in_range, _) = per_batch-covers (length edges) num_batches some_batch small in
        let last : suc (num_batches - 1) ≡ num_batches = omega arith in
        let up : 0 + (num_batches - 1) + 1 ≡ num_batches = omega arith in
        let begin : 0 + (num_batches - 1) ≡ num_batches - 1 = omega arith in
        divide-main
        ∙ ap division_of (
            subst (λ n. write_batches (arrange edges) per 0 n [] ≡ none) last
              (write_batches_undefined (arrange edges) per 0 (num_batches - 1) []
                (subst (λ n. n * per < u64_mod) (sym up) in_range)
                (subst (λ n. length (arrange edges) < n * per) (sym begin)
                  (omega (arith, length-perm arranged))))),
    λ fits. (
      batches arrange edges num_batches,
      divide-batches fits,
      length-ranges (arrange edges) per 0 num_batches,
      λ v d. total-batches fits (is_edge v d),
    ),
  )
