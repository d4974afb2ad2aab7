-- ===== src/Bench/Counts.antt =====
-- microbench/edit_scalability_large.cpp: how often an edge is in a batch.
use graph_log_sketch.Base.{
  ℕ, zero, suc, ◌+◌, ◌≤◌, ◌≡◌, refl, false, inl, inr, ◌&&◌, List, [], ◌∷◌, ◌++◌, arith, ◌==◌,
  if◌then◌else◌, Bool-cases, get_or, All,
}
use graph_log_sketch.Base.Sums.{count}
use graph_log_sketch.Graph.Adj.Inserted.{inserted, Below, sources}
use graph_log_sketch.Base.Sets.{HasNoRepeats}
use graph_log_sketch.Bench.{add_edge}
use graph_log_sketch.Bench.Ranges.{count-append}

abbrev pub is_edge : ℕ → ℕ → ℕ × ℕ → ℕ
is_edge v d (src, dst) = if src == v && d == dst then 1 else 0

-- A bound of all vertices of the file.
abbrev pub FitsBelow : ℕ → List (ℕ × ℕ) → Type 0
FitsBelow b file = All (λ e. (e.0 ≤ b) × (e.1 ≤ b)) file

pub add_edge-count :
    (v d : ℕ) (adj_map : List (ℕ × List ℕ)) (src dst : ℕ)
    → count d (inserted (add_edge adj_map (src, dst)) v)
      ≡ count d (inserted adj_map v) + is_edge v d (src, dst)
unfolding add_edge inserted
add_edge-count v d [] src dst = ground arith
add_edge-count v d ((s, dsts) ∷ adj_map) src dst = ground (
  arith,
  add_edge-count v d adj_map src dst,
  count-append d dsts (inserted adj_map v),
  count-append d (dsts ++ dst ∷ []) (inserted adj_map v),
  count-append d dsts (dst ∷ []),
  count-append d dsts (inserted (add_edge adj_map (src, dst)) v),
)

All-snoc :
    (b : ℕ) (xs : List ℕ) (a : ℕ) → All (λ x. x ≤ b) xs → a ≤ b → All (λ x. x ≤ b) (xs ++ a ∷ [])
All-snoc b [] a h q = (q, tt)
All-snoc b (x ∷ xs) a h q = (h.0, All-snoc b xs a h.1 q)

pub add_edge-Below :
    (b : ℕ) (adj_map : List (ℕ × List ℕ)) (src dst : ℕ)
    → src ≤ b
    → dst ≤ b
    → Below b adj_map
    → Below b (add_edge adj_map (src, dst))
unfolding add_edge
add_edge-Below b [] src dst p q h = ((p, (q, tt)), tt)
add_edge-Below b ((s, dsts) ∷ adj_map) src dst p q h = elim (Bool-cases (s == src)) [
  | inl e ↦ rw e ((h.0.0, All-snoc b dsts dst h.0.1 q), h.1)
  | inr e ↦ rw e (h.0, add_edge-Below b adj_map src dst p q h.1)
]

add_edge-sources :
    (a : ℕ) (adj_map : List (ℕ × List ℕ)) (src dst : ℕ)
    → (a == src) ≡ false
    → count a (sources adj_map) ≡ 0
    → count a (sources (add_edge adj_map (src, dst))) ≡ 0
unfolding add_edge
add_edge-sources a [] src dst ne none = rw ne refl
add_edge-sources a ((s, dsts) ∷ adj_map) src dst ne none =
    ground (arith, none, add_edge-sources a adj_map src dst ne)

-- The map has one entry for each source.
pub add_edge-HasNoRepeats :
    (adj_map : List (ℕ × List ℕ)) (src dst : ℕ)
    → HasNoRepeats (sources adj_map)
    → HasNoRepeats (sources (add_edge adj_map (src, dst)))
unfolding add_edge
add_edge-HasNoRepeats [] src dst h = (refl, tt)
add_edge-HasNoRepeats ((s, dsts) ∷ adj_map) src dst (new, h) = elim (Bool-cases (s == src)) [
  | inl e ↦ rw e (new, h)
  | inr e ↦ rw e (add_edge-sources s adj_map src dst e new, add_edge-HasNoRepeats adj_map src dst h)
]

pub get_or-fits :
    (b : ℕ) (file : List (ℕ × ℕ)) (i : ℕ)
    → FitsBelow b file
    → ((get_or file i (0, 0)).0 ≤ b) × ((get_or file i (0, 0)).1 ≤ b)
get_or-fits b [] i h = (omega arith, omega arith)
get_or-fits b (e ∷ file) zero h = h.0
get_or-fits b (e ∷ file) (suc i) h = get_or-fits b file i h.1
