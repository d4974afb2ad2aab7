-- ===== src/Batches/Totals.antt =====
-- The edges of a list, and how often each is there.
use graph_log_sketch.Base.{
  ℕ, zero, suc, ◌+◌, ◌≤◌, ◌≡◌, refl, sym, ap, ap₂, ◌∙◌, inl, inr, List, [], ◌∷◌, ◌++◌, arith,
  Bool-cases, length, take, drop,
}
use mathlib.Core.List.{Permᴰ}
use graph_log_sketch.Base.Text.{Text}
use graph_log_sketch.Batches.Writer.{Edge, precedes, insert_pair, sort_pairs}
use graph_log_sketch.Batches.Rendered.{batch_text}

-- The sum of a weight over the edges; with `is_edge v d` it says how often an edge is listed.
abbrev pub total : (Edge → ℕ) → List Edge → ℕ
total w [] = 0
total w (e ∷ es) = w e + total w es

abbrev pub all_edges : List (List Edge) → List Edge
all_edges [] = []
all_edges (b ∷ bs) = b ++ all_edges bs

abbrev pub file_text : List (List Edge) → Text
file_text [] = []
file_text (b ∷ bs) = batch_text b ++ file_text bs

pub total-append : (w : Edge → ℕ) (es fs : List Edge) → total w (es ++ fs) ≡ total w es + total w fs
total-append w [] fs = omega arith
total-append w (e ∷ es) fs = omega (arith, total-append w es fs)

total-insert_pair :
    (w : Edge → ℕ) (e : Edge) (es : List Edge) → total w (insert_pair e es) ≡ w e + total w es
total-insert_pair w e [] = refl
total-insert_pair w e (f ∷ es) = elim (Bool-cases (precedes f e)) [
  | inl p ↦ rw p (omega (arith, total-insert_pair w e es))
  | inr p ↦ rw p refl
]

pub total-sort_pairs : (w : Edge → ℕ) (es : List Edge) → total w (sort_pairs es) ≡ total w es
total-sort_pairs w [] = refl
total-sort_pairs w (e ∷ es) =
    total-insert_pair w e (sort_pairs es) ∙ omega (arith, total-sort_pairs w es)

pub total-take :
    (w : Edge → ℕ) (k : ℕ) (es : List Edge) → total w (take k es) + total w (drop k es) ≡ total w es
total-take w zero es = omega arith
total-take w (suc k) [] = refl
total-take w (suc k) (e ∷ es) = omega (arith, total-take w k es)

pub drop-drop : (i k : ℕ) (es : List Edge) → drop k (drop i es) ≡ drop (i + k) es
drop-drop zero k es = let same : 0 + k ≡ k = omega arith in rw same refl
drop-drop (suc i) k [] = drop_none k ∙ sym (drop_none (suc i + k))
  where
    drop_none : (j : ℕ) → drop {A = Edge} j [] ≡ []
    drop_none zero = refl
    drop_none (suc j) = refl
drop-drop (suc i) k (e ∷ es) =
    let same : suc i + k ≡ suc (i + k) = omega arith in rw same (drop-drop i k es)

pub drop_beyond : (i : ℕ) (es : List Edge) → length es ≤ i → drop i es ≡ []
drop_beyond zero [] h = refl
drop_beyond (suc i) [] h = refl
drop_beyond zero (e ∷ es) h = absurd (omega arith)
drop_beyond (suc i) (e ∷ es) h = drop_beyond i es (omega arith)

pub total-perm : {es fs : List Edge} (w : Edge → ℕ) → Permᴰ es fs → total w es ≡ total w fs
total-perm w Permᴰ.nil = refl
total-perm w (Permᴰ.cons e p) = ap₂ ◌+◌ (ap w e) (total-perm w p)
total-perm w (Permᴰ.swap e f) = omega (arith, ap w e, ap w f)
total-perm w (Permᴰ.trans p q) = total-perm w p ∙ total-perm w q
