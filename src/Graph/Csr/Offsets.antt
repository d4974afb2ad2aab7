-- ===== src/Graph/Csr/Offsets.antt =====
-- The offsets of the rows, and the cells that the copies write.
use graph_log_sketch.Base.{
  ℕ, zero, suc, ◌+◌, ◌-◌, ◌≤◌, ◌<◌, ◌≡◌, ◌≢◌, refl, sym, ap, ap₂, subst, ◌∙◌, ◌⊎◌, inl, inr, ⊎_elim,
  List, [], ◌∷◌, foldl, Memᴰ, arith, eq-cases, le_or_lt, length, get_or, set, replicate,
  length-append, length-set, length-replicate, length-take, get_or-replicate, get_or-set_self,
  get_or-set_ne,
}
use graph_log_sketch.Graph.{u64_mod}
use graph_log_sketch.Graph.Csr.{
  scan_op, scan_from, resize_cells, copy_at, back, copy_row, read_cells,
}
use mathlib.Core.List.Memᴰ

-- The lengths of the first `i` rows together.
unfoldable pub offset : List (List ℕ) → ℕ → ℕ
offset [] i = 0
offset (r ∷ rows) zero = 0
offset (r ∷ rows) (suc i) = length r + offset rows i

pub offset-suc :
    (rows : List (List ℕ)) (i : ℕ) → offset rows (suc i) ≡ offset rows i + length (get_or rows i [])
unfolding offset
offset-suc [] i = refl
offset-suc (r ∷ []) zero = omega arith
offset-suc (r ∷ s ∷ rows) zero = omega arith
offset-suc (r ∷ rows) (suc i) = omega (arith, offset-suc rows i)

pub offset-zero : (rows : List (List ℕ)) → offset rows 0 ≡ 0
unfolding offset
offset-zero [] = refl
offset-zero (r ∷ rows) = refl

pub offset_mono : (rows : List (List ℕ)) (i j : ℕ) → i ≤ j → offset rows i ≤ offset rows j
unfolding offset
offset_mono [] i j h = omega arith
offset_mono (r ∷ rows) zero j h = omega arith
offset_mono (r ∷ rows) (suc i) zero h = absurd (omega arith)
offset_mono (r ∷ rows) (suc i) (suc j) h = omega (arith, offset_mono rows i j (omega arith))

-- The prefix sum without overflow.
pub scan_from-offset :
    (rows : List (List ℕ)) (l i : ℕ)
    → l + offset rows (length rows) < u64_mod
    → i < length rows
    → get_or (scan_from scan_op l rows) i 0 ≡ l + offset rows (suc i)
unfolding offset scan_op
scan_from-offset [] l i h p = absurd (omega arith)
scan_from-offset (r ∷ rows) l zero h p = omega (arith, offset-zero rows)
scan_from-offset (r ∷ rows) l (suc i) h p =
    omega (arith, scan_from-offset rows (scan_op r l) i (omega arith) (omega arith))

pub length-scan_from :
    (rows : List (List ℕ)) (l : ℕ) → length (scan_from scan_op l rows) ≡ length rows
length-scan_from [] l = refl
length-scan_from (r ∷ rows) l = ap suc (length-scan_from rows (scan_op r l))

pub length-copy_at : (dst : List ℕ) (at : ℕ) (xs : List ℕ) → length (copy_at dst at xs) ≡ length dst
length-copy_at dst at [] = refl
length-copy_at dst at (x ∷ xs) = length-copy_at (set dst at x) (suc at) xs ∙ length-set dst at x

-- A copy leaves the other cells alone and fills its own.
pub get_or-copy_at_below :
    (dst : List ℕ) (at : ℕ) (xs : List ℕ) (p : ℕ)
    → p < at
    → get_or (copy_at dst at xs) p 0 ≡ get_or dst p 0
get_or-copy_at_below dst at [] p h = refl
get_or-copy_at_below dst at (x ∷ xs) p h =
    get_or-copy_at_below (set dst at x) (suc at) xs p (omega arith)
    ∙ get_or-set_ne dst at p x 0 (λ e. omega arith)

pub get_or-copy_at_above :
    (dst : List ℕ) (at : ℕ) (xs : List ℕ) (p : ℕ)
    → at + length xs ≤ p
    → get_or (copy_at dst at xs) p 0 ≡ get_or dst p 0
get_or-copy_at_above dst at [] p h = refl
get_or-copy_at_above dst at (x ∷ xs) p h =
    get_or-copy_at_above (set dst at x) (suc at) xs p (omega arith)
    ∙ get_or-set_ne dst at p x 0 (λ e. omega arith)

pub get_or-copy_at :
    (dst : List ℕ) (at : ℕ) (xs : List ℕ) (i : ℕ)
    → at + length xs ≤ length dst
    → i < length xs
    → get_or (copy_at dst at xs) (at + i) 0 ≡ get_or xs i 0
get_or-copy_at dst at [] i h p = absurd (omega arith)
get_or-copy_at dst at (x ∷ xs) zero h p =
    ap (λ k. get_or (copy_at (set dst at x) (suc at) xs) k 0) (omega arith)
    ∙ get_or-copy_at_below (set dst at x) (suc at) xs at (omega arith)
    ∙ get_or-set_self dst at x 0 (omega arith)
get_or-copy_at dst at (x ∷ xs) (suc i) h p =
    ap (λ k. get_or (copy_at (set dst at x) (suc at) xs) k 0) (omega arith)
    ∙ get_or-copy_at (set dst at x) (suc at) xs i (omega (arith, length-set dst at x)) (omega arith)

pub length-resize_cells : (n : ℕ) (cells : List ℕ) → length (resize_cells n cells) ≡ n
length-resize_cells n cells = ground (
  arith,
  length-append cells (replicate (n - length cells) 0),
  length-replicate {A = ℕ} (n - length cells) 0,
  length-take n cells,
)

pub get_or-resize_cells :
    (n : ℕ) (cells : List ℕ) → get_or (resize_cells (suc n) cells) 0 0 ≡ get_or cells 0 0
get_or-resize_cells n [] = ground (arith, get_or-replicate {A = ℕ} (suc n - 0) 0 0)
get_or-resize_cells n (x ∷ cells) = ground arith

pub back-get_or : (n : ℕ) (cells : List ℕ) → length cells ≡ suc n → back cells ≡ get_or cells n 0
back-get_or n [] h = absurd (omega arith)
back-get_or zero (x ∷ []) h = refl
back-get_or (suc n) (x ∷ []) h = absurd (omega arith)
back-get_or zero (x ∷ y ∷ cells) h = absurd (omega arith)
back-get_or (suc n) (x ∷ y ∷ cells) h = back-get_or n (y ∷ cells) (omega arith)

-- Cells that agree with a row are read back as the row.
pub read_cells-eq :
    (cells : List ℕ) (at : ℕ) (row : List ℕ)
    → ((k : ℕ) → k < length row → get_or cells (at + k) 0 ≡ get_or row k 0)
    → read_cells cells at (length row) ≡ row
read_cells-eq cells at [] h = refl
read_cells-eq cells at (x ∷ row) h =
    ap₂ (λ y ys. y ∷ ys) (ap (λ k. get_or cells k 0) (omega arith) ∙ h 0 (omega arith))
      (read_cells-eq cells (suc at) row
        (λ k p. ap (λ i. get_or cells i 0) (omega arith) ∙ h (suc k) (omega arith)))

get_or_beyond : (rows : List (List ℕ)) (j : ℕ) → length rows ≤ j → get_or rows j [] ≡ []
get_or_beyond [] j h = refl
get_or_beyond (r ∷ rows) zero h = absurd (omega arith)
get_or_beyond (r ∷ rows) (suc j) h = get_or_beyond rows j (omega arith)

module _ (rows : List (List ℕ)) (vertices : List ℕ)
    (at_offsets : (i : ℕ) → i ≤ length rows → get_or vertices i 0 ≡ offset rows i) (i k : ℕ)
    (row_inside : i < length rows) (inside : k < length (get_or rows i [])) where
  -- The copy of row `j` fills the cells of row `i` if that is the same row, and leaves them alone
  -- otherwise.
  copy_row_self :
      (dst : List ℕ)
      → length dst ≡ offset rows (length rows)
      → get_or (copy_row rows vertices dst i) (offset rows i + k) 0 ≡ get_or (get_or rows i []) k 0
  unfolding copy_row
  copy_row_self dst e = rw (at_offsets i (omega arith)) (
      get_or-copy_at dst (offset rows i) (get_or rows i []) k
        (omega (arith, offset-suc rows i, offset_mono rows (suc i) (length rows))) inside)

  copy_row-ne :
      (dst : List ℕ) (j : ℕ)
      → j ≢ i
      → get_or (copy_row rows vertices dst j) (offset rows i + k) 0
        ≡ get_or dst (offset rows i + k) 0
  unfolding copy_row
  copy_row-ne dst j ne = elim (le_or_lt (length rows) j) [
    | inl beyond ↦ rw (get_or_beyond rows j beyond) refl
    | inr lt ↦ rw (at_offsets j (omega arith)) (elim (le_or_lt i j) [
      | inl after ↦
          get_or-copy_at_below dst (offset rows j) (get_or rows j []) (offset rows i + k)
            (omega (arith, offset-suc rows i, offset_mono rows (suc i) j (omega arith)))
      | inr before ↦
          get_or-copy_at_above dst (offset rows j) (get_or rows j []) (offset rows i + k)
            (omega (arith, offset-suc rows j, offset_mono rows (suc j) i (omega arith)))
    ])
  ]

  -- In whatever order the rows are copied, the cells of each hold the row in the end.
  pub copy_rows-cell :
      (js : List ℕ) (dst : List ℕ)
      → length dst ≡ offset rows (length rows)
      → (Memᴰ i js) ⊎ (get_or dst (offset rows i + k) 0 ≡ get_or (get_or rows i []) k 0)
      → get_or (foldl (copy_row rows vertices) dst js) (offset rows i + k) 0
        ≡ get_or (get_or rows i []) k 0
  unfolding copy_row
  copy_rows-cell [] dst e h = ⊎_elim (λ m. absurd (Memᴰ.not-nil m)) (λ same. same) h
  copy_rows-cell (j ∷ js) dst e h =
      copy_rows-cell js (copy_row rows vertices dst j)
        (length-copy_at dst (get_or vertices j 0) (get_or rows j []) ∙ e)
        (elim (eq-cases j i) [
          | inl same ↦ inr (
              subst
                (λ x.
                  get_or (copy_row rows vertices dst x) (offset rows i + k) 0
                  ≡ get_or (get_or rows i []) k 0)
                (sym same) (copy_row_self dst e))
          | inr ne ↦
              ⊎_elim (λ m. ⊎_elim (λ q. absurd (ne (sym q))) inl (Memᴰ.cases_cons m))
                (λ done. inr (copy_row-ne dst j ne ∙ done)) h
        ])
