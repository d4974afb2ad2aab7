-- ===== src/Graph/Sorting.antt =====
-- `std::sort`, `std::lower_bound` and `std::binary_search`, as the graph representations call them
-- on a part of an array of vertex ids.
pub mod Laws
use graph_log_sketch.Base.{
  ℕ, zero, suc, ◌+◌, ◌-◌, ◌/◌, ◌≤◌, ◌<◌, ◌≡◌, refl, ◌↔◌, ◌⊎◌, inl, inr, Bool, true, ◌&&◌, not, List,
  [], ◌∷◌, ◌++◌, arith, ltb, ltb→lt, leb, if◌then◌else◌, Bool-cases, le_or_lt, get_or, take, drop,
}

-- Insertion into an ascending list; `std::sort` by repeated insertion.
pub insert : ℕ → List ℕ → List ℕ
insert a [] = a ∷ []
insert a (x ∷ xs) = if leb a x then a ∷ x ∷ xs else x ∷ insert a xs

unfoldable pub sort : List ℕ → List ℕ
unfolding insert
sort [] = []
sort (x ∷ xs) = insert x (sort xs)

-- `std::sort(v.begin() + first, v.begin() + last)`.
unfoldable pub sort_range : List ℕ → ℕ → ℕ → List ℕ
unfolding sort
sort_range xs first last =
    take first xs ++ (sort (take (last - first) (drop first xs)) ++ drop last xs)

-- The loop of `std::lower_bound` over `len` cells from `first`, with its halving step; the length
-- is fuel enough.
unfoldable pub lower_bound : ℕ → List ℕ → ℕ → ℕ → ℕ → ℕ
lower_bound zero xs first len value = first
lower_bound (suc fuel) xs first len value =
    let half = len / 2 in
    let middle = first + half in
    let right = lower_bound fuel xs (middle + 1) (len - half - 1) value in
    let left = lower_bound fuel xs first half value in
    if ltb 0 len then (if ltb (get_or xs middle 0) value then right else left) else first

-- `std::binary_search(v.begin() + first, v.begin() + last, value)`.
unfoldable pub binary_search : List ℕ → ℕ → ℕ → ℕ → Bool
unfolding lower_bound
binary_search xs first last value =
    let i = lower_bound (last - first) xs first (last - first) value in
    ltb i last && not (ltb value (get_or xs i 0))

-- Ascending on the cells from `first` up to `last`.
abbrev pub IsSortedOn : List ℕ → ℕ → ℕ → Type 0
IsSortedOn xs first last = (i j : ℕ) → first ≤ i → i ≤ j → j < last → get_or xs i 0 ≤ get_or xs j 0

module _ (xs : List ℕ) (value : ℕ) where
  -- `r` splits the cells into those below `value` and the others.
  pub record Splits (first last r : ℕ) : Type 0 where
    pub from : first ≤ r
    pub to : r ≤ last
    pub below : (i : ℕ) → first ≤ i → i < r → get_or xs i 0 < value
    pub above : (i : ℕ) → r ≤ i → i < last → value ≤ get_or xs i 0

  Splits-right :
      (first last m r : ℕ)
      → first ≤ m
      → IsSortedOn xs first last
      → m < last
      → get_or xs m 0 < value
      → Splits (m + 1) last r
      → Splits first last r
  Splits-right first last m r p sorted q smaller s = record {
    from = omega arith;
    to = s.to;
    below = λ i h k. elim (le_or_lt (m + 1) i) [
      | inl h' ↦ s.below i h' k
      | inr h' ↦ omega (arith, sorted i m h (omega arith) q)
    ];
    above = s.above;
  }

  Splits-left :
      (first last m r : ℕ)
      → first ≤ m
      → IsSortedOn xs first last
      → m < last
      → value ≤ get_or xs m 0
      → Splits first m r
      → Splits first last r
  Splits-left first last m r p sorted q larger s = record {
    from = s.from;
    to = omega arith;
    below = s.below;
    above = λ i h k. elim (le_or_lt m i) [
      | inl h' ↦ omega (arith, sorted m i p h' k)
      | inr h' ↦ s.above i h h'
    ];
  }

  pub lower_bound-Splits :
      (fuel first len last : ℕ)
      → len ≤ fuel
      → last ≡ first + len
      → IsSortedOn xs first last
      → Splits first last (lower_bound fuel xs first len value)
  unfolding lower_bound
  lower_bound-Splits zero first len last enough e sorted = record {
    from = omega arith;
    to = omega arith;
    below = λ i p q. absurd (omega arith);
    above = λ i p q. absurd (omega arith);
  }
  lower_bound-Splits (suc fuel) first len last enough e sorted = elim (Bool-cases (ltb 0 len)) [
    | inr empty ↦ rw empty (record {
      from = omega arith;
      to = omega arith;
      below = λ i p q. absurd (omega arith);
      above = λ i p q. absurd (ground arith);
    })
    | inl some_left ↦
        let nonempty = ltb→lt 0 len some_left in
        rw some_left (elim (Bool-cases (ltb (get_or xs (first + len / 2) 0) value)) [
          | inl smaller ↦ rw smaller (
              Splits-right first last (first + len / 2) _ (omega arith) sorted (omega arith)
                (ltb→lt _ _ smaller)
                (lower_bound-Splits fuel (first + len / 2 + 1) (len - len / 2 - 1) last
                  (omega arith) (omega arith) (λ i j p. sorted i j (omega arith))))
          | inr larger ↦ rw larger (
              Splits-left first last (first + len / 2) _ (omega arith) sorted (omega arith)
                (ground arith)
                (lower_bound-Splits fuel first (len / 2) (first + len / 2) (omega arith) refl
                  (λ i j p q h. sorted i j p q (omega arith))))
        ])
  ]

  -- On ascending cells `binary_search` finds the value exactly when a cell holds it.
  pub binary_search_iff :
      (first last : ℕ)
      → first ≤ last
      → IsSortedOn xs first last
      → (binary_search xs first last value ≡ true)
        ↔ ((i : ℕ) × (first ≤ i) × (i < last) × (get_or xs i 0 ≡ value))
  unfolding binary_search
  binary_search_iff first last h sorted = (found, complete)
    where
      i : ℕ
      i = lower_bound (last - first) xs first (last - first) value

      s : Splits first last i
      s =
          lower_bound-Splits (last - first) first (last - first) last (omega arith) (omega arith)
            sorted

      found :
          (ltb i last && not (ltb value (get_or xs i 0))) ≡ true
          → (j : ℕ) × (first ≤ j) × (j < last) × (get_or xs j 0 ≡ value)
      found e = (i, s.from, ground arith, ground (arith, s.above i))

      complete :
          (j : ℕ) × (first ≤ j) × (j < last) × (get_or xs j 0 ≡ value)
          → (ltb i last && not (ltb value (get_or xs i 0))) ≡ true
      complete (j, p, q, e) = elim (le_or_lt i j) [
        | inl h' ↦ ground (arith, s.above j h' q, sorted i j s.from h' q)
        | inr h' ↦ absurd (omega (arith, s.below j p h'))
      ]
