-- ===== src/Graph/Sorting/Laws.antt =====
-- `std::sort` and `std::binary_search`, as lists.
use graph_log_sketch.Base.{
  ℕ, zero, suc, ◌≤◌, ◌<◌, ◌≡◌, refl, ◌↔◌, inl, inr, true, List, [], ◌∷◌, Memᴰ, arith, leb,
  Bool-cases, leb→le, length, get_or, All, All-Memᴰ, Memᴰ-All,
}
use graph_log_sketch.Base.DoAll.{Permᴰ-Memᴰ}
use graph_log_sketch.Graph.Sorting.{insert, sort, binary_search, binary_search_iff}
use mathlib.Core.List.Memᴰ
use mathlib.Core.List.{Permᴰ}
use mathlib.Core.List.Permᴰ

insert-perm : (a : ℕ) (xs : List ℕ) → Permᴰ (insert a xs) (a ∷ xs)
unfolding insert
insert-perm a [] = Permᴰ.refl (a ∷ [])
insert-perm a (x ∷ xs) = elim (Bool-cases (leb a x)) [
  | inl e ↦ rw e (Permᴰ.refl (a ∷ x ∷ xs))
  | inr e ↦ rw e (Permᴰ.trans (Permᴰ.cons refl (insert-perm a xs)) (Permᴰ.swap refl refl))
]

pub sort-perm : (xs : List ℕ) → Permᴰ (sort xs) xs
unfolding sort
sort-perm [] = Permᴰ.nil
sort-perm (x ∷ xs) = Permᴰ.trans (insert-perm x (sort xs)) (Permᴰ.cons refl (sort-perm xs))

abbrev pub IsAscending : List ℕ → Type 0
IsAscending [] = Unit
IsAscending (x ∷ xs) = All (λ y. x ≤ y) xs × IsAscending xs

insert-IsAscending : (a : ℕ) (xs : List ℕ) → IsAscending xs → IsAscending (insert a xs)
unfolding insert
insert-IsAscending a [] h = (tt, tt)
insert-IsAscending a (x ∷ xs) h = elim (Bool-cases (leb a x)) [
  | inl e ↦
      let le = leb→le a x e in
      rw e ((le, Memᴰ-All _ xs (λ y m. omega (arith, All-Memᴰ _ xs h.0 m))), h)
  | inr e ↦ rw e (
    Memᴰ-All _ (insert a xs) (λ y m. elim (Memᴰ.cases_cons (Permᴰ-Memᴰ (insert-perm a xs) m)) [
      | inl same ↦ ground arith
      | inr old ↦ All-Memᴰ _ xs h.0 old
    ]),
    insert-IsAscending a xs h.1,
  )
]

pub sort-IsAscending : (xs : List ℕ) → IsAscending (sort xs)
unfolding sort
sort-IsAscending [] = tt
sort-IsAscending (x ∷ xs) = insert-IsAscending x (sort xs) (sort-IsAscending xs)

get_or-Memᴰ : (xs : List ℕ) (i : ℕ) → i < length xs → Memᴰ (get_or xs i 0) xs
get_or-Memᴰ [] i h = elim h [ ]
get_or-Memᴰ (x ∷ xs) zero h = Memᴰ.head refl
get_or-Memᴰ (x ∷ xs) (suc i) h = Memᴰ.tail (get_or-Memᴰ xs i (omega arith))

Memᴰ-get_or : (xs : List ℕ) (a : ℕ) → Memᴰ a xs → (i : ℕ) × (i < length xs) × (get_or xs i 0 ≡ a)
Memᴰ-get_or [] a m = elim m [ ]
Memᴰ-get_or (x ∷ xs) a (Memᴰ.head e) = (0, omega arith, ground arith)
Memᴰ-get_or (x ∷ xs) a (Memᴰ.tail m) = let (i, h, e) = Memᴰ-get_or xs a m in (suc i, omega arith, e)

IsAscending-get_or :
    (xs : List ℕ) (i j : ℕ) → IsAscending xs → i ≤ j → j < length xs → get_or xs i 0 ≤ get_or xs j 0
IsAscending-get_or [] i j s p h = absurd (omega arith)
IsAscending-get_or (x ∷ xs) zero zero s p h = omega arith
IsAscending-get_or (x ∷ xs) zero (suc j) s p h = All-Memᴰ _ xs s.0 (get_or-Memᴰ xs j (omega arith))
IsAscending-get_or (x ∷ xs) (suc i) zero s p h = absurd (omega arith)
IsAscending-get_or (x ∷ xs) (suc i) (suc j) s p h =
    IsAscending-get_or xs i j s.1 (omega arith) (omega arith)

-- On a sorted row `binary_search` over the whole row decides membership.
pub binary_search-mem :
    (xs : List ℕ) (a : ℕ) → IsAscending xs → (binary_search xs 0 (length xs) a ≡ true) ↔ Memᴰ a xs
binary_search-mem xs a s = (
  λ e. let (i, _, h, same) = iff.0 e in Memᴰ.cast (ground arith) (get_or-Memᴰ xs i h),
  λ m. let (i, h, same) = Memᴰ-get_or xs a m in iff.1 (i, omega arith, h, same),
)
  where
    iff :
        (binary_search xs 0 (length xs) a ≡ true)
        ↔ ((i : ℕ) × (0 ≤ i) × (i < length xs) × (get_or xs i 0 ≡ a))
    iff =
        binary_search_iff xs a 0 (length xs) (omega arith)
          (λ i j p q h. IsAscending-get_or xs i j s q h)
