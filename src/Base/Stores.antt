-- ===== src/Base/Stores.antt =====
-- Parallel loops that store into the cells of an array.
use Prim.Native.Nat.{ℕ, zero, suc, ◌+◌, ◌<◌}
use mathlib.Core.Path.{◌≡◌, refl, sym, ap, ap₂, subst, ◌∙◌}
use mathlib.Core.Logic.{inl, inr}
use mathlib.Core.List.{List, [], ◌∷◌, foldl}
use native.Mathlib.Omega.{arith}
use graph_log_sketch.Base.Tests.{eq-cases}
use graph_log_sketch.Base.Lists.{
  length, get_or, set, replicate, length-set, length-replicate, get_or-set_self, get_or-set_ne,
}
use graph_log_sketch.Base.DoAll.{Schedule, range, range_from}
use graph_log_sketch.Base.Sums.{count, count-perm, mem-count, mem-range_from_iff}

module _ {ℓ} {A : Type ℓ} where
  pub list_ext :
      (d : A) (xs ys : List A)
      → length xs ≡ length ys
      → ((i : ℕ) → i < length xs → get_or xs i d ≡ get_or ys i d)
      → xs ≡ ys
  list_ext d [] [] e same = refl
  list_ext d [] (y ∷ ys) e same = absurd (omega arith)
  list_ext d (x ∷ xs) [] e same = absurd (omega arith)
  list_ext d (x ∷ xs) (y ∷ ys) e same =
      ap₂ ◌∷◌ (same 0 (omega arith))
        (list_ext d xs ys (omega arith) (λ i lt. same (suc i) (omega arith)))

  get_or-replicate_at : (n i : ℕ) (a d : A) → i < n → get_or (replicate n a) i d ≡ a
  get_or-replicate_at zero i a d h = absurd (omega arith)
  get_or-replicate_at (suc n) zero a d h = refl
  get_or-replicate_at (suc n) (suc i) a d h = get_or-replicate_at n i a d (omega arith)

  -- Stores into the cells of a list of indices.
  abbrev pub stores : (ℕ → A) → List A → List ℕ → List A
  stores h xs is = foldl (λ ys i. set ys i (h i)) xs is

  pub length-stores : (h : ℕ → A) (is : List ℕ) (xs : List A) → length (stores h xs is) ≡ length xs
  length-stores h [] xs = refl
  length-stores h (i ∷ is) xs = length-stores h is (set xs i (h i)) ∙ length-set xs i (h i)

  get_or-stores :
      (h : ℕ → A) (d : A) (v : ℕ) (is : List ℕ) (xs : List A)
      → v < length xs
      → (0 < count v is → get_or (stores h xs is) v d ≡ h v)
        × (count v is ≡ 0 → get_or (stores h xs is) v d ≡ get_or xs v d)
  get_or-stores h d v [] xs inside = (λ lt. absurd (omega arith), λ z. refl)
  get_or-stores h d v (i ∷ is) xs inside =
      let (there, gone) =
        get_or-stores h d v is (set xs i (h i)) (omega (arith, length-set xs i (h i))) in
      elim (eq-cases v i) [
        | inl e ↦ (
          λ lt. elim (eq-cases (count v is) 0) [
            | inl z ↦
                gone z
                ∙ subst (λ x. get_or (set xs i (h i)) x d ≡ h x) (sym e)
                    (get_or-set_self xs i (h i) d (subst (λ x. x < length xs) e inside))
            | inr some_v ↦ there (omega arith)
          ],
          λ z. absurd (ground arith),
        )
        | inr ne ↦ (
          λ lt. there (ground arith),
          λ z. gone (ground arith) ∙ get_or-set_ne xs i v (h i) d (λ e. ne (sym e)),
        )
      ]

  pub stores-range :
      (sched : Schedule) (size : ℕ) (h : ℕ → A) (d : A) (v : ℕ) (xs : List A)
      → length xs ≡ size
      → v < size
      → get_or (stores h xs (sched.order (range size))) v d ≡ h v
  stores-range sched size h d v xs e lt =
      (get_or-stores h d v (sched.order (range size)) xs (omega arith)).0 (
        omega (
          arith,
          count-perm v (sched.order-perm (range size)),
          (mem-count v (range size)).0 ((mem-range_from_iff 0 size v).1 (omega arith)),
        ))

  pub stores-replicate :
      (sched : Schedule) (size : ℕ) (a : A) (xs : List A)
      → length xs ≡ size
      → stores (λ _. a) xs (sched.order (range size)) ≡ replicate size a
  stores-replicate sched size a xs e =
      let sized = length-stores (λ _. a) (sched.order (range size)) xs in
      list_ext a _ _ (sized ∙ e ∙ sym (length-replicate size a)) (λ i lt.
        stores-range sched size (λ _. a) a i xs e (omega arith)
        ∙ sym (get_or-replicate_at size i a a (omega arith)))

pub length-range_from : (i n : ℕ) → length (range_from i n) ≡ n
length-range_from i zero = refl
length-range_from i (suc n) = ap suc (length-range_from (suc i) n)

get_or-range_from : (i n k d : ℕ) → k < n → get_or (range_from i n) k d ≡ i + k
get_or-range_from i zero k d h = absurd (omega arith)
get_or-range_from i (suc n) zero d h = omega arith
get_or-range_from i (suc n) (suc k) d h =
    get_or-range_from (suc i) n k d (omega arith) ∙ omega arith

pub stores_index :
    (sched : Schedule) (size : ℕ)
    → stores (λ i. i) (replicate size 0) (sched.order (range size)) ≡ range size
stores_index sched size =
    let sized = length-stores (λ i. i) (sched.order (range size)) (replicate size 0) in
    let blank = length-replicate {A = ℕ} size 0 in
    list_ext 0 _ _ (sized ∙ blank ∙ sym (length-range_from 0 size)) (λ i lt.
      stores-range sched size (λ j. j) 0 i (replicate size 0) blank (omega arith)
      ∙ sym (get_or-range_from 0 size i 0 (omega arith) ∙ omega arith))
