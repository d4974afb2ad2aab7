-- ===== src/Base/Sums.antt =====
-- Finite sums over lists of vertices, and multiplicities.
use Prim.Native.Nat.{ℕ, zero, suc, ◌+◌, ◌*◌, ◌%◌, ◌≤◌, ◌<◌}
use mathlib.Core.Path.{◌≡◌, refl, sym, ap, ap₂, ◌∙◌}
use mathlib.Core.Logic.{inl, inr, ◌↔◌, ⊎_elim}
use mathlib.Core.List.{List, [], ◌∷◌, foldl, Memᴰ, Permᴰ}
use mathlib.Core.List.Memᴰ
use native.Mathlib.Omega.{arith}
use native.Mathlib.Nat.{suc-mul}
use graph_log_sketch.Base.Tests.{◌==◌, if◌then◌else◌, eq-cases, Bool-cases}
use graph_log_sketch.Base.DoAll.{range, range_from}

abbrev pub sum : List ℕ → (ℕ → ℕ) → ℕ
sum [] f = 0
sum (x ∷ xs) f = f x + sum xs f

abbrev pub count : ℕ → List ℕ → ℕ
count a [] = 0
count a (x ∷ xs) = if a == x then suc (count a xs) else count a xs

pub sum-ext : (xs : List ℕ) (f g : ℕ → ℕ) → ((x : ℕ) → Memᴰ x xs → f x ≡ g x) → sum xs f ≡ sum xs g
sum-ext [] f g h = refl
sum-ext (x ∷ xs) f g h = ap₂ ◌+◌ (h x (Memᴰ.head refl)) (sum-ext xs f g (λ y m. h y (Memᴰ.tail m)))

pub sum-add : (xs : List ℕ) (f g : ℕ → ℕ) → sum xs (λ x. f x + g x) ≡ sum xs f + sum xs g
sum-add [] f g = omega arith
sum-add (x ∷ xs) f g = omega (arith, sum-add xs f g)

pub sum-shift :
    (i n : ℕ) (f : ℕ → ℕ) → sum (range_from (suc i) n) f ≡ sum (range_from i n) (λ j. f (suc j))
sum-shift i zero f = refl
sum-shift i (suc n) f = ap (λ k. f (suc i) + k) (sum-shift (suc i) n f)

pub sum-split :
    (i m n : ℕ) (f : ℕ → ℕ)
    → sum (range_from i (m + n)) f ≡ sum (range_from i m) f + sum (range_from (i + m) n) f
sum-split i zero n f =
    let none_first : 0 + n ≡ n = omega arith in
    let same : i + 0 ≡ i = omega arith in rw (none_first, same) (omega arith)
sum-split i (suc m) n f =
    let one_first : suc m + n ≡ suc (m + n) = omega arith in
    let shifted : i + suc m ≡ suc i + m = omega arith in
    rw (one_first, shifted) (omega (arith, sum-split (suc i) m n f))

pub sum_const : (i n k : ℕ) → sum (range_from i n) (λ _. k) ≡ n * k
sum_const i zero k = omega arith
sum_const i (suc n) k =
    let one_more : suc n * k ≡ n * k + k = suc-mul n k in omega (arith, sum_const (suc i) n k)

pub sum_zero : (xs : List ℕ) (f : ℕ → ℕ) → ((x : ℕ) → Memᴰ x xs → f x ≡ 0) → sum xs f ≡ 0
sum_zero [] f h = refl
sum_zero (x ∷ xs) f h =
    omega (arith, h x (Memᴰ.head refl), sum_zero xs f (λ y m. h y (Memᴰ.tail m)))

pub sum-perm : {xs ys : List ℕ} (f : ℕ → ℕ) → Permᴰ xs ys → sum xs f ≡ sum ys f
sum-perm f Permᴰ.nil = refl
sum-perm f (Permᴰ.cons e p) = ap₂ ◌+◌ (ap f e) (sum-perm f p)
sum-perm f (Permᴰ.swap {a = a} {b = b} {a' = a'} {b' = b'} {l = l} e₁ e₂) =
    omega (arith, ap f e₁, ap f e₂)
sum-perm f (Permᴰ.trans p q) = sum-perm f p ∙ sum-perm f q

count-sum : (a : ℕ) (xs : List ℕ) → count a xs ≡ sum xs (λ x. if a == x then 1 else 0)
count-sum a [] = refl
count-sum a (x ∷ xs) = ground (arith, count-sum a xs)

pub count-perm : {xs ys : List ℕ} (a : ℕ) → Permᴰ xs ys → count a xs ≡ count a ys
count-perm {xs} {ys} a p = count-sum a xs ∙ sum-perm _ p ∙ sym (count-sum a ys)

pub mem-count : (a : ℕ) (xs : List ℕ) → Memᴰ a xs ↔ (0 < count a xs)
mem-count a [] = (λ m. absurd (Memᴰ.not-nil m), λ h. absurd (omega arith))
mem-count a (x ∷ xs) = elim (eq-cases a x) [
  | inl e ↦ (λ m. ground arith, λ h. Memᴰ.head e)
  | inr ne ↦ (
    λ m.
        ground
          (arith, (mem-count a xs).0 (⊎_elim (λ e. absurd (ne e)) (λ m'. m') (Memᴰ.cases_cons m))),
    λ h. Memᴰ.tail ((mem-count a xs).1 (ground arith)),
  )
]

pub mem-range_from_iff : (i n x : ℕ) → Memᴰ x (range_from i n) ↔ ((i ≤ x) × (x < i + n))
mem-range_from_iff i zero x = (λ m. absurd (Memᴰ.not-nil m), λ h. absurd (omega arith))
mem-range_from_iff i (suc n) x = (
  λ m.
      ⊎_elim (λ e. (omega arith, omega arith))
        (λ m'. let h = (mem-range_from_iff (suc i) n x).0 m' in (omega arith, omega arith))
        (Memᴰ.cases_cons m),
  λ h. elim (eq-cases x i) [
    | inl e ↦ Memᴰ.head e
    | inr ne ↦ Memᴰ.tail ((mem-range_from_iff (suc i) n x).1 (omega arith, omega arith))
  ],
)

sum_single :
    (i n x : ℕ) (f : ℕ → ℕ)
    → i ≤ x
    → x < i + n
    → sum (range_from i n) (λ b. if b == x then f b else 0) ≡ f x
sum_single i zero x f h p = absurd (omega arith)
sum_single i (suc n) x f h p = elim (eq-cases i x) [
  | inl e ↦
      let rest =
        sum_zero (range_from (suc i) n) (λ b. if b == x then f b else 0)
          (λ y m. ground (arith, (mem-range_from_iff (suc i) n y).0 m)) in
      let first : (if i == x then f i else 0) ≡ f x = ground (arith, ap f e) in
      omega (arith, first, rest)
  | inr ne ↦ ground (arith, sum_single (suc i) n x f (omega arith) (omega arith))
]

count-cons_mul :
    (b x : ℕ) (xs : List ℕ) (k : ℕ)
    → (if b == x then k else 0) + count b xs * k ≡ count b (x ∷ xs) * k
count-cons_mul b x xs k = elim (Bool-cases (b == x)) [
  | inl e ↦ rw e (omega arith)
  | inr e ↦ rw e (omega arith)
]

-- A sum over a list of numbers below `n` is a sum over all numbers below `n` with multiplicities.
pub sum-count :
    (n : ℕ) (xs : List ℕ) (f : ℕ → ℕ)
    → ((x : ℕ) → Memᴰ x xs → x < n)
    → sum xs f ≡ sum (range n) (λ b. count b xs * f b)
sum-count n [] f h = sym (sum_zero (range n) (λ b. 0 * f b) (λ x m. omega arith))
sum-count n (x ∷ xs) f h =
    ap₂ ◌+◌ (sym (sum_single 0 n x f (omega arith) (omega (arith, h x (Memᴰ.head refl)))))
      (sum-count n xs f (λ y m. h y (Memᴰ.tail m)))
    ∙ sym (sum-add (range n) (λ b. if b == x then f b else 0) (λ b. count b xs * f b))
    ∙ sum-ext (range n) _ _ (λ b m. count-cons_mul b x xs (f b))

-- A loop that adds a weight modulo `2 ^ 64` in each round.
pub foldl-sum :
    (f : ℕ → ℕ → ℕ) (w : ℕ → ℕ)
    → (xs : List ℕ)
    → ((acc x : ℕ)
        → Memᴰ x xs
        → acc < 18446744073709551616
        → f acc x ≡ (acc + w x) % 18446744073709551616)
    → (acc : ℕ) → acc < 18446744073709551616
    → foldl f acc xs ≡ (acc + sum xs w) % 18446744073709551616
foldl-sum f w [] step acc h = omega arith
foldl-sum f w (x ∷ xs) step acc h =
    let first = step acc x (Memᴰ.head refl) h in
    foldl-sum f w xs (λ acc' y m. step acc' y (Memᴰ.tail m)) (f acc x) (omega arith) ∙ omega arith
