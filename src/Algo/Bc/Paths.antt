-- ===== src/Algo/Bc/Paths.antt =====
-- Walks counted: what `shortestPathCount` of include/scea/algo/bc.hpp is to hold.
use graph_log_sketch.Base.{
  ℕ, zero, suc, ◌+◌, ◌*◌, ◌/◌, ◌%◌, ◌≤◌, ◌<◌, ◌≡◌, refl, sym, ap, subst, ◌∙◌, inl, inr, List, [],
  ◌∷◌, Memᴰ, arith, ◌==◌, if◌then◌else◌, eq-cases,
}
use graph_log_sketch.Base.DoAll.{range}
use graph_log_sketch.Base.Sums.{sum, count, sum-ext, sum-add, sum-count, sum_zero, mem-count}
use graph_log_sketch.Graph.{MutableGraph, u64_mod}
use graph_log_sketch.Graph.Walk.{Walk, here, step, IsClosed}
use native.Mathlib.Nat.{mul-add, mul_assoc}
use mathlib.Core.List.Memᴰ

module _ {S : Type 0} (G : MutableGraph S) (g : S) where
  -- In how many ways `k` edges lead from `u` to `v`, by the first edge.
  pub walks : ℕ → ℕ → ℕ → ℕ
  walks zero u v = if u == v then 1 else 0
  walks (suc k) u v = sum (G.neighbors g u) (λ w. walks k w v)

  pub walks_self : (u : ℕ) → walks zero u u ≡ 1
  unfolding walks
  walks_self u = ground arith

-- Sums the other way round.
sum-swap :
    (xs ys : List ℕ) (f : ℕ → ℕ → ℕ)
    → sum xs (λ x. sum ys (f x)) ≡ sum ys (λ y. sum xs (λ x. f x y))
sum-swap [] ys f = sym (sum_zero ys _ (λ y m. refl))
sum-swap (x ∷ xs) ys f =
    ap (λ n. sum ys (f x) + n) (sum-swap xs ys f)
    ∙ sym (sum-add ys (f x) (λ y. sum xs (λ x. f x y)))

sum_mul : (xs : List ℕ) (f : ℕ → ℕ) (k : ℕ) → sum xs (λ x. f x * k) ≡ sum xs f * k
sum_mul [] f k = omega arith
sum_mul (x ∷ xs) f k = ap (λ n. f x * k + n) (sum_mul xs f k) ∙ omega arith

pub sum-mod :
    (xs : List ℕ) (f h : ℕ → ℕ)
    → ((x : ℕ) → Memᴰ x xs → f x % u64_mod ≡ h x % u64_mod)
    → sum xs f % u64_mod ≡ sum xs h % u64_mod
sum-mod [] f h e = refl
sum-mod (x ∷ xs) f h e =
    omega (arith, e x (Memᴰ.head refl), sum-mod xs f h (λ y m. e y (Memᴰ.tail m)))

pub sum_positive : (xs : List ℕ) (f : ℕ → ℕ) → 0 < sum xs f → (x : ℕ) × Memᴰ x xs × (0 < f x)
sum_positive [] f h = absurd (omega arith)
sum_positive (x ∷ xs) f h = elim (eq-cases (f x) 0) [
  | inl e ↦ let (y, m, p) = sum_positive xs f (omega arith) in (y, Memᴰ.tail m, p)
  | inr ne ↦ (x, Memᴰ.head refl, omega arith)
]

pub sum_ge : (xs : List ℕ) (f : ℕ → ℕ) {x : ℕ} → Memᴰ x xs → f x ≤ sum xs f
sum_ge [] f m = absurd (Memᴰ.not-nil m)
sum_ge (x ∷ xs) f (Memᴰ.head e) = omega (arith, ap f e)
sum_ge (x ∷ xs) f (Memᴰ.tail m) = omega (arith, sum_ge xs f m)

pub mul_mod : (a b : ℕ) → (a * (b % u64_mod)) % u64_mod ≡ (a * b) % u64_mod
mul_mod a b =
    let whole : (b / u64_mod) * u64_mod + b % u64_mod ≡ b = omega arith in
    let parts : a * (b / u64_mod) * u64_mod + a * (b % u64_mod) ≡ a * b =
      ap (λ n. n + a * (b % u64_mod)) (mul_assoc a (b / u64_mod) u64_mod)
      ∙ sym (mul-add a ((b / u64_mod) * u64_mod) (b % u64_mod))
      ∙ ap (λ n. a * n) whole in
    omega arith

mul_positive : (a b : ℕ) → 0 < a * b → (0 < a) × (0 < b)
mul_positive zero b h = absurd (omega arith)
mul_positive (suc a) zero h = absurd (omega arith)
mul_positive (suc a) (suc b) h = (omega arith, omega arith)

count-ones : (v : ℕ) (xs : List ℕ) → sum xs (λ w. if w == v then 1 else 0) ≡ count v xs
count-ones v [] = refl
count-ones v (x ∷ xs) = ground (arith, count-ones v xs)

count-single : (w u : ℕ) → count w (u ∷ []) ≡ (if u == w then 1 else 0)
count-single w u = ground arith

module _ {S : Type 0} (G : MutableGraph S) (g : S) (inside : IsClosed G g) where
  -- The same number by the last edge.
  pub walks-last :
      (k u v : ℕ)
      → u < G.size g
      → walks G g (suc k) u v
        ≡ sum (range (G.size g)) (λ w. walks G g k u w * count v (G.neighbors g w))
  unfolding walks
  walks-last zero u v h =
      count-ones v (G.neighbors g u)
      ∙ omega arith
      ∙ sum-count (G.size g) (u ∷ []) (λ w. count v (G.neighbors g w))
          (λ x m. subst (λ y. y < G.size g) (sym (Memᴰ.eq_of_singleton m)) h)
      ∙ sum-ext (range (G.size g)) _ _
          (λ w m. ap (λ n. n * count v (G.neighbors g w)) (count-single w u))
  walks-last (suc k) u v h =
      sum-ext (G.neighbors g u) _ _ (λ w m. walks-last k w v (inside u w m))
      ∙ sum-swap (G.neighbors g u) (range (G.size g))
          (λ w x. walks G g k w x * count v (G.neighbors g x))
      ∙ sum-ext (range (G.size g)) _ _
          (λ x m. sum_mul (G.neighbors g u) (λ w. walks G g k w x) (count v (G.neighbors g x)))

  pub walks-Walk : (src k v : ℕ) → src < G.size g → 0 < walks G g k src v → Walk G g src k v
  unfolding walks
  walks-Walk src zero v h p = elim (eq-cases src v) [
    | inl e ↦ subst (Walk G g src 0) e here
    | inr ne ↦ absurd (ground arith)
  ]
  walks-Walk src (suc k) v h p =
      let (u, m, q) =
        sum_positive (range (G.size g)) (λ w. walks G g k src w * count v (G.neighbors g w))
          (omega (arith, walks-last k src v h)) in
      let (a, b) = mul_positive (walks G g k src u) (count v (G.neighbors g u)) q in
      step (walks-Walk src k u h a) ((mem-count v (G.neighbors g u)).1 b)
