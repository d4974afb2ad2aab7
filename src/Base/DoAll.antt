-- ===== src/Base/DoAll.antt =====
-- `galois::do_all` and the reducers it feeds, as far as the callers rely on them. A parallel loop
-- calls its body once for each element of its range, in an order that the scheduler chooses; a
-- call is one atomic step of the model.
use Prim.Native.Nat.{ℕ, zero, suc}
use mathlib.Core.Path.{◌≡◌, refl, ap, ◌∙◌}
use graph_log_sketch.Base.Lists.{length}
use mathlib.Core.List.{List, [], ◌∷◌, map, Memᴰ, Permᴰ}
use mathlib.Core.List.Memᴰ
use mathlib.Core.Logic.{⊎_elim}
use mathlib.Core.List.Permᴰ

pub record Schedule : Type 0 where
  pub order : List ℕ → List ℕ
  pub order-perm : (xs : List ℕ) → Permᴰ (order xs) xs

module _ {ℓ} {A : Type ℓ} where
  pub Permᴰ-Memᴰ : {a : A} {xs ys : List A} → Permᴰ xs ys → Memᴰ a xs → Memᴰ a ys
  Permᴰ-Memᴰ Permᴰ.nil m = m
  Permᴰ-Memᴰ (Permᴰ.cons e p) (Memᴰ.head q) = Memᴰ.head (q ∙ e)
  Permᴰ-Memᴰ (Permᴰ.cons e p) (Memᴰ.tail m) = Memᴰ.tail (Permᴰ-Memᴰ p m)
  Permᴰ-Memᴰ (Permᴰ.swap e f) (Memᴰ.head q) = Memᴰ.tail (Memᴰ.head (q ∙ e))
  Permᴰ-Memᴰ (Permᴰ.swap e f) (Memᴰ.tail (Memᴰ.head q)) = Memᴰ.head (q ∙ f)
  Permᴰ-Memᴰ (Permᴰ.swap e f) (Memᴰ.tail (Memᴰ.tail m)) = Memᴰ.tail (Memᴰ.tail m)
  Permᴰ-Memᴰ (Permᴰ.trans p q) m = Permᴰ-Memᴰ q (Permᴰ-Memᴰ p m)

  pub length-perm : {xs ys : List A} → Permᴰ xs ys → length xs ≡ length ys
  length-perm Permᴰ.nil = refl
  length-perm (Permᴰ.cons e p) = ap suc (length-perm p)
  length-perm (Permᴰ.swap e f) = refl
  length-perm (Permᴰ.trans p q) = length-perm p ∙ length-perm q

-- `galois::iterate(0, n)`.
abbrev pub range_from : ℕ → ℕ → List ℕ
range_from i zero = []
range_from i (suc k) = i ∷ range_from (suc i) k

abbrev pub range : ℕ → List ℕ
range n = range_from 0 n

-- The schedule that keeps the order of the range, and the one that reverses pairs.
abbrev pub in_order : Schedule
in_order = record { order = λ xs. xs; order-perm = Permᴰ.refl }

abbrev swapped : List ℕ → List ℕ
swapped [] = []
swapped (x ∷ []) = x ∷ []
swapped (x ∷ y ∷ xs) = y ∷ x ∷ swapped xs

pub swapped-perm : (xs : List ℕ) → Permᴰ (swapped xs) xs
swapped-perm [] = Permᴰ.nil
swapped-perm (x ∷ []) = Permᴰ.refl (x ∷ [])
swapped-perm (x ∷ y ∷ xs) =
    Permᴰ.trans (Permᴰ.swap refl refl) (Permᴰ.cons refl (Permᴰ.cons refl (swapped-perm xs)))

abbrev pub pairwise_swapped : Schedule
pairwise_swapped = record { order = swapped; order-perm = swapped-perm }

pub map-in {ℓ κ} :
    {A : Type ℓ} {B : Type κ} (f : A → B) (xs : List A) (x : A) → Memᴰ x xs → Memᴰ (f x) (map f xs)
map-in f [] x m = absurd (Memᴰ.not-nil m)
map-in f (y ∷ xs) x m =
    ⊎_elim (λ e. Memᴰ.head (ap f e)) (λ r. Memᴰ.tail (map-in f xs x r)) (Memᴰ.cases_cons m)

pub map-from {ℓ κ} :
    {A : Type ℓ} {B : Type κ} (f : A → B) (xs : List A) (b : B)
    → Memᴰ b (map f xs)
    → (x : A) × Memᴰ x xs × (b ≡ f x)
map-from f [] b m = absurd (Memᴰ.not-nil m)
map-from f (y ∷ xs) b m =
    ⊎_elim (λ e. (y, Memᴰ.head refl, e))
      (λ r. let (x, a, e) = map-from f xs b r in (x, Memᴰ.tail a, e)) (Memᴰ.cases_cons m)

pub map-perm {ℓ κ} :
    {A : Type ℓ} {B : Type κ} (f : A → B) {xs ys : List A}
    → Permᴰ xs ys
    → Permᴰ (map f xs) (map f ys)
map-perm f Permᴰ.nil = Permᴰ.nil
map-perm f (Permᴰ.cons e p) = Permᴰ.cons (ap f e) (map-perm f p)
map-perm f (Permᴰ.swap e g) = Permᴰ.swap (ap f e) (ap f g)
map-perm f (Permᴰ.trans p q) = Permᴰ.trans (map-perm f p) (map-perm f q)
