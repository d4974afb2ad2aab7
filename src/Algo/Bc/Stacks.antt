-- ===== src/Algo/Bc/Stacks.antt =====
-- `BetweennessCentrality::levelSSSP` of include/scea/algo/bc.hpp: the bags of its levels.
use graph_log_sketch.Base.{
  ℕ, zero, suc, ◌+◌, ◌%◌, ◌≤◌, ◌<◌, ◌≡◌, ◌≢◌, refl, sym, ap, ◌∙◌, inl, inr, List, [], ◌∷◌, ◌++◌,
  Memᴰ, arith, ◌==◌, if◌then◌else◌, eq-cases, length, get_or, length-append, get_or-append_left,
}
use graph_log_sketch.Base.DoAll.{range}
use graph_log_sketch.Base.Sums.{sum, count}
use graph_log_sketch.Graph.{MutableGraph, u64_mod}
use graph_log_sketch.Graph.Walk.{Walk, step, IsDistance}
use graph_log_sketch.Algo.Bc.{infinity, Sssp, dist, paths_to}
use graph_log_sketch.Algo.Bc.Paths.{walks}
use graph_log_sketch.Algo.Bc.Levels.{Between}
use mathlib.Core.List.Memᴰ

pub sum_le : (xs : List ℕ) (f h : ℕ → ℕ) → ((x : ℕ) → Memᴰ x xs → f x ≤ h x) → sum xs f ≤ sum xs h
sum_le [] f h e = omega arith
sum_le (x ∷ xs) f h e =
    omega (arith, e x (Memᴰ.head refl), sum_le xs f h (λ y m. e y (Memᴰ.tail m)))

pub sum_lt :
    (xs : List ℕ) (f h : ℕ → ℕ) {a : ℕ}
    → Memᴰ a xs
    → f a < h a
    → ((x : ℕ) → Memᴰ x xs → f x ≤ h x)
    → sum xs f < sum xs h
sum_lt [] f h m lt e = absurd (Memᴰ.not-nil m)
sum_lt (x ∷ xs) f h (Memᴰ.head same) lt e =
    omega (arith, ap f same, ap h same, sum_le xs f h (λ y m. e y (Memᴰ.tail m)))
sum_lt (x ∷ xs) f h (Memᴰ.tail m) lt e =
    omega (arith, e x (Memᴰ.head refl), sum_lt xs f h m lt (λ y m'. e y (Memᴰ.tail m')))

get_or-snoc :
    (xss : List (List ℕ)) (xs : List ℕ) (k : ℕ)
    → (k ≡ length xss)
    → get_or (xss ++ xs ∷ []) k [] ≡ xs
get_or-snoc [] xs k e = rw e refl
get_or-snoc (ys ∷ xss) xs zero e = absurd (omega arith)
get_or-snoc (ys ∷ xss) xs (suc k) e = get_or-snoc xss xs k (omega arith)

get_or_beyond : (xss : List (List ℕ)) (k : ℕ) → length xss ≤ k → get_or xss k [] ≡ []
get_or_beyond [] k h = refl
get_or_beyond (xs ∷ xss) zero h = absurd (omega arith)
get_or_beyond (xs ∷ xss) (suc k) h = get_or_beyond xss k (omega arith)

-- The bags below `level` hold the vertices at their distance, each once, and none is empty.
abbrev pub Stacked : ℕ → List (List ℕ) → Sssp → Type 0
Stacked level stack s =
    (length stack ≡ level)
    × ((k v : ℕ) → k < level → count v (get_or stack k []) ≡ (if dist s v == k then 1 else 0))
    × ((k : ℕ) → k < level → get_or stack k [] ≢ [])

module _ {S : Type 0} (G : MutableGraph S) (g : S) (src : ℕ) where
  -- Distances and numbers of shortest walks, and the bags with the vertices at each distance.
  pub record IsCounted (stack : List (List ℕ)) (s : Sssp) : Type 0 where
    pub sized : (length s.distance ≡ G.size g) × (length s.shortest_path_count ≡ G.size g)
    pub known :
        (v : ℕ)
        → dist s v ≢ infinity
        → IsDistance G g src v (dist s v)
          × (paths_to s v ≡ walks G g (dist s v) src v % u64_mod)
          × (dist s v + 1 < length stack)
    pub far : (v : ℕ) → dist s v ≡ infinity → (paths_to s v ≡ 0) × ((k : ℕ) → ¬ Walk G g src k v)
    pub short : length stack ≤ infinity
    pub full : (k : ℕ) → k + 1 < length stack → get_or stack k [] ≢ []
    pub bags :
        (k v : ℕ)
        → k < length stack
        → count v (get_or stack k []) ≡ (if dist s v == k then 1 else 0)

  complete :
      (level : ℕ) (s : Sssp)
      → level < infinity
      → Between G g src level s
      → s.worklist ≡ []
      → (k v : ℕ) → Walk G g src k v
      → dist s v ≢ infinity
  complete level s small b none zero v walk un = (b.far v un).1 0 (omega arith) walk
  complete level s small b none (suc k) v (step {u = u} walk m) un =
      let seen = complete level s small b none k u walk in
      let (le, (shortest, _), _) = b.known u seen in
      let bag : count u [] ≡ (if dist s u == level then 1 else 0) =
        ap (count u) (sym none) ∙ b.bag u in
      (b.far v un).1 _ (ground arith) (step shortest m)

  pub bags-snoc :
      (level : ℕ) (stack : List (List ℕ)) (s : Sssp)
      → Between G g src level s
      → Stacked level stack s
      → (k v : ℕ) → k < suc level
      → count v (get_or (stack ++ s.worklist ∷ []) k []) ≡ (if dist s v == k then 1 else 0)
  bags-snoc level stack s b (high, bags, full) k v lt = elim (eq-cases k level) [
    | inl e ↦ rw (e, get_or-snoc stack s.worklist level (sym high)) (b.bag v)
    | inr ne ↦
        rw (get_or-append_left stack (s.worklist ∷ []) k [] (omega arith)) (bags k v (omega arith))
  ]

  pub full-snoc :
      (level : ℕ) (stack : List (List ℕ)) (s : Sssp)
      → Stacked level stack s
      → s.worklist ≢ []
      → (k : ℕ) → k < suc level
      → get_or (stack ++ s.worklist ∷ []) k [] ≢ []
  full-snoc level stack s (high, bags, full) some_left k lt = elim (eq-cases k level) [
    | inl e ↦ rw (e, get_or-snoc stack s.worklist level (sym high)) some_left
    | inr ne ↦
        rw (get_or-append_left stack (s.worklist ∷ []) k [] (omega arith)) (full k (omega arith))
  ]

  pub ends :
      (level : ℕ) (stack : List (List ℕ)) (s : Sssp)
      → level < infinity
      → Between G g src level s
      → Stacked level stack s
      → s.worklist ≡ []
      → IsCounted (stack ++ s.worklist ∷ []) s
  ends level stack s small b (high, bags, full) none = record {
    sized = b.sized;
    known = λ v seen.
        let (le, d, counted) = b.known v seen in
        let bag : count v [] ≡ (if dist s v == level then 1 else 0) =
          ap (count v) (sym none) ∙ b.bag v in
        (d, counted, ground (arith, length-append stack (s.worklist ∷ [])));
    far = λ v e. ((b.far v e).0, λ k walk. complete level s small b none k v walk e);
    short = omega (arith, length-append stack (s.worklist ∷ []));
    full = λ k lt.
        let inside : k < level = omega (arith, length-append stack (s.worklist ∷ [])) in
        rw (get_or-append_left stack (s.worklist ∷ []) k [] (omega arith)) (full k inside);
    bags = λ k v lt.
        bags-snoc level stack s b (high, bags, full) k v
          (omega (arith, length-append stack (s.worklist ∷ [])));
  }

  abbrev pub unseen : Sssp → ℕ
  unseen s = sum (range (G.size g)) (λ v. if dist s v == infinity then 1 else 0)
