-- ===== src/Algo/Bc/Levels.antt =====
-- `BetweennessCentrality::levelSSSP` of include/scea/algo/bc.hpp: between two levels.
use graph_log_sketch.Base.{
  ℕ, zero, suc, ◌+◌, ◌*◌, ◌%◌, ◌≤◌, ◌<◌, ◌≡◌, ◌≢◌, refl, sym, ap, subst, ◌∙◌, ◌⊎◌, inl, inr, ◌↔◌,
  List, [], ◌∷◌, Memᴰ, arith, ◌==◌, if◌then◌else◌, eq-cases, le_or_lt, length, get_or,
}
use graph_log_sketch.Base.DoAll.{Schedule, Permᴰ-Memᴰ, range}
use graph_log_sketch.Base.Sums.{sum, count, sum_zero, sum-count, mem-count, count-perm}
use graph_log_sketch.Graph.{MutableGraph, u64_mod}
use graph_log_sketch.Graph.Walk.{Walk, here, step, IsDistance, IsClosed}
use graph_log_sketch.Algo.Bc.{infinity, Sssp, dist, paths_to, sssp_level}
use graph_log_sketch.Algo.Bc.Paths.{
  walks, walks-last, walks-Walk, sum-mod, sum_positive, sum_ge, mul_mod,
}
use graph_log_sketch.Algo.Bc.Edges.{Inv, Inv-ext, sssp_vertices-Inv}
use mathlib.Core.List.Permᴰ

-- A cell beyond the end of an array reads as the default.
pub in_bounds : (xs : List ℕ) (i d : ℕ) → get_or xs i d ≢ d → i < length xs
in_bounds [] i d ne = absurd (ne refl)
in_bounds (x ∷ xs) zero d ne = omega arith
in_bounds (x ∷ xs) (suc i) d ne = omega (arith, in_bounds xs i d ne)

module _ {S : Type 0} (G : MutableGraph S) (g : S) (src : ℕ) where
  -- The bag of `level` holds the vertices at that distance, each once; below and at that level
  -- distances and counts are known, and no other vertex is as near.
  pub record Between (level : ℕ) (s : Sssp) : Type 0 where
    pub sized : (length s.distance ≡ G.size g) × (length s.shortest_path_count ≡ G.size g)
    pub bag : (v : ℕ) → count v s.worklist ≡ (if dist s v == level then 1 else 0)
    pub known :
        (v : ℕ)
        → dist s v ≢ infinity
        → (dist s v ≤ level)
          × IsDistance G g src v (dist s v)
          × (paths_to s v ≡ walks G g (dist s v) src v % u64_mod)
    pub far :
        (v : ℕ)
        → dist s v ≡ infinity
        → (paths_to s v ≡ 0) × ((k : ℕ) → k ≤ level → ¬ Walk G g src k v)

  module _ (inside : IsClosed G g) (sched : Schedule) (level : ℕ) (s : Sssp)
      (source : src < G.size g) (small : level + 1 < infinity) (b : Between level s) where
    abbrev order : List ℕ
    order = sched.order s.worklist

    abbrev hits : ℕ → ℕ
    hits v = sum order (λ u. count v (G.neighbors g u))

    abbrev paths : ℕ → ℕ
    paths v = sum order (λ u. count v (G.neighbors g u) * paths_to s u)

    mem-order : (u : ℕ) → Memᴰ u order ↔ (dist s u ≡ level)
    mem-order u = (
      λ m.
          let at = (mem-count u s.worklist).0 (Permᴰ-Memᴰ (sched.order-perm s.worklist) m) in
          ground (arith, b.bag u),
      λ e.
          Permᴰ-Memᴰ (Permᴰ.symm (sched.order-perm s.worklist))
            ((mem-count u s.worklist).1 (ground (arith, b.bag u))),
    )

    started :
        Inv
          (suc level)
          (G.size g)
          (dist s)
          (paths_to s)
          (λ _. 0)
          (λ _. 0)
          (record s { worklist = [] })
    started = (b.sized, λ v. ((λ ne. (refl, refl, refl)), λ e. ground (arith, b.far v)))

    after :
        Inv (suc level) (G.size g) (dist s) (paths_to s) hits paths (sssp_level G g sched level s)
    unfolding sssp_level
    after =
        let next : (level + 1) % u64_mod ≡ suc level = omega arith in
        rw next (
          Inv-ext (suc level) (G.size g) (dist s) (paths_to s) _ hits _ paths _ (λ v. omega arith)
            (λ v. omega arith)
            (sssp_vertices-Inv (suc level) (G.size g) (dist s) (paths_to s) (omega arith)
              (λ v ne. omega (arith, (b.known v ne).0)) G g inside order
              (λ u m. omega (arith, (mem-order u).0 m)) (λ _. 0) (λ _. 0) _ started))

    -- A vertex without a distance is no neighbor of a vertex below the level.
    far_apart : (u v : ℕ) → dist s u < level → dist s v ≡ infinity → ¬ Memᴰ v (G.neighbors g u)
    far_apart u v lt e m =
        let (_, (shortest, _), _) = b.known u (omega arith) in
        (b.far v e).1 _ (omega arith) (step shortest m)

    no_walks :
        (u v : ℕ)
        → dist s v ≡ infinity
        → dist s u ≢ level
        → walks G g level src u * count v (G.neighbors g u) ≡ 0
    no_walks u v e off = elim (eq-cases (dist s u) infinity) [
      | inl un ↦ elim (eq-cases (walks G g level src u) 0) [
        | inl z ↦ rw z (omega arith)
        | inr some_walk ↦ absurd (
            (b.far u un).1 level (omega arith)
              (walks-Walk G g inside src level u source (omega arith)))
      ]
      | inr seen ↦ elim (eq-cases (count v (G.neighbors g u)) 0) [
        | inl z ↦ rw z (omega arith)
        | inr some_edge ↦ absurd (
            far_apart u v (omega (arith, (b.known u seen).0)) e
              ((mem-count v (G.neighbors g u)).1 (omega arith)))
      ]
    ]

    -- Only the vertices of the level add to the walks that end in such a vertex.
    paths_at :
        (u v : ℕ)
        → dist s v ≡ infinity
        → (count u order * (count v (G.neighbors g u) * paths_to s u)) % u64_mod
          ≡ (walks G g level src u * count v (G.neighbors g u)) % u64_mod
    paths_at u v e = elim (eq-cases (dist s u) level) [
      | inl at ↦
          let once : count u order ≡ 1 =
            ground (arith, count-perm u (sched.order-perm s.worklist), b.bag u) in
          let (_, _, counted) = b.known u (omega arith) in
          let counted' : paths_to s u ≡ walks G g level src u % u64_mod =
            counted ∙ ap (λ k. walks G g k src u % u64_mod) at in
          rw (once, counted')
            (omega (arith, mul_mod (count v (G.neighbors g u)) (walks G g level src u)))
      | inr off ↦
          let never : count u order ≡ 0 =
            ground (arith, count-perm u (sched.order-perm s.worklist), b.bag u) in
          rw never (ap (λ n. n % u64_mod) (omega (arith, no_walks u v e off)))
    ]

    paths-walks :
        (v : ℕ) → dist s v ≡ infinity → paths v % u64_mod ≡ walks G g (suc level) src v % u64_mod
    paths-walks v e =
        ap (λ n. n % u64_mod)
          (sum-count (G.size g) order (λ u. count v (G.neighbors g u) * paths_to s u)
            (λ u m.
              omega (
                arith,
                b.sized,
                in_bounds s.distance u infinity (omega (arith, (mem-order u).0 m)),
              )))
        ∙ sum-mod (range (G.size g)) _ _ (λ u m. paths_at u v e)
        ∙ sym (ap (λ n. n % u64_mod) (walks-last G g inside level src v source))

    reached-walk : (v : ℕ) → 0 < hits v → Walk G g src (suc level) v
    reached-walk v h =
        let (u, m, p) = sum_positive order (λ u. count v (G.neighbors g u)) h in
        let at = (mem-order u).0 m in
        let (_, (shortest, _), _) = b.known u (omega arith) in
        step (subst (λ k. Walk G g src k u) at shortest) ((mem-count v (G.neighbors g u)).1 p)

    far_next :
        (v : ℕ) → dist s v ≡ infinity → hits v ≡ 0 → (k : ℕ) → k ≤ suc level → ¬ Walk G g src k v
    far_next v e none k le here = (b.far v e).1 0 (omega arith) here
    far_next v e none _ le (step {k = k} {u = u} walk m) = elim (eq-cases (dist s u) infinity) [
      | inl un ↦ (b.far u un).1 k (omega arith) walk
      | inr seen ↦ elim (eq-cases (dist s u) level) [
        | inl at ↦ omega (
          arith,
          none,
          (mem-count v (G.neighbors g u)).0 m,
          sum_ge order (λ w. count v (G.neighbors g w)) ((mem-order u).1 at),
        )
        | inr ne ↦ far_apart u v (omega (arith, (b.known u seen).0)) e m
      ]
    ]

    no_paths : (v : ℕ) → hits v ≡ 0 → paths v ≡ 0
    no_paths v none = sum_zero order _ (λ u m.
        let z : count v (G.neighbors g u) ≡ 0 =
          omega (arith, sum_ge order (λ w. count v (G.neighbors g w)) m) in
        rw z (omega arith))

    pub sssp_level-Between : Between (suc level) (sssp_level G g sched level s)
    sssp_level-Between = record {
      sized = after.0;
      bag = λ v. elim (eq-cases (dist s v) infinity) [
        | inl e ↦ ground (arith, (after.1 v).1 e)
        | inr ne ↦ ground (arith, (after.1 v).0 ne, (b.known v ne).0)
      ];
      known = λ v seen. elim (eq-cases (dist s v) infinity) [
        | inl e ↦
            let (counted, fresh, reached) = (after.1 v).1 e in
            let some_hit : 0 < hits v = ground arith in
            let at = (reached some_hit).0 in
            rw at (
              omega arith,
              (
                reached-walk v some_hit,
                λ k walk. elim (le_or_lt k level) [
                  | inl le ↦ absurd ((b.far v e).1 k le walk)
                  | inr lt ↦ omega arith
                ],
              ),
              counted ∙ paths-walks v e,
            )
        | inr ne ↦
            let (same, count_same, _) = (after.1 v).0 ne in
            let (le, d, counted) = b.known v ne in rw (same, count_same) (omega arith, d, counted)
      ];
      far = λ v e. elim (eq-cases (dist s v) infinity) [
        | inl e' ↦
            let (counted, fresh, reached) = (after.1 v).1 e' in
            let none : hits v ≡ 0 = ground arith in
            (counted ∙ ap (λ n. n % u64_mod) (no_paths v none), far_next v e' none)
        | inr ne ↦ absurd (ne (sym ((after.1 v).0 ne).0 ∙ e))
      ];
    }

    -- A level gives a distance to every vertex of the next bag and changes no distance.
    pub distances_kept :
        (v : ℕ) → dist s v ≢ infinity → dist (sssp_level G g sched level s) v ≡ dist s v
    distances_kept v ne = ((after.1 v).0 ne).0

    pub distances_new :
        (v : ℕ)
        → dist s v ≡ infinity
        → (dist (sssp_level G g sched level s) v ≡ infinity)
          ⊎ (dist (sssp_level G g sched level s) v ≡ suc level)
    distances_new v e = let (_, fresh, reached) = (after.1 v).1 e in ground arith
