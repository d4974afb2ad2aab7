-- ===== src/Algo/Bc/Shortest.antt =====
-- `BetweennessCentrality::levelSSSP` of include/scea/algo/bc.hpp: its end, and its results.
use graph_log_sketch.Base.{
  ℕ, zero, suc, ◌+◌, ◌%◌, ◌≤◌, ◌<◌, ◌≡◌, ◌≢◌, refl, sym, ap, ◌∙◌, ◌⊎◌, inl, inr, ⊎_elim, some, List,
  [], ◌∷◌, ◌++◌, arith, ◌==◌, if◌then◌else◌, eq-cases, List-cases, set, replicate, length-append,
  length-set, length-replicate, get_or-replicate, get_or-set_self, get_or-set_ne,
}
use graph_log_sketch.Base.DoAll.{Schedule, range}
use graph_log_sketch.Base.Sums.{count, mem-range_from_iff, sum_const}
use graph_log_sketch.Graph.{MutableGraph, u64_mod}
use graph_log_sketch.Graph.Walk.{Walk, here, step, IsClosed}
use graph_log_sketch.Algo.Bc.{infinity, Sssp, dist, paths_to, sssp_level, sssp_loop, level_sssp}
use graph_log_sketch.Algo.Bc.Paths.{walks_self}
use graph_log_sketch.Algo.Bc.Levels.{
  in_bounds, Between, sssp_level-Between, distances_kept, distances_new,
}
use graph_log_sketch.Algo.Bc.Stacks.{
  sum_le, sum_lt, Stacked, IsCounted, bags-snoc, full-snoc, ends, unseen,
}

module _ {S : Type 0} (G : MutableGraph S) (g : S) (src : ℕ) where
  module _ (inside : IsClosed G g) (sched : Schedule) (source : src < G.size g) where
    Stacked-level :
        (level : ℕ) (stack : List (List ℕ)) (s : Sssp)
        → level + 1 < infinity
        → Between G g src level s
        → Stacked level stack s
        → s.worklist ≢ []
        → Stacked (suc level) (stack ++ s.worklist ∷ []) (sssp_level G g sched level s)
    Stacked-level level stack s small b h some_left = (
      omega (arith, length-append stack (s.worklist ∷ []), h.0),
      λ k v lt. bags-snoc G g src level stack s b h k v lt ∙ elim (eq-cases (dist s v) infinity) [
        | inl e ↦ ground (arith, distances_new G g src inside sched level s source small b v e)
        | inr ne ↦ rw (distances_kept G g src inside sched level s source small b v ne) refl
      ],
      full-snoc G g src level stack s h some_left,
    )

    module _ (level : ℕ) (s : Sssp) (small : level + 1 < infinity)
        (b : Between G g src level s) where
      abbrev t : Sssp
      t = sssp_level G g sched level s

      after : Between G g src (suc level) t
      after = sssp_level-Between G g src inside sched level s source small b

      kept : (v : ℕ) → dist s v ≢ infinity → dist t v ≡ dist s v
      kept = distances_kept G g src inside sched level s source small b

      found : (v : ℕ) → dist t v ≡ suc level → dist s v ≡ infinity
      found v at = elim (eq-cases (dist s v) infinity) [
        | inl un ↦ un
        | inr ne ↦ absurd (omega (arith, kept v ne, (b.known v ne).0))
      ]

      fewer :
          (v : ℕ)
          → (if dist t v == infinity then 1 else 0) ≤ (if dist s v == infinity then 1 else 0)
      fewer v = elim (eq-cases (dist s v) infinity) [
        | inl un ↦ ground arith
        | inr ne ↦ ground (arith, kept v ne)
      ]

      -- A level finds a vertex, or leaves an empty bag.
      level-Progress : (unseen G g src t < unseen G g src s) ⊎ (t.worklist ≡ [])
      level-Progress = elim (List-cases t.worklist) [
        | inl none ↦ inr none
        | inr (w, rest, e) ↦
            let bag : count w (w ∷ rest) ≡ (if dist t w == suc level then 1 else 0) =
              ap (count w) (sym e) ∙ after.bag w in
            let at : dist t w ≡ suc level = ground arith in
            let was = found w at in
            let within = in_bounds t.distance w infinity (omega arith) in
            inl (
              sum_lt (range (G.size g)) _ _
                ((mem-range_from_iff 0 (G.size g) w).1 (omega (arith, after.sized))) (ground arith)
                (λ v m. fewer v))
      ]

    sssp_loop-IsCounted :
        (fuel level : ℕ) (stack : List (List ℕ)) (s : Sssp)
        → Between G g src level s
        → Stacked level stack s
        → (unseen G g src s < fuel) ⊎ (s.worklist ≡ [])
        → level + fuel < infinity
        → (stack' : List (List ℕ)) × (s' : Sssp) × (sssp_loop G g sched fuel level stack s
            ≡ some (stack', s'))
          × IsCounted G g src stack' s'
    unfolding sssp_loop
    sssp_loop-IsCounted zero level stack s b h enough small =
        let none = ⊎_elim (λ lt. absurd (omega arith)) (λ e. e) enough in
        (
          stack ++ s.worklist ∷ [],
          s,
          simp (none, sssp_loop),
          ends G g src level stack s (omega arith) b h none,
        )
    sssp_loop-IsCounted (suc fuel) level stack s b h enough small = elim (List-cases s.worklist) [
      | inl none ↦ (
        stack ++ s.worklist ∷ [],
        s,
        simp (none, sssp_loop),
        ends G g src level stack s (omega arith) b h none,
      )
      | inr (w, rest, e) ↦
          let next : (level + 1) % u64_mod ≡ suc level = omega arith in
          let (stack', s', run, counted) =
            sssp_loop-IsCounted fuel (suc level) (stack ++ s.worklist ∷ [])
              (sssp_level G g sched level s)
              (sssp_level-Between G g src inside sched level s source (omega arith) b)
              (Stacked-level level stack s (omega arith) b h (λ none. absurd (cc)))
              (⊎_elim
                (λ lt.
                  ⊎_elim (λ fewer. inl (omega arith)) inr (level-Progress level s (omega arith) b))
                (λ none. absurd (cc)) enough)
              (omega arith) in
          (stack', s', ground arith, counted)
    ]

    abbrev start : Sssp
    start = record {
      distance = set (replicate (G.size g) infinity) src 0;
      shortest_path_count = set (replicate (G.size g) 0) src 1;
      worklist = src ∷ [];
    }

    start_at : (dist start src ≡ 0) × (paths_to start src ≡ 1)
    start_at = (
      get_or-set_self (replicate (G.size g) infinity) src 0 infinity
          (omega (arith, length-replicate (G.size g) infinity)),
      get_or-set_self (replicate (G.size g) 0) src 1 0
          (omega (arith, length-replicate {A = ℕ} (G.size g) 0)),
    )

    start_off : (v : ℕ) → v ≢ src → (dist start v ≡ infinity) × (paths_to start v ≡ 0)
    start_off v ne = (
      get_or-set_ne (replicate (G.size g) infinity) src v 0 infinity (λ e. ne (sym e))
          ∙ get_or-replicate (G.size g) infinity v,
      get_or-set_ne (replicate (G.size g) 0) src v 1 0 (λ e. ne (sym e))
          ∙ get_or-replicate (G.size g) 0 v,
    )

    Walk-zero : {k v : ℕ} → Walk G g src k v → k ≤ 0 → v ≡ src
    Walk-zero here le = refl
    Walk-zero (step walk m) le = absurd (omega arith)

    start-Between : Between G g src 0 start
    start-Between = record {
      sized = (
        length-set (replicate (G.size g) infinity) src 0 ∙ length-replicate (G.size g) infinity,
        length-set (replicate (G.size g) 0) src 1 ∙ length-replicate {A = ℕ} (G.size g) 0,
      );
      bag = λ v. elim (eq-cases v src) [
        | inl e ↦ ground (arith, start_at, ap (dist start) e)
        | inr ne ↦ ground (arith, start_off v ne)
      ];
      known = λ v seen. elim (eq-cases v src) [
        | inl e ↦
            rw (e, start_at.0, start_at.1)
              (
                omega arith,
                (here, λ k walk. omega arith),
                sym (ap (λ n. n % u64_mod) (walks_self G g src)),
              )
        | inr ne ↦ absurd (seen (start_off v ne).0)
      ];
      far = λ v un. elim (eq-cases v src) [
        | inl e ↦ absurd (omega (arith, start_at, ap (dist start) e))
        | inr ne ↦ ((start_off v ne).1, λ k le walk. ne (Walk-zero walk le))
      ];
    }

    -- From a source in a graph that no edge leaves, of fewer than 2^62 - 2 vertices, `levelSSSP`
    -- ends G g src, whatever order the parallel loops take. A distance that is set is the length of a
    -- shortest walk from the source, and the count is the number of such walks modulo 2^64; to a
    -- vertex without a distance no walk leads. The bag at each index of the stack holds the
    -- vertices at that distance, each once; the last bag is the only empty one.
    pub level_sssp-IsCounted :
        G.size g + 1 < infinity
        → (stack : List (List ℕ)) × (s : Sssp) × (level_sssp G g sched src
              (replicate (G.size g) infinity)
              (replicate (G.size g) 0)
            ≡ some (stack, s))
          × IsCounted G g src stack s
    unfolding level_sssp
    level_sssp-IsCounted small =
        sssp_loop-IsCounted (G.size g + 1) 0 [] start start-Between
          (refl, λ k v lt. absurd (omega arith), λ k lt. absurd (omega arith))
          (inl (
            omega (
              arith,
              sum_le (range (G.size g)) (λ v. if dist start v == infinity then 1 else 0) (λ _. 1)
                  (λ v m. ground arith),
              sum_const 0 (G.size g) 1,
            )))
          (omega arith)
