-- ===== src/Algo/Bc/Brandes/Backwards.antt =====
-- `BetweennessCentrality::compute` of include/scea/algo/bc.hpp: the levels of one source, from the
-- farthest back.
use graph_log_sketch.Base.{
  ℕ, zero, suc, ◌+◌, ◌%◌, ◌≤◌, ◌<◌, ◌≡◌, ◌≢◌, refl, sym, ap, ◌∙◌, inl, inr, List, [], ◌∷◌, foldl,
  Memᴰ, arith, ◌==◌, if◌then◌else◌, eq-cases, le_or_lt, length, get_or,
}
use graph_log_sketch.Base.DoAll.{Schedule}
use graph_log_sketch.Base.Sums.{count, count-perm, mem-count}
use graph_log_sketch.Graph.{MutableGraph, u64_mod}
use graph_log_sketch.Algo.Bc.{infinity, Sssp, dist}
use graph_log_sketch.Algo.Bc.Brandes.{Double, Scores, read, brandes_vertex, brandes_loop}
use graph_log_sketch.Algo.Bc.Brandes.Dependencies.{
  dependency_of, dependency_of-ext, brandes_vertex-lem,
}

module _ {R : Type 0} (double : Double R) where
  -- The cells of a vertex that is given a dependency, and of one that is passed over.
  abbrev IsGiven : Scores R → Scores R → ℕ → R → Type 0
  IsGiven old new v value =
      (read double new.dependency v ≡ value)
      × (read double new.centrality v ≡ double.plus (read double old.centrality v) value)

  abbrev pub IsKept : Scores R → Scores R → ℕ → Type 0
  IsKept old new v =
      (read double new.dependency v ≡ read double old.dependency v)
      × (read double new.centrality v ≡ read double old.centrality v)

  abbrev pub IsSized : ℕ → Scores R → Type 0
  IsSized size scores = (length scores.dependency ≡ size) × (length scores.centrality ≡ size)

  module _ {S : Type 0} (G : MutableGraph S) (g : S) (s : Sssp) (size : ℕ) where
    brandes_vertices-lem :
        (succ_level : ℕ) (f : ℕ → R) (us : List ℕ) (scores : Scores R)
        → ((u : ℕ)
            → Memᴰ u us
            → (dist s u ≢ succ_level)
              × (u < size)
              × (count u us ≡ 1)
              × (read double scores.dependency u ≡ double.of_nat 0))
        → IsSized size scores
        → ((w : ℕ) → dist s w ≡ succ_level → read double scores.dependency w ≡ f w)
        → IsSized size (foldl (brandes_vertex double G g s succ_level) scores us)
          × ((v : ℕ)
              → (0 < count v us
                  → IsGiven scores
                      (foldl (brandes_vertex double G g s succ_level) scores us)
                      v
                      (dependency_of double G g s f succ_level v))
                × (count v us ≡ 0
                    → IsKept scores (foldl (brandes_vertex double G g s succ_level) scores us) v))
    brandes_vertices-lem succ_level f [] scores each sized agree =
        (sized, λ v. (λ lt. absurd (omega arith), λ z. (refl, refl)))
    brandes_vertices-lem succ_level f (u ∷ us) scores each sized agree =
        let (off, inside, once, blank) = each u (Memᴰ.head refl) in
        let next = brandes_vertex double G g s succ_level scores u in
        let (len_dep, len_cen, dep_u, cen_u, others) =
          brandes_vertex-lem double G g s succ_level u f scores off (omega (arith, sized.0))
            (omega (arith, sized.1)) agree blank in
        let apart : (w : ℕ) → Memᴰ w us → w ≢ u =
          λ w m e. let twice = (mem-count w us).0 m in ground (arith, ap (λ x. count x us) e) in
        let (sized', cells) =
          brandes_vertices-lem succ_level f us next
            (λ w m.
              let (off', inside', once', blank') = each w (Memᴰ.tail m) in
              let ne = apart w m in (off', inside', ground arith, (others w ne).0 ∙ blank'))
            (len_dep ∙ sized.0, len_cen ∙ sized.1)
            (λ w at. (others w (λ e. off (ap (dist s) (sym e) ∙ at))).0 ∙ agree w at) in
        (
          sized',
          λ v. elim (eq-cases v u) [
            | inl e ↦
                let kept = (cells u).1 (ground arith) in
                rw e (λ lt. (kept.0 ∙ dep_u, kept.1 ∙ cen_u), λ z. absurd (ground arith))
            | inr ne ↦ (
              λ lt.
                  let given = (cells v).0 (ground arith) in
                  (
                    given.0,
                    given.1
                        ∙ ap (λ x. double.plus x (dependency_of double G g s f succ_level v))
                            (others v ne).1,
                  ),
              λ z.
                  let kept = (cells v).1 (ground arith) in
                  (kept.0 ∙ (others v ne).0, kept.1 ∙ (others v ne).1),
            )
          ],
        )

    -- What the loop leaves when it starts at level `top`: Brandes's equation at the levels from 1 to
    -- `top`, with the dependency added to the scores, and elsewhere nothing new.
    abbrev pub IsAccumulated : ℕ → Scores R → Scores R → Type 0
    IsAccumulated top old new =
        (v : ℕ)
        → (0 < dist s v
            → dist s v ≤ top
            → IsGiven old new v
                (dependency_of double G g s (read double new.dependency) (dist s v + 1) v))
          × (¬ ((0 < dist s v) × (dist s v ≤ top)) → IsKept old new v)

    -- One level: its vertices are given their dependencies, the others are passed over.
    abbrev IsOneLevel : ℕ → Scores R → Scores R → Type 0
    IsOneLevel level old new =
        (v : ℕ)
        → (dist s v ≡ level
            → IsGiven old new v
                (dependency_of double G g s (read double old.dependency) (suc level) v))
          × (dist s v ≢ level → IsKept old new v)

    brandes_level-lem :
        (sched : Schedule) (bag : List ℕ) (level : ℕ) (scores : Scores R)
        → ((v : ℕ) → count v bag ≡ (if dist s v == level then 1 else 0))
        → ((v : ℕ) → dist s v ≡ level → v < size)
        → ((v : ℕ) → dist s v ≡ level → read double scores.dependency v ≡ double.of_nat 0)
        → IsSized size scores
        → IsSized size (foldl (brandes_vertex double G g s (suc level)) scores (sched.order bag))
          × IsOneLevel level scores
              (foldl (brandes_vertex double G g s (suc level)) scores (sched.order bag))
    brandes_level-lem sched bag level scores holds inside blank sized =
        let held : (v : ℕ) → count v (sched.order bag) ≡ (if dist s v == level then 1 else 0) =
          λ v. count-perm v (sched.order-perm bag) ∙ holds v in
        let at : (v : ℕ) → 0 < count v (sched.order bag) → dist s v ≡ level =
          λ v some_v. ground (arith, held v) in
        let (sized', cells) =
          brandes_vertices-lem (suc level) (read double scores.dependency) (sched.order bag) scores
            (λ u m.
              let e = at u ((mem-count u (sched.order bag)).0 m) in
              (omega arith, inside u e, ground (arith, held u), blank u e))
            sized (λ w e. refl) in
        (
          sized',
          λ v. (
            λ e. (cells v).0 (ground (arith, held v)),
            λ ne. (cells v).1 (ground (arith, held v)),
          ),
        )

    IsAccumulated-suc :
        (top : ℕ) (old mid new : Scores R)
        → IsOneLevel (suc top) old mid
        → IsAccumulated top mid new
        → IsAccumulated (suc top) old new
    IsAccumulated-suc top old mid new one acc v = (
      λ lt le. elim (le_or_lt (dist s v) top) [
        | inl le' ↦
            let (dep_eq, cen_eq) = (acc v).0 lt le' in
            let value = dependency_of double G g s (read double new.dependency) (dist s v + 1) v in
            (dep_eq, cen_eq ∙ ap (λ x. double.plus x value) ((one v).1 (omega arith)).1)
        | inr gt ↦
            let level : dist s v + 1 ≡ suc (suc top) = omega arith in
            let given = (one v).0 (omega arith) in
            let kept = (acc v).1 (λ (_, le'). omega arith) in
            let same =
              dependency_of-ext double G g s (read double old.dependency)
                (read double new.dependency) (suc (suc top)) v
                (λ w at.
                  sym (((one w).1 (omega arith)).0)
                  ∙ sym (((acc w).1 (λ (_, le'). omega arith)).0)) in
            rw level (
              kept.0 ∙ given.0 ∙ same,
              kept.1 ∙ given.1 ∙ ap (double.plus (read double old.centrality v)) same,
            )
      ],
      λ out.
          let gone = (one v).1 (λ e. out (omega arith, omega arith)) in
          let kept = (acc v).1 (λ (lt, le). out (lt, omega arith)) in
          (kept.0 ∙ gone.0, kept.1 ∙ gone.1),
    )

    pub brandes_loop-IsAccumulated :
        (sched : Schedule) (stack : List (List ℕ)) (top : ℕ) (scores : Scores R)
        → ((k v : ℕ) → k ≤ top → count v (get_or stack k []) ≡ (if dist s v == k then 1 else 0))
        → ((v : ℕ) → dist s v ≤ top → v < size)
        → top < infinity
        → ((v : ℕ) → dist s v ≤ top → read double scores.dependency v ≡ double.of_nat 0)
        → IsSized size scores
        → IsSized size (brandes_loop double G g sched stack s top scores)
          × IsAccumulated top scores (brandes_loop double G g sched stack s top scores)
    unfolding brandes_loop
    brandes_loop-IsAccumulated sched stack zero scores bags inside small blank sized =
        (sized, λ v. (λ lt le. absurd (omega arith), λ out. (refl, refl)))
    brandes_loop-IsAccumulated sched stack (suc top) scores bags inside small blank sized =
        let next : (suc top + 1) % u64_mod ≡ suc (suc top) = omega arith in
        let (sized', one) =
          brandes_level-lem sched (get_or stack (suc top) []) (suc top) scores
            (λ v. bags (suc top) v (omega arith)) (λ v e. inside v (omega arith))
            (λ v e. blank v (omega arith)) sized in
        let (sized'', acc) =
          brandes_loop-IsAccumulated sched stack top _ (λ k v le. bags k v (omega arith))
            (λ v le. inside v (omega arith)) (omega arith)
            (λ v le. ((one v).1 (omega arith)).0 ∙ blank v (omega arith)) sized' in
        rw (next, brandes_loop) (sized'', IsAccumulated-suc top scores _ _ one acc)
