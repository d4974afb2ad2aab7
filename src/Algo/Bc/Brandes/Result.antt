-- ===== src/Algo/Bc/Brandes/Result.antt =====
-- `BetweennessCentrality::compute` of include/scea/algo/bc.hpp: its result.
use graph_log_sketch.Base.{
  ℕ, ◌+◌, ◌-◌, ◌<◌, ◌≡◌, refl, inl, inr, some, List, [], ◌∷◌, Memᴰ, arith, leb, Bool-cases, leb→le,
  length, replicate, length-replicate, get_or-replicate,
}
use graph_log_sketch.Base.DoAll.{Schedule}
use graph_log_sketch.Base.Stores.{stores-replicate}
use graph_log_sketch.Graph.{MutableGraph}
use graph_log_sketch.Graph.Walk.{IsClosed}
use graph_log_sketch.Algo.Bc.{infinity, Sssp}
use graph_log_sketch.Algo.Bc.Levels.{in_bounds}
use graph_log_sketch.Algo.Bc.Shortest.{level_sssp-IsCounted}
use graph_log_sketch.Algo.Bc.Stacks.{IsCounted}
use graph_log_sketch.Algo.Bc.Brandes.{
  Double, Scores, fill, select_sources, add_levels, add_source, add_sources, compute,
}
use graph_log_sketch.Algo.Bc.Brandes.Backwards.{IsSized, IsAccumulated, brandes_loop-IsAccumulated}
use graph_log_sketch.Algo.Bc.Brandes.Sources.{select_sources-bounds}

module _ {R : Type 0} (double : Double R) {S : Type 0} (G : MutableGraph S) (g : S) where
  abbrev cleared : List R → Scores R
  cleared centrality = record {
    dependency = replicate (G.size g) (double.of_nat 0);
    centrality = centrality;
  }

  -- The scores that one source leaves behind: the distances and numbers of shortest walks from it
  -- are right, and the dependencies at the levels strictly between the source and the farthest
  -- vertices satisfy Brandes's equation and are added.
  abbrev pub IsAddedFor : ℕ → List R → Scores R → Type 0
  IsAddedFor src old new =
      (stack : List (List ℕ)) × (s : Sssp) × IsCounted G g src stack s
      × IsAccumulated double G g s (G.size g) (length stack - 3) (cleared old) new

  -- The scores of one source after another.
  abbrev pub IsBetweenness : List ℕ → List R → List R → Type 0
  IsBetweenness [] old new = new ≡ old
  IsBetweenness (src ∷ sources) old new =
      (scores : Scores R) × IsAddedFor src old scores × IsBetweenness sources scores.centrality new

  abbrev IsWide : Sssp → List R → List R → Type 0
  IsWide arrays dependency centrality =
      (length arrays.distance ≡ G.size g)
      × (length arrays.shortest_path_count ≡ G.size g)
      × (length dependency ≡ G.size g)
      × (length centrality ≡ G.size g)

  module _ (inside : IsClosed G g) (small : G.size g + 1 < infinity) (sched : Schedule) where
    -- The levels of a source whose search has ended.
    add_levels-IsAccumulated :
        (src : ℕ) (stack : List (List ℕ)) (s : Sssp) (centrality : List R)
        → IsCounted G g src stack s
        → length centrality ≡ G.size g
        → IsSized double (G.size g) (add_levels double G g sched stack s (cleared centrality))
          × IsAccumulated double G g s
              (G.size g)
              (length stack - 3)
              (cleared centrality)
              (add_levels double G g sched stack s (cleared centrality))
    unfolding add_levels
    add_levels-IsAccumulated src stack s centrality counted wide =
        let zero_dep = replicate (G.size g) (double.of_nat 0) in
        let sized = length-replicate (G.size g) (double.of_nat 0) in
        elim (Bool-cases (leb 3 (length stack))) [
          | inl e ↦
              let many = leb→le 3 (length stack) e in
              rw e (
                brandes_loop-IsAccumulated double G g s (G.size g) sched stack (length stack - 3)
                  (cleared centrality) (λ k v le. counted.bags k v (omega arith))
                  (λ v le. omega (
                    arith,
                    counted.sized,
                    in_bounds s.distance v infinity (omega (arith, counted.short)),
                  ))
                  (omega (arith, counted.short))
                  (λ v le. get_or-replicate (G.size g) (double.of_nat 0) v) (sized, wide))
          | inr e ↦ rw e ((sized, wide), λ v. (λ lt le. absurd (ground arith), λ out. (refl, refl)))
        ]

    add_source-IsAddedFor :
        (src : ℕ) (arrays : Sssp) (dependency centrality : List R)
        → src < G.size g
        → IsWide arrays dependency centrality
        → (s : Sssp) × (scores : Scores R) × (add_source double G g sched arrays dependency
              centrality src
            ≡ some (s, scores))
          × IsAddedFor src centrality scores
          × IsWide s scores.dependency scores.centrality
    unfolding add_source fill
    add_source-IsAddedFor src arrays dependency centrality source (wide_d, wide_c, wide_dep, wide) =
        let (stack, s, run, counted) = level_sssp-IsCounted G g src inside sched source small in
        let ((sized_dep, sized_cen), acc) =
          add_levels-IsAccumulated src stack s centrality counted wide in
        let scores = add_levels double G g sched stack s (cleared centrality) in
        (
          s,
          scores,
          rw
              (
                stores-replicate sched (G.size g) infinity arrays.distance wide_d,
                stores-replicate sched (G.size g) 0 arrays.shortest_path_count wide_c,
                stores-replicate sched (G.size g) (double.of_nat 0) dependency wide_dep,
                run,
              )
              refl,
          (stack, s, counted, acc),
          (counted.sized.0, counted.sized.1, sized_dep, sized_cen),
        )

    add_sources-IsBetweenness :
        (sources : List ℕ) (arrays : Sssp) (dependency centrality : List R)
        → ((v : ℕ) → Memᴰ v sources → v < G.size g)
        → IsWide arrays dependency centrality
        → (new : List R) × (add_sources double G g sched sources arrays dependency centrality
            ≡ some new)
          × (length new ≡ G.size g)
          × IsBetweenness sources centrality new
    unfolding add_sources
    add_sources-IsBetweenness [] arrays dependency centrality within (_, _, _, wide) =
        (centrality, refl, wide, refl)
    add_sources-IsBetweenness (src ∷ sources) arrays dependency centrality within wide =
        let (s, scores, run, added, wide') =
          add_source-IsAddedFor src arrays dependency centrality (within src (Memᴰ.head refl))
            wide in
        let (new, runs, sized, all) =
          add_sources-IsBetweenness sources s scores.dependency scores.centrality
            (λ v m. within v (Memᴰ.tail m)) wide' in
        (new, rw run runs, sized, (scores, added, all))

    -- In a graph that no edge leaves, of fewer than 2^62 - 2 vertices, `compute` ends with a score
    -- for each vertex, whatever orders the parallel loops and the shuffle take: the zeros to which
    -- one selected source after another adds. For each source, distances and numbers of shortest
    -- walks modulo 2^64 are right; a vertex that is neither the source nor at the greatest distance
    -- has a dependency by Brandes's equation, in the order of its edges, which is added to its
    -- score; the other scores stay.
    pub compute-IsBetweenness :
        (shuffle : Schedule) (num_src : ℕ)
        → (new : List R) × (compute double G g sched shuffle num_src ≡ some new)
          × (length new ≡ G.size g)
          × IsBetweenness
              (select_sources sched shuffle (G.size g) num_src)
              (replicate (G.size g) (double.of_nat 0))
              new
    unfolding compute
    compute-IsBetweenness shuffle num_src =
        let (_, each) = select_sources-bounds sched shuffle (G.size g) num_src in
        add_sources-IsBetweenness _ _ _ _ (λ v m. (each v m).0)
          (
            length-replicate (G.size g) infinity,
            length-replicate {A = ℕ} (G.size g) 0,
            length-replicate (G.size g) (double.of_nat 0),
            length-replicate (G.size g) (double.of_nat 0),
          )
