-- ===== src/Algo/Bc/Brandes.antt =====
-- include/scea/algo/bc.hpp: `BetweennessCentrality::compute`, which adds up the dependencies of the
-- vertices on each source, from the farthest level back.
pub mod Dependencies
pub mod Backwards
pub mod Sources
pub mod Result
use graph_log_sketch.Base.{
  ℕ, zero, suc, ◌+◌, ◌-◌, ◌%◌, min, Option, none, some, ◌>>=◌, List, [], ◌∷◌, foldl, ltb, leb, ◌==◌,
  if◌then◌else◌, length, get_or, set, take, replicate,
}
use graph_log_sketch.Base.DoAll.{Schedule, range}
use graph_log_sketch.Base.Stores.{stores}
use graph_log_sketch.Graph.{MutableGraph, u64_mod}
use graph_log_sketch.Algo.Bc.{infinity, Sssp, dist, paths_to, level_sssp}

-- The arithmetic of `double`; no law of it is used.
pub record Double (R : Type 0) : Type 0 where
  pub of_nat : ℕ → R
  pub plus : R → R → R
  pub times : R → R → R
  pub over : R → R → R

-- `dependency` and `centralityScores`.
pub record Scores (R : Type 0) : Type 0 where
  pub dependency : List R
  pub centrality : List R

-- `galois::do_all` over all vertices with a store of one value.
pub fill {ℓ} : {A : Type ℓ} → Schedule → ℕ → A → List A → List A
fill sched size value xs = stores (λ _. value) xs (sched.order (range size))

-- `sources`: all vertices, or with `num_src > 0` that many of them after `std::shuffle`.
pub select_sources : Schedule → Schedule → ℕ → ℕ → List ℕ
select_sources sched shuffle size num_src =
    let sources = stores (λ i. i) (replicate size 0) (sched.order (range size)) in
    if ltb 0 num_src then take (min size num_src) (shuffle.order sources) else sources

module _ {R : Type 0} (double : Double R) where
  abbrev pub read : List R → ℕ → R
  read xs v = get_or xs v (double.of_nat 0)

  -- `(1 + dependency[dest]) / shortestPathCount[dest]`
  abbrev pub contribution : Sssp → List R → ℕ → R
  contribution s dep dest =
      double.over (double.plus (double.of_nat 1) (read dep dest)) (double.of_nat (paths_to s dest))

  -- The callback for the edge from `n` to `dest`.
  pub grab_dependency : Sssp → ℕ → ℕ → List R → ℕ → List R
  grab_dependency s succ_level n dep dest =
      if dist s dest == succ_level
      then set dep n (double.plus (read dep n) (contribution s dep dest))
      else dep

  module _ {S : Type 0} (G : MutableGraph S) (g : S) where
    -- The body of the parallel loop.
    pub brandes_vertex : Sssp → ℕ → Scores R → ℕ → Scores R
    unfolding grab_dependency
    brandes_vertex s succ_level scores n =
        let grabbed = foldl (grab_dependency s succ_level n) scores.dependency (G.neighbors g n) in
        let dep = set grabbed n (double.times (read grabbed n) (double.of_nat (paths_to s n))) in
        record {
          dependency = dep;
          centrality =
              set scores.centrality n (double.plus (read scores.centrality n) (read dep n));
        }

    -- `while (currentLevel > 0)`
    pub brandes_loop : Schedule → List (List ℕ) → Sssp → ℕ → Scores R → Scores R
    unfolding brandes_vertex
    brandes_loop sched stack s zero scores = scores
    brandes_loop sched stack s (suc level) scores = brandes_loop sched stack s level (
        foldl (brandes_vertex s ((suc level + 1) % u64_mod)) scores
          (sched.order (get_or stack (suc level) [])))

    -- `if (stackOfWorklists.size() >= 3)`
    pub add_levels : Schedule → List (List ℕ) → Sssp → Scores R → Scores R
    unfolding brandes_loop
    add_levels sched stack s scores =
        if leb 3 (length stack)
        then brandes_loop sched stack s (length stack - 3) scores
        else scores

    -- The loop's body for one source; `distance` and `shortestPathCount` are reset in it.
    pub add_source : Schedule → Sssp → List R → List R → ℕ → Option (Sssp × Scores R)
    unfolding fill add_levels
    add_source sched arrays dependency centrality src =
        level_sssp G g sched src (fill sched (G.size g) infinity arrays.distance)
          (fill sched (G.size g) 0 arrays.shortest_path_count)
        >>= λ (stack, s).
            let cleared = fill sched (G.size g) (double.of_nat 0) dependency in
            let scores : Scores R = record { dependency = cleared; centrality = centrality } in
            some (s, add_levels sched stack s scores)

    -- `for (uint64_t s : sources)`
    pub add_sources : Schedule → List ℕ → Sssp → List R → List R → Option (List R)
    unfolding add_source
    add_sources sched [] arrays dependency centrality = some centrality
    add_sources sched (src ∷ sources) arrays dependency centrality =
        add_source sched arrays dependency centrality src >>= λ (arrays', scores).
        add_sources sched sources arrays' scores.dependency scores.centrality

    -- `BetweennessCentrality::compute`; `shuffle` is the order that the seeded generator gives.
    unfoldable pub compute : Schedule → Schedule → ℕ → Option (List R)
    unfolding select_sources add_sources
    compute sched shuffle num_src =
        let size = G.size g in
        let zeros = replicate size (double.of_nat 0) in
        let arrays : Sssp = record {
          distance = replicate size infinity;
          shortest_path_count = replicate size 0;
          worklist = [];
        } in
        add_sources sched (select_sources sched shuffle size num_src) arrays zeros zeros
