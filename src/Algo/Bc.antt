-- ===== src/Algo/Bc.antt =====
-- include/scea/algo/bc.hpp: `BetweennessCentrality::levelSSSP`, which counts the shortest walks
-- from a source level by level.
pub mod Paths
pub mod Edges
pub mod Levels
pub mod Stacks
pub mod Shortest
pub mod Brandes
mod Tests
use graph_log_sketch.Base.{
  ℕ, zero, suc, ◌+◌, ◌%◌, Option, none, some, List, [], ◌∷◌, ◌++◌, foldl, ◌==◌, if◌then◌else◌,
  get_or, set,
}
use graph_log_sketch.Base.DoAll.{Schedule}
use graph_log_sketch.Graph.{MutableGraph, u64_mod}

-- `std::numeric_limits<uint64_t>::max() / 4`.
abbrev pub infinity : ℕ
infinity = 4611686018427387903

-- `worklist` is the last bag of `stackOfWorklists`, the one that is being filled.
pub record Sssp : Type 0 where
  pub distance : List ℕ
  pub shortest_path_count : List ℕ
  pub worklist : List ℕ

-- `distance[v]` and `shortestPathCount[v]`.
abbrev pub dist : Sssp → ℕ → ℕ
dist s v = get_or s.distance v infinity

abbrev pub paths_to : Sssp → ℕ → ℕ
paths_to s v = get_or s.shortest_path_count v 0

-- `galois::atomicAdd`: the walks to `n` go on to `dest`.
abbrev pub add_count : ℕ → Sssp → ℕ → List ℕ
add_count n s dest = set s.shortest_path_count dest ((paths_to s dest + paths_to s n) % u64_mod)

-- The callback for the edge from `n` to `dest`.
pub sssp_edge : ℕ → ℕ → Sssp → ℕ → Sssp
sssp_edge next_level n s dest =
    if dist s dest == infinity
    then record {
      distance = set s.distance dest next_level;
      shortest_path_count = add_count n s dest;
      worklist = s.worklist ++ dest ∷ [];
    }
    else if dist s dest == next_level
    then record s { shortest_path_count = add_count n s dest }
    else s

module _ {S : Type 0} (G : MutableGraph S) (g : S) where
  -- The body of the parallel loop.
  pub sssp_vertex : ℕ → Sssp → ℕ → Sssp
  unfolding sssp_edge
  sssp_vertex next_level s n = foldl (sssp_edge next_level n) s (G.neighbors g n)

  -- One level: a new bag, then the loop over the bag of the level.
  pub sssp_level : Schedule → ℕ → Sssp → Sssp
  unfolding sssp_vertex
  sssp_level sched level s =
      foldl (sssp_vertex ((level + 1) % u64_mod)) (record s { worklist = [] })
        (sched.order s.worklist)

  -- `while (!stackOfWorklists[currentLevel].empty())`, on fuel; `stack` holds the bags below
  -- `level`, and `none` means that the fuel ran out.
  pub sssp_loop : Schedule → ℕ → ℕ → List (List ℕ) → Sssp → Option (List (List ℕ) × Sssp)
  unfolding sssp_level
  sssp_loop sched zero level stack s = elim s.worklist [
    | [] ↦ some (stack ++ s.worklist ∷ [], s)
    | _ ∷ _ ↦ none
  ]
  sssp_loop sched (suc fuel) level stack s = elim s.worklist [
    | [] ↦ some (stack ++ s.worklist ∷ [], s)
    | _ ∷ _ ↦
        sssp_loop sched fuel ((level + 1) % u64_mod) (stack ++ s.worklist ∷ [])
          (sssp_level sched level s)
  ]

  -- `levelSSSP`. The loop makes at most one round more than there are vertices.
  unfoldable pub level_sssp : Schedule → ℕ → List ℕ → List ℕ → Option (List (List ℕ) × Sssp)
  unfolding sssp_loop
  level_sssp sched src distance count = sssp_loop sched (G.size g + 1) 0 [] (record {
    distance = set distance src 0;
    shortest_path_count = set count src 1;
    worklist = src ∷ [];
  })
