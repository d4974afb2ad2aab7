-- ===== src/Algo/Bfs.antt =====
-- include/scea/algo/bfs.hpp: level-synchronous breadth-first search.
pub mod Visits
pub mod Rounds
pub mod Correct
use graph_log_sketch.Base.{
  ℕ, zero, suc, ◌+◌, ◌%◌, Bool, not, Option, none, some, List, [], ◌∷◌, ◌++◌, foldl, ltb, ◌==◌,
  if◌then◌else◌, get_or, set, replicate,
}
use graph_log_sketch.Base.DoAll.{Schedule}
use graph_log_sketch.Graph.{MutableGraph, u64_mod}

-- `std::numeric_limits<uint64_t>::max()`.
abbrev pub unvisited : ℕ
unvisited = 18446744073709551615

-- `next_st` is the bag of the vertices to look at in the next round.
pub record Search : Type 0 where
  pub shortest_path : List ℕ
  pub next_st : List ℕ

-- `shortest_path[v]`
abbrev pub distance : List ℕ → ℕ → ℕ
distance sp v = get_or sp v unvisited

-- The callback: a neighbor that is not yet visited is added to the bag.
pub push_neighbor : List ℕ → List ℕ → ℕ → List ℕ
push_neighbor sp next n = if distance sp n == unvisited then next ++ n ∷ [] else next

module _ {S : Type 0} (G : MutableGraph S) (g : S) where
  -- The body of the parallel loop.
  pub visit : ℕ → Search → ℕ → Search
  unfolding push_neighbor
  visit level s vertex =
      if not (distance s.shortest_path vertex == unvisited)
      then s
      else (let sp = set s.shortest_path vertex level in
          record {
            shortest_path = sp;
            next_st = foldl (push_neighbor sp) s.next_st (G.neighbors g vertex);
          })

  -- One round: the bags are swapped and `next_st` is cleared, then the loop runs over `curr`.
  pub round : Schedule → ℕ → Search → Search
  unfolding visit
  round sched level s =
      foldl (visit level) (record { shortest_path = s.shortest_path; next_st = [] })
        (sched.order s.next_st)

  -- `while (!nextSt->empty())`, on fuel; `none` means that the fuel ran out.
  pub loop : Schedule → ℕ → ℕ → Search → Option (List ℕ)
  unfolding round
  loop sched zero level s = elim s.next_st [ [] ↦ some s.shortest_path | _ ∷ _ ↦ none ]
  loop sched (suc fuel) level s = elim s.next_st [
    | [] ↦ some s.shortest_path
    | _ ∷ _ ↦ loop sched fuel ((level + 1) % u64_mod) (round sched level s)
  ]

  -- `SSSP_BFS::compute`. The loop makes at most one round more than there are vertices.
  unfoldable pub compute : Schedule → ℕ → Option (List ℕ)
  unfolding loop
  compute sched src =
      let blank = replicate (G.size g) unvisited in
      if ltb src (G.size g)
      then loop sched (G.size g + 1) 0 (record { shortest_path = blank; next_st = src ∷ [] })
      else some blank
