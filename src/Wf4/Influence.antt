-- ===== src/Wf4/Influence.antt =====
-- wf4/src/influence_maximization.cpp: random reverse reachable sets, which the hosts grow together,
-- and the nodes that cover most of them.
pub mod Ends
pub mod Placed
pub mod Counting
pub mod Delivery
pub mod Exchange
pub mod Removal
pub mod Selection
pub mod Weights
pub mod Seeds
pub mod Greedy
mod Tests
use graph_log_sketch.Base.{
  ℕ, zero, suc, ◌+◌, ◌%◌, Bool, true, false, not, ◌&&◌, ◌||◌, Option, none, some, List, [], ◌∷◌,
  ◌++◌, foldl, ◌==◌, ◌>>=◌, if◌then◌else◌, length, get_or, set,
}
use graph_log_sketch.Base.Sets.{contains, insert_new, erase}
use graph_log_sketch.Graph.{u64_mod}
use graph_log_sketch.Wf4.Network.{Ratio, NodeData, Arc, Partition, Nodes, Edges, update}
use mathlib.Core.Option

-- `wf4::internal::PartialReachableSet`. A set of nodes is listed in the order of its iteration.
pub record PartialReachableSet : Type 0 where
  pub id : ℕ
  pub owner_host : ℕ
  pub partial_reachable_set : List ℕ
  pub frontier : List ℕ

-- The constructor from a root.
unfoldable pub new_set : ℕ → ℕ → ℕ → PartialReachableSet
new_set id host root = record {
  id = id;
  owner_host = host;
  partial_reachable_set = root ∷ [];
  frontier = root ∷ [];
}

abbrev pub is_finished : PartialReachableSet → Bool
is_finished s = length s.frontier == 0

-- `*frontier.begin()` of a frontier that is not empty is its first member.
unfoldable pub next_host : Partition → Bool → PartialReachableSet → ℕ
next_host p finish s =
    if finish || is_finished s then s.owner_host else p.get_host_id (get_or s.frontier 0 0)

-- The variables of `ContinueRandomReversibleReachableSet`, and how many numbers it has drawn.
pub record Traversal : Type 0 where
  pub nodes : Nodes
  pub reached : List ℕ
  pub local_frontier : List ℕ
  pub remote_frontier : List ℕ
  pub draws : ℕ

-- `galois::atomicAdd(frequency_, 1)`.
abbrev pub add_visit : NodeData → NodeData
add_visit d = record d { frequency = (d.frequency + 1) % u64_mod }

-- `hits k w` says that the k-th number that the generator draws is at most the weight `w`.
module _ (p : Partition) (edges : Edges) (hits : ℕ → Ratio → Bool) where
  -- The first loop: the frontier is split into the nodes that the host owns and the others.
  pub split_frontier : Traversal → ℕ → Traversal
  split_frontier w gid =
      if p.is_owned gid
      then record w { local_frontier = w.local_frontier ++ gid ∷ [] }
      else record w { remote_frontier = insert_new gid w.remote_frontier }

  -- One round of the loop over the edges.
  pub follow_edge : Traversal → Arc → Traversal
  follow_edge w arc =
      let gid = p.get_gid arc.dst_node in
      let drawn = record w { draws = suc w.draws } in
      if not (hits w.draws arc.edge_data.weight)
      then drawn
      else if contains gid w.reached
      then drawn
      else if p.is_owned gid
      then record drawn {
        reached = w.reached ++ gid ∷ [];
        local_frontier = w.local_frontier ++ gid ∷ [];
      }
      else record drawn {
        reached = w.reached ++ gid ∷ [];
        remote_frontier = insert_new gid w.remote_frontier;
      }

  -- One round of the loop over the queue, of which `gid` was the front.
  pub visit_node : Bool → ℕ → List ℕ → Traversal → Traversal
  unfolding follow_edge
  visit_node finish gid rest w =
      let lid = p.get_lid gid in
      let counted = record w { nodes = update w.nodes lid add_visit; local_frontier = rest } in
      if finish then counted else foldl follow_edge counted (edges lid)

  -- `while (!local_frontier.empty())`, on fuel; `none` means that the fuel ran out.
  pub walk : Bool → ℕ → Traversal → Option Traversal
  unfolding visit_node
  walk finish zero w = elim w.local_frontier [ [] ↦ some w | _ ∷ _ ↦ none ]
  walk finish (suc fuel) w = elim w.local_frontier [
    | [] ↦ some w
    | gid ∷ rest ↦ walk finish fuel (visit_node finish gid rest w)
  ]

  -- A walk that is cut off gives up the nodes that wait for other hosts.
  pub finish_walk : Bool → PartialReachableSet → Traversal → PartialReachableSet
  finish_walk finish s w =
      if finish
      then record s {
        partial_reachable_set = foldl (λ xs gid. erase gid xs) w.reached w.remote_frontier;
        frontier = [];
      }
      else record s { partial_reachable_set = w.reached; frontier = w.remote_frontier }

  -- `ContinueRandomReversibleReachableSet` in a graph whose nodes have global ids below `n`.
  unfoldable pub continue_set :
      ℕ → Bool → Nodes → PartialReachableSet → Option (Nodes × PartialReachableSet)
  unfolding split_frontier walk finish_walk
  continue_set n finish nodes s =
      let start : Traversal = record {
        nodes = nodes;
        reached = s.partial_reachable_set;
        local_frontier = [];
        remote_frontier = [];
        draws = 0;
      } in
      Option.map (λ w. (w.nodes, finish_walk finish s w))
        (walk finish (n + length s.frontier) (foldl split_frontier start s.frontier))

-- What `GenerateRandomReversibleReachableSets` writes to on a host; the last field is a list for
-- each host of the sets that it is to get.
pub record Sampling : Type 0 where
  pub nodes : Nodes
  pub reachability_sets : List (List ℕ)
  pub remote_partial_sets : List (List PartialReachableSet)

-- Where a set goes when the walk on this host is done.
unfoldable pub dispatch : Partition → Bool → Sampling → PartialReachableSet → Sampling
unfolding next_host
dispatch p finish h s =
    let k = next_host p finish s in
    if s.owner_host == p.host && (finish || is_finished s)
    then record h { reachability_sets = set h.reachability_sets s.id s.partial_reachable_set }
    else record h {
      remote_partial_sets =
          set h.remote_partial_sets k (get_or h.remote_partial_sets k [] ++ s ∷ []);
    }

-- `rng id i` is the generator `pcg64(id, i)`.
module _ (p : Partition) (edges : Edges) (rng : ℕ → ℕ → ℕ → Ratio → Bool) (n : ℕ) where
  -- `GenerateRandomReversibleReachableSets` for the sets from the i-th on.
  unfoldable pub generate : Bool → ℕ → List PartialReachableSet → Sampling → Option Sampling
  unfolding continue_set dispatch
  generate finish i [] h = some h
  generate finish i (s ∷ sets) h = do
    r ← continue_set p edges (rng s.id i) n finish h.nodes s
    generate finish (suc i) sets (dispatch p finish (record h { nodes = r.0 }) r.1)
