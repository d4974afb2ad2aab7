-- ===== src/Wf4/Influence/Removal.antt =====
-- wf4/src/influence_maximization.cpp: the sets that a chosen node covers are taken out of the
-- frequencies, on this host and on the others.
pub mod Loop
pub mod Frequencies
use graph_log_sketch.Base.{
  ℕ, zero, suc, ◌+◌, ◌*◌, ◌-◌, ◌%◌, List, [], ◌∷◌, ◌++◌, foldl, ◌==◌, ltb, if◌then◌else◌, length,
  get_or, set,
}
use graph_log_sketch.Base.DoAll.{Schedule, range}
use graph_log_sketch.Base.Sets.{contains}
use graph_log_sketch.Graph.{u64_mod}
use graph_log_sketch.Wf4.Network.{NodeData, Partition, Nodes, update}

-- `galois::atomicSubtract(frequency_, amount)`.
abbrev pub sub_frequency : ℕ → NodeData → NodeData
sub_frequency amount d = record d {
  frequency = (d.frequency + u64_mod - amount % u64_mod) % u64_mod;
}

-- `try_emplace_l` with a callback that adds one to the value that is there.
unfoldable pub count_one : ℕ → List (ℕ × ℕ) → List (ℕ × ℕ)
count_one gid [] = (gid, 1) ∷ []
count_one gid ((g, n) ∷ updates) =
    let rest = count_one gid updates in
    if g == gid then (g, (n + 1) % u64_mod) ∷ updates else (g, n) ∷ rest

-- The node data of a host, and for each host the updates that it is to get.
pub record Removal : Type 0 where
  pub nodes : Nodes
  pub remote_updates : List (List (ℕ × ℕ))

module _ (p : Partition) where
  -- One round of the loop over a covered set.
  unfoldable pub remove_node : Removal → ℕ → Removal
  unfolding count_one
  remove_node r gid =
      let h = p.get_host_id gid in
      if p.is_owned gid
      then record r { nodes = update r.nodes (p.get_lid gid) (sub_frequency 1) }
      else record r {
        remote_updates = set r.remote_updates h (count_one gid (get_or r.remote_updates h []));
      }

  -- `RemoveReachableSetsWithInfluentialNode`: the new state, and what is left of the set.
  unfoldable pub remove_reachable_set : ℕ → Removal → List ℕ → Removal × List ℕ
  unfolding remove_node
  remove_reachable_set influential_node r reachability_set =
      if contains influential_node reachability_set
      then (foldl remove_node r reachability_set, [])
      else (r, reachability_set)

  -- The body of the loop of `GetInfluentialNodes` over the sets, for the set at an index.
  pub remove_at : ℕ → Removal × List (List ℕ) → ℕ → Removal × List (List ℕ)
  unfolding remove_reachable_set
  remove_at influential_node (r, sets) i =
      let (removed, left) = remove_reachable_set influential_node r (get_or sets i []) in
      (removed, set sets i left)

  -- The loop, which takes the sets in any order.
  unfoldable pub remove_reachable_sets :
      Schedule → ℕ → Removal → List (List ℕ) → Removal × List (List ℕ)
  unfolding remove_at
  remove_reachable_sets sched influential_node r sets =
      foldl (remove_at influential_node) (r, sets) (sched.order (range (length sets)))

abbrev pub words_of : List (ℕ × ℕ) → List ℕ
words_of [] = []
words_of ((gid, amount) ∷ updates) = gid ∷ amount ∷ words_of updates

-- `SerializeMap`.
unfoldable pub serialize_map : List (ℕ × ℕ) → List ℕ
serialize_map updates = length updates ∷ words_of updates

module _ (p : Partition) where
  -- One round of the loop over a received buffer without its first word.
  unfoldable pub apply_update : List ℕ → Nodes → ℕ → Nodes
  apply_update data_ nodes i =
      update nodes (p.get_lid (get_or data_ (i * 2) 0)) (sub_frequency (get_or data_ (i * 2 + 1) 0))

  -- What `RemoveNodesFromRemotes` does with a buffer that a host received.
  unfoldable pub apply_updates : Schedule → Nodes → List ℕ → Nodes
  unfolding apply_update
  apply_updates sched nodes [] = nodes
  apply_updates sched nodes (size ∷ data_) =
      if ltb (8 * length (size ∷ data_)) 16
      then nodes
      else foldl (apply_update data_) nodes (sched.order (range size))
