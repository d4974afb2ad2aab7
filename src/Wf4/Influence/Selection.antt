-- ===== src/Wf4/Influence/Selection.antt =====
-- wf4/src/influence_maximization.cpp: the most influential node of all hosts.
pub mod Local
pub mod Maximum
use graph_log_sketch.Base.{
  ℕ, zero, suc, ◌+◌, ◌-◌, Bool, List, [], ◌∷◌, ◌++◌, map, foldl, ltb, if◌then◌else◌,
}
use graph_log_sketch.Wf4.Network.{NodeData, Partition, Nodes}

-- `LocalMaxNode`.
pub record LocalMaxNode : Type 0 where
  pub max_node : ℕ
  pub max_influence : ℕ

-- `FindLocalMaxNode` on the vector of a thread, which has one element at most. The sum of all
-- influences is only printed.
unfoldable pub find_local_max_node : Partition → Nodes → List LocalMaxNode → ℕ → List LocalMaxNode
find_local_max_node p nodes [] node =
    (record { max_node = p.get_gid node; max_influence = (nodes node).frequency }) ∷ []
find_local_max_node p nodes (best ∷ more) node =
    if ltb best.max_influence (nodes node).frequency
    then (record { max_node = p.get_gid node; max_influence = (nodes node).frequency }) ∷ more
    else best ∷ more

-- One round of the loop of `GetMaxNode`.
pub larger_influence : LocalMaxNode → LocalMaxNode → LocalMaxNode
larger_influence best node = if ltb best.max_influence node.max_influence then node else best

-- `GetMaxNode`, in both of its forms. `unset` stands for what the default constructor leaves in
-- `max_node`.
unfoldable pub get_max_node : ℕ → List LocalMaxNode → LocalMaxNode
unfolding larger_influence
get_max_node unset most_influential_nodes =
    foldl larger_influence (record { max_node = unset; max_influence = 0 }) most_influential_nodes

abbrev pub gather : List (List LocalMaxNode) → List LocalMaxNode
gather [] = []
gather (found ∷ threads) = found ++ gather threads

-- The loop of `GetMostInfluentialNode` on a host, whose threads share the nodes out.
unfoldable pub host_max : ℕ → Partition → Nodes → List (List ℕ) → LocalMaxNode
unfolding find_local_max_node get_max_node
host_max unset p nodes threads =
    get_max_node unset (gather (map (foldl (find_local_max_node p nodes) []) threads))

-- `GetMostInfluentialNode`: `ExchangeMostInfluentialNodes` gives every host the list of the hosts'
-- maxima. A host has its placement, its node data and the shares of its threads.
unfoldable pub get_most_influential_node :
    ℕ → List (Partition × Nodes × List (List ℕ)) → LocalMaxNode
unfolding host_max get_max_node
get_most_influential_node unset hosts =
    get_max_node unset (map (λ h. host_max unset h.0 h.1 h.2) hosts)
