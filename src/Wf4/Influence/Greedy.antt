-- ===== src/Wf4/Influence/Greedy.antt =====
-- wf4/src/influence_maximization.cpp: `GetInfluentialNodes` on all hosts.
pub mod Updates
pub mod Rounds
pub mod Balance
pub mod Kept
pub mod Consistent
pub mod Leftover
pub mod Best
pub mod Chosen
mod Tests
use graph_log_sketch.Base.{
  ℕ, zero, suc, ◌+◌, ◌-◌, ◌%◌, List, [], ◌∷◌, map, foldl, ◌==◌, if◌then◌else◌, get_or, set,
}
use graph_log_sketch.Base.DoAll.{Schedule}
use graph_log_sketch.Graph.{u64_mod}
use graph_log_sketch.Wf4.Network.{Partition, Nodes}
use graph_log_sketch.Wf4.Influence.Removal.{
  Removal, remove_reachable_sets, serialize_map, apply_updates,
}
use graph_log_sketch.Wf4.Influence.Selection.{LocalMaxNode, get_most_influential_node}

-- What `GetInfluentialNodes` works on, on one host. `threads` are the shares of its threads in its
-- nodes.
pub record HostState : Type 0 where
  pub placement : Partition
  pub nodes : Nodes
  pub sets : List (List ℕ)
  pub remote_updates : List (List (ℕ × ℕ))
  pub threads : List (List ℕ)

abbrev pub host_of : HostState → ℕ
host_of h = h.placement.host

-- The parallel loop over the sets of the host.
unfoldable pub cover : Schedule → ℕ → HostState → HostState
cover sched influential_node h =
    let start : Removal = record { nodes = h.nodes; remote_updates = h.remote_updates } in
    let (removal, left) = remove_reachable_sets h.placement sched influential_node start h.sets in
    record h { nodes = removal.nodes; remote_updates = removal.remote_updates; sets = left }

-- The words that a host gets from another. Nothing comes from the host itself.
unfoldable pub sent_to : HostState → HostState → List ℕ
sent_to receiver sender =
    if host_of receiver == host_of sender
    then []
    else serialize_map (get_or sender.remote_updates (host_of receiver) [])

-- The second half of `RemoveNodesFromRemotes`: the buffers of all hosts, one after the other.
unfoldable pub receive_updates : Schedule → List HostState → HostState → HostState
unfolding sent_to
receive_updates sched hosts h = record h {
  nodes =
      foldl (λ nodes sender. apply_updates h.placement sched nodes (sent_to h sender)) h.nodes
        hosts;
}

-- `SerializeMap` clears the map that it sends.
abbrev pub clear_from : ℕ → ℕ → List (List (ℕ × ℕ)) → List (List (ℕ × ℕ))
clear_from own i [] = []
clear_from own i (updates ∷ rest) = (if i == own then updates else []) ∷ clear_from own (suc i) rest

unfoldable pub clear_sent : HostState → HostState
clear_sent h = record h { remote_updates = clear_from (host_of h) 0 h.remote_updates }

-- `RemoveNodesFromRemotes` on all hosts.
unfoldable pub remove_nodes_from_remotes : Schedule → List HostState → List HostState
unfolding receive_updates clear_sent
remove_nodes_from_remotes sched hosts = map (λ h. clear_sent (receive_updates sched hosts h)) hosts

-- One round of the loop of `GetInfluentialNodes`, up to the choice of the next node.
unfoldable pub remove_influence : Schedule → ℕ → List HostState → List HostState
unfolding cover remove_nodes_from_remotes
remove_influence sched influential_node hosts =
    remove_nodes_from_remotes sched (map (cover sched influential_node) hosts)

-- `unset` stands for what a default constructor leaves in `max_node`.
unfoldable pub choose : ℕ → List HostState → ℕ
choose unset hosts =
    (get_most_influential_node unset (map (λ h. (h.placement, h.nodes, h.threads)) hosts)).max_node

-- The loop, with the number of nodes that are still to be chosen.
unfoldable pub choose_more : Schedule → ℕ → ℕ → ℕ → List HostState → List ℕ
unfolding remove_influence choose
choose_more sched unset zero influential_node hosts = []
choose_more sched unset (suc left) influential_node hosts =
    let hosts' = remove_influence sched influential_node hosts in
    let next = choose unset hosts' in next ∷ choose_more sched unset left next hosts'

-- `GetInfluentialNodes`, which gives the same nodes on every host.
unfoldable pub get_influential_nodes : Schedule → ℕ → ℕ → List HostState → List ℕ
unfolding choose choose_more
get_influential_nodes sched unset num_nodes hosts =
    let first = choose unset hosts in
    first ∷ choose_more sched unset ((num_nodes + u64_mod - 1) % u64_mod) first hosts
