-- ===== src/Wf4/Influence/Seeds.antt =====
-- wf4/src/influence_maximization.cpp: how many sets each host begins, and with which roots.
pub mod Shares
use graph_log_sketch.Base.{ℕ, ◌+◌, ◌-◌, ◌*◌, ◌/◌, ◌%◌, List, [], ◌∷◌, map, ◌==◌, if◌then◌else◌}
use graph_log_sketch.Base.DoAll.{range}
use graph_log_sketch.Graph.{u64_mod}
use graph_log_sketch.Wf4.Network.{Partition}
use graph_log_sketch.Wf4.Influence.{PartialReachableSet, new_set}

-- `host_sets` of `GetRandomReverseReachableSets`.
unfoldable pub host_sets : ℕ → ℕ → ℕ → ℕ
host_sets global_sets num_hosts host =
    if host == num_hosts - 1
    then global_sets - (num_hosts - 1) * (global_sets / num_hosts)
    else global_sets / num_hosts

-- `GenerateSeedNodes` for the set `id`. `draw stream low high` is what the uniform distribution from
-- `low` to `high` draws from the generator of that stream, for the seed of the run; `masters` is
-- `numMasters()`.
unfoldable pub seed_node : Partition → (ℕ → ℕ → ℕ → ℕ) → ℕ → ℕ → PartialReachableSet
unfolding new_set
seed_node p draw masters id =
    new_set id p.host
      (p.get_gid (draw ((1 + p.host) * id % u64_mod) 0 ((masters + u64_mod - 1) % u64_mod)))

-- The loop `GenerateSeedNodes`: the set `id` is the element at `id`.
unfoldable pub seed_nodes : Partition → (ℕ → ℕ → ℕ → ℕ) → ℕ → ℕ → List PartialReachableSet
unfolding seed_node
seed_nodes p draw masters sets = map (seed_node p draw masters) (range sets)
