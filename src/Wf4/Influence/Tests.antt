-- ===== src/Wf4/Influence/Tests.antt =====
-- Runs of the influence maximisation on small graphs, and its theorems there.
use graph_log_sketch.Base.{
  ℕ, ◌+◌, ◌%◌, ◌≤◌, ◌<◌, ◌≡◌, refl, ◌⊎◌, Bool, true, false, some, List, [], ◌∷◌, ◌++◌, arith, ◌==◌,
  ltb, if◌then◌else◌, get_or, All,
}
use graph_log_sketch.Base.Int.{pos, ◌+ℤ◌}
use graph_log_sketch.Base.DoAll.{pairwise_swapped}
use graph_log_sketch.Graph.{u64_mod}
use graph_log_sketch.Wf4.Network.{sale, person, Ratio, NodeData, Arc, Partition, Nodes, Edges}
use graph_log_sketch.Wf4.Influence.{PartialReachableSet, Sampling, continue_set, generate, new_set}
use graph_log_sketch.Wf4.Influence.Counting.{IsContinued, continue_set-IsContinued}
use graph_log_sketch.Wf4.Influence.Placed.{IsPlaced}
use graph_log_sketch.Wf4.Influence.Delivery.{generate-own_box}
use graph_log_sketch.Wf4.Influence.Exchange.{serialize, deserialize, exchange_partial_sets}
use graph_log_sketch.Wf4.Influence.Exchange.RoundTrip.{
  deserialize-serialize, kept_for, exchange_partial_sets-kept_for,
}
use graph_log_sketch.Wf4.Influence.Removal.{
  Removal, remove_reachable_sets, serialize_map, apply_updates,
}
use graph_log_sketch.Wf4.Influence.Removal.Frequencies.{
  occurrences, total, remove_reachable_sets-frequency, apply_updates-total,
}
use graph_log_sketch.Wf4.Influence.Selection.{get_most_influential_node}
use graph_log_sketch.Wf4.Influence.Selection.Local.{of_node}
use graph_log_sketch.Wf4.Influence.Selection.Maximum.{Host, Seen, get_most_influential_node_lem}
use graph_log_sketch.Wf4.Network.{is_sale}
use graph_log_sketch.Wf4.Influence.Weights.{fill_node_values, fill_all, calculate_edge_probability}
use graph_log_sketch.Wf4.Influence.Weights.Amounts.{
  sale_numerators, calculate_edge_probability-fill_node_values, fill_all-desired,
}
use graph_log_sketch.Wf4.Influence.Seeds.{host_sets, seed_nodes}
use graph_log_sketch.Wf4.Influence.Seeds.Shares.{host_sets-sum}
use graph_log_sketch.Base.DoAll.{range}
use graph_log_sketch.Base.Sums.{sum}

-- Four nodes; this host owns 0 and 1, and the other one 2 and 3.
abbrev partition : Partition
partition = record {
  host = 0;
  num_hosts = 2;
  is_local = λ v. true;
  is_owned = λ v. ltb v 2;
  get_lid = λ v. v;
  get_gid = λ v. v % 4;
  get_host_id = λ v. if ltb v 2 then 0 else 1;
}

below : (u : ℕ) → partition.get_gid u < 4
below u = omega arith

partition-IsPlaced : IsPlaced partition
partition-IsPlaced g owned = ground arith

owns : (g : ℕ) → partition.get_host_id g ≡ 0 → partition.is_owned g ≡ true
owns g h = ground arith

abbrev arc : ℕ → ℕ → Arc
arc src dst = record {
  dst_node = dst;
  edge_data = record {
    date = 0;
    amount = pos 1;
    weight = record { numerator = pos 1; denominator = pos 2 };
    type = sale;
    src_type = person;
    dst_type = person;
    src = src;
    dst = dst;
    src_glbid = src;
    dst_glbid = dst;
  };
}

-- 0 leads to 1 and 2, and 1 leads to 0 and 3.
abbrev edges : Edges
edges v = if v == 0 then arc 0 1 ∷ arc 0 2 ∷ [] else if v == 1 then arc 1 0 ∷ arc 1 3 ∷ [] else []

abbrev seen_times : ℕ → NodeData
seen_times n = record { id = 0; frequency = n; sold = pos 0; bought = pos 0; desired = pos 0 }

abbrev nodes : Nodes
nodes v = if v == 1 then seen_times 3 else seen_times 1

abbrev blank : Nodes
blank v = seen_times 0

-- Each number that is drawn is small, except the one before the last.
abbrev hits : ℕ → Ratio → Bool
hits k w = if k == 2 then false else true

walk_run :
    (r : Nodes × PartialReachableSet) × (continue_set partition edges hits 4 false nodes
        (new_set 7 1 0)
      ≡ some r)
    × (r.1.partial_reachable_set ≡ 0 ∷ 1 ∷ 2 ∷ 3 ∷ [])
    × (r.1.frontier ≡ 2 ∷ 3 ∷ [])
    × ((r.0 0).frequency ≡ 2)
unfolding continue_set new_set
walk_run = (_, refl, refl, refl, refl)

continue_set-IsContinued_example :
    (r : Nodes × PartialReachableSet) × (continue_set partition edges hits 4 false nodes
        (new_set 7 1 0)
      ≡ some r)
    × IsContinued partition false nodes r.0 (new_set 7 1 0) r.1
continue_set-IsContinued_example =
    continue_set-IsContinued partition edges hits 4 below partition-IsPlaced false nodes
      (new_set 7 1 0)

abbrev sampling : Sampling
sampling = record {
  nodes = nodes;
  reachability_sets = [] ∷ [] ∷ [];
  remote_partial_sets = [] ∷ [] ∷ [];
}

generate-own_box_example :
    (h' : Sampling) × (generate partition edges
        (λ id i. hits)
        4
        false
        0
        (new_set 0 0 0 ∷ new_set 1 0 1 ∷ [])
        sampling
      ≡ some h')
    × (get_or h'.remote_partial_sets 0 [] ≡ [])
generate-own_box_example =
    generate-own_box partition owns edges (λ id i. hits) 4 below partition-IsPlaced false 0
      (new_set 0 0 0 ∷ new_set 1 0 1 ∷ []) sampling

abbrev travelling : PartialReachableSet
travelling = record {
  id = 7;
  owner_host = 1;
  partial_reachable_set = 0 ∷ 1 ∷ 2 ∷ [];
  frontier = 2 ∷ [];
}

deserialize-serialize_example :
    deserialize (serialize travelling ++ 9 ∷ []) ≡ some (travelling, 9 ∷ [])
deserialize-serialize_example = deserialize-serialize travelling (9 ∷ []) (omega arith)

abbrev outboxes : List (List (List PartialReachableSet))
outboxes = (([] ∷ (travelling ∷ []) ∷ []) ∷ ([] ∷ [] ∷ []) ∷ ([] ∷ (travelling ∷ []) ∷ []) ∷ [])

exchange_run : exchange_partial_sets 1 outboxes ≡ some (travelling ∷ travelling ∷ [], [] ∷ [] ∷ [])
unfolding exchange_partial_sets serialize deserialize
exchange_run = refl

exchange_partial_sets-kept_for_example :
    exchange_partial_sets 1 outboxes ≡ some (kept_for 1 0 outboxes, [] ∷ [] ∷ [])
exchange_partial_sets-kept_for_example = exchange_partial_sets-kept_for 1 outboxes (omega arith)

abbrev sets : List (List ℕ)
sets = (0 ∷ 1 ∷ []) ∷ (1 ∷ []) ∷ (0 ∷ 2 ∷ []) ∷ []

abbrev removal : Removal
removal = record { nodes = nodes; remote_updates = [] ∷ [] ∷ [] }

removal_run :
    ((remove_reachable_sets partition pairwise_swapped 0 removal sets).1 ≡ [] ∷ (1 ∷ []) ∷ [] ∷ [])
    × (((remove_reachable_sets partition pairwise_swapped 0 removal sets).0.nodes 1).frequency ≡ 2)
unfolding remove_reachable_sets
removal_run = (refl, refl)

remove_reachable_sets-frequency_example :
    (((remove_reachable_sets partition pairwise_swapped 0 removal sets).0.nodes 1).frequency
        + occurrences 1 sets)
      % u64_mod
    ≡ ((nodes 1).frequency
        + occurrences 1 (remove_reachable_sets partition pairwise_swapped 0 removal sets).1)
      % u64_mod
remove_reachable_sets-frequency_example =
    remove_reachable_sets-frequency partition 1 refl partition-IsPlaced pairwise_swapped 0 sets
      removal

apply_updates-total_example :
    ((apply_updates partition pairwise_swapped nodes
          (serialize_map ((1, 2) ∷ (0, 1) ∷ []))
          1).frequency
        + total 1 ((1, 2) ∷ (0, 1) ∷ []))
      % u64_mod
    ≡ (nodes 1).frequency % u64_mod
apply_updates-total_example =
    apply_updates-total partition 1 refl partition-IsPlaced pairwise_swapped nodes
      ((1, 2) ∷ (0, 1) ∷ []) (refl, (refl, tt))

abbrev hosts : List Host
hosts = (partition, nodes, (0 ∷ []) ∷ (1 ∷ []) ∷ []) ∷ []

maximum_run : get_most_influential_node 0 hosts ≡ record { max_node = 1; max_influence = 3 }
unfolding get_most_influential_node
maximum_run = refl

get_most_influential_node_lem_example :
    ((h : Host) (v : ℕ)
      → Seen hosts h v
      → (h.1 v).frequency ≤ (get_most_influential_node 0 hosts).max_influence)
    × (((get_most_influential_node 0 hosts).max_influence ≡ 0)
        ⊎ ((h : Host) × (v : ℕ) × Seen hosts h v
            × (get_most_influential_node 0 hosts ≡ of_node h.0 h.1 v)))
get_most_influential_node_lem_example = get_most_influential_node_lem 0 hosts

-- 0 sells 1 to 1 and 1 to 2.
weights_run : (fill_node_values edges (blank, []) 0).1 ≡ 0 ∷ []
unfolding fill_node_values ◌+ℤ◌
weights_run = refl

calculate_edge_probability-fill_node_values_example :
    (sale_numerators
        (calculate_edge_probability (fill_node_values edges (blank, []) 0).0 0 (edges 0))
      ≡ ((fill_node_values edges (blank, []) 0).0 0).sold)
    × All
        (λ a.
          is_sale a.edge_data.type ≡ true
          → a.edge_data.weight.denominator ≡ ((fill_node_values edges (blank, []) 0).0 0).sold)
        (calculate_edge_probability (fill_node_values edges (blank, []) 0).0 0 (edges 0))
unfolding fill_node_values ◌+ℤ◌
calculate_edge_probability-fill_node_values_example =
    calculate_edge_probability-fill_node_values edges blank [] 0 refl refl

fill_all-desired_example :
    ((fill_all edges pairwise_swapped blank (0 ∷ 1 ∷ [])).0 1).desired
    ≡ ((fill_all edges pairwise_swapped blank (0 ∷ 1 ∷ [])).0 1).bought
fill_all-desired_example = fill_all-desired edges pairwise_swapped blank (0 ∷ 1 ∷ []) (λ v. refl) 1

host_sets_run : host_sets 11 4 0 ∷ host_sets 11 4 3 ∷ [] ≡ 2 ∷ 5 ∷ []
unfolding host_sets
host_sets_run = refl

host_sets-sum_example : sum (range 4) (host_sets 11 4) ≡ 11
host_sets-sum_example = host_sets-sum 11 4 (omega arith)

-- The highest master that there is, for a host with two of them.
seed_run :
    seed_nodes partition (λ stream low high. high) 2 1
    ≡ (record { id = 0; owner_host = 0; partial_reachable_set = 1 ∷ []; frontier = 1 ∷ [] }) ∷ []
unfolding seed_nodes new_set
seed_run = refl
