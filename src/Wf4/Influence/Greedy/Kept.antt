-- ===== src/Wf4/Influence/Greedy/Kept.antt =====
-- `GetInfluentialNodes`: the words and the lengths that a round keeps.
use graph_log_sketch.Base.{
  ℕ, zero, suc, ◌+◌, ◌*◌, ◌≡◌, refl, ap, inl, inr, List, [], ◌∷◌, map, foldl, arith, ltb, ◌==◌,
  ==_iff, Bool-cases, length, get_or,
}
use graph_log_sketch.Base.DoAll.{Schedule, range}
use graph_log_sketch.Wf4.Network.{Partition, Nodes, update}
use graph_log_sketch.Wf4.Influence.Removal.Loop.{remove_reachable_sets-keep}
use graph_log_sketch.Wf4.Influence.Removal.{
  Removal, sub_frequency, remove_node, remove_reachable_sets, apply_update, apply_updates,
}
use graph_log_sketch.Wf4.Influence.Greedy.{
  HostState, cover, sent_to, receive_updates, clear_from, clear_sent,
}
use graph_log_sketch.Wf4.Influence.Greedy.Rounds.{IsWord}
use graph_log_sketch.Wf4.Influence.Greedy.Balance.{after}

update-IsWord :
    (nodes : Nodes) (u amount : ℕ) → IsWord nodes → IsWord (update nodes u (sub_frequency amount))
update-IsWord nodes u amount h w = ground (arith, h w, h u)

remove_node-IsWord :
    (p : Partition) (r : Removal) (gid : ℕ) → IsWord r.nodes → IsWord (remove_node p r gid).nodes
unfolding remove_node
remove_node-IsWord p r gid h = elim (Bool-cases (p.is_owned gid)) [
  | inl e ↦ rw e (update-IsWord r.nodes (p.get_lid gid) 1 h)
  | inr e ↦ rw e h
]

remove_nodes-IsWord :
    (p : Partition) (gids : List ℕ) (r : Removal)
    → IsWord r.nodes
    → IsWord (foldl (remove_node p) r gids).nodes
remove_nodes-IsWord p [] r h = h
remove_nodes-IsWord p (gid ∷ gids) r h =
    remove_nodes-IsWord p gids (remove_node p r gid) (remove_node-IsWord p r gid h)

remove_reachable_sets-IsWord :
    (p : Partition) (sched : Schedule) (n : ℕ) (sets : List (List ℕ)) (r : Removal)
    → IsWord r.nodes
    → IsWord (remove_reachable_sets p sched n r sets).0.nodes
remove_reachable_sets-IsWord p sched n sets r =
    remove_reachable_sets-keep p n (λ r' sets'. IsWord r'.nodes)
      (λ r' sets' i e h. remove_nodes-IsWord p (get_or sets' i []) r' h) sched r sets

apply_all-IsWord :
    (p : Partition) (data_ is : List ℕ) (nodes : Nodes)
    → IsWord nodes
    → IsWord (foldl (apply_update p data_) nodes is)
unfolding apply_update
apply_all-IsWord p data_ [] nodes h = h
apply_all-IsWord p data_ (i ∷ is) nodes h =
    apply_all-IsWord p data_ is (apply_update p data_ nodes i)
      (update-IsWord nodes (p.get_lid (get_or data_ (i * 2) 0)) (get_or data_ (i * 2 + 1) 0) h)

apply_updates-IsWord :
    (p : Partition) (sched : Schedule) (nodes : Nodes) (words : List ℕ)
    → IsWord nodes
    → IsWord (apply_updates p sched nodes words)
unfolding apply_updates
apply_updates-IsWord p sched nodes [] h = h
apply_updates-IsWord p sched nodes (size ∷ data_) h =
    elim (Bool-cases (ltb (8 * length (size ∷ data_)) 16)) [
      | inl e ↦ rw e h
      | inr e ↦ rw e (apply_all-IsWord p data_ (sched.order (range size)) nodes h)
    ]

receive_all-IsWord :
    (sched : Schedule) (h : HostState) (senders : List HostState) (nodes : Nodes)
    → IsWord nodes
    → IsWord (foldl (λ ns s. apply_updates h.placement sched ns (sent_to h s)) nodes senders)
receive_all-IsWord sched h [] nodes w = w
receive_all-IsWord sched h (s ∷ senders) nodes w =
    receive_all-IsWord sched h senders _
      (apply_updates-IsWord h.placement sched nodes (sent_to h s) w)

pub after-IsWord :
    (sched : Schedule) (n : ℕ) (hosts : List HostState) (h : HostState)
    → IsWord h.nodes
    → IsWord (after sched n hosts h).nodes
unfolding clear_sent receive_updates cover
after-IsWord sched n hosts h w =
    receive_all-IsWord sched (cover sched n h) (map (cover sched n) hosts) (cover sched n h).nodes (
      remove_reachable_sets-IsWord h.placement sched n h.sets
        (record { nodes = h.nodes; remote_updates = h.remote_updates }) w)

pub clear_from-length :
    (own i : ℕ) (updates : List (List (ℕ × ℕ))) → length (clear_from own i updates) ≡ length updates
clear_from-length own i [] = refl
clear_from-length own i (u ∷ updates) = ap suc (clear_from-length own (suc i) updates)

pub clear_from-get_or :
    (own i k : ℕ) (updates : List (List (ℕ × ℕ)))
    → ((k + i ≡ own) → get_or updates k [] ≡ [])
    → get_or (clear_from own i updates) k [] ≡ []
clear_from-get_or own i k [] h = refl
clear_from-get_or own i zero (u ∷ updates) h = elim (Bool-cases (i == own)) [
  | inl e ↦ rw e (h (omega (arith, (==_iff i own).0 e)))
  | inr e ↦ rw e refl
]
clear_from-get_or own i (suc k) (u ∷ updates) h =
    clear_from-get_or own (suc i) k updates (λ e. h (omega (arith, e)))
