-- ===== src/Wf4/Influence/Selection/Maximum.antt =====
-- `GetMostInfluentialNode`: the node that the hosts agree on.
use graph_log_sketch.Base.{
  ℕ, ◌≤◌, ◌≡◌, refl, ap, ◌∙◌, inl, inr, ◌⊎◌, ⊎_elim, List, [], ◌∷◌, map, foldl, Memᴰ, arith, subst,
}
use graph_log_sketch.Base.DoAll.{map-in, map-from}
use graph_log_sketch.Wf4.Network.{Partition, Nodes}
use graph_log_sketch.Wf4.Influence.Selection.{
  LocalMaxNode, find_local_max_node, gather, host_max, get_most_influential_node,
}
use mathlib.Core.List.Memᴰ
use graph_log_sketch.Wf4.Influence.Selection.Local.{
  get_max_node-bounds, get_max_node-attained, of_node, finds-cover, finds-from,
}

gather-in :
    (f : List ℕ → List LocalMaxNode) (threads : List (List ℕ)) (share : List ℕ) (m : LocalMaxNode)
    → Memᴰ share threads
    → Memᴰ m (f share)
    → Memᴰ m (gather (map f threads))
gather-in f [] share m h q = absurd (Memᴰ.not-nil h)
gather-in f (t ∷ threads) share m h q =
    ⊎_elim (λ e. Memᴰ.append_left (gather (map f threads)) (subst (λ x. Memᴰ m (f x)) e q))
      (λ r. Memᴰ.append_right (f t) (gather-in f threads share m r q)) (Memᴰ.cases_cons h)

gather-from :
    (f : List ℕ → List LocalMaxNode) (threads : List (List ℕ)) (m : LocalMaxNode)
    → Memᴰ m (gather (map f threads))
    → (share : List ℕ) × Memᴰ share threads × Memᴰ m (f share)
gather-from f [] m h = absurd (Memᴰ.not-nil h)
gather-from f (t ∷ threads) m h =
    ⊎_elim (λ q. (t, Memᴰ.head refl, q))
      (λ r. let (s, a, b) = gather-from f threads m r in (s, Memᴰ.tail a, b))
      (Memᴰ.append_cases (f t) h)

abbrev pub Host : Type 0
Host = Partition × Nodes × List (List ℕ)

-- A node that some thread of some host looks at.
pub record Seen (hosts : List Host) (h : Host) (v : ℕ) : Type 0 where
  pub share : List ℕ
  pub on_host : Memᴰ h hosts
  pub in_thread : Memᴰ share h.2
  pub in_share : Memᴰ v share

module _ (unset : ℕ) (hosts : List Host) where
  host_max-bounds :
      (h : Host) (v : ℕ)
      → Seen hosts h v
      → (h.1 v).frequency ≤ (host_max unset h.0 h.1 h.2).max_influence
  unfolding host_max
  host_max-bounds h v seen =
      let (m, at, le) = finds-cover h.0 h.1 seen.share [] v seen.in_share in
      omega (
        arith,
        le,
        get_max_node-bounds unset _ m
            (gather-in (foldl (find_local_max_node h.0 h.1) []) h.2 seen.share m seen.in_thread at),
      )

  host_max-attained :
      (h : Host)
      → Memᴰ h hosts
      → ((host_max unset h.0 h.1 h.2).max_influence ≡ 0)
        ⊎ ((v : ℕ) × Seen hosts h v × (host_max unset h.0 h.1 h.2 ≡ of_node h.0 h.1 v))
  unfolding host_max
  host_max-attained h on_host =
      ⊎_elim inl
        (λ m.
          let (share, in_thread, at) =
            gather-from (foldl (find_local_max_node h.0 h.1) []) h.2 _ m in
          ⊎_elim (λ none_yet. absurd (Memᴰ.not-nil none_yet))
            (λ (v, in_share, e). inr (
              v,
              record {
                share = share;
                on_host = on_host;
                in_thread = in_thread;
                in_share = in_share;
              },
              e,
            ))
            (finds-from h.0 h.1 share [] _ at))
        (get_max_node-attained unset (gather (map (foldl (find_local_max_node h.0 h.1) []) h.2)))

  -- No node that a thread of a host looks at has a frequency above the influence of the node that
  -- the hosts agree on. That influence is 0, or the node is one that a thread looked at, under its
  -- global id, and the influence is its frequency.
  pub get_most_influential_node_lem :
      ((h : Host) (v : ℕ)
        → Seen hosts h v
        → (h.1 v).frequency ≤ (get_most_influential_node unset hosts).max_influence)
      × (((get_most_influential_node unset hosts).max_influence ≡ 0)
          ⊎ ((h : Host) × (v : ℕ) × Seen hosts h v
              × (get_most_influential_node unset hosts ≡ of_node h.0 h.1 v)))
  unfolding get_most_influential_node
  get_most_influential_node_lem =
      let best = λ (h : Host). host_max unset h.0 h.1 h.2 in
      (
        λ h v seen. omega (
          arith,
          host_max-bounds h v seen,
          get_max_node-bounds unset (map best hosts) (best h) (map-in best hosts h seen.on_host),
        ),
        ⊎_elim inl
            (λ m.
              let (h, on_host, e) = map-from best hosts _ m in
              ⊎_elim (λ zero_influence. inl (ap (λ x. x.max_influence) e ∙ zero_influence))
                (λ (v, seen, e'). inr (h, v, seen, e ∙ e')) (host_max-attained h on_host))
            (get_max_node-attained unset (map best hosts)),
      )
