-- ===== src/Wf4/Influence/Greedy/Best.antt =====
-- `GetInfluentialNodes`: the node that one round chooses.
use graph_log_sketch.Base.{
  ℕ, ◌≤◌, ◌<◌, ◌≡◌, ◌↔◌, ◌⊎◌, refl, sym, ap, subst, inl, inr, ⊎_elim, List, map, Memᴰ, arith,
}
use graph_log_sketch.Base.DoAll.{Schedule, map-in, map-from}
use graph_log_sketch.Graph.{u64_mod}
use graph_log_sketch.Wf4.Influence.Removal.Frequencies.{occurrences}
use graph_log_sketch.Wf4.Influence.Selection.Local.{of_node}
use graph_log_sketch.Wf4.Influence.Selection.{LocalMaxNode, get_most_influential_node}
use graph_log_sketch.Wf4.Influence.Selection.Maximum.{Host, Seen, get_most_influential_node_lem}
use graph_log_sketch.Wf4.Influence.Greedy.{
  HostState, cover, receive_updates, clear_sent, remove_influence, choose,
}
use graph_log_sketch.Wf4.Influence.Greedy.Rounds.{IsConsistent}
use graph_log_sketch.Wf4.Influence.Greedy.Balance.{after}
use graph_log_sketch.Wf4.Influence.Greedy.Consistent.{remove_influence-after}
use graph_log_sketch.Wf4.Influence.Greedy.Leftover.{
  sets_of, occurrences-sets_of, occurrences-without, round-sets,
}
use graph_log_sketch.Wf4.Influence.Removal.Loop.{without}

-- No candidate is in more of the sets than the node, which is a candidate, unless no candidate is
-- in a set.
abbrev pub IsBest : (ℕ → Type 0) → ℕ → List (List ℕ) → Type 0
IsBest C n sets =
    ((v : ℕ) → C v → occurrences v sets ≤ occurrences n sets)
    × (C n ⊎ ((v : ℕ) → C v → occurrences v sets ≡ 0))

-- A node that some thread of some host looks at.
pub record IsCandidate (hosts : List HostState) (v : ℕ) : Type 0 where
  pub on : HostState
  pub share : List ℕ
  pub lid : ℕ
  pub on_host : Memᴰ on hosts
  pub in_thread : Memᴰ share on.threads
  pub in_share : Memᴰ lid share
  pub at : v ≡ on.placement.get_gid lid

module _ (sched : Schedule) (n : ℕ) (hosts : List HostState) where
  pub round-IsCandidate :
      (v : ℕ) → IsCandidate hosts v ↔ IsCandidate (remove_influence sched n hosts) v
  unfolding clear_sent receive_updates cover
  round-IsCandidate v = rw (remove_influence-after sched n hosts) (
    λ c. record {
      on = after sched n hosts c.on;
      share = c.share;
      lid = c.lid;
      on_host = map-in (after sched n hosts) hosts c.on c.on_host;
      in_thread = c.in_thread;
      in_share = c.in_share;
      at = c.at;
    },
    λ c.
        let (h, ih, e) = map-from (after sched n hosts) hosts c.on c.on_host in
        record {
          on = h;
          share = c.share;
          lid = c.lid;
          on_host = ih;
          in_thread = rw e at c.in_thread;
          in_share = c.in_share;
          at = rw e at c.at;
        },
  )

  pub occurrences-left :
      (v : ℕ)
      → occurrences v (sets_of hosts) < u64_mod
      → occurrences v (sets_of (remove_influence sched n hosts)) < u64_mod
  occurrences-left v small =
      subst (λ sets. occurrences v sets < u64_mod) (sym round-sets')
        (omega (arith, small, occurrences-without v n (sets_of hosts)))
    where
      round-sets' : sets_of (remove_influence sched n hosts) ≡ without n (sets_of hosts)
      round-sets' = round-sets sched n hosts

-- What is compared of the hosts.
abbrev shown : HostState → Host
shown h = (h.placement, h.nodes, h.threads)

module _ (hosts : List HostState) (c : IsConsistent hosts)
    (small : (v : ℕ) → occurrences v (sets_of hosts) < u64_mod) where
  candidate_owned :
      (h : HostState) (share : List ℕ) (u : ℕ)
      → Memᴰ h hosts
      → Memᴰ share h.threads
      → Memᴰ u share
      → (h.nodes u).frequency ≡ occurrences (h.placement.get_gid u) (sets_of hosts)
  candidate_owned h share u mh m m' =
      let v = h.placement.get_gid u in
      let (mine, at) = c.shared h share u mh m m' in
      let counted = rw at at (c.counted h v mh mine) in
      omega (arith, counted, small v, c.words h mh u, occurrences-sets_of v hosts)

  found-IsBest :
      (best : LocalMaxNode) (h : HostState) (share : List ℕ) (u : ℕ)
      → Memᴰ h hosts
      → Memᴰ share h.threads
      → Memᴰ u share
      → best ≡ of_node h.placement h.nodes u
      → ((v : ℕ) → IsCandidate hosts v → occurrences v (sets_of hosts) ≤ best.max_influence)
      → IsBest (IsCandidate hosts) best.max_node (sets_of hosts)
  found-IsBest best h share u mh m m' e below =
      let named : best.max_node ≡ h.placement.get_gid u = ap (λ b. b.max_node) e in
      rw named (
        λ v d.
            omega
              (arith, below v d, ap (λ b. b.max_influence) e, candidate_owned h share u mh m m'),
        inl (record {
          on = h;
          share = share;
          lid = u;
          on_host = mh;
          in_thread = m;
          in_share = m';
          at = refl;
        }),
      )

  pub choose-IsBest : (unset : ℕ) → IsBest (IsCandidate hosts) (choose unset hosts) (sets_of hosts)
  unfolding choose
  choose-IsBest unset =
      let best = get_most_influential_node unset (map shown hosts) in
      let (most, found) = get_most_influential_node_lem unset (map shown hosts) in
      let below : (v : ℕ)
          → IsCandidate hosts v
          → occurrences v (sets_of hosts) ≤ best.max_influence =
        λ v d.
          let seen : Seen (map shown hosts) (shown d.on) d.lid = record {
            share = d.share;
            on_host = map-in shown hosts d.on d.on_host;
            in_thread = d.in_thread;
            in_share = d.in_share;
          } in
          rw d.at (
            omega (
              arith,
              candidate_owned d.on d.share d.lid d.on_host d.in_thread d.in_share,
              most (shown d.on) d.lid seen,
            )) in
      ⊎_elim (λ e. (λ v d. omega (arith, below v d, e), inr (λ v d. omega (arith, below v d, e))))
        (λ (h', u, seen, e).
          let (h, mh, same) = map-from shown hosts h' seen.on_host in
          found-IsBest best h seen.share u mh (rw same at seen.in_thread) seen.in_share
            (rw same at e) below)
        found
