-- ===== src/Wf4/Influence/Greedy/Rounds.antt =====
-- `GetInfluentialNodes`: one round on all hosts.
use graph_log_sketch.Base.{
  ℕ, ◌+◌, ◌%◌, ◌<◌, ◌≡◌, refl, sym, ap, subst, ◌∙◌, inl, inr, ⊎_elim, true, false, List, [], ◌∷◌,
  map, foldl, All, Memᴰ, arith, ◌==◌, ==_iff, if◌then◌else◌, Bool-cases, length, get_or,
}
use graph_log_sketch.Base.DoAll.{Schedule, map-in}
use graph_log_sketch.Base.Sums.{count, mem-count}
use graph_log_sketch.Base.Sets.{HasNoRepeats}
use graph_log_sketch.Graph.{u64_mod}
use graph_log_sketch.Wf4.Network.{Nodes}
use graph_log_sketch.Wf4.Influence.Placed.{IsPlaced}
use graph_log_sketch.Wf4.Influence.Removal.{apply_updates}
use graph_log_sketch.Wf4.Influence.Removal.Frequencies.{occurrences, total, apply_updates-total}
use graph_log_sketch.Wf4.Influence.Greedy.{HostState, host_of, sent_to}
use mathlib.Core.List.Memᴰ

abbrev pub sum_of : (HostState → ℕ) → List HostState → ℕ
sum_of f [] = 0
sum_of f (h ∷ hosts) = f h + sum_of f hosts

-- How often the node is in the sets of all hosts.
abbrev pub coverage : ℕ → List HostState → ℕ
coverage v = sum_of (λ h. occurrences v h.sets)

-- The data of a host are numbers of 64 bits.
abbrev pub IsWord : Nodes → Type 0
IsWord nodes = (u : ℕ) → (nodes u).frequency < u64_mod

-- What the hosts have between two rounds: ids of their own, the same placement of the nodes, empty
-- maps of updates, threads that share out nodes that the host owns, and for each node that a host
-- owns the number of its places in the sets of all hosts.
pub record IsConsistent (hosts : List HostState) : Type 0 where
  pub distinct : HasNoRepeats (map host_of hosts)
  pub agree :
      (h s : HostState)
      → Memᴰ h hosts
      → Memᴰ s hosts
      → (v : ℕ) → h.placement.is_owned v ≡ (s.placement.get_host_id v == host_of h)
  pub placed : (h : HostState) → Memᴰ h hosts → IsPlaced h.placement
  pub clear : (h : HostState) → Memᴰ h hosts → (i : ℕ) → get_or h.remote_updates i [] ≡ []
  pub wide : (h s : HostState) → Memᴰ h hosts → Memᴰ s hosts → host_of s < length h.remote_updates
  pub shared :
      (h : HostState) (share : List ℕ) (u : ℕ)
      → Memᴰ h hosts
      → Memᴰ share h.threads
      → Memᴰ u share
      → (h.placement.is_owned (h.placement.get_gid u) ≡ true)
        × (h.placement.get_lid (h.placement.get_gid u) ≡ u)
  pub words : (h : HostState) → Memᴰ h hosts → IsWord h.nodes
  pub counted :
      (h : HostState) (v : ℕ)
      → Memᴰ h hosts
      → h.placement.is_owned v ≡ true
      → (h.nodes (h.placement.get_lid v)).frequency % u64_mod ≡ coverage v hosts % u64_mod

-- No host of the list has the id.
none_picked :
    (f : HostState → ℕ) (i : ℕ) (hosts : List HostState)
    → count i (map host_of hosts) ≡ 0
    → sum_of (λ s. if i == host_of s then f s else 0) hosts ≡ 0
none_picked f i [] h = refl
none_picked f i (s ∷ hosts) h = elim (Bool-cases (i == host_of s)) [
  | inl e ↦ absurd (ground (arith, h))
  | inr e ↦ ground (arith, none_picked f i hosts (ground (arith, h)))
]

-- One host among hosts of different ids.
pick :
    (f : HostState → ℕ) (h : HostState) (hosts : List HostState)
    → Memᴰ h hosts
    → HasNoRepeats (map host_of hosts)
    → sum_of (λ s. if host_of h == host_of s then f s else 0) hosts ≡ f h
pick f h [] m apart = absurd (Memᴰ.not-nil m)
pick f h (s ∷ hosts) m (first, apart) =
    ⊎_elim
      (λ e.
        let none : sum_of (λ t. if host_of h == host_of t then f t else 0) hosts ≡ 0 =
          none_picked f (host_of h) hosts
            (subst (λ t. count (host_of t) (map host_of hosts) ≡ 0) (sym e) first) in
        let same : (host_of h == host_of s) ≡ true = (==_iff _ _).1 (ap host_of e) in
        ground (arith, same, none, ap f e))
      (λ m'.
        let in_rest : 0 < count (host_of h) (map host_of hosts) =
          (mem-count (host_of h) (map host_of hosts)).0 (map-in host_of hosts h m') in
        let other : (host_of h == host_of s) ≡ false = elim (Bool-cases (host_of h == host_of s)) [
          | inl e ↦ absurd (ground (arith, first, in_rest))
          | inr e ↦ e
        ] in
        ground (arith, other, pick f h hosts m' apart))
      (Memᴰ.cases_cons m)

-- What is not the host's own.
abbrev pub others : HostState → (HostState → ℕ) → HostState → ℕ
others h f s = if host_of h == host_of s then 0 else f s

sum_of-split :
    (f : HostState → ℕ) (h : HostState) (hosts : List HostState)
    → sum_of f hosts
      ≡ sum_of (λ s. if host_of h == host_of s then f s else 0) hosts + sum_of (others h f) hosts
sum_of-split f h [] = refl
sum_of-split f h (s ∷ hosts) = ground (arith, sum_of-split f h hosts)

pub sum_of-others :
    (f : HostState → ℕ) (h : HostState) (hosts : List HostState)
    → Memᴰ h hosts
    → HasNoRepeats (map host_of hosts)
    → sum_of f hosts ≡ f h + sum_of (others h f) hosts
sum_of-others f h hosts m apart =
    sum_of-split f h hosts ∙ ap (λ x. x + sum_of (others h f) hosts) (pick f h hosts m apart)

-- What another host sends about the node.
abbrev pub due : HostState → ℕ → HostState → ℕ
due r v s = if host_of r == host_of s then 0 else total v (get_or s.remote_updates (host_of r) [])

module _ (sched : Schedule) (r : HostState) (v : ℕ) (mine : r.placement.is_owned v ≡ true)
    (placed : IsPlaced r.placement) where
  abbrev frequency_in : Nodes → ℕ
  frequency_in nodes = (nodes (r.placement.get_lid v)).frequency

  nothing :
      (nodes : Nodes)
      → (frequency_in (apply_updates r.placement sched nodes []) + 0) % u64_mod
        ≡ frequency_in nodes % u64_mod
  unfolding apply_updates
  nothing nodes = omega arith

  receive_one-due :
      (nodes : Nodes) (s : HostState)
      → All (λ u. r.placement.is_owned u.0 ≡ true) (get_or s.remote_updates (host_of r) [])
      → (frequency_in (apply_updates r.placement sched nodes (sent_to r s)) + due r v s) % u64_mod
        ≡ frequency_in nodes % u64_mod
  unfolding sent_to
  receive_one-due nodes s owned = elim (Bool-cases (host_of r == host_of s)) [
    | inl e ↦ rw e (nothing nodes)
    | inr e ↦ rw e (
        apply_updates-total r.placement v mine placed sched nodes
          (get_or s.remote_updates (host_of r) []) owned)
  ]

  pub receives-due :
      (senders : List HostState) (nodes : Nodes)
      → ((s : HostState)
          → Memᴰ s senders
          → All (λ u. r.placement.is_owned u.0 ≡ true) (get_or s.remote_updates (host_of r) []))
      → (frequency_in
              (foldl (λ ns s. apply_updates r.placement sched ns (sent_to r s)) nodes senders)
            + sum_of (due r v) senders)
          % u64_mod
        ≡ frequency_in nodes % u64_mod
  receives-due [] nodes owned = omega arith
  receives-due (s ∷ senders) nodes owned = omega (
    arith,
    receives-due senders (apply_updates r.placement sched nodes (sent_to r s))
        (λ t m. owned t (Memᴰ.tail m)),
    receive_one-due nodes s (owned s (Memᴰ.head refl)),
  )
