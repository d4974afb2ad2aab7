-- ===== src/Wf4/Influence/Greedy/Tests.antt =====
-- Runs of `GetInfluentialNodes` on two hosts, and its theorem there.
use graph_log_sketch.Base.{
  ℕ, zero, suc, ◌%◌, ◌<◌, ◌≡◌, refl, sym, ap, subst, ⊎_elim, Bool, true, not, List, [], ◌∷◌, Memᴰ,
  arith, ◌==◌, ltb, if◌then◌else◌, length, get_or,
}
use graph_log_sketch.Base.DoAll.{pairwise_swapped}
use graph_log_sketch.Graph.{u64_mod}
use graph_log_sketch.Base.Int.{pos}
use graph_log_sketch.Wf4.Network.{NodeData, Partition}
use graph_log_sketch.Wf4.Influence.Removal.Frequencies.{occurrences}
use graph_log_sketch.Wf4.Influence.Removal.{remove_reachable_sets, apply_updates, serialize_map}
use graph_log_sketch.Wf4.Influence.Selection.{get_most_influential_node}
use graph_log_sketch.Wf4.Influence.Greedy.{HostState, get_influential_nodes}
use graph_log_sketch.Wf4.Influence.Greedy.Rounds.{coverage, IsConsistent}
use graph_log_sketch.Wf4.Influence.Greedy.Leftover.{sets_of}
use graph_log_sketch.Wf4.Influence.Greedy.Best.{IsCandidate}
use graph_log_sketch.Wf4.Influence.Greedy.Chosen.{IsGreedy, get_influential_nodes-IsGreedy}
use mathlib.Core.List.Memᴰ

-- The first host owns the nodes 0 and 1, and the second one the others.
abbrev placement : ℕ → (ℕ → Bool) → Partition
placement host owned = record {
  host = host;
  num_hosts = 2;
  is_local = λ v. true;
  is_owned = owned;
  get_lid = λ v. v;
  get_gid = λ v. v;
  get_host_id = λ v. if ltb v 2 then 0 else 1;
}

abbrev seen_times : ℕ → NodeData
seen_times n = record { id = 0; frequency = n; sold = pos 0; bought = pos 0; desired = pos 0 }

abbrev quiet : List (List (ℕ × ℕ))
quiet = [] ∷ [] ∷ []

abbrev low : HostState
low = record {
  placement = placement 0 (λ v. ltb v 2);
  nodes = λ v. if v == 0 then seen_times 1 else seen_times 2;
  sets = (0 ∷ 2 ∷ []) ∷ (1 ∷ 2 ∷ []) ∷ (1 ∷ []) ∷ [];
  remote_updates = quiet;
  threads = (1 ∷ []) ∷ (0 ∷ []) ∷ [];
}

abbrev high : HostState
high = record {
  placement = placement 1 (λ v. not (ltb v 2));
  nodes = λ v. if v == 2 then seen_times 4 else if v == 3 then seen_times 1 else seen_times 0;
  sets = (2 ∷ 3 ∷ []) ∷ (2 ∷ []) ∷ [];
  remote_updates = quiet;
  threads = (2 ∷ 3 ∷ []) ∷ [];
}

abbrev hosts : List HostState
hosts = low ∷ high ∷ []

greedy_run : get_influential_nodes pairwise_swapped 9 3 hosts ≡ 2 ∷ 1 ∷ 9 ∷ []
unfolding get_influential_nodes get_most_influential_node apply_updates serialize_map
    remove_reachable_sets
greedy_run = refl

of_pair : {A : Type 0} {x y : A} (P : A → Type 0) → P x → P y → (z : A) → Memᴰ z (x ∷ y ∷ []) → P z
of_pair P a b z m =
    ⊎_elim (λ e. subst P (sym e) a) (λ m'. subst P (sym (Memᴰ.eq_of_singleton m')) b)
      (Memᴰ.cases_cons m)

none_sent : (i : ℕ) → get_or quiet i [] ≡ []
none_sent zero = refl
none_sent (suc zero) = refl
none_sent (suc (suc i)) = refl

in_range :
    (h : HostState)
    → Memᴰ h hosts
    → (share : List ℕ) (u : ℕ) → Memᴰ share h.threads
    → Memᴰ u share
    → (h.placement.is_owned (h.placement.get_gid u) ≡ true)
      × (h.placement.get_lid (h.placement.get_gid u) ≡ u)
in_range =
    of_pair
      (λ h.
        (share : List ℕ) (u : ℕ)
        → Memᴰ share h.threads
        → Memᴰ u share
        → (h.placement.is_owned (h.placement.get_gid u) ≡ true)
          × (h.placement.get_lid (h.placement.get_gid u) ≡ u))
      (λ share u m m'.
        of_pair (λ share. Memᴰ u share → (ltb u 2 ≡ true) × (u ≡ u))
          (λ k. (ap (λ w. ltb w 2) (Memᴰ.eq_of_singleton k), refl))
          (λ k. (ap (λ w. ltb w 2) (Memᴰ.eq_of_singleton k), refl)) share m m')
      (λ share u m m'. (
        of_pair (λ w. not (ltb w 2) ≡ true) refl refl u
            (subst (λ share. Memᴰ u share) (Memᴰ.eq_of_singleton m) m'),
        refl,
      ))

within : (s : HostState) → Memᴰ s hosts → s.placement.host < 2
within = of_pair (λ s. s.placement.host < 2) (omega arith) (omega arith)

few_places : (v : ℕ) → occurrences v (sets_of hosts) < u64_mod
unfolding occurrences
few_places v = ground arith

hosts-IsConsistent : IsConsistent hosts
unfolding occurrences
hosts-IsConsistent = record {
  distinct = (refl, (refl, tt));
  agree = λ h s mh ms.
      of_pair
        (λ h.
          (s : HostState)
          → Memᴰ s hosts
          → (v : ℕ) → h.placement.is_owned v ≡ (s.placement.get_host_id v == h.placement.host))
        (of_pair (λ s. (v : ℕ) → ltb v 2 ≡ (s.placement.get_host_id v == 0)) (λ v. ground arith)
          (λ v. ground arith))
        (of_pair (λ s. (v : ℕ) → not (ltb v 2) ≡ (s.placement.get_host_id v == 1))
          (λ v. ground arith) (λ v. ground arith))
        h mh s ms;
  placed =
      of_pair
        (λ h.
          (g : ℕ) → h.placement.is_owned g ≡ true → h.placement.get_gid (h.placement.get_lid g) ≡ g)
        (λ g o. refl) (λ g o. refl);
  clear = of_pair (λ h. (i : ℕ) → get_or h.remote_updates i [] ≡ []) none_sent none_sent;
  wide = λ h s mh ms.
      of_pair (λ h. s.placement.host < length h.remote_updates) (within s ms) (within s ms) h mh;
  shared = λ h share u mh m m'. in_range h mh share u m m';
  words =
      of_pair (λ h. (u : ℕ) → (h.nodes u).frequency < u64_mod) (λ u. ground arith)
        (λ u. ground arith);
  counted = λ h v mh mine.
      of_pair
        (λ h.
          h.placement.is_owned v ≡ true
          → (h.nodes (h.placement.get_lid v)).frequency % u64_mod ≡ coverage v hosts % u64_mod)
        (λ o. ground arith) (λ o. ground arith) h mh mine;
}

get_influential_nodes-IsGreedy_example :
    (length (get_influential_nodes pairwise_swapped 9 3 hosts) ≡ 3)
    × IsGreedy
        (IsCandidate hosts)
        (get_influential_nodes pairwise_swapped 9 3 hosts)
        (sets_of hosts)
get_influential_nodes-IsGreedy_example =
    get_influential_nodes-IsGreedy pairwise_swapped 9 3 hosts hosts-IsConsistent few_places
      (omega arith) (omega arith)
