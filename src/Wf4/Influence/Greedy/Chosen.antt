-- ===== src/Wf4/Influence/Greedy/Chosen.antt =====
-- `GetInfluentialNodes`: each node that is chosen is a best one.
use graph_log_sketch.Base.{
  ℕ, zero, suc, ◌+◌, ◌-◌, ◌%◌, ◌<◌, ◌≡◌, ◌↔◌, refl, ap, subst, inl, inr, ⊎_elim, List, [], ◌∷◌,
  arith, length,
}
use graph_log_sketch.Base.DoAll.{Schedule}
use graph_log_sketch.Graph.{u64_mod}
use graph_log_sketch.Wf4.Influence.Removal.Frequencies.{occurrences}
use graph_log_sketch.Wf4.Influence.Greedy.{
  HostState, remove_influence, choose, choose_more, get_influential_nodes,
}
use graph_log_sketch.Wf4.Influence.Greedy.Rounds.{IsConsistent}
use graph_log_sketch.Wf4.Influence.Greedy.Consistent.{remove_influence-IsConsistent}
use graph_log_sketch.Wf4.Influence.Greedy.Leftover.{sets_of, round-sets}
use graph_log_sketch.Wf4.Influence.Removal.Loop.{without}
use graph_log_sketch.Wf4.Influence.Greedy.Best.{
  IsBest, IsCandidate, round-IsCandidate, occurrences-left, choose-IsBest,
}

-- Each node is a best one for the sets without the nodes before it.
abbrev pub IsGreedy : (ℕ → Type 0) → List ℕ → List (List ℕ) → Type 0
IsGreedy C [] sets = Unit
IsGreedy C (n ∷ ns) sets = IsBest C n sets × IsGreedy C ns (without n sets)

module _ (sched : Schedule) (unset : ℕ) (C : ℕ → Type 0) where
  -- The candidates stay the same, and no node is in 2^64 places.
  record IsReady (hosts : List HostState) : Type 0 where
    consistent : IsConsistent hosts
    same : (v : ℕ) → C v ↔ IsCandidate hosts v
    small : (v : ℕ) → occurrences v (sets_of hosts) < u64_mod

  choose-IsBest_ready :
      (hosts : List HostState) → IsReady hosts → IsBest C (choose unset hosts) (sets_of hosts)
  choose-IsBest_ready hosts ready =
      let (most, found) = choose-IsBest hosts ready.consistent ready.small unset in
      (
        λ v d. most v ((ready.same v).0 d),
        ⊎_elim (λ d. inl ((ready.same (choose unset hosts)).1 d))
            (λ none. inr (λ v d. none v ((ready.same v).0 d))) found,
      )

  round-IsReady :
      (n : ℕ) (hosts : List HostState) → IsReady hosts → IsReady (remove_influence sched n hosts)
  round-IsReady n hosts ready = record {
    consistent = remove_influence-IsConsistent sched n hosts ready.consistent;
    same = λ v.
        let (to, from) = round-IsCandidate sched n hosts v in
        (λ d. to ((ready.same v).0 d), λ d. (ready.same v).1 (from d));
    small = λ v. occurrences-left sched n hosts v (ready.small v);
  }

  choose_more-IsGreedy :
      (left n : ℕ) (hosts : List HostState)
      → IsReady hosts
      → (length (choose_more sched unset left n hosts) ≡ left)
        × IsGreedy C (choose_more sched unset left n hosts) (without n (sets_of hosts))
  unfolding choose_more
  choose_more-IsGreedy zero n hosts ready = (refl, tt)
  choose_more-IsGreedy (suc left) n hosts ready =
      let hosts' = remove_influence sched n hosts in
      let next = choose unset hosts' in
      let ready' = round-IsReady n hosts ready in
      let (long, more) = choose_more-IsGreedy left next hosts' ready' in
      (
        ap suc long,
        subst
            (λ sets.
              IsBest C next sets
              × IsGreedy C (choose_more sched unset left next hosts') (without next sets))
            (round-sets sched n hosts) (choose-IsBest_ready hosts' ready', more),
      )

-- On consistent hosts, where no node is in 2^64 places of the sets, the program gives as many nodes
-- as it was asked for, from 1 up to 2^64 - 1, whatever order the loops take: first a node that is
-- in no fewer places of the sets than any that a thread looks at, then each time such a node for
-- the sets that have none of the nodes before it. Each is one that a thread looks at, unless none
-- of those is in a set that is left.
pub get_influential_nodes-IsGreedy :
    (sched : Schedule) (unset num_nodes : ℕ) (hosts : List HostState)
    → IsConsistent hosts
    → ((v : ℕ) → occurrences v (sets_of hosts) < u64_mod)
    → 0 < num_nodes
    → num_nodes < u64_mod
    → (length (get_influential_nodes sched unset num_nodes hosts) ≡ num_nodes)
      × IsGreedy
          (IsCandidate hosts)
          (get_influential_nodes sched unset num_nodes hosts)
          (sets_of hosts)
unfolding get_influential_nodes
get_influential_nodes-IsGreedy sched unset num_nodes hosts c small some_asked few =
    let ready : IsReady sched unset (IsCandidate hosts) hosts = record {
      consistent = c;
      same = λ v. (λ d. d, λ d. d);
      small = small;
    } in
    let first = choose unset hosts in
    let (long, more) =
      choose_more-IsGreedy sched unset (IsCandidate hosts) ((num_nodes + u64_mod - 1) % u64_mod)
        first hosts ready in
    (omega (arith, long), (choose-IsBest hosts c small unset, more))
