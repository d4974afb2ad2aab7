-- ===== src/Wf4/Influence/Greedy/Balance.antt =====
-- `GetInfluentialNodes`: the frequencies after one round.
use graph_log_sketch.Base.{
  ℕ, ◌+◌, ◌%◌, ◌<◌, ◌≡◌, refl, sym, ap, subst, ◌∙◌, inl, inr, true, false, List, [], ◌∷◌, map, All,
  All-Memᴰ, Memᴰ-All, Memᴰ, arith, ◌==◌, ==_iff, Bool-cases, length, get_or,
}
use graph_log_sketch.Base.DoAll.{Schedule, map-in, map-from}
use graph_log_sketch.Base.Sets.{HasNoRepeats}
use graph_log_sketch.Graph.{u64_mod}
use graph_log_sketch.Wf4.Influence.Removal.{Removal}
use graph_log_sketch.Wf4.Influence.Removal.Frequencies.{
  occurrences, remove_reachable_sets-frequency,
}
use graph_log_sketch.Wf4.Influence.Greedy.{HostState, host_of, cover, receive_updates, clear_sent}
use graph_log_sketch.Wf4.Influence.Greedy.Updates.{
  IsAddressed, remove_reachable_sets-owed, remove_reachable_sets-IsAddressed,
}
use graph_log_sketch.Wf4.Influence.Greedy.Rounds.{
  sum_of, coverage, IsConsistent, others, sum_of-others, due, receives-due,
}

abbrev pub frequency_in : HostState → ℕ → ℕ
frequency_in h v = (h.nodes (h.placement.get_lid v)).frequency

-- A host after a round.
abbrev pub after : Schedule → ℕ → List HostState → HostState → HostState
after sched n hosts h =
    clear_sent (receive_updates sched (map (cover sched n) hosts) (cover sched n h))

pub sum_of-map :
    (f : HostState → ℕ) (g : HostState → HostState) (hosts : List HostState)
    → sum_of f (map g hosts) ≡ sum_of (λ h. f (g h)) hosts
sum_of-map f g [] = refl
sum_of-map f g (h ∷ hosts) = ap (λ x. f (g h) + x) (sum_of-map f g hosts)

pub same_hosts :
    (sched : Schedule) (n : ℕ) (hs : List HostState)
    → map host_of (map (cover sched n) hs) ≡ map host_of hs
unfolding cover
same_hosts sched n [] = refl
same_hosts sched n (h ∷ hs) = ap (λ is. host_of h ∷ is) (same_hosts sched n hs)

module _ (sched : Schedule) (n : ℕ) (hosts : List HostState) (c : IsConsistent hosts) where
  host_id :
      (r s : HostState) (v : ℕ)
      → Memᴰ r hosts
      → Memᴰ s hosts
      → r.placement.is_owned v ≡ true
      → s.placement.get_host_id v ≡ host_of r
  host_id r s v mr ms mine = (==_iff _ _).0 (sym (c.agree r s mr ms v) ∙ mine)

  start-IsAddressed : (s : HostState) → Memᴰ s hosts → IsAddressed s.placement s.remote_updates
  start-IsAddressed s ms i =
      subst (All (λ u. (s.placement.get_host_id u.0 ≡ i) × (s.placement.is_owned u.0 ≡ false)))
        (sym (c.clear s ms i)) tt

  pub cover-IsAddressed :
      (s : HostState) → Memᴰ s hosts → IsAddressed s.placement (cover sched n s).remote_updates
  unfolding cover
  cover-IsAddressed s ms =
      remove_reachable_sets-IsAddressed s.placement sched n s.sets
        (record { nodes = s.nodes; remote_updates = s.remote_updates }) (start-IsAddressed s ms)

  -- The host gets updates about its own nodes only.
  gets_own :
      (r s : HostState)
      → Memᴰ r hosts
      → Memᴰ s hosts
      → All
          (λ u. r.placement.is_owned u.0 ≡ true)
          (get_or (cover sched n s).remote_updates (host_of r) [])
  gets_own r s mr ms =
      let updates = get_or (cover sched n s).remote_updates (host_of r) [] in
      let addressed = cover-IsAddressed s ms (host_of r) in
      Memᴰ-All _ updates (λ u m.
        c.agree r s mr ms u.0
        ∙ (==_iff _ _).1
            (All-Memᴰ
              (λ w. (s.placement.get_host_id w.0 ≡ host_of r) × (s.placement.is_owned w.0 ≡ false))
              updates addressed m).0)

  module _ (r : HostState) (v : ℕ) (mr : Memᴰ r hosts) (mine : r.placement.is_owned v ≡ true) where
    -- What another host has left of the node, and what it sends about it.
    cover-due :
        (s : HostState)
        → Memᴰ s hosts
        → (due r v (cover sched n s) + others r (λ h. occurrences v h.sets) (cover sched n s))
            % u64_mod
          ≡ others r (λ h. occurrences v h.sets) s % u64_mod
    unfolding cover
    cover-due s ms = elim (Bool-cases (host_of r == host_of s)) [
      | inl e ↦ rw e refl
      | inr e ↦
          let at : s.placement.get_host_id v ≡ host_of r = host_id r s v mr ms mine in
          let start : Removal = record { nodes = s.nodes; remote_updates = s.remote_updates } in
          let away : s.placement.is_owned v ≡ false =
            c.agree s s ms ms v ∙ ap (λ i. i == host_of s) at ∙ e in
          let wide : s.placement.get_host_id v < length s.remote_updates =
            subst (λ i. i < length s.remote_updates) (sym at) (c.wide s r ms mr) in
          let (sized, one) =
            remove_reachable_sets-owed s.placement v away sched n s.sets start wide in
          rw e (omega (arith, rw (at, c.clear s ms (host_of r)) at one))
    ]

    cover-dues :
        (senders : List HostState)
        → ((s : HostState) → Memᴰ s senders → Memᴰ s hosts)
        → (sum_of (due r v) (map (cover sched n) senders)
              + sum_of (others r (λ h. occurrences v h.sets)) (map (cover sched n) senders))
            % u64_mod
          ≡ sum_of (others r (λ h. occurrences v h.sets)) senders % u64_mod
    cover-dues [] inside = refl
    cover-dues (s ∷ senders) inside = omega (
      arith,
      cover-due s (inside s (Memᴰ.head refl)),
      cover-dues senders (λ t m. inside t (Memᴰ.tail m)),
    )

    cover-frequency :
        (frequency_in (cover sched n r) v + occurrences v r.sets) % u64_mod
        ≡ (frequency_in r v + occurrences v (cover sched n r).sets) % u64_mod
    unfolding cover
    cover-frequency =
        remove_reachable_sets-frequency r.placement v mine (c.placed r mr) sched n r.sets
          (record { nodes = r.nodes; remote_updates = r.remote_updates })

    received :
        (frequency_in (after sched n hosts r) v + sum_of (due r v) (map (cover sched n) hosts))
          % u64_mod
        ≡ frequency_in (cover sched n r) v % u64_mod
    unfolding clear_sent receive_updates cover
    received =
        receives-due sched r v mine (c.placed r mr) (map (cover sched n) hosts)
          (cover sched n r).nodes
          (λ t m.
            let (s, ms, e) = map-from (cover sched n) hosts t m in
            subst
              (λ t.
                All (λ u. r.placement.is_owned u.0 ≡ true) (get_or t.remote_updates (host_of r) []))
              (sym e) (gets_own r s mr ms))

    after-others :
        coverage v (map (cover sched n) hosts)
        ≡ occurrences v (cover sched n r).sets
          + sum_of (others r (λ h. occurrences v h.sets)) (map (cover sched n) hosts)
    unfolding cover
    after-others =
        sum_of-others (λ h. occurrences v h.sets) (cover sched n r) (map (cover sched n) hosts)
          (map-in (cover sched n) hosts r mr)
          (subst HasNoRepeats (sym (same_hosts sched n hosts)) c.distinct)

    -- After a round the frequency of the node is again the number of its places in all sets.
    pub after-counted :
        frequency_in (after sched n hosts r) v % u64_mod
        ≡ coverage v (map (cover sched n) hosts) % u64_mod
    after-counted = omega (
      arith,
      c.counted r v mr mine,
      received,
      cover-frequency,
      cover-dues hosts (λ s m. m),
      sum_of-others (λ h. occurrences v h.sets) r hosts mr c.distinct,
      after-others,
    )
