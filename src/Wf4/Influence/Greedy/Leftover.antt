-- ===== src/Wf4/Influence/Greedy/Leftover.antt =====
-- `GetInfluentialNodes`: the sets that a chosen node leaves.
use graph_log_sketch.Base.{
  ℕ, ◌+◌, ◌≤◌, ◌≡◌, refl, sym, ap, ◌∙◌, inl, inr, List, [], ◌∷◌, ◌++◌, map, arith, if◌then◌else◌,
  Bool-cases,
}
use graph_log_sketch.Base.DoAll.{Schedule}
use graph_log_sketch.Base.Sets.{contains}
use graph_log_sketch.Wf4.Influence.Removal.Loop.{without, remove_reachable_sets-without}
use graph_log_sketch.Wf4.Influence.Removal.Frequencies.{occurrences}
use graph_log_sketch.Wf4.Influence.Greedy.{
  HostState, cover, receive_updates, clear_sent, remove_influence,
}
use graph_log_sketch.Wf4.Influence.Greedy.Rounds.{coverage}
use graph_log_sketch.Wf4.Influence.Greedy.Balance.{after}
use graph_log_sketch.Wf4.Influence.Greedy.Consistent.{remove_influence-after}

-- The sets of all hosts.
abbrev pub sets_of : List HostState → List (List ℕ)
sets_of [] = []
sets_of (h ∷ hosts) = h.sets ++ sets_of hosts

occurrences-append :
    (v : ℕ) (xs ys : List (List ℕ)) → occurrences v (xs ++ ys) ≡ occurrences v xs + occurrences v ys
unfolding occurrences
occurrences-append v [] ys = omega arith
occurrences-append v (x ∷ xs) ys = omega (arith, occurrences-append v xs ys)

pub occurrences-sets_of :
    (v : ℕ) (hosts : List HostState) → occurrences v (sets_of hosts) ≡ coverage v hosts
unfolding occurrences
occurrences-sets_of v [] = refl
occurrences-sets_of v (h ∷ hosts) =
    occurrences-append v h.sets (sets_of hosts)
    ∙ ap (λ x. occurrences v h.sets + x) (occurrences-sets_of v hosts)

without-append :
    (n : ℕ) (xs ys : List (List ℕ)) → without n (xs ++ ys) ≡ without n xs ++ without n ys
without-append n [] ys = refl
without-append n (x ∷ xs) ys =
    ap (λ r. (if contains n x then [] else x) ∷ r) (without-append n xs ys)

pub occurrences-without :
    (v n : ℕ) (sets : List (List ℕ)) → occurrences v (without n sets) ≤ occurrences v sets
unfolding occurrences
occurrences-without v n [] = omega arith
occurrences-without v n (s ∷ sets) = elim (Bool-cases (contains n s)) [
  | inl e ↦ rw e (omega (arith, occurrences-without v n sets))
  | inr e ↦ rw e (omega (arith, occurrences-without v n sets))
]

module _ (sched : Schedule) (n : ℕ) (hosts : List HostState) where
  sets_of-after :
      (hs : List HostState) → sets_of (map (after sched n hosts) hs) ≡ without n (sets_of hs)
  unfolding clear_sent receive_updates cover
  sets_of-after [] = refl
  sets_of-after (h ∷ hs) =
      ap (λ xs. xs ++ sets_of (map (after sched n hosts) hs))
        (remove_reachable_sets-without h.placement n sched
          (record { nodes = h.nodes; remote_updates = h.remote_updates }) h.sets)
      ∙ ap (λ ys. without n h.sets ++ ys) (sets_of-after hs)
      ∙ sym (without-append n h.sets (sets_of hs))

  pub round-sets : sets_of (remove_influence sched n hosts) ≡ without n (sets_of hosts)
  round-sets = ap (λ hs. sets_of hs) (remove_influence-after sched n hosts) ∙ sets_of-after hosts
