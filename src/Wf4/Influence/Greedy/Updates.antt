-- ===== src/Wf4/Influence/Greedy/Updates.antt =====
-- `RemoveReachableSetsWithInfluentialNode`: what a host counts for the other hosts.
use graph_log_sketch.Base.{
  ℕ, zero, suc, ◌+◌, ◌%◌, ◌<◌, ◌≡◌, ◌≢◌, refl, sym, ap, subst, ◌∙◌, inl, inr, false, List, [], ◌∷◌,
  foldl, All, arith, ◌==◌, ==_iff, eq-cases, Bool-cases, length, get_or, set, length-set,
  get_or-set_self, get_or-set_ne,
}
use graph_log_sketch.Base.Sums.{count}
use graph_log_sketch.Graph.{u64_mod}
use graph_log_sketch.Wf4.Network.{Partition}
use graph_log_sketch.Wf4.Influence.Placed.{owned_apart}
use graph_log_sketch.Wf4.Influence.Removal.{Removal, count_one, remove_node, remove_reachable_sets}
use graph_log_sketch.Wf4.Influence.Removal.Frequencies.{occurrences, occurrences-set, total}
use graph_log_sketch.Wf4.Influence.Removal.Loop.{remove_reachable_sets-keep}
use graph_log_sketch.Base.DoAll.{Schedule}

count_one-total :
    (v gid : ℕ) (updates : List (ℕ × ℕ))
    → total v (count_one gid updates) % u64_mod ≡ (total v updates + count v (gid ∷ [])) % u64_mod
unfolding count_one
count_one-total v gid [] = ground arith
count_one-total v gid ((g, n) ∷ updates) = ground (arith, count_one-total v gid updates)

count_one-All :
    (P : ℕ → Type 0) (gid : ℕ) (updates : List (ℕ × ℕ))
    → P gid
    → All (λ u. P u.0) updates
    → All (λ u. P u.0) (count_one gid updates)
unfolding count_one
count_one-All P gid [] one all = (one, tt)
count_one-All P gid ((g, n) ∷ updates) one (two, all) = elim (Bool-cases (g == gid)) [
  | inl e ↦ rw e (two, all)
  | inr e ↦ rw e (two, count_one-All P gid updates one all)
]

get_or-set_either {ℓ κ} :
    {A : Type ℓ} (Q : A → Type κ) (xs : List A) (i j : ℕ) (a d : A)
    → i ≡ j
    → Q a
    → Q (get_or xs j d)
    → Q (get_or (set xs i a) j d)
get_or-set_either Q [] i j a d e new old = old
get_or-set_either Q (x ∷ xs) zero zero a d e new old = new
get_or-set_either Q (x ∷ xs) zero (suc j) a d e new old = old
get_or-set_either Q (x ∷ xs) (suc i) zero a d e new old = old
get_or-set_either Q (x ∷ xs) (suc i) (suc j) a d e new old =
    get_or-set_either Q xs i j a d (omega arith) new old

module _ (p : Partition) where
  -- The updates for a host are about nodes that are placed there.
  abbrev pub IsAddressed : List (List (ℕ × ℕ)) → Type 0
  IsAddressed remote =
      (i : ℕ) → All (λ u. (p.get_host_id u.0 ≡ i) × (p.is_owned u.0 ≡ false)) (get_or remote i [])

  remove_node-IsAddressed :
      (r : Removal) (gid : ℕ)
      → IsAddressed r.remote_updates
      → IsAddressed (remove_node p r gid).remote_updates
  unfolding remove_node
  remove_node-IsAddressed r gid h i = elim (Bool-cases (p.is_owned gid)) [
    | inl e ↦ rw e (h i)
    | inr e ↦
        let gids = count_one gid (get_or r.remote_updates (p.get_host_id gid) []) in
        rw e (elim (eq-cases (p.get_host_id gid) i) [
          | inl at ↦
              get_or-set_either (All (λ u. (p.get_host_id u.0 ≡ i) × (p.is_owned u.0 ≡ false)))
                r.remote_updates (p.get_host_id gid) i gids [] at
                (count_one-All (λ g. (p.get_host_id g ≡ i) × (p.is_owned g ≡ false)) gid _ (at, e)
                  (subst
                    (λ j.
                      All (λ u. (p.get_host_id u.0 ≡ j) × (p.is_owned u.0 ≡ false))
                        (get_or r.remote_updates (p.get_host_id gid) []))
                    at (h (p.get_host_id gid))))
                (h i)
          | inr ne ↦ rw (get_or-set_ne r.remote_updates (p.get_host_id gid) i gids [] ne) (h i)
        ])
  ]

  module _ (v : ℕ) (away : p.is_owned v ≡ false) where
    -- What the host has counted for the node.
    abbrev pub owed : Removal → ℕ
    owed r = total v (get_or r.remote_updates (p.get_host_id v) [])

    elsewhere : (gid : ℕ) → p.get_host_id gid ≢ p.get_host_id v → (v == gid) ≡ false
    elsewhere gid ne = elim (Bool-cases (v == gid)) [
      | inl e ↦ absurd (ne (ap p.get_host_id (sym ((==_iff v gid).0 e))))
      | inr e ↦ e
    ]

    remove_node-owed :
        (r : Removal) (gid : ℕ)
        → p.get_host_id v < length r.remote_updates
        → (length (remove_node p r gid).remote_updates ≡ length r.remote_updates)
          × (owed (remove_node p r gid) % u64_mod ≡ (owed r + count v (gid ∷ [])) % u64_mod)
    unfolding remove_node
    remove_node-owed r gid h = elim (Bool-cases (p.is_owned gid)) [
      | inl e ↦ rw e (refl, ground (arith, owned_apart p gid v e away))
      | inr e ↦ rw e (
        length-set r.remote_updates (p.get_host_id gid) _,
        elim (eq-cases (p.get_host_id gid) (p.get_host_id v)) [
          | inl at ↦ rw at (
              ap (λ u. total v u % u64_mod)
                (get_or-set_self r.remote_updates (p.get_host_id v)
                  (count_one gid (get_or r.remote_updates (p.get_host_id v) [])) [] h)
              ∙ count_one-total v gid (get_or r.remote_updates (p.get_host_id v) []))
          | inr ne ↦
              let other : (v == gid) ≡ false = elsewhere gid ne in
              ap (λ u. total v u % u64_mod)
                (get_or-set_ne r.remote_updates (p.get_host_id gid) (p.get_host_id v) _ [] ne)
              ∙ ground arith
        ],
      )
    ]

    remove_nodes-owed :
        (gids : List ℕ) (r : Removal)
        → p.get_host_id v < length r.remote_updates
        → (length (foldl (remove_node p) r gids).remote_updates ≡ length r.remote_updates)
          × (owed (foldl (remove_node p) r gids) % u64_mod ≡ (owed r + count v gids) % u64_mod)
    remove_nodes-owed [] r h = (refl, omega arith)
    remove_nodes-owed (gid ∷ gids) r h =
        let (sized, one) = remove_node-owed r gid h in
        let (sized', more) = remove_nodes-owed gids (remove_node p r gid) (omega arith) in
        (sized' ∙ sized, ground arith)

    -- The removal of the covered sets counts the places of the node in them.
    pub remove_reachable_sets-owed :
        (sched : Schedule) (influential_node : ℕ) (sets : List (List ℕ)) (r : Removal)
        → p.get_host_id v < length r.remote_updates
        → (length (remove_reachable_sets p sched influential_node r sets).0.remote_updates
            ≡ length r.remote_updates)
          × ((owed (remove_reachable_sets p sched influential_node r sets).0
                  + occurrences v (remove_reachable_sets p sched influential_node r sets).1)
                % u64_mod
              ≡ (owed r + occurrences v sets) % u64_mod)
    remove_reachable_sets-owed sched influential_node sets r h =
        remove_reachable_sets-keep p influential_node
          (λ r' sets'.
            (length r'.remote_updates ≡ length r.remote_updates)
            × ((owed r' + occurrences v sets') % u64_mod ≡ (owed r + occurrences v sets) % u64_mod))
          (λ r' sets' i e (sized, same).
            let (sized', more) =
              remove_nodes-owed (get_or sets' i []) r' (omega (arith, sized, h)) in
            (sized' ∙ sized, omega (arith, same, more, occurrences-set v sets' i)))
          sched r sets (refl, refl)

  remove_nodes-length :
      (gids : List ℕ) (r : Removal)
      → length (foldl (remove_node p) r gids).remote_updates ≡ length r.remote_updates
  unfolding remove_node
  remove_nodes-length [] r = refl
  remove_nodes-length (gid ∷ gids) r =
      remove_nodes-length gids (remove_node p r gid) ∙ (elim (Bool-cases (p.is_owned gid)) [
        | inl e ↦ rw e refl
        | inr e ↦ rw e (length-set r.remote_updates (p.get_host_id gid) _)
      ])

  pub remove_reachable_sets-length :
      (sched : Schedule) (influential_node : ℕ) (sets : List (List ℕ)) (r : Removal)
      → length (remove_reachable_sets p sched influential_node r sets).0.remote_updates
        ≡ length r.remote_updates
  remove_reachable_sets-length sched influential_node sets r =
      remove_reachable_sets-keep p influential_node
        (λ r' sets'. length r'.remote_updates ≡ length r.remote_updates)
        (λ r' sets' i e h. remove_nodes-length (get_or sets' i []) r' ∙ h) sched r sets refl

  remove_nodes-IsAddressed :
      (gids : List ℕ) (r : Removal)
      → IsAddressed r.remote_updates
      → IsAddressed (foldl (remove_node p) r gids).remote_updates
  remove_nodes-IsAddressed [] r h = h
  remove_nodes-IsAddressed (gid ∷ gids) r h =
      remove_nodes-IsAddressed gids (remove_node p r gid) (remove_node-IsAddressed r gid h)

  pub remove_reachable_sets-IsAddressed :
      (sched : Schedule) (influential_node : ℕ) (sets : List (List ℕ)) (r : Removal)
      → IsAddressed r.remote_updates
      → IsAddressed (remove_reachable_sets p sched influential_node r sets).0.remote_updates
  remove_reachable_sets-IsAddressed sched influential_node sets r =
      remove_reachable_sets-keep p influential_node (λ r' sets'. IsAddressed r'.remote_updates)
        (λ r' sets' i e h. remove_nodes-IsAddressed (get_or sets' i []) r' h) sched r sets
