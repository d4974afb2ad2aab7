-- ===== src/Wf4/Influence/Removal/Frequencies.antt =====
-- `RemoveReachableSetsWithInfluentialNode` and `RemoveNodesFromRemotes`: the frequencies.
use graph_log_sketch.Base.{
  ℕ, zero, suc, ◌+◌, ◌*◌, ◌%◌, ◌<◌, ◌≡◌, refl, inl, inr, true, false, List, [], ◌∷◌, foldl, Memᴰ,
  arith, ◌==◌, ltb, if◌then◌else◌, Bool-cases, length, get_or, set, All,
}
use graph_log_sketch.Base.DoAll.{Schedule, range, Permᴰ-Memᴰ}
use graph_log_sketch.Base.Sums.{count, sum, sum-perm, sum-ext, sum-shift, mem-range_from_iff}
use graph_log_sketch.Graph.{u64_mod}
use graph_log_sketch.Wf4.Network.{Partition, Nodes}
use graph_log_sketch.Wf4.Influence.Placed.{IsPlaced, owned_apart, same_place}
use graph_log_sketch.Wf4.Influence.Removal.Loop.{remove_reachable_sets-keep}
use graph_log_sketch.Wf4.Influence.Removal.{
  Removal, remove_node, remove_reachable_sets, words_of, serialize_map, apply_update, apply_updates,
}

-- How often the node is in the sets.
unfoldable pub occurrences : ℕ → List (List ℕ) → ℕ
occurrences v [] = 0
occurrences v (s ∷ sets) = count v s + occurrences v sets

pub occurrences-set :
    (v : ℕ) (sets : List (List ℕ)) (i : ℕ)
    → occurrences v (set sets i []) + count v (get_or sets i []) ≡ occurrences v sets
unfolding occurrences
occurrences-set v [] i = refl
occurrences-set v (s ∷ sets) zero = omega arith
occurrences-set v (s ∷ sets) (suc i) = omega (arith, occurrences-set v sets i)

-- The amounts that the updates have for the node together.
abbrev pub total : ℕ → List (ℕ × ℕ) → ℕ
total v [] = 0
total v ((gid, amount) ∷ updates) = (if gid == v then amount else 0) + total v updates

module _ (p : Partition) (v : ℕ) (mine : p.is_owned v ≡ true) (placed : IsPlaced p) where
  abbrev frequency_of : Nodes → ℕ
  frequency_of nodes = (nodes (p.get_lid v)).frequency

  remove_node-frequency :
      (r : Removal) (gid : ℕ)
      → (frequency_of (remove_node p r gid).nodes + count v (gid ∷ [])) % u64_mod
        ≡ frequency_of r.nodes % u64_mod
  unfolding remove_node
  remove_node-frequency r gid = elim (Bool-cases (p.is_owned gid)) [
    | inl e ↦ ground (arith, same_place p v gid mine placed e)
    | inr e ↦ ground (arith, owned_apart p v gid mine e)
  ]

  remove_nodes-frequency :
      (gids : List ℕ) (r : Removal)
      → (frequency_of (foldl (remove_node p) r gids).nodes + count v gids) % u64_mod
        ≡ frequency_of r.nodes % u64_mod
  remove_nodes-frequency [] r = omega arith
  remove_nodes-frequency (gid ∷ gids) r =
      ground (arith, remove_nodes-frequency gids (remove_node p r gid), remove_node-frequency r gid)

  -- Where the host finds the nodes that it owns under their ids, the removal of the sets with a
  -- chosen node lowers the frequency of each node that the host owns, modulo 2^64, by as much as
  -- its occurrences in the sets become fewer, whatever order the loop takes.
  pub remove_reachable_sets-frequency :
      (sched : Schedule) (influential_node : ℕ) (sets : List (List ℕ)) (r : Removal)
      → (frequency_of (remove_reachable_sets p sched influential_node r sets).0.nodes
            + occurrences v sets)
          % u64_mod
        ≡ (frequency_of r.nodes
            + occurrences v (remove_reachable_sets p sched influential_node r sets).1)
          % u64_mod
  remove_reachable_sets-frequency sched influential_node sets r =
      remove_reachable_sets-keep p influential_node
        (λ r' sets'.
          (frequency_of r'.nodes + occurrences v sets) % u64_mod
          ≡ (frequency_of r.nodes + occurrences v sets') % u64_mod)
        (λ r' sets' i e h.
          omega
            (arith, h, occurrences-set v sets' i, remove_nodes-frequency (get_or sets' i []) r'))
        sched r sets refl

  -- The amount that a buffer has for the node in its i-th pair.
  amount_at : List ℕ → ℕ → ℕ
  amount_at data_ i = if get_or data_ (i * 2) 0 == v then get_or data_ (i * 2 + 1) 0 else 0

  apply_update-frequency :
      (data_ : List ℕ) (nodes : Nodes) (i : ℕ)
      → p.is_owned (get_or data_ (i * 2) 0) ≡ true
      → (frequency_of (apply_update p data_ nodes i) + amount_at data_ i) % u64_mod
        ≡ frequency_of nodes % u64_mod
  unfolding apply_update amount_at
  apply_update-frequency data_ nodes i owned =
      ground (arith, same_place p v (get_or data_ (i * 2) 0) mine placed owned)

  apply_all-frequency :
      (data_ : List ℕ) (is : List ℕ) (nodes : Nodes)
      → ((i : ℕ) → Memᴰ i is → p.is_owned (get_or data_ (i * 2) 0) ≡ true)
      → (frequency_of (foldl (apply_update p data_) nodes is) + sum is (amount_at data_)) % u64_mod
        ≡ frequency_of nodes % u64_mod
  apply_all-frequency data_ [] nodes h = omega arith
  apply_all-frequency data_ (i ∷ is) nodes h = omega (
    arith,
    apply_update-frequency data_ nodes i (h i (Memᴰ.head refl)),
    apply_all-frequency data_ is (apply_update p data_ nodes i) (λ j m. h j (Memᴰ.tail m)),
  )

  amount_at-next :
      (gid amount : ℕ) (data_ : List ℕ) (i : ℕ)
      → amount_at (gid ∷ amount ∷ data_) (suc i) ≡ amount_at data_ i
  unfolding amount_at
  amount_at-next gid amount data_ i =
      let at : suc i * 2 ≡ suc (suc (i * 2)) = omega arith in
      let after : suc (suc (i * 2)) + 1 ≡ suc (suc (i * 2 + 1)) = omega arith in rw (at, after) refl

  sum_amounts :
      (updates : List (ℕ × ℕ))
      → sum (range (length updates)) (amount_at (words_of updates)) ≡ total v updates
  unfolding amount_at
  sum_amounts [] = refl
  sum_amounts ((gid, amount) ∷ updates) =
      let first : amount_at (gid ∷ amount ∷ words_of updates) 0 ≡ (if gid == v then amount else 0) =
        refl in
      omega (
        arith,
        first,
        sum-shift 0 (length updates) (amount_at (gid ∷ amount ∷ words_of updates)),
        sum-ext (range (length updates)) _ _
            (λ i m. amount_at-next gid amount (words_of updates) i),
        sum_amounts updates,
      )

  owned_words :
      (updates : List (ℕ × ℕ)) (i : ℕ)
      → All (λ u. p.is_owned u.0 ≡ true) updates
      → i < length updates
      → p.is_owned (get_or (words_of updates) (i * 2) 0) ≡ true
  owned_words [] i h lt = absurd (omega arith)
  owned_words ((gid, amount) ∷ updates) zero h lt = h.0
  owned_words ((gid, amount) ∷ updates) (suc i) h lt =
      let at : suc i * 2 ≡ suc (suc (i * 2)) = omega arith in
      rw at (owned_words updates i h.1 (omega arith))

  -- Where the host finds the nodes that it owns under their ids, it takes a map of updates for
  -- such nodes back from the words of `SerializeMap`: whatever order the loop takes, the frequency
  -- of each node that the host owns is lowered, modulo 2^64, by what the map has for it.
  pub apply_updates-total :
      (sched : Schedule) (nodes : Nodes) (updates : List (ℕ × ℕ))
      → All (λ u. p.is_owned u.0 ≡ true) updates
      → (frequency_of (apply_updates p sched nodes (serialize_map updates)) + total v updates)
          % u64_mod
        ≡ frequency_of nodes % u64_mod
  unfolding apply_updates serialize_map
  apply_updates-total sched nodes [] h = omega arith
  apply_updates-total sched nodes ((gid, amount) ∷ updates) h =
      let all = (gid, amount) ∷ updates in
      let is = sched.order (range (length all)) in
      let long : ltb (8 * length (length all ∷ words_of all)) 16 ≡ false = ground arith in
      let inside = λ (i : ℕ) (m : Memᴰ i is).
        (mem-range_from_iff 0 (length all) i).0
          (Permᴰ-Memᴰ (sched.order-perm (range (length all))) m) in
      rw long (
        omega (
          arith,
          apply_all-frequency (words_of all) is nodes
              (λ i m. owned_words all i h (omega (arith, inside i m))),
          sum-perm (amount_at (words_of all)) (sched.order-perm (range (length all))),
          sum_amounts all,
        ))
