-- ===== src/Wf4/Influence/Counting.antt =====
-- `ContinueRandomReversibleReachableSet`: the frequencies that it counts.
use graph_log_sketch.Base.{
  ℕ, zero, suc, ◌+◌, ◌%◌, ◌≤◌, ◌<◌, ◌≡◌, refl, sym, ap, subst, ◌∙◌, inl, inr, Bool, true, false,
  some, List, [], ◌∷◌, foldl, arith, Bool-cases, List-cases, length, All,
}
use graph_log_sketch.Base.Sums.{count}
use graph_log_sketch.Base.Sets.{erase, count-snoc, count-erase_ne, missing, missing-le}
use graph_log_sketch.Graph.{u64_mod}
use graph_log_sketch.Wf4.Network.{Ratio, Arc, Partition, Nodes, Edges, update}
use graph_log_sketch.Wf4.Influence.{
  PartialReachableSet, Traversal, add_visit, split_frontier, follow_edge, visit_node, walk,
  finish_walk, continue_set,
}
use graph_log_sketch.Wf4.Influence.Ends.{
  Sides, splits-Sides, visit_node-Sides, walk_empty, walk_step, walk_stuck, walk-ends, walk-Sides,
  splits-length,
}
use mathlib.Core.Option
use mathlib.Core.Option.{some-injective, none-ne-some}
use graph_log_sketch.Wf4.Influence.Placed.{owned_apart, IsPlaced, same_place}

-- A node that is not owned is another one than a node that is.
module _ (p : Partition) (edges : Edges) (hits : ℕ → Ratio → Bool) (v : ℕ)
    (mine : p.is_owned v ≡ true) where
  splits-count :
      (fs : List ℕ) (w : Traversal)
      → ((foldl (split_frontier p edges hits) w fs).nodes ≡ w.nodes)
        × ((foldl (split_frontier p edges hits) w fs).reached ≡ w.reached)
        × (count v (foldl (split_frontier p edges hits) w fs).local_frontier
            ≡ count v w.local_frontier + count v fs)
  unfolding split_frontier
  splits-count [] w = (refl, refl, omega arith)
  splits-count (gid ∷ fs) w = elim (Bool-cases (p.is_owned gid)) [
    | inl e ↦
        let (a, b, c) = splits-count fs (split_frontier p edges hits w gid) in
        (a ∙ rw e refl, b ∙ rw e refl, ground (arith, c, count-snoc v gid w.local_frontier))
    | inr e ↦
        let (a, b, c) = splits-count fs (split_frontier p edges hits w gid) in
        (a ∙ rw e refl, b ∙ rw e refl, ground (arith, c, owned_apart p v gid mine e))
  ]

  -- What was counted for the node, with its places in the queue, beside the places where it was
  -- reached.
  abbrev IsBalanced : ℕ → ℕ → Traversal → Type 0
  IsBalanced k b w =
      ((w.nodes (p.get_lid v)).frequency + count v w.local_frontier + k) % u64_mod
      ≡ (b + count v w.reached) % u64_mod

  follow_edge-IsBalanced :
      (k b : ℕ) (w : Traversal) (arc : Arc)
      → IsBalanced k b w
      → IsBalanced k b (follow_edge p edges hits w arc)
  unfolding follow_edge
  follow_edge-IsBalanced k b w arc h =
      let gid = p.get_gid arc.dst_node in
      elim (Bool-cases (p.is_owned gid)) [
        | inl e ↦ ground (arith, count-snoc v gid w.local_frontier, count-snoc v gid w.reached)
        | inr e ↦ ground (arith, owned_apart p v gid mine e, count-snoc v gid w.reached)
      ]

  follows-IsBalanced :
      (k b : ℕ) (arcs : List Arc) (w : Traversal)
      → IsBalanced k b w
      → IsBalanced k b (foldl (follow_edge p edges hits) w arcs)
  follows-IsBalanced k b [] w h = h
  follows-IsBalanced k b (arc ∷ arcs) w h =
      follows-IsBalanced k b arcs _ (follow_edge-IsBalanced k b w arc h)

  module _ (placed : IsPlaced p) where
    stays : (k b : ℕ) (w t : Traversal) → some w ≡ some t → IsBalanced k b w → IsBalanced k b t
    stays k b w t same h = subst (IsBalanced k b) (some-injective _ _ same) h

    visit_node-IsBalanced :
        (finish : Bool) (k b gid : ℕ) (rest : List ℕ) (w : Traversal)
        → w.local_frontier ≡ gid ∷ rest
        → p.is_owned gid ≡ true
        → IsBalanced k b w
        → IsBalanced k b (visit_node p edges hits finish gid rest w)
    unfolding visit_node
    visit_node-IsBalanced finish k b gid rest w e owned h =
        let counted : Traversal = record w {
          nodes = update w.nodes (p.get_lid gid) add_visit;
          local_frontier = rest;
        } in
        let balanced : IsBalanced k b counted =
          ground (arith, same_place p v gid mine placed owned, ap (count v) e) in
        elim (Bool-cases finish) [
          | inl f ↦ rw f balanced
          | inr f ↦ rw f (follows-IsBalanced k b (edges (p.get_lid gid)) counted balanced)
        ]

    walk-IsBalanced :
        (finish : Bool) (fuel k b : ℕ) (w t : Traversal)
        → walk p edges hits finish fuel w ≡ some t
        → Sides p edges hits w
        → IsBalanced k b w
        → IsBalanced k b t
    unfolding walk
    walk-IsBalanced finish zero k b w t run s h = elim (List-cases w.local_frontier) [
      | inl e ↦ stays k b w t (sym (walk_empty p edges hits finish zero w e) ∙ run) h
      | inr (gid, rest, e) ↦
          absurd (none-ne-some _ (sym (walk_stuck p edges hits finish gid rest w e) ∙ run))
    ]
    walk-IsBalanced finish (suc fuel) k b w t run s h = elim (List-cases w.local_frontier) [
      | inl e ↦ stays k b w t (sym (walk_empty p edges hits finish (suc fuel) w e) ∙ run) h
      | inr (gid, rest, e) ↦
          walk-IsBalanced finish fuel k b (visit_node p edges hits finish gid rest w) t
            (sym (walk_step p edges hits finish fuel gid rest w e) ∙ run)
            (visit_node-Sides p edges hits finish gid rest w e s)
            (visit_node-IsBalanced finish k b gid rest w e
              (subst (All (λ g. p.is_owned g ≡ true)) e s.mine).0 h)
    ]

-- What one host's walk does to a set and to the node data.
pub record IsContinued (p : Partition) (finish : Bool) (nodes nodes' : Nodes)
    (s s' : PartialReachableSet) : Type 0 where
  pub same_id : s'.id ≡ s.id
  pub same_owner : s'.owner_host ≡ s.owner_host
  pub foreign : All (λ g. p.is_owned g ≡ false) s'.frontier
  pub finished : finish ≡ true → s'.frontier ≡ []
  pub counted :
      (v : ℕ)
      → p.is_owned v ≡ true
      → ((nodes' (p.get_lid v)).frequency + count v s.partial_reachable_set) % u64_mod
        ≡ ((nodes (p.get_lid v)).frequency + count v s.frontier + count v s'.partial_reachable_set)
          % u64_mod

erases-count :
    (p : Partition) (v : ℕ)
    → p.is_owned v ≡ true
    → (gids xs : List ℕ) → All (λ g. p.is_owned g ≡ false) gids
    → count v (foldl (λ ys gid. erase gid ys) xs gids) ≡ count v xs
erases-count p v mine [] xs h = refl
erases-count p v mine (gid ∷ gids) xs h =
    erases-count p v mine gids (erase gid xs) h.1
    ∙ count-erase_ne v gid xs (owned_apart p v gid mine h.0)

module _ (p : Partition) (edges : Edges) (hits : ℕ → Ratio → Bool) (n : ℕ)
    (below : (u : ℕ) → p.get_gid u < n) (placed : IsPlaced p) (finish : Bool) (nodes : Nodes)
    (s : PartialReachableSet) where
  abbrev start : Traversal
  start = record {
    nodes = nodes;
    reached = s.partial_reachable_set;
    local_frontier = [];
    remote_frontier = [];
    draws = 0;
  }

  abbrev begun : Traversal
  begun = foldl (split_frontier p edges hits) start s.frontier

  begun-Sides : Sides p edges hits begun
  begun-Sides = splits-Sides p edges hits s.frontier start (record { mine = tt; foreign = tt })

  finish_walk-foreign :
      (t : Traversal)
      → Sides p edges hits t
      → All (λ g. p.is_owned g ≡ false) (finish_walk p edges hits finish s t).frontier
  unfolding finish_walk
  finish_walk-foreign t h = elim (Bool-cases finish) [ inl f ↦ rw f tt | inr f ↦ rw f h.foreign ]

  finish_walk-count :
      (t : Traversal) (v : ℕ)
      → p.is_owned v ≡ true
      → Sides p edges hits t
      → count v (finish_walk p edges hits finish s t).partial_reachable_set ≡ count v t.reached
  unfolding finish_walk
  finish_walk-count t v mine h = elim (Bool-cases finish) [
    | inl f ↦ rw f (erases-count p v mine t.remote_frontier t.reached h.foreign)
    | inr f ↦ rw f refl
  ]

  begun-IsBalanced :
      (v : ℕ) (mine : p.is_owned v ≡ true)
      → IsBalanced p edges hits v mine
          (count v s.partial_reachable_set)
          ((nodes (p.get_lid v)).frequency + count v s.frontier)
          begun
  begun-IsBalanced v mine =
      let (same, reached, queue) = splits-count p edges hits v mine s.frontier start in
      omega (arith, queue, ap (count v) reached, ap (λ f. (f (p.get_lid v)).frequency) same)

  -- The walk of a set returns, in a graph whose global ids are below `n`, where the host finds the
  -- nodes that it owns under their ids. It keeps the id and the owner of the set. All that is left
  -- on the frontier is owned by other hosts, and nothing is left when the walk is cut off. The
  -- frequency of each node that the host owns grows, modulo 2^64, by the number of its places on
  -- the old frontier and its new places in the set.
  pub continue_set-IsContinued :
      (r : Nodes × PartialReachableSet) × (continue_set p edges hits n finish nodes s ≡ some r)
      × IsContinued p finish nodes r.0 s r.1
  unfolding continue_set finish_walk
  continue_set-IsContinued =
      let (reached, queue) = splits-length p edges hits s.frontier start in
      let enough : missing n begun.reached + length begun.local_frontier ≤ n + length s.frontier =
        omega (arith, missing-le n begun.reached, queue) in
      let (t, run) = walk-ends p edges hits n below finish (n + length s.frontier) begun enough in
      (
        (t.nodes, finish_walk p edges hits finish s t),
        ap (Option.map (λ w. (w.nodes, finish_walk p edges hits finish s w))) run,
        record {
          same_id = elim (Bool-cases finish) [ inl f ↦ rw f refl | inr f ↦ rw f refl ];
          same_owner = elim (Bool-cases finish) [ inl f ↦ rw f refl | inr f ↦ rw f refl ];
          foreign =
              finish_walk-foreign t (walk-Sides p edges hits finish _ begun t run begun-Sides).0;
          finished = λ f. rw f refl;
          counted = λ v mine.
              let (at_end, empty) = walk-Sides p edges hits finish _ begun t run begun-Sides in
              let balanced =
                walk-IsBalanced p edges hits v mine placed finish _ _ _ begun t run begun-Sides
                  (begun-IsBalanced v mine) in
              omega (arith, balanced, ap (count v) empty, finish_walk-count t v mine at_end);
        },
      )
