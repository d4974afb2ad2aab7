-- ===== src/Wf4/Influence/Ends.antt =====
-- `ContinueRandomReversibleReachableSet`: the end of its loop, and the frontier that it leaves.
use graph_log_sketch.Base.{
  ℕ, zero, suc, ◌+◌, ◌≤◌, ◌<◌, ◌≡◌, refl, sym, ap, subst, ◌∙◌, inl, inr, Bool, true, false, none,
  some, List, [], ◌∷◌, ◌++◌, foldl, arith, Bool-cases, List-cases, length, All, length-append,
}
use graph_log_sketch.Base.Sets.{contains, insert_new, missing, missing-snoc}
use graph_log_sketch.Wf4.Network.{Ratio, Arc, Partition, Edges, update}
use graph_log_sketch.Wf4.Influence.{
  Traversal, add_visit, split_frontier, follow_edge, visit_node, walk,
}
use mathlib.Core.Option.{some-injective, none-ne-some}

All-snoc : (P : ℕ → Type 0) (xs : List ℕ) (a : ℕ) → All P xs → P a → All P (xs ++ a ∷ [])
All-snoc P [] a h q = (q, tt)
All-snoc P (x ∷ xs) a h q = (h.0, All-snoc P xs a h.1 q)

All-insert_new : (P : ℕ → Type 0) (xs : List ℕ) (a : ℕ) → All P xs → P a → All P (insert_new a xs)
All-insert_new P xs a h q = elim (Bool-cases (contains a xs)) [
  | inl e ↦ rw e h
  | inr e ↦ rw e (All-snoc P xs a h q)
]

module _ (p : Partition) (edges : Edges) (hits : ℕ → Ratio → Bool) where
  -- The queue has owned nodes, and the remote frontier has none.
  pub record Sides (w : Traversal) : Type 0 where
    pub mine : All (λ g. p.is_owned g ≡ true) w.local_frontier
    pub foreign : All (λ g. p.is_owned g ≡ false) w.remote_frontier

  split_frontier-Sides :
      (w : Traversal) (gid : ℕ) → Sides w → Sides (split_frontier p edges hits w gid)
  unfolding split_frontier
  split_frontier-Sides w gid h = elim (Bool-cases (p.is_owned gid)) [
    | inl e ↦ rw e (record { mine = All-snoc _ w.local_frontier gid h.mine e; foreign = h.foreign })
    | inr e ↦
        rw e
          (record { mine = h.mine; foreign = All-insert_new _ w.remote_frontier gid h.foreign e })
  ]

  pub splits-Sides :
      (fs : List ℕ) (w : Traversal) → Sides w → Sides (foldl (split_frontier p edges hits) w fs)
  splits-Sides [] w h = h
  splits-Sides (gid ∷ fs) w h = splits-Sides fs _ (split_frontier-Sides w gid h)

  pub splits-length :
      (fs : List ℕ) (w : Traversal)
      → ((foldl (split_frontier p edges hits) w fs).reached ≡ w.reached)
        × (length (foldl (split_frontier p edges hits) w fs).local_frontier
            ≤ length w.local_frontier + length fs)
  unfolding split_frontier
  splits-length [] w = (refl, omega arith)
  splits-length (gid ∷ fs) w = elim (Bool-cases (p.is_owned gid)) [
    | inl e ↦
        let (b, d) = splits-length fs (split_frontier p edges hits w gid) in
        (b ∙ rw e refl, ground (arith, d, length-append w.local_frontier (gid ∷ [])))
    | inr e ↦
        let (b, d) = splits-length fs (split_frontier p edges hits w gid) in
        (b ∙ rw e refl, ground (arith, d))
  ]

  follow_edge-Sides : (w : Traversal) (arc : Arc) → Sides w → Sides (follow_edge p edges hits w arc)
  unfolding follow_edge
  follow_edge-Sides w arc h = elim (Bool-cases (hits w.draws arc.edge_data.weight)) [
    | inr e ↦ rw e (record { mine = h.mine; foreign = h.foreign })
    | inl e ↦ rw e (elim (Bool-cases (contains (p.get_gid arc.dst_node) w.reached)) [
      | inl e' ↦ rw e' (record { mine = h.mine; foreign = h.foreign })
      | inr e' ↦ rw e' (elim (Bool-cases (p.is_owned (p.get_gid arc.dst_node))) [
        | inl e'' ↦
            rw e'' (record { mine = All-snoc _ w.local_frontier _ h.mine e''; foreign = h.foreign })
        | inr e'' ↦
            rw e'' (record {
              mine = h.mine;
              foreign = All-insert_new _ w.remote_frontier _ h.foreign e'';
            })
      ])
    ])
  ]

  follows-Sides :
      (arcs : List Arc) (w : Traversal) → Sides w → Sides (foldl (follow_edge p edges hits) w arcs)
  follows-Sides [] w h = h
  follows-Sides (arc ∷ arcs) w h = follows-Sides arcs _ (follow_edge-Sides w arc h)

  pub visit_node-Sides :
      (finish : Bool) (gid : ℕ) (rest : List ℕ) (w : Traversal)
      → w.local_frontier ≡ gid ∷ rest
      → Sides w
      → Sides (visit_node p edges hits finish gid rest w)
  unfolding visit_node
  visit_node-Sides finish gid rest w e h =
      let mine = subst (All (λ g. p.is_owned g ≡ true)) e h.mine in
      elim (Bool-cases finish) [
        | inl f ↦ rw f (record { mine = mine.1; foreign = h.foreign })
        | inr f ↦ rw f (
            follows-Sides (edges (p.get_lid gid)) _ (record { mine = mine.1; foreign = h.foreign }))
      ]

  pub walk_empty :
      (finish : Bool) (fuel : ℕ) (w : Traversal)
      → w.local_frontier ≡ []
      → walk p edges hits finish fuel w ≡ some w
  unfolding walk
  walk_empty finish zero w e = simp (e, walk)
  walk_empty finish (suc fuel) w e = simp (e, walk)

  pub walk_step :
      (finish : Bool) (fuel gid : ℕ) (rest : List ℕ) (w : Traversal)
      → w.local_frontier ≡ gid ∷ rest
      → walk p edges hits finish (suc fuel) w
        ≡ walk p edges hits finish fuel (visit_node p edges hits finish gid rest w)
  unfolding walk
  walk_step finish fuel gid rest w e = simp (e, walk)

  pub walk_stuck :
      (finish : Bool) (gid : ℕ) (rest : List ℕ) (w : Traversal)
      → w.local_frontier ≡ gid ∷ rest
      → walk p edges hits finish 0 w ≡ none
  unfolding walk
  walk_stuck finish gid rest w e = simp (e, walk)

  -- Nodes that are not yet reached, and nodes in the queue.
  module _ (n : ℕ) (below : (u : ℕ) → p.get_gid u < n) where
    abbrev pub work : Traversal → ℕ
    work w = missing n w.reached + length w.local_frontier

    follow_edge-work : (w : Traversal) (arc : Arc) → work (follow_edge p edges hits w arc) ≤ work w
    unfolding follow_edge
    follow_edge-work w arc =
        let gid = p.get_gid arc.dst_node in
        ground (
          arith,
          missing-snoc n gid w.reached (below arc.dst_node),
          length-append w.local_frontier (gid ∷ []),
        )

    follows-work :
        (arcs : List Arc) (w : Traversal) → work (foldl (follow_edge p edges hits) w arcs) ≤ work w
    follows-work [] w = omega arith
    follows-work (arc ∷ arcs) w =
        omega (arith, follow_edge-work w arc, follows-work arcs (follow_edge p edges hits w arc))

    visit_node-work :
        (finish : Bool) (gid : ℕ) (rest : List ℕ) (w : Traversal)
        → w.local_frontier ≡ gid ∷ rest
        → work (visit_node p edges hits finish gid rest w) < work w
    unfolding visit_node
    visit_node-work finish gid rest w e =
        let counted : Traversal = record w {
          nodes = update w.nodes (p.get_lid gid) add_visit;
          local_frontier = rest;
        } in
        let one_less : length w.local_frontier ≡ suc (length rest) = ap length e in
        elim (Bool-cases finish) [
          | inl f ↦ rw f (omega arith)
          | inr f ↦ rw f (omega (arith, follows-work (edges (p.get_lid gid)) counted))
        ]

    -- The walk ends.
    pub walk-ends :
        (finish : Bool) (fuel : ℕ) (w : Traversal)
        → work w ≤ fuel
        → (t : Traversal) × (walk p edges hits finish fuel w ≡ some t)
    walk-ends finish zero w enough = elim (List-cases w.local_frontier) [
      | inl e ↦ (w, walk_empty _ _ w e)
      | inr (gid, rest, e) ↦ absurd (omega (arith, ap length e))
    ]
    walk-ends finish (suc fuel) w enough = elim (List-cases w.local_frontier) [
      | inl e ↦ (w, walk_empty _ _ w e)
      | inr (gid, rest, e) ↦
          let (t, run) =
            walk-ends finish fuel (visit_node p edges hits finish gid rest w)
              (omega (arith, visit_node-work finish gid rest w e)) in
          (t, walk_step finish fuel gid rest w e ∙ run)
    ]

  stays-Sides :
      (w t : Traversal)
      → w.local_frontier ≡ []
      → some w ≡ some t
      → Sides w
      → Sides t × (t.local_frontier ≡ [])
  stays-Sides w t e same s =
      subst (λ u. Sides u × (u.local_frontier ≡ [])) (some-injective _ _ same) (s, e)

  -- What holds when the walk has ended.
  pub walk-Sides :
      (finish : Bool) (fuel : ℕ) (w t : Traversal)
      → walk p edges hits finish fuel w ≡ some t
      → Sides w
      → Sides t × (t.local_frontier ≡ [])
  walk-Sides finish zero w t run s = elim (List-cases w.local_frontier) [
    | inl e ↦ stays-Sides w t e (sym (walk_empty finish zero w e) ∙ run) s
    | inr (gid, rest, e) ↦ absurd (none-ne-some _ (sym (walk_stuck finish gid rest w e) ∙ run))
  ]
  walk-Sides finish (suc fuel) w t run s = elim (List-cases w.local_frontier) [
    | inl e ↦ stays-Sides w t e (sym (walk_empty finish (suc fuel) w e) ∙ run) s
    | inr (gid, rest, e) ↦
        walk-Sides finish fuel (visit_node p edges hits finish gid rest w) t
          (sym (walk_step finish fuel gid rest w e) ∙ run) (visit_node-Sides finish gid rest w e s)
  ]
