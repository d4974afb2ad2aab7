-- ===== src/Wf4/Influence/Delivery.antt =====
-- `GenerateRandomReversibleReachableSets`: where a set goes.
use graph_log_sketch.Base.{
  ℕ, suc, ◌<◌, ◌≡◌, ◌≢◌, refl, sym, ap, ◌∙◌, inl, inr, Bool, true, false, ◌&&◌, ◌||◌, some, List,
  [], ◌∷◌, arith, ◌==◌, ==_iff, ◌>>=◌, Bool-cases, length, get_or, All, get_or-set_ne,
}
use graph_log_sketch.Wf4.Network.{Ratio, Partition, Edges}
use graph_log_sketch.Wf4.Influence.{
  PartialReachableSet, is_finished, next_host, Sampling, dispatch, generate,
}
use graph_log_sketch.Wf4.Influence.Counting.{continue_set-IsContinued}
use graph_log_sketch.Wf4.Influence.Placed.{IsPlaced}
use mathlib.Core.Bool.{false≢true}

module _ (p : Partition) (own : (g : ℕ) → p.get_host_id g ≡ p.host → p.is_owned g ≡ true) where
  first_elsewhere :
      (gids : List ℕ)
      → All (λ g. p.is_owned g ≡ false) gids
      → 0 < length gids
      → p.get_host_id (get_or gids 0 0) ≢ p.host
  first_elsewhere [] foreign h = absurd (omega arith)
  first_elsewhere (g ∷ gids) foreign h = λ same. false≢true (sym foreign.0 ∙ own g same)

  next_host-elsewhere :
      (finish : Bool) (s : PartialReachableSet)
      → All (λ g. p.is_owned g ≡ false) s.frontier
      → (s.owner_host == p.host && (finish || is_finished s)) ≡ false
      → next_host p finish s ≢ p.host
  unfolding next_host
  next_host-elsewhere finish s foreign keep = elim (Bool-cases (finish || is_finished s)) [
    | inl e ↦ rw e (λ same. ground (arith, (==_iff s.owner_host p.host).1 same))
    | inr e ↦ rw e (first_elsewhere s.frontier foreign (ground arith))
  ]

  dispatch-own_box :
      (finish : Bool) (h : Sampling) (s : PartialReachableSet)
      → All (λ g. p.is_owned g ≡ false) s.frontier
      → get_or (dispatch p finish h s).remote_partial_sets p.host []
        ≡ get_or h.remote_partial_sets p.host []
  unfolding dispatch
  dispatch-own_box finish h s foreign =
      elim (Bool-cases (s.owner_host == p.host && (finish || is_finished s))) [
        | inl e ↦ rw e refl
        | inr e ↦ rw e (
            get_or-set_ne h.remote_partial_sets (next_host p finish s) p.host _ []
              (next_host-elsewhere finish s foreign e))
      ]

  module _ (edges : Edges) (rng : ℕ → ℕ → ℕ → Ratio → Bool) (n : ℕ)
      (below : (u : ℕ) → p.get_gid u < n) (placed : IsPlaced p) where
    -- In a graph whose global ids are below `n`, where the host finds the nodes that it owns under
    -- their ids and owns the nodes that are placed on it, a round of sampling returns, and it adds
    -- nothing to the list of the sets for the host itself, which the exchange does not send.
    pub generate-own_box :
        (finish : Bool) (i : ℕ) (sets : List PartialReachableSet) (h : Sampling)
        → (h' : Sampling) × (generate p edges rng n finish i sets h ≡ some h')
          × (get_or h'.remote_partial_sets p.host [] ≡ get_or h.remote_partial_sets p.host [])
    unfolding generate
    generate-own_box finish i [] h = (h, refl, refl)
    generate-own_box finish i (s ∷ sets) h =
        let (r, run, continued) =
          continue_set-IsContinued p edges (rng s.id i) n below placed finish h.nodes s in
        let moved = dispatch p finish (record h { nodes = r.0 }) r.1 in
        let (h', rest, same) = generate-own_box finish (suc i) sets moved in
        (
          h',
          ap
                (λ o. o >>= (λ r'.
                  generate p edges rng n finish (suc i) sets
                    (dispatch p finish (record h { nodes = r'.0 }) r'.1)))
                run
              ∙ rest,
          same ∙ dispatch-own_box finish (record h { nodes = r.0 }) r.1 continued.foreign,
        )
