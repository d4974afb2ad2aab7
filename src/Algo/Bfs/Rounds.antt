-- ===== src/Algo/Bfs/Rounds.antt =====
-- `SSSP_BFS::compute` of include/scea/algo/bfs.hpp: the invariant of its rounds.
use graph_log_sketch.Base.{
  ℕ, suc, ◌≤◌, ◌<◌, ◌≡◌, ◌≢◌, sym, subst, ◌∙◌, inl, inr, ⊎_elim, List, [], ◌∷◌, foldl, Memᴰ, arith,
  eq-cases, le_or_lt, length,
}
use graph_log_sketch.Base.DoAll.{Schedule, Permᴰ-Memᴰ}
use graph_log_sketch.Graph.{MutableGraph}
use graph_log_sketch.Graph.Walk.{Walk, here, step, IsDistance, IsClosed}
use graph_log_sketch.Algo.Bfs.{unvisited, Search, distance, visit, round}
use mathlib.Core.List.Memᴰ
use mathlib.Core.List.Permᴰ
use graph_log_sketch.Algo.Bfs.Visits.{Inv, visit-Inv}

module _ {S : Type 0} (G : MutableGraph S) (g : S) (src : ℕ) (inside : IsClosed G g) where
  visits-Inv :
      (level : ℕ) (vs : List ℕ) (s : Search)
      → level ≢ unvisited
      → Inv G g src inside level vs s
      → Inv G g src inside level [] (foldl (visit G g level) s vs)
  visits-Inv level [] s small h = h
  visits-Inv level (v ∷ vs) s small h =
      visits-Inv level vs (visit G g level s v) small
        (visit-Inv G g src inside level v vs s small h)

  last-edge :
      {k v : ℕ} (level : ℕ)
      → Walk G g src k v
      → k ≡ suc level
      → (u : ℕ) × Walk G g src level u × Memᴰ v (G.neighbors g u)
  last-edge level here e = absurd (omega arith)
  last-edge level (step {k = j} {u = u} walk m) e =
      (u, subst (λ x. Walk G g src x u) (omega arith) walk, m)

  -- After a round only vertices of the new bag can be one step away.
  Inv-next :
      (level : ℕ) (t : Search)
      → Inv G g src inside level [] t
      → (v k : ℕ) → distance t.shortest_path v ≡ unvisited
      → k ≤ suc level
      → Walk G g src k v
      → (k ≡ suc level) × Memᴰ v t.next_st
  Inv-next level t done v k e p walk = elim (le_or_lt k level) [
    | inl le ↦ absurd (Memᴰ.not-nil (done.todo v k e le walk).1)
    | inr lt ↦
        let same : k ≡ suc level = omega arith in
        let (u, before, m) = last-edge level walk same in
        (
          same,
          elim (eq-cases (distance t.shortest_path u) unvisited) [
            | inl un ↦ absurd (Memᴰ.not-nil (done.todo u level un (omega arith) before).1)
            | inr seen ↦
                let (le, (shortest, _)) = done.known u seen in
                elim (eq-cases (distance t.shortest_path u) level) [
                  | inl at ↦ ⊎_elim (λ q. absurd (q e)) (λ m'. m') (done.closed u v at m)
                  | inr off ↦
                      absurd (Memᴰ.not-nil (done.todo v _ e (omega arith) (step shortest m)).1)
                ]
          ],
        )
  ]

  -- Between two rounds: the distances below `level` are known, and the bag holds the vertices at
  -- `level`, perhaps with others that have a distance.
  pub record Between (level : ℕ) (s : Search) : Type 0 where
    pub sized : length s.shortest_path ≡ G.size g
    pub known :
        (v : ℕ)
        → distance s.shortest_path v ≢ unvisited
        → (distance s.shortest_path v < level) × IsDistance G g src v (distance s.shortest_path v)
    pub waiting : (v : ℕ) → Memᴰ v s.next_st → Walk G g src level v × (v < G.size g)
    pub todo :
        (v k : ℕ)
        → distance s.shortest_path v ≡ unvisited
        → k ≤ level
        → Walk G g src k v
        → (k ≡ level) × Memᴰ v s.next_st

  pub round-Between :
      (sched : Schedule) (level : ℕ) (s : Search)
      → level ≢ unvisited
      → Between level s
      → Between (suc level) (round G g sched level s)
  unfolding round
  round-Between sched level s small b = record {
    sized = done.sized;
    known = λ v e. let (le, d) = done.known v e in (omega arith, d);
    waiting = done.queued;
    todo = Inv-next level _ done;
  }
    where
      started :
          Inv G g src inside level
            (sched.order s.next_st)
            (record { shortest_path = s.shortest_path; next_st = [] })
      started = record {
        sized = b.sized;
        known = λ v e. let (lt, d) = b.known v e in (omega arith, d);
        waiting = λ v m. b.waiting v (Permᴰ-Memᴰ (sched.order-perm s.next_st) m);
        todo = λ v k e p walk.
            let (same, m) = b.todo v k e p walk in
            (same, Permᴰ-Memᴰ (Permᴰ.symm (sched.order-perm s.next_st)) m);
        queued = λ v m. absurd (Memᴰ.not-nil m);
        closed = λ u v e m. absurd (omega (arith, (b.known u (λ q. small (sym e ∙ q))).0));
      }

      done : Inv G g src inside level [] (
          foldl
            (visit G g level)
            (record { shortest_path = s.shortest_path; next_st = [] })
            (sched.order s.next_st))
      done = visits-Inv level (sched.order s.next_st) _ small started
