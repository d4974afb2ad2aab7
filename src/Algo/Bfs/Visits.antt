-- ===== src/Algo/Bfs/Visits.antt =====
-- `SSSP_BFS::compute` of include/scea/algo/bfs.hpp: the visit of a vertex.
use graph_log_sketch.Base.{
  ℕ, suc, ◌≤◌, ◌<◌, ◌≡◌, ◌≢◌, refl, sym, ap, subst, ◌∙◌, ◌⊎◌, inl, inr, ⊎_elim, ◌↔◌, List, [], ◌∷◌,
  foldl, Memᴰ, arith, ◌==◌, ==_iff, Bool-cases, eq-cases, le_or_lt, length, set, length-set,
  Memᴰ-cons, get_or-set_self, get_or-set_ne,
}
use graph_log_sketch.Graph.{MutableGraph}
use graph_log_sketch.Graph.Walk.{Walk, step, IsDistance, IsClosed}
use graph_log_sketch.Algo.Bfs.{unvisited, Search, distance, push_neighbor, visit}
use mathlib.Core.List.Memᴰ

-- The bag after the callbacks holds what it held and the neighbors that are not yet visited.
mem-push :
    (sp next : List ℕ) (n w : ℕ)
    → Memᴰ w (push_neighbor sp next n) ↔ (Memᴰ w next ⊎ ((w ≡ n) × (distance sp n ≡ unvisited)))
unfolding push_neighbor
mem-push sp next n w = elim (Bool-cases (distance sp n == unvisited)) [
  | inl e ↦
      rw (e, push_neighbor)
        (
          λ m.
              ⊎_elim inl (λ one. inr (Memᴰ.eq_of_singleton one, (==_iff _ _).0 e))
                (Memᴰ.append_cases next m),
          ⊎_elim (Memᴰ.append_left (n ∷ [])) (λ (same, _). Memᴰ.append_right next (Memᴰ.head same)),
        )
  | inr e ↦ rw (e, push_neighbor) (inl, ⊎_elim (λ m. m) (λ (_, new). ground arith))
]

mem-pushes :
    (sp next : List ℕ) (ns : List ℕ) (w : ℕ)
    → Memᴰ w (foldl (push_neighbor sp) next ns)
      ↔ (Memᴰ w next ⊎ (Memᴰ w ns × (distance sp w ≡ unvisited)))
mem-pushes sp next [] w = (inl, ⊎_elim (λ m. m) (λ (none_left, _). absurd (Memᴰ.not-nil none_left)))
mem-pushes sp next (n ∷ ns) w =
    ground
      (arith, mem-pushes sp (push_neighbor sp next n) ns w, mem-push sp next n w, Memᴰ-cons w n ns)

module _ {S : Type 0} (G : MutableGraph S) (g : S) (src : ℕ) (inside : IsClosed G g) where
  -- In a round of `level` with the vertices `rest` of its bag still to be visited.
  pub record Inv (level : ℕ) (rest : List ℕ) (s : Search) : Type 0 where
    pub sized : length s.shortest_path ≡ G.size g
    pub known :
        (v : ℕ)
        → distance s.shortest_path v ≢ unvisited
        → (distance s.shortest_path v ≤ level) × IsDistance G g src v (distance s.shortest_path v)
    pub waiting : (v : ℕ) → Memᴰ v rest → Walk G g src level v × (v < G.size g)
    pub todo :
        (v k : ℕ)
        → distance s.shortest_path v ≡ unvisited
        → k ≤ level
        → Walk G g src k v
        → (k ≡ level) × Memᴰ v rest
    pub queued : (v : ℕ) → Memᴰ v s.next_st → Walk G g src (suc level) v × (v < G.size g)
    pub closed :
        (u v : ℕ)
        → distance s.shortest_path u ≡ level
        → Memᴰ v (G.neighbors g u)
        → (distance s.shortest_path v ≢ unvisited) ⊎ Memᴰ v s.next_st

  -- A vertex that has its distance is passed over.
  Inv-skip :
      (level v : ℕ) (rest : List ℕ) (s : Search)
      → distance s.shortest_path v ≢ unvisited
      → Inv level (v ∷ rest) s
      → Inv level rest s
  Inv-skip level v rest s old h = record {
    sized = h.sized;
    known = h.known;
    waiting = λ w m. h.waiting w (Memᴰ.tail m);
    todo = λ w k e p walk.
        let (same, m) = h.todo w k e p walk in
        (
          same,
          ⊎_elim (λ (eq : w ≡ v). absurd (old (ap (distance s.shortest_path) (sym eq) ∙ e)))
              (λ m'. m') (Memᴰ.cases_cons m),
        );
    queued = h.queued;
    closed = h.closed;
  }

  module _ (level v : ℕ) (rest : List ℕ) (s : Search) (small : level ≢ unvisited)
      (new : distance s.shortest_path v ≡ unvisited) (h : Inv level (v ∷ rest) s) where
    abbrev sp' : List ℕ
    sp' = set s.shortest_path v level

    first : Walk G g src level v × (v < G.size g)
    first = h.waiting v (Memᴰ.head refl)

    least : (k : ℕ) → Walk G g src k v → level ≤ k
    least k walk = elim (le_or_lt level k) [
      | inl le ↦ le
      | inr lt ↦ absurd (omega (arith, (h.todo v k new (omega arith) walk).0))
    ]

    distance-cases :
        (w : ℕ)
        → ((w ≡ v) × (distance sp' w ≡ level))
          ⊎ ((w ≢ v) × (distance sp' w ≡ distance s.shortest_path w))
    distance-cases w = elim (eq-cases v w) [
      | inl e ↦ inl (
        sym e,
        subst (λ x. distance sp' x ≡ level) e
            (get_or-set_self s.shortest_path v level unvisited (omega (arith, h.sized, first.1))),
      )
      | inr e ↦ inr (λ p. e (sym p), get_or-set_ne s.shortest_path v w level unvisited e)
    ]

    pushes :
        (w : ℕ)
        → Memᴰ w (foldl (push_neighbor sp') s.next_st (G.neighbors g v))
          ↔ (Memᴰ w s.next_st ⊎ (Memᴰ w (G.neighbors g v) × (distance sp' w ≡ unvisited)))
    pushes = mem-pushes sp' s.next_st (G.neighbors g v)

    closed_at :
        (u w : ℕ)
        → distance sp' u ≡ level
        → Memᴰ w (G.neighbors g u)
        → distance sp' w ≡ unvisited
        → Memᴰ w (foldl (push_neighbor sp') s.next_st (G.neighbors g v))
    closed_at u w e m un = elim (distance-cases u) [
      | inl (same, _) ↦ (pushes w).1 (inr (subst (λ x. Memᴰ w (G.neighbors g x)) same m, un))
      | inr (_, d) ↦ (pushes w).1 (
          inl (
            ⊎_elim
              (λ seen. absurd (
                ⊎_elim (λ (_, d'). small (sym d' ∙ un)) (λ (_, d'). seen (sym d' ∙ un))
                  (distance-cases w)))
              (λ m'. m') (h.closed u w (sym d ∙ e) m)))
    ]

    -- A new vertex is given the level, and its neighbors without a distance join the bag.
    Inv-set : Inv level rest (record {
      shortest_path = sp';
      next_st = foldl (push_neighbor sp') s.next_st (G.neighbors g v);
    })
    Inv-set = record {
      sized = length-set s.shortest_path v level ∙ h.sized;
      known = λ w e. elim (distance-cases w) [
        | inl (same, d) ↦ rw d (
            subst (λ x. (level ≤ level) × IsDistance G g src x level) (sym same)
              (omega arith, (first.0, least)))
        | inr (_, d) ↦ rw d (h.known w (λ q. e (d ∙ q)))
      ];
      waiting = λ w m. h.waiting w (Memᴰ.tail m);
      todo = λ w k e p walk. elim (distance-cases w) [
        | inl (_, d) ↦ absurd (small (sym d ∙ e))
        | inr (ne, d) ↦
            let (same, m) = h.todo w k (sym d ∙ e) p walk in
            (same, ⊎_elim (λ q. absurd (ne q)) (λ m'. m') (Memᴰ.cases_cons m))
      ];
      queued =
          λ w m. ⊎_elim (h.queued w) (λ (m', _). (step first.0 m', inside v w m')) ((pushes w).0 m);
      closed = λ u w e m. elim (eq-cases (distance sp' w) unvisited) [
        | inl un ↦ inr (closed_at u w e m un)
        | inr seen ↦ inl seen
      ];
    }

  pub visit-Inv :
      (level v : ℕ) (rest : List ℕ) (s : Search)
      → level ≢ unvisited
      → Inv level (v ∷ rest) s
      → Inv level rest (visit G g level s v)
  unfolding visit
  visit-Inv level v rest s small h = elim (Bool-cases (distance s.shortest_path v == unvisited)) [
    | inl e ↦ rw (e, visit) (Inv-set level v rest s small ((==_iff _ _).0 e) h)
    | inr e ↦ rw (e, visit) (Inv-skip level v rest s (ground arith) h)
  ]
