-- ===== src/Algo/Bfs/Correct.antt =====
-- `SSSP_BFS::compute` of include/scea/algo/bfs.hpp: its end, and its result.
use graph_log_sketch.Base.{
  ℕ, zero, suc, ◌+◌, ◌%◌, ◌≤◌, ◌<◌, ◌≡◌, ◌≢◌, refl, sym, subst, ◌∙◌, ◌⊎◌, inl, inr, ⊎_elim, some,
  List, [], ◌∷◌, foldl, Memᴰ, arith, lt→ltb, ◌==◌, ==_iff, if◌then◌else◌, Bool-cases, List-cases,
  length, set, replicate, length-set, length-replicate, get_or-replicate,
}
use graph_log_sketch.Base.DoAll.{Schedule, Permᴰ-Memᴰ}
use graph_log_sketch.Graph.{MutableGraph, u64_mod}
use graph_log_sketch.Graph.Walk.{Walk, here, step, IsDistance, IsClosed}
use graph_log_sketch.Algo.Bfs.{unvisited, Search, distance, visit, round, loop, compute}
use graph_log_sketch.Algo.Bfs.Rounds.{Between, round-Between}
use mathlib.Core.List.Memᴰ

-- The vertices without a distance.
abbrev unseen : List ℕ → ℕ
unseen [] = 0
unseen (d ∷ sp) = if d == unvisited then suc (unseen sp) else unseen sp

unseen-set :
    (sp : List ℕ) (v level : ℕ)
    → level ≢ unvisited
    → v < length sp
    → distance sp v ≡ unvisited
    → suc (unseen (set sp v level)) ≡ unseen sp
unseen-set [] v level small h e = absurd (omega arith)
unseen-set (d ∷ sp) zero level small h e = ground arith
unseen-set (d ∷ sp) (suc v) level small h e =
    ground (arith, unseen-set sp v level small (omega arith) e)

unseen-le : (sp : List ℕ) → unseen sp ≤ length sp
unseen-le [] = omega arith
unseen-le (d ∷ sp) = ground (arith, unseen-le sp)

module _ {S : Type 0} (G : MutableGraph S) (g : S) (level : ℕ) (small : level ≢ unvisited) where
  -- A visit gives a distance to one more vertex, or changes nothing.
  visit-Progress :
      (s : Search) (v : ℕ)
      → v < length s.shortest_path
      → (length (visit G g level s v).shortest_path ≡ length s.shortest_path)
        × ((unseen (visit G g level s v).shortest_path < unseen s.shortest_path)
            ⊎ ((unseen (visit G g level s v).shortest_path ≡ unseen s.shortest_path)
                × ((visit G g level s v).next_st ≡ s.next_st)))
  unfolding visit
  visit-Progress s v h = elim (Bool-cases (distance s.shortest_path v == unvisited)) [
    | inl e ↦
        rw (e, visit)
          (
            length-set s.shortest_path v level,
            inl (omega (arith, unseen-set s.shortest_path v level small h ((==_iff _ _).0 e))),
          )
    | inr e ↦ rw (e, visit) (refl, inr (refl, refl))
  ]

  visits-Progress :
      (vs : List ℕ) (s : Search)
      → ((v : ℕ) → Memᴰ v vs → v < length s.shortest_path)
      → (unseen (foldl (visit G g level) s vs).shortest_path < unseen s.shortest_path)
        ⊎ ((unseen (foldl (visit G g level) s vs).shortest_path ≡ unseen s.shortest_path)
            × ((foldl (visit G g level) s vs).next_st ≡ s.next_st))
  visits-Progress [] s h = inr (refl, refl)
  visits-Progress (v ∷ vs) s h =
      let (same, one) = visit-Progress s v (h v (Memᴰ.head refl)) in
      let rest =
        visits-Progress vs (visit G g level s v) (λ w m. omega (arith, h w (Memᴰ.tail m))) in
      elim one [
        | inl fewer ↦ inl (elim rest [ inl p ↦ omega arith | inr p ↦ omega (arith, p.0) ])
        | inr (a, b) ↦ elim rest [ inl p ↦ inl (omega arith) | inr (c, d) ↦ inr (c ∙ a, d ∙ b) ]
      ]

module _ {S : Type 0} (G : MutableGraph S) (g : S) (src : ℕ) (inside : IsClosed G g)
    (sched : Schedule) where
  abbrev pub IsCorrect : List ℕ → Type 0
  IsCorrect sp =
      (v : ℕ)
      → ((distance sp v ≢ unvisited) → IsDistance G g src v (distance sp v))
        × ((distance sp v ≡ unvisited) → (k : ℕ) → ¬ Walk G g src k v)

  -- With an empty bag every vertex that a walk leads to has a distance.
  complete :
      (level : ℕ) (s : Search)
      → Between G g src inside level s
      → s.next_st ≡ []
      → (k v : ℕ) → Walk G g src k v
      → distance s.shortest_path v ≢ unvisited
  complete level s b empty zero v walk un =
      Memᴰ.not-nil (subst (Memᴰ v) empty (b.todo v zero un (omega arith) walk).1)
  complete level s b empty (suc k) v (step {u = u} walk m) un =
      let (lt, (shortest, _)) = b.known u (complete level s b empty k u walk) in
      Memᴰ.not-nil (subst (Memᴰ v) empty (b.todo v _ un (omega arith) (step shortest m)).1)

  ends :
      (level : ℕ) (s : Search)
      → Between G g src inside level s
      → s.next_st ≡ []
      → (length s.shortest_path ≡ G.size g) × IsCorrect s.shortest_path
  ends level s b empty = (
    b.sized,
    λ v. ((λ seen. (b.known v seen).1), λ un k walk. complete level s b empty k v walk un),
  )

  round-progress :
      (fuel level : ℕ) (s : Search)
      → level ≢ unvisited
      → Between G g src inside level s
      → unseen s.shortest_path < suc fuel
      → (unseen (round G g sched level s).shortest_path < fuel)
        ⊎ ((round G g sched level s).next_st ≡ [])
  unfolding round
  round-progress fuel level s small b lt =
      let s' = record s { next_st = [] } in
      let inside_all = λ (v : ℕ) (m : Memᴰ v (sched.order s.next_st)).
        b.waiting v (Permᴰ-Memᴰ (sched.order-perm s.next_st) m) in
      ⊎_elim (λ fewer. inl (omega arith)) (λ same. inr same.1)
        (visits-Progress G g level small (sched.order s.next_st) s'
          (λ v m. omega (arith, b.sized, (inside_all v m).1)))

  loop-IsCorrect :
      (fuel level : ℕ) (s : Search)
      → Between G g src inside level s
      → (unseen s.shortest_path < fuel) ⊎ (s.next_st ≡ [])
      → level + fuel ≤ unvisited
      → (sp : List ℕ) × (loop G g sched fuel level s ≡ some sp)
        × (length sp ≡ G.size g)
        × IsCorrect sp
  unfolding loop
  loop-IsCorrect zero level s b enough small =
      let empty = ⊎_elim (λ lt. absurd (omega arith)) (λ e. e) enough in
      let (sized, correct) = ends level s b empty in
      (s.shortest_path, simp (empty, loop), sized, correct)
  loop-IsCorrect (suc fuel) level s b enough small = elim (List-cases s.next_st) [
    | inl empty ↦
        let (sized, correct) = ends level s b empty in
        (s.shortest_path, simp (empty, loop), sized, correct)
    | inr (w, rest, e) ↦
        let next : (level + 1) % u64_mod ≡ suc level = omega arith in
        let (sp, run, sized, correct) =
          loop-IsCorrect fuel (suc level) (round G g sched level s)
            (round-Between G g src inside sched level s (omega arith) b)
            (round-progress fuel level s (omega arith) b
              (⊎_elim (λ lt. lt) (λ empty. absurd (cc)) enough))
            (omega arith) in
        (sp, ground arith, sized, correct)
  ]

  Walk-zero : {k v : ℕ} → Walk G g src k v → k ≡ 0 → v ≡ src
  Walk-zero here e = refl
  Walk-zero (step walk m) e = absurd (omega arith)

  start-Between :
      src < G.size g
      → Between G g src inside 0
          (record { shortest_path = replicate (G.size g) unvisited; next_st = src ∷ [] })
  start-Between h = record {
    sized = length-replicate (G.size g) unvisited;
    known = λ v seen. absurd (seen (get_or-replicate (G.size g) unvisited v));
    waiting = λ v m.
        let same = Memᴰ.eq_of_singleton m in
        (subst (Walk G g src 0) (sym same) here, subst (λ x. x < G.size g) (sym same) h);
    todo = λ v k un le walk.
        let zero_edges : k ≡ 0 = omega arith in (zero_edges, Memᴰ.head (Walk-zero walk zero_edges));
  }

  -- From a source in a graph that no edge leaves, of fewer than 2^64 - 1 vertices, the search
  -- returns an array with a cell for each vertex, whatever order the parallel loops take. A cell
  -- that is set holds the length of a shortest walk from the source, and to a vertex whose cell is
  -- still UNVISITED no walk leads.
  pub compute-IsCorrect :
      src < G.size g
      → G.size g < unvisited
      → (sp : List ℕ) × (compute G g sched src ≡ some sp) × (length sp ≡ G.size g) × IsCorrect sp
  unfolding compute
  compute-IsCorrect h small =
      let blank = replicate (G.size g) unvisited in
      rw (lt→ltb src (G.size g) h) (
        loop-IsCorrect (G.size g + 1) 0 (record { shortest_path = blank; next_st = src ∷ [] })
          (start-Between h)
          (inl (omega (arith, unseen-le blank, length-replicate (G.size g) unvisited)))
          (omega arith))
