-- ===== src/Algo/Bc/Edges.antt =====
-- `BetweennessCentrality::levelSSSP` of include/scea/algo/bc.hpp: the edges of one level.
use graph_log_sketch.Base.{
  ℕ, ◌+◌, ◌*◌, ◌%◌, ◌<◌, ◌≡◌, ◌≢◌, refl, sym, subst, ◌∙◌, ◌⊎◌, inl, inr, true, false, List, [], ◌∷◌,
  ◌++◌, foldl, Memᴰ, arith, ◌==◌, ==_iff, if◌then◌else◌, eq-cases, Bool-cases, length, get_or, set,
  length-set, get_or-set_self, get_or-set_ne,
}
use graph_log_sketch.Base.Sums.{sum, count}
use graph_log_sketch.Base.Sets.{count-snoc}
use graph_log_sketch.Graph.{MutableGraph, u64_mod}
use graph_log_sketch.Algo.Bc.{infinity, Sssp, dist, paths_to, sssp_edge, sssp_vertex}

get_or-set :
    (xs : List ℕ) (i j v d : ℕ)
    → i < length xs
    → get_or (set xs i v) j d ≡ (if j == i then v else get_or xs j d)
get_or-set xs i j v d h = elim (eq-cases j i) [
  | inl e ↦ rw e (get_or-set_self xs i v d h ∙ ground arith)
  | inr ne ↦ get_or-set_ne xs i j v d (λ e. ne (sym e)) ∙ ground arith
]

count-pushed :
    (v a : ℕ) (xs : List ℕ) → count v (xs ++ a ∷ []) ≡ count v xs + (if v == a then 1 else 0)
count-pushed v a xs = count-snoc v a xs ∙ ground arith

count-cons_times :
    (v x : ℕ) (xs : List ℕ) (k : ℕ)
    → count v (x ∷ xs) * k ≡ (if v == x then k else 0) + count v xs * k
count-cons_times v x xs k = elim (Bool-cases (v == x)) [
  | inl e ↦ rw e (omega arith)
  | inr e ↦ rw e (omega arith)
]

same-cases : (v a : ℕ) → ((v ≡ a) × ((v == a) ≡ true)) ⊎ ((v == a) ≡ false)
same-cases v a = ground arith

-- One vertex, with its distance, count and place in the bag before the level, `old_d`, `old_c`
-- and none, and now, after `hits` edges to it that end `paths` walks.
abbrev pub Cell : ℕ → ℕ → ℕ → ℕ → ℕ → ℕ → ℕ → ℕ → Type 0
Cell next old_d old_c hits paths d c m =
    (old_d ≢ infinity → (d ≡ old_d) × (c ≡ old_c) × (m ≡ 0))
    × (old_d ≡ infinity
        → (c ≡ paths % u64_mod)
          × (hits ≡ 0 → (d ≡ infinity) × (m ≡ 0))
          × (0 < hits → (d ≡ next) × (m ≡ 1)))

module _ (next old_d old_c hits paths d c m : ℕ) (small : next ≢ infinity)
    (below : old_d ≢ infinity → old_d ≢ next) (cell : Cell next old_d old_c hits paths d c m) where
  Cell-other : (m' : ℕ) → m' ≡ m → Cell next old_d old_c (hits + 0) (paths + 0) d c m'
  Cell-other m' e = ground arith

  Cell-first :
      (k : ℕ)
      → d ≡ infinity
      → Cell next old_d old_c (hits + 1) (paths + k) next ((c + k) % u64_mod) (m + 1)
  Cell-first k e = ground arith

  Cell-again :
      (k : ℕ) → d ≡ next → Cell next old_d old_c (hits + 1) (paths + k) d ((c + k) % u64_mod) m
  Cell-again k e = ground arith

  Cell-old : (hits' paths' : ℕ) → d ≢ infinity → d ≢ next → Cell next old_d old_c hits' paths' d c m
  Cell-old hits' paths' e f = ground arith

-- The level that is being filled, and the graph's size, distances and counts before it.
module _ (next size : ℕ) (D C : ℕ → ℕ) where
  -- After edges of which `hits v` lead to `v`, with `paths v` walks along them.
  abbrev pub Inv : (ℕ → ℕ) → (ℕ → ℕ) → Sssp → Type 0
  Inv hits paths s =
      ((length s.distance ≡ size) × (length s.shortest_path_count ≡ size))
      × ((v : ℕ)
          → Cell next (D v) (C v) (hits v) (paths v) (dist s v) (paths_to s v) (count v s.worklist))

  pub Inv-ext :
      (hits hits' paths paths' : ℕ → ℕ) (s : Sssp)
      → ((v : ℕ) → hits v ≡ hits' v)
      → ((v : ℕ) → paths v ≡ paths' v)
      → Inv hits paths s
      → Inv hits' paths' s
  Inv-ext hits hits' paths paths' s e f (sized, cells) = (
    sized,
    λ v.
        subst
          (λ p. Cell next (D v) (C v) (hits' v) p (dist s v) (paths_to s v) (count v s.worklist))
          (f v)
          (subst
            (λ h. Cell next (D v) (C v) h (paths v) (dist s v) (paths_to s v) (count v s.worklist))
            (e v) (cells v)),
  )

  module _ (small : next ≢ infinity) (below : (v : ℕ) → D v ≢ infinity → D v ≢ next) where
    sssp_edge-Inv :
        (hits paths : ℕ → ℕ) (u dest : ℕ) (s : Sssp)
        → dest < size
        → D u ≢ infinity
        → Inv hits paths s
        → Inv
            (λ v. hits v + (if v == dest then 1 else 0))
            (λ v. paths v + (if v == dest then C u else 0))
            (sssp_edge next u s dest)
    unfolding sssp_edge
    sssp_edge-Inv hits paths u dest s inside known (sized, cells) =
        let distances =
          λ (v : ℕ). get_or-set s.distance dest v next infinity (omega (arith, sized.0)) in
        let total = (paths_to s dest + paths_to s u) % u64_mod in
        let counts =
          λ (v : ℕ). get_or-set s.shortest_path_count dest v total 0 (omega (arith, sized.1)) in
        let sized' = length-set s.shortest_path_count dest total ∙ sized.1 in
        let from_u : paths_to s u ≡ C u = ((cells u).0 known).1 in
        let first = λ (v : ℕ).
          Cell-first next (D v) (C v) (hits v) (paths v) (dist s v) (paths_to s v)
            (count v s.worklist) small (below v) (cells v) (C u) in
        let again = λ (v : ℕ).
          Cell-again next (D v) (C v) (hits v) (paths v) (dist s v) (paths_to s v)
            (count v s.worklist) small (below v) (cells v) (C u) in
        let other = λ (v : ℕ).
          Cell-other next (D v) (C v) (hits v) (paths v) (dist s v) (paths_to s v)
            (count v s.worklist) small (below v) (cells v) in
        let old = λ (v : ℕ).
          Cell-old next (D v) (C v) (hits v) (paths v) (dist s v) (paths_to s v)
            (count v s.worklist) small (below v) (cells v) in
        elim (Bool-cases (dist s dest == infinity)) [
          | inl e ↦ rw e (
            (length-set s.distance dest next ∙ sized.0, sized'),
            λ v.
                rw (distances v, counts v, count-pushed v dest s.worklist, from_u)
                  (elim (same-cases v dest) [
                    | inl (same, t) ↦ rw (t, same) (first dest ((==_iff _ _).0 e))
                    | inr f ↦ rw f (other v (count v s.worklist + 0) (omega arith))
                  ]),
          )
          | inr e ↦ elim (Bool-cases (dist s dest == next)) [
            | inl f ↦
                rw (e, f)
                  (
                    (sized.0, sized'),
                    λ v.
                        rw (counts v, from_u)
                          (elim (same-cases v dest) [
                            | inl (same, t) ↦ rw (t, same) (again dest ((==_iff _ _).0 f))
                            | inr f' ↦ rw f' (other v (count v s.worklist) refl)
                          ]),
                  )
            | inr f ↦
                rw (e, f)
                  (
                    sized,
                    λ v. elim (same-cases v dest) [
                      | inl (same, t) ↦ rw (t, same) (old dest _ _ (ground arith) (ground arith))
                      | inr f' ↦ rw f' (other v (count v s.worklist) refl)
                    ],
                  )
          ]
        ]

    sssp_edges-Inv :
        (u : ℕ) (dests : List ℕ)
        → D u ≢ infinity
        → ((v : ℕ) → Memᴰ v dests → v < size)
        → (hits paths : ℕ → ℕ) (s : Sssp) → Inv hits paths s
        → Inv
            (λ v. hits v + count v dests)
            (λ v. paths v + count v dests * C u)
            (foldl (sssp_edge next u) s dests)
    sssp_edges-Inv u [] known inside hits paths s h =
        Inv-ext hits _ paths _ s (λ v. omega arith) (λ v. omega arith) h
    sssp_edges-Inv u (dest ∷ dests) known inside hits paths s h =
        Inv-ext _ _ _ _ _ (λ v. ground arith)
          (λ v. omega (arith, count-cons_times v dest dests (C u)))
          (sssp_edges-Inv u dests known (λ v m. inside v (Memᴰ.tail m)) _ _
            (sssp_edge next u s dest)
            (sssp_edge-Inv hits paths u dest s (inside dest (Memᴰ.head refl)) known h))

    module _ {S : Type 0} (G : MutableGraph S) (g : S)
        (inside : (u v : ℕ) → Memᴰ v (G.neighbors g u) → v < size) where
      pub sssp_vertices-Inv :
          (us : List ℕ)
          → ((u : ℕ) → Memᴰ u us → D u ≢ infinity)
          → (hits paths : ℕ → ℕ) (s : Sssp) → Inv hits paths s
          → Inv
              (λ v. hits v + sum us (λ u. count v (G.neighbors g u)))
              (λ v. paths v + sum us (λ u. count v (G.neighbors g u) * C u))
              (foldl (sssp_vertex G g next) s us)
      unfolding sssp_vertex
      sssp_vertices-Inv [] known hits paths s h =
          Inv-ext hits _ paths _ s (λ v. omega arith) (λ v. omega arith) h
      sssp_vertices-Inv (u ∷ us) known hits paths s h =
          Inv-ext _ _ _ _ _ (λ v. omega arith) (λ v. omega arith)
            (sssp_vertices-Inv us (λ v m. known v (Memᴰ.tail m)) _ _ (sssp_vertex G g next s u)
              (sssp_edges-Inv u (G.neighbors g u) (known u (Memᴰ.head refl)) (inside u) hits paths s
                h))
