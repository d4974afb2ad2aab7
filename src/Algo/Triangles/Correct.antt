-- ===== src/Algo/Triangles/Correct.antt =====
-- `TriangleCounting::compute` of include/scea/algo/tc.hpp, beside the number of triangles.
use graph_log_sketch.Base.{
  ℕ, ◌+◌, ◌*◌, ◌%◌, ◌<◌, min, ◌≡◌, refl, sym, ap, ◌∙◌, ◌↔◌, ◌⊎◌, inl, inr, ⊎_elim, true, List, [],
  ◌∷◌, foldl, Memᴰ, arith, ltb, leb, if◌then◌else◌, Bool-cases, subst,
}
use graph_log_sketch.Base.DoAll.{Schedule, Permᴰ-Memᴰ, range}
use graph_log_sketch.Base.Sums.{
  sum, count, sum-ext, sum-perm, mem-count, mem-range_from_iff, sum-count, foldl-sum,
}
use graph_log_sketch.Graph.{MutableGraph, u64_mod}
use graph_log_sketch.Graph.Walk.{IsClosed}
use graph_log_sketch.Algo.Triangles.{
  sort_all, count_closing, count_from_edge, count_from_vertex, compute,
}
use graph_log_sketch.Algo.Triangles.Interface.{SortsEdges}
use mathlib.Core.Bool.{false≢true}
use mathlib.Core.List.Memᴰ
use mathlib.Core.List.{Permᴰ}
use mathlib.Core.List.Permᴰ

module _ {S : Type 0} (G : MutableGraph S) (g : S) where
  -- How many edges lead from `u` to `v`.
  abbrev pub edges : ℕ → ℕ → ℕ
  edges u v = count v (G.neighbors g u)

  -- All ways to choose an edge from `a` to `b` and one from `b` to `c` with a < b < c such that
  -- some edge leads from `a` to `c`.
  pub triangles : ℕ
  triangles = sum (range (G.size g)) (λ a. sum (range (G.size g)) (λ b.
      edges a b
      * (if ltb a b
          then sum (range (G.size g)) (λ c. edges b c * (if ltb b c then min 1 (edges a c) else 0))
          else 0)))

module _ {S : Type 0} (G : MutableGraph S) (L : SortsEdges G) where
  open L use {
    IsSearchable, size-sort, neighbors-sort, sort-IsSearchable, sort_keeps_IsSearchable, find-mem,
  }

  sorts-size : (us : List ℕ) (g : S) → G.size (foldl G.sort_edges g us) ≡ G.size g
  sorts-size [] g = refl
  sorts-size (u ∷ us) g = sorts-size us (G.sort_edges g u) ∙ size-sort g u

  sorts-neighbors :
      (us : List ℕ) (g : S) (v : ℕ)
      → ((u : ℕ) → Memᴰ u us → u < G.size g)
      → Permᴰ (G.neighbors (foldl G.sort_edges g us) v) (G.neighbors g v)
  sorts-neighbors [] g v h = Permᴰ.refl (G.neighbors g v)
  sorts-neighbors (u ∷ us) g v h =
      Permᴰ.trans
        (sorts-neighbors us (G.sort_edges g u) v
          (λ w m. omega (arith, size-sort g u, h w (Memᴰ.tail m))))
        (neighbors-sort g u v (h u (Memᴰ.head refl)))

  sorts-IsSearchable :
      (us : List ℕ) (g : S) (v : ℕ)
      → ((u : ℕ) → Memᴰ u us → u < G.size g)
      → Memᴰ v us ⊎ IsSearchable g v
      → IsSearchable (foldl G.sort_edges g us) v
  sorts-IsSearchable [] g v h s = ⊎_elim (λ m. absurd (Memᴰ.not-nil m)) (λ done. done) s
  sorts-IsSearchable (u ∷ us) g v h s =
      sorts-IsSearchable us (G.sort_edges g u) v
        (λ w m. omega (arith, size-sort g u, h w (Memᴰ.tail m)))
        (⊎_elim
          (λ m.
            ⊎_elim
              (λ e. inr (
                subst (IsSearchable (G.sort_edges g u)) (sym e)
                  (sort-IsSearchable g u (h u (Memᴰ.head refl)))))
              inl (Memᴰ.cases_cons m))
          (λ done. inr (sort_keeps_IsSearchable g u v (h u (Memᴰ.head refl)) done)) s)

  -- The nested loops add up, modulo 2^64, what the rows and the searches of a graph give.
  module _ (g : S) where
    closing : ℕ → ℕ → ℕ → ℕ
    closing a b c = if leb c b then 0 else if G.find_edge_sorted g a c then 1 else 0

    from_edge : ℕ → ℕ → ℕ
    from_edge a b = if leb b a then 0 else sum (G.neighbors g b) (closing a b)

    count_closing-sum :
        (a b acc c : ℕ)
        → acc < u64_mod
        → count_closing G g a b acc c ≡ (acc + closing a b c) % u64_mod
    unfolding count_closing closing
    count_closing-sum a b acc c h = ground arith

    count_from_edge-sum :
        (a acc b : ℕ)
        → acc < u64_mod
        → count_from_edge G g a acc b ≡ (acc + from_edge a b) % u64_mod
    unfolding count_from_edge from_edge
    count_from_edge-sum a acc b h = elim (Bool-cases (leb b a)) [
      | inl e ↦ rw e (omega arith)
      | inr e ↦ rw e (
          foldl-sum (count_closing G g a b) (closing a b) (G.neighbors g b)
            (λ acc' c _. count_closing-sum a b acc' c) acc h)
    ]

    count_from_vertex-sum :
        (acc a : ℕ)
        → acc < u64_mod
        → count_from_vertex G g acc a ≡ (acc + sum (G.neighbors g a) (from_edge a)) % u64_mod
    unfolding count_from_vertex
    count_from_vertex-sum acc a h =
        foldl-sum (count_from_edge G g a) (from_edge a) (G.neighbors g a)
          (λ acc' b _. count_from_edge-sum a acc' b) acc h

  -- A graph whose rows are rearranged and searchable, beside the graph that it came from.
  record Sorted (g g' : S) : Type 0 where
    size : G.size g' ≡ G.size g
    rows : (v : ℕ) → Permᴰ (G.neighbors g' v) (G.neighbors g v)
    searchable : (v : ℕ) → v < G.size g → IsSearchable g' v

  module _ (g g' : S) (closed : IsClosed G g) (s : Sorted g g') where
    abbrev n : ℕ
    n = G.size g

    found : (a c : ℕ) → a < n → (G.find_edge_sorted g' a c ≡ true) ↔ (0 < edges G g a c)
    found a c h = (
      λ e.
          (mem-count c (G.neighbors g a)).0
            (Permᴰ-Memᴰ (s.rows a) ((find-mem g' a c (s.searchable a h)).0 e)),
      λ p.
          (find-mem g' a c (s.searchable a h)).1
            (Permᴰ-Memᴰ (Permᴰ.symm (s.rows a)) ((mem-count c (G.neighbors g a)).1 p)),
    )

    abbrev closes : ℕ → ℕ → ℕ → ℕ
    closes a b c = if ltb b c then min 1 (edges G g a c) else 0

    closing-closes : (a b c : ℕ) → a < n → closing g' a b c ≡ closes a b c
    unfolding closing
    closing-closes a b c h = elim (Bool-cases (G.find_edge_sorted g' a c)) [
      | inl e ↦ rw e (ground (arith, (found a c h).0 e))
      | inr e ↦
          let absent : ¬ (0 < edges G g a c) = λ p. false≢true (sym e ∙ (found a c h).1 p) in
          rw e (ground arith)
    ]

    sum-row :
        (u : ℕ) (f f' : ℕ → ℕ)
        → ((v : ℕ) → v < n → f' v ≡ f v)
        → sum (G.neighbors g' u) f' ≡ sum (range n) (λ v. edges G g u v * f v)
    sum-row u f f' h =
        sum-perm f' (s.rows u)
        ∙ sum-ext (G.neighbors g u) f' f (λ v m. h v (closed u v m))
        ∙ sum-count n (G.neighbors g u) f (closed u)

    abbrev from_edge_closes : ℕ → ℕ → ℕ
    from_edge_closes a b = if ltb a b then sum (range n) (λ c. edges G g b c * closes a b c) else 0

    from_edge-closes : (a b : ℕ) → a < n → from_edge g' a b ≡ from_edge_closes a b
    unfolding from_edge
    from_edge-closes a b h =
        let row = sum-row b (closes a b) (closing g' a b) (λ c _. closing-closes a b c h) in
        ground (arith, row)

    total :
        (us : List ℕ)
        → Permᴰ us (range n)
        → foldl (count_from_vertex G g') 0 us ≡ triangles G g % u64_mod
    unfolding triangles
    total us p =
        foldl-sum (count_from_vertex G g') (λ a. sum (G.neighbors g' a) (from_edge g' a)) us
          (λ acc a _. count_from_vertex-sum g' acc a) 0 (omega arith)
        ∙ ap (λ k. (0 + k) % u64_mod)
            (sum-perm _ p
              ∙ sum-ext (range n) _ _ (λ a m.
                sum-row a (from_edge_closes a) (from_edge g' a) (λ b _.
                  from_edge-closes a b (omega (arith, ((mem-range_from_iff 0 n a).0 m).1)))))
        ∙ omega arith

  -- `sort_all` meets that.
  sort_all-Sorted : (sched : Schedule) (g : S) → Sorted g (sort_all G sched g)
  unfolding sort_all
  sort_all-Sorted sched g =
      let us = sched.order (range (G.size g)) in
      let inside = λ (u : ℕ) (m : Memᴰ u us).
        ((mem-range_from_iff 0 (G.size g) u).0
          (Permᴰ-Memᴰ (sched.order-perm (range (G.size g))) m)).1 in
      record {
        size = sorts-size us g;
        rows = λ v. sorts-neighbors us g v (λ u m. omega (arith, inside u m));
        searchable = λ v h.
            sorts-IsSearchable us g v (λ u m. omega (arith, inside u m))
              (inl (
                Permᴰ-Memᴰ (Permᴰ.symm (sched.order-perm _))
                  ((mem-range_from_iff 0 (G.size g) v).1 (omega arith, omega arith))));
      }

  -- On a graph that no edge leaves and whose representation sorts and finds its edges,
  -- `compute` returns the number of triangles modulo 2^64, in whatever order its loops run: for
  -- all a < b < c it counts each edge from a to b with each edge from b to c, if there is an edge
  -- from a to c. The count is that of the graph before its edges were sorted.
  pub compute-triangles :
      (sort_order count_order : Schedule) (g : S)
      → IsClosed G g
      → (compute G sort_order count_order g).1 ≡ triangles G g % u64_mod
  unfolding compute
  compute-triangles sort_order count_order g closed =
      let s = sort_all-Sorted sort_order g in
      let us = count_order.order (range (G.size (sort_all G sort_order g))) in
      total g (sort_all G sort_order g) closed s us
        (subst (λ k. Permᴰ us (range k)) s.size (count_order.order-perm _))
