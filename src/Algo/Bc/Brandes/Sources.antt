-- ===== src/Algo/Bc/Brandes/Sources.antt =====
-- `BetweennessCentrality::compute` of include/scea/algo/bc.hpp: its sources, and its result.
use graph_log_sketch.Base.{
  ℕ, zero, suc, min, ◌≤◌, ◌<◌, ◌≡◌, ◌∙◌, inl, inr, List, [], ◌∷◌, Memᴰ, arith, ltb, if◌then◌else◌,
  length, take, length-take, Bool-cases,
}
use graph_log_sketch.Base.DoAll.{length-perm, Schedule, range, range_from}
use graph_log_sketch.Base.Sums.{count, count-perm, mem-count, mem-range_from_iff}
use graph_log_sketch.Base.Stores.{stores_index, length-range_from}
use graph_log_sketch.Algo.Bc.Brandes.{select_sources}

count-take_le : (n v : ℕ) (xs : List ℕ) → count v (take n xs) ≤ count v xs
count-take_le zero v xs = omega arith
count-take_le (suc n) v [] = omega arith
count-take_le (suc n) v (x ∷ xs) = ground (arith, count-take_le n v xs)

count-range_from : (i n v : ℕ) → count v (range_from i n) ≤ 1
count-range_from i zero v = omega arith
count-range_from i (suc n) v =
    let later : 0 < count v (range_from (suc i) n) → suc i ≤ v =
      λ lt. ((mem-range_from_iff (suc i) n v).0 ((mem-count v (range_from (suc i) n)).1 lt)).0 in
    ground (arith, count-range_from (suc i) n v)

-- The sources: as many as the graph has vertices, or `num_src` of them where that is positive and
-- less; each is a vertex of the graph, and none is taken twice.
pub select_sources-bounds :
    (sched shuffle : Schedule) (size num_src : ℕ)
    → (length (select_sources sched shuffle size num_src)
        ≡ (if ltb 0 num_src then min size num_src else size))
      × ((v : ℕ)
          → Memᴰ v (select_sources sched shuffle size num_src)
          → (v < size) × (count v (select_sources sched shuffle size num_src) ≡ 1))
unfolding select_sources
select_sources-bounds sched shuffle size num_src =
    rw (stores_index sched size) (elim (Bool-cases (ltb 0 num_src)) [
      | inl e ↦ rw e (
        length-take (min size num_src) (shuffle.order (range size)) (omega (arith, sized)),
        λ v m.
            let taken = (mem-count v (take (min size num_src) (shuffle.order (range size)))).0 m in
            let fewer = count-take_le (min size num_src) v (shuffle.order (range size)) in
            (inside v (omega (arith, kept v)), omega (arith, kept v, count-range_from 0 size v)),
      )
      | inr e ↦ rw e (
        length-range_from 0 size,
        λ v m.
            let held = (mem-count v (range size)).0 m in
            (inside v held, omega (arith, count-range_from 0 size v)),
      )
    ])
  where
    sized : length (shuffle.order (range size)) ≡ size
    sized = length-perm (shuffle.order-perm (range size)) ∙ length-range_from 0 size

    kept : (v : ℕ) → count v (shuffle.order (range size)) ≡ count v (range size)
    kept v = count-perm v (shuffle.order-perm (range size))

    inside : (v : ℕ) → 0 < count v (range size) → v < size
    inside v held =
        omega (arith, (mem-range_from_iff 0 size v).0 ((mem-count v (range size)).1 held))
