-- ===== src/Graph/Adj/Inserted.antt =====
-- `ingest` of include/scea/graph/adj.hpp: the batch, in the order in which its loop takes it.
use graph_log_sketch.Base.{
  ℕ, zero, suc, ◌≤◌, ◌≡◌, refl, ap, ap₂, subst, false, ◌∙◌, inl, inr, ⊎_elim, List, [], ◌∷◌, ◌++◌,
  foldl, map, Memᴰ, All, All-Memᴰ, Memᴰ-All, arith, ◌==◌, ==_iff, if◌then◌else◌, Bool-cases, length,
  get_or,
}
use graph_log_sketch.Base.DoAll.{Schedule, range, range_from, Permᴰ-Memᴰ, map-perm}
use graph_log_sketch.Base.Sums.{count, count-perm}
use graph_log_sketch.Base.Sets.{HasNoRepeats}
use graph_log_sketch.Graph.Adj.{append_row, ingest_pair}
use mathlib.Core.List.{Permᴰ}
use mathlib.Core.List.Memᴰ

-- The targets that a batch gives to `src`, in the order of the batch.
unfoldable pub inserted : List (ℕ × List ℕ) → ℕ → List ℕ
inserted [] src = []
inserted ((s, dsts) ∷ edges) src =
    let rest = inserted edges src in if s == src then dsts ++ rest else rest

-- Every vertex of the batch is at most `m`.
abbrev pub Below : ℕ → List (ℕ × List ℕ) → Type 0
Below m = All (λ e. (e.0 ≤ m) × All (λ d. d ≤ m) e.1)

-- The sources of a batch.
abbrev pub sources : List (ℕ × List ℕ) → List ℕ
sources = map (λ e. e.0)

-- The batch in the order of a loop over its indices.
abbrev pub reordered : Schedule → List (ℕ × List ℕ) → List (ℕ × List ℕ)
reordered sched edges = map (λ i. get_or edges i (0, [])) (sched.order (range (length edges)))

pub foldl-ingest_pair :
    (edges : List (ℕ × List ℕ)) (is : List ℕ) (rows : List (List ℕ))
    → foldl (ingest_pair edges) rows is
      ≡ foldl append_row rows (map (λ i. get_or edges i (0, [])) is)
unfolding ingest_pair
foldl-ingest_pair edges [] rows = refl
foldl-ingest_pair edges (i ∷ is) rows = foldl-ingest_pair edges is (ingest_pair edges rows i)

map-get_or_shift :
    (e : ℕ × List ℕ) (edges : List (ℕ × List ℕ)) (i n : ℕ)
    → map (λ k. get_or (e ∷ edges) k (0, [])) (range_from (suc i) n)
      ≡ map (λ k. get_or edges k (0, [])) (range_from i n)
map-get_or_shift e edges i zero = refl
map-get_or_shift e edges i (suc n) =
    ap (λ r. get_or edges i (0, []) ∷ r) (map-get_or_shift e edges (suc i) n)

map-get_or_all :
    (edges : List (ℕ × List ℕ)) → map (λ i. get_or edges i (0, [])) (range (length edges)) ≡ edges
map-get_or_all [] = refl
map-get_or_all (e ∷ edges) =
    ap (λ r. e ∷ r) (map-get_or_shift e edges 0 (length edges) ∙ map-get_or_all edges)

-- The loop takes each pair once.
pub reordered-perm :
    (sched : Schedule) (edges : List (ℕ × List ℕ)) → Permᴰ (reordered sched edges) edges
reordered-perm sched edges =
    subst (Permᴰ (reordered sched edges)) (map-get_or_all edges)
      (map-perm (λ i. get_or edges i (0, [])) (sched.order-perm (range (length edges))))

pub Below-perm : (m : ℕ) {es fs : List (ℕ × List ℕ)} → Permᴰ es fs → Below m fs → Below m es
Below-perm m {es} {fs} p h = Memᴰ-All _ es (λ e mem. All-Memᴰ _ fs h (Permᴰ-Memᴰ p mem))

AtMostOnce : List (ℕ × List ℕ) → Type 0
AtMostOnce edges = (a : ℕ) → count a (sources edges) ≤ 1

AtMostOnce-of : (xs : List ℕ) (a : ℕ) → HasNoRepeats xs → count a xs ≤ 1
AtMostOnce-of [] a h = omega arith
AtMostOnce-of (x ∷ xs) a (new, h) = elim (Bool-cases (a == x)) [
  | inl e ↦ ground (arith, new, ap (λ b. count b xs) ((==_iff a x).0 e))
  | inr e ↦ ground (arith, AtMostOnce-of xs a h)
]

-- What a pair puts before the targets of the pairs behind it.
abbrev put : ℕ → ℕ × List ℕ → List ℕ → List ℕ
put v e rest = if e.0 == v then e.1 ++ rest else rest

put_swapped :
    (v : ℕ) (x y : ℕ × List ℕ) (edges : List (ℕ × List ℕ)) (rest : List ℕ)
    → AtMostOnce (x ∷ y ∷ edges)
    → put v y (put v x rest) ≡ put v x (put v y rest)
unfolding AtMostOnce
put_swapped v x y edges rest once = elim (Bool-cases (x.0 == v)) [
  | inl e ↦
      let other : (y.0 == v) ≡ false = elim (Bool-cases (y.0 == v)) [
        | inl e' ↦ absurd (ground (arith, once v, e, e'))
        | inr ne ↦ ne
      ] in
      rw (e, other) refl
  | inr ne ↦ rw ne refl
]

AtMostOnce-tail :
    (e : ℕ × List ℕ) (edges : List (ℕ × List ℕ)) → AtMostOnce (e ∷ edges) → AtMostOnce edges
unfolding AtMostOnce
AtMostOnce-tail e edges once a = ground (arith, once a)

AtMostOnce-perm : {es fs : List (ℕ × List ℕ)} → Permᴰ es fs → AtMostOnce fs → AtMostOnce es
unfolding AtMostOnce
AtMostOnce-perm p once a = omega (arith, once a, count-perm a (map-perm (λ e. e.0) p))

inserted-perm :
    (v : ℕ) {es fs : List (ℕ × List ℕ)}
    → Permᴰ es fs
    → AtMostOnce fs
    → inserted es v ≡ inserted fs v
unfolding inserted
inserted-perm v Permᴰ.nil once = refl
inserted-perm v (Permᴰ.cons {b = b} {l₂ = l₂} e p) once =
    ap₂ (put v) e (inserted-perm v p (AtMostOnce-tail b l₂ once))
inserted-perm v (Permᴰ.swap {a' = x} {b' = y} {l = l} e f) once =
    ap₂ (λ a b. put v a (put v b (inserted l v))) e f ∙ put_swapped v x y l (inserted l v) once
inserted-perm v (Permᴰ.trans p q) once =
    inserted-perm v p (AtMostOnce-perm q once) ∙ inserted-perm v q once

-- Where no source is listed twice, the order of the loop does not show.
pub inserted-reordered :
    (sched : Schedule) (edges : List (ℕ × List ℕ)) (v : ℕ)
    → HasNoRepeats (sources edges)
    → inserted (reordered sched edges) v ≡ inserted edges v
unfolding AtMostOnce
inserted-reordered sched edges v distinct =
    inserted-perm v (reordered-perm sched edges) (λ a. AtMostOnce-of (sources edges) a distinct)

pub inserted-le :
    (m : ℕ) (edges : List (ℕ × List ℕ)) (u v : ℕ)
    → Below m edges
    → Memᴰ v (inserted edges u)
    → v ≤ m
unfolding inserted
inserted-le m [] u v b h = absurd (Memᴰ.not-nil h)
inserted-le m ((s, d) ∷ edges) u v b h = elim (Bool-cases (s == u)) [
  | inl e ↦
      ⊎_elim (All-Memᴰ _ d b.0.1) (inserted-le m edges u v b.1)
        (Memᴰ.append_cases d (rw (e, inserted) at h))
  | inr e ↦ inserted-le m edges u v b.1 (rw (e, inserted) at h)
]
