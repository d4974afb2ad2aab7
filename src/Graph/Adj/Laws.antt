-- ===== src/Graph/Adj/Laws.antt =====
-- `ingest` of include/scea/graph/adj.hpp.
use graph_log_sketch.Base.{
  ℕ, zero, suc, ◌+◌, ◌-◌, ◌%◌, ◌≤◌, ◌<◌, max, ◌≡◌, refl, sym, ap, ◌∙◌, ◌↔◌, ⊎_elim, List, [], ◌∷◌,
  ◌++◌, foldl, Memᴰ, append-nil, append_assoc, arith, length, get_or, replicate, All, All-Memᴰ,
  length-append, length-set, length-replicate, get_or-set_self, get_or-set_ne, get_or-replicate,
}
use graph_log_sketch.Graph.{u64_mod}
use graph_log_sketch.Graph.Walk.{IsClosed}
use graph_log_sketch.Base.DoAll.{Schedule, range}
use graph_log_sketch.Base.Sets.{HasNoRepeats}
use graph_log_sketch.Graph.Adj.Inserted.{
  inserted, Below, sources, reordered, reordered-perm, foldl-ingest_pair, Below-perm,
  inserted-reordered, inserted-le,
}
use graph_log_sketch.Graph.Adj.{
  AdjGraph, adj_graph, max_element, update_max, max_vertex_id, resize, append_row, size, neighbors,
  ingest,
}
use mathlib.Core.List.Memᴰ

get_or-append_empty :
    (rows : List (List ℕ)) (n i : ℕ) → get_or (rows ++ replicate n []) i [] ≡ get_or rows i []
get_or-append_empty [] n i = get_or-replicate n [] i
get_or-append_empty (r ∷ rows) n zero = refl
get_or-append_empty (r ∷ rows) n (suc i) = get_or-append_empty rows n i

module _ (rows : List (List ℕ)) (n : ℕ) (grows : length rows ≤ n) where
  length-resize : length (resize n rows) ≡ n
  length-resize = ground (
    arith,
    length-append rows (replicate (n - length rows) []),
    length-replicate {A = List ℕ} (n - length rows) [],
  )

  get_or-resize : (i : ℕ) → get_or (resize n rows) i [] ≡ get_or rows i []
  get_or-resize i = ground (arith, get_or-append_empty rows (n - length rows) i)

length-append_rows :
    (edges : List (ℕ × List ℕ)) (rows : List (List ℕ))
    → length (foldl append_row rows edges) ≡ length rows
unfolding append_row
length-append_rows [] rows = refl
length-append_rows ((s, d) ∷ edges) rows =
    length-append_rows edges (append_row rows (s, d)) ∙ length-set rows s _

get_or-append_rows :
    (edges : List (ℕ × List ℕ)) (rows : List (List ℕ)) (m i : ℕ)
    → Below m edges
    → m < length rows
    → get_or (foldl append_row rows edges) i [] ≡ get_or rows i [] ++ inserted edges i
unfolding append_row inserted
get_or-append_rows [] rows m i b h = sym (append-nil _)
get_or-append_rows ((s, d) ∷ edges) rows m i b h =
    let row = get_or rows s [] ++ d in
    ground (
      arith,
      get_or-append_rows edges (append_row rows (s, d)) m i b.1,
      length-set rows s row,
      get_or-set_self rows s row [],
      get_or-set_ne rows s i row [],
      append_assoc (get_or rows i []) d (inserted edges i),
    )

-- The largest vertex of the batch bounds every vertex of it.
max_element-le : (m : ℕ) (xs : List ℕ) → (m ≤ max_element m xs) × All (λ d. d ≤ max_element m xs) xs
max_element-le m [] = (omega arith, tt)
max_element-le m (x ∷ xs) =
    let (le, all) = max_element-le (max m x) xs in (omega arith, (omega arith, all))

All-le : (m n : ℕ) (xs : List ℕ) → m ≤ n → All (λ d. d ≤ m) xs → All (λ d. d ≤ n) xs
All-le m n [] h a = tt
All-le m n (x ∷ xs) h a = (omega arith, All-le m n xs h a.1)

update_max-le :
    (m src : ℕ) (dsts : List ℕ)
    → (m ≤ update_max m (src, dsts))
      × (src ≤ update_max m (src, dsts))
      × All (λ d. d ≤ update_max m (src, dsts)) dsts
unfolding update_max
update_max-le m src [] = (omega arith, omega arith, tt)
update_max-le m src (d ∷ dsts) =
    let (le, all) = max_element-le d dsts in
    (omega arith, omega arith, (omega arith, All-le _ _ dsts (omega arith) all))

Below-le : (m n : ℕ) (edges : List (ℕ × List ℕ)) → m ≤ n → Below m edges → Below n edges
Below-le m n [] h b = tt
Below-le m n ((s, d) ∷ edges) h b = ((omega arith, All-le m n d h b.0.1), Below-le m n edges h b.1)

updates-Below :
    (m : ℕ) (edges : List (ℕ × List ℕ))
    → (m ≤ foldl update_max m edges) × Below (foldl update_max m edges) edges
updates-Below m [] = (omega arith, tt)
updates-Below m ((s, d) ∷ edges) =
    let (keep, src_le, dst_le) = update_max-le m s d in
    let (le, below) = updates-Below (update_max m (s, d)) edges in
    (omega arith, ((omega arith, All-le _ _ d le dst_le), below))

pub max_vertex_id-Below : (edges : List (ℕ × List ℕ)) → Below (max_vertex_id edges) edges
unfolding max_vertex_id
max_vertex_id-Below edges = (updates-Below 0 edges).1

-- A bound of all vertices of the batch bounds the largest.
max_element-least : (m b : ℕ) (xs : List ℕ) → m ≤ b → All (λ d. d ≤ b) xs → max_element m xs ≤ b
max_element-least m b [] h a = h
max_element-least m b (x ∷ xs) h a = max_element-least (max m x) b xs (omega arith) a.1

updates-least :
    (m b : ℕ) (edges : List (ℕ × List ℕ)) → m ≤ b → Below b edges → foldl update_max m edges ≤ b
unfolding update_max
updates-least m b [] h a = h
updates-least m b ((s, []) ∷ edges) h a = updates-least (max m s) b edges (omega arith) a.1
updates-least m b ((s, d ∷ dsts) ∷ edges) h a =
    updates-least _ b edges (omega (arith, max_element-least d b dsts a.0.1.0 a.0.1.1)) a.1

-- A number bounds all sources and targets of the batch exactly if it is at least `max_vertex_id`.
pub max_vertex_id-least :
    (b : ℕ) (edges : List (ℕ × List ℕ)) → Below b edges ↔ (max_vertex_id edges ≤ b)
unfolding max_vertex_id
max_vertex_id-least b edges =
    (updates-least 0 b edges (omega arith), λ h. Below-le _ b edges h (updates-Below 0 edges).1)

module _ (sched : Schedule) (g : AdjGraph) (edges : List (ℕ × List ℕ))
    (small : max_vertex_id edges + 1 < u64_mod) where
  -- If the largest vertex of the batch is below 2^64 - 1, then after `ingest` the graph has room
  -- for its old vertices and for every vertex of the batch, and no more.
  pub size-ingest : size (ingest sched g edges) ≡ max (size g) (max_vertex_id edges + 1)
  unfolding size ingest
  size-ingest =
      let n = max (length g.m_edges) ((max_vertex_id edges + 1) % u64_mod) in
      let rows = resize n g.m_edges in
      omega (
        arith,
        ap length (foldl-ingest_pair edges (sched.order (range (length edges))) rows),
        length-append_rows (reordered sched edges) rows,
        length-resize g.m_edges n (omega arith),
      )

  -- Every vertex keeps its targets, and those that the batch gives it follow, in the order of the
  -- loop.
  pub neighbors-ingest_reordered :
      (v : ℕ)
      → neighbors (ingest sched g edges) v ≡ neighbors g v ++ inserted (reordered sched edges) v
  unfolding neighbors ingest
  neighbors-ingest_reordered v =
      let n = max (length g.m_edges) ((max_vertex_id edges + 1) % u64_mod) in
      let rows = resize n g.m_edges in
      let in_loop = reordered sched edges in
      let below =
        Below-perm (max_vertex_id edges) (reordered-perm sched edges) (max_vertex_id-Below edges) in
      ap (λ rs. get_or rs v []) (foldl-ingest_pair edges (sched.order (range (length edges))) rows)
      ∙ get_or-append_rows in_loop rows (max_vertex_id edges) v below
          (omega (arith, length-resize g.m_edges n (omega arith)))
      ∙ ap (λ row. row ++ inserted in_loop v) (get_or-resize g.m_edges n (omega arith) v)

  -- If the largest vertex of the batch is below 2^64 - 1 and the batch lists no source twice, then
  -- after `ingest` every vertex keeps its targets in their order, and those that the batch gives it
  -- follow, whatever order the loop takes.
  pub neighbors-ingest :
      HasNoRepeats (sources edges)
      → (v : ℕ) → neighbors (ingest sched g edges) v ≡ neighbors g v ++ inserted edges v
  neighbors-ingest distinct v =
      neighbors-ingest_reordered v
      ∙ ap (λ row. neighbors g v ++ row) (inserted-reordered sched edges v distinct)

-- If the largest vertex of the batch is below 2^64 - 1 and no edge leaves the graph, then no edge
-- leaves the graph after `ingest`, whatever order the loop takes.
pub ingest-IsClosed :
    (sched : Schedule) (g : AdjGraph) (edges : List (ℕ × List ℕ))
    → max_vertex_id edges + 1 < u64_mod
    → IsClosed (adj_graph sched) g
    → IsClosed (adj_graph sched) (ingest sched g edges)
ingest-IsClosed sched g edges small closed u v m =
    let below =
      Below-perm (max_vertex_id edges) (reordered-perm sched edges) (max_vertex_id-Below edges) in
    ⊎_elim (λ old. omega (arith, closed u v old, size-ingest sched g edges small))
      (λ new. omega (
        arith,
        inserted-le (max_vertex_id edges) (reordered sched edges) u v below new,
        size-ingest sched g edges small,
      ))
      (Memᴰ.append_cases (neighbors g u)
        (rw (neighbors-ingest_reordered sched g edges small u) at m))

-- Rows that stay below the size make a graph that no edge leaves.
All-row :
    (n : ℕ) (rows : List (List ℕ)) (u v : ℕ)
    → All (λ row. All (λ d. d < n) row) rows
    → Memᴰ v (get_or rows u [])
    → v < n
All-row n [] u v h m = absurd (Memᴰ.not-nil m)
All-row n (row ∷ rows) zero v h m = All-Memᴰ _ row h.0 m
All-row n (row ∷ rows) (suc u) v h m = All-row n rows u v h.1 m

pub IsClosed-rows :
    (sched : Schedule) (g : AdjGraph)
    → All (λ row. All (λ d. d < size g) row) g.m_edges
    → IsClosed (adj_graph sched) g
unfolding neighbors
IsClosed-rows sched g h u v m = All-row (size g) g.m_edges u v h m
