-- ===== src/Batches/Tests.antt =====
-- Runs of the batch programs, and their theorems there.
use graph_log_sketch.Base.{
  ℕ, ◌+◌, ◌-◌, ◌*◌, ◌≤◌, ◌<◌, ◌≡◌, refl, ◌↔◌, none, some, List, [], ◌∷◌, ◌++◌, arith, length,
}
use graph_log_sketch.Base.Sums.{count}
use mathlib.Core.List.{Permᴰ}
use mathlib.Core.List.Permᴰ
use graph_log_sketch.Bench.{add_edge}
use graph_log_sketch.Bench.Counts.{is_edge}
use graph_log_sketch.Base.Text.{Text}
use graph_log_sketch.Base.DoAll.{pairwise_swapped}
use graph_log_sketch.Graph.Adj
use graph_log_sketch.Graph.Adj.{AdjGraph, adj_graph}
use graph_log_sketch.Batches.Streams.{decimal, extract, read_batch, open_input}
use graph_log_sketch.Batches.Reader.{validate_vertex, parse_batches, run_file}
use graph_log_sketch.Batches.Counter.{Counts, count_file}
use graph_log_sketch.Batches.Written.{AllEnds}
use graph_log_sketch.Batches.Division.{divide_lem}
use graph_log_sketch.Batches.Totals.{total, all_edges, file_text}
use graph_log_sketch.Batches.RoundTrip.{IsGood, parsed}
use graph_log_sketch.Batches.Results.{parse_batches-divide, count_file-divide, run_file-divide}
use graph_log_sketch.Batches.Writer.{
  Edge, written, undefined, divide, edges_per_batch, read_edge_list,
}

abbrev edge_list : Text
edge_list =
    b'#' ∷ b' ' ∷ b'x' ∷ b'\n' ∷ b'2' ∷ b' ' ∷ b'1' ∷ b'0' ∷ b'\n' ∷ b'1' ∷ b' ' ∷ b'2' ∷ b'\n'
    ∷ b'1' ∷ b' ' ∷ b'0' ∷ b'\n' ∷ []

abbrev three_edges : List Edge
three_edges = (2, 10) ∷ (1, 2) ∷ (1, 0) ∷ []

read_edge_list_run : read_edge_list edge_list ≡ some three_edges
unfolding read_edge_list extract
read_edge_list_run = refl

abbrev batch_file : Text
batch_file =
    b'1' ∷ b' ' ∷ b'2' ∷ b'\n' ∷ b'2' ∷ b' ' ∷ b'1' ∷ b'0' ∷ b'\n' ∷ b'\n' ∷ b'1' ∷ b' ' ∷ b'0'
    ∷ b'\n' ∷ b'\n' ∷ []

divide_run : divide (λ es. es) three_edges 2 ≡ written batch_file
unfolding divide edges_per_batch decimal
divide_run = refl

-- Four batches of two edges: the last begins behind the end.
divide_too_many : divide (λ es. es) ((0, 1) ∷ (0, 2) ∷ (0, 3) ∷ (0, 4) ∷ (0, 5) ∷ []) 4 ≡ undefined
unfolding divide edges_per_batch decimal
divide_too_many = refl

count_file_run : count_file 7 batch_file ≡ some (record { max_vertex_id = 10; num_edges = 3 })
unfolding count_file extract read_batch
count_file_run = refl

-- A letter behind the source: the stream has failed, but is not at its end, so the loop never ends.
count_file_letter : count_file 7 (b'1' ∷ b' ' ∷ b'x' ∷ b'\n' ∷ []) ≡ none
unfolding count_file extract read_batch
count_file_letter = refl

-- A space at the end of a line counts as an edge to whatever the memory holds.
count_file_space :
    count_file 7 (b'1' ∷ b' ' ∷ b'2' ∷ b' ' ∷ b'\n' ∷ [])
    ≡ some (record { max_vertex_id = 7; num_edges = 2 })
unfolding count_file extract read_batch
count_file_space = refl

-- Behind the batch that the file has, the algorithm runs once more; here it adds a vertex.
run_file_run :
    run_file
      (adj_graph pairwise_swapped)
      (λ g. record { m_edges = g.m_edges ++ [] ∷ [] })
      (some 9)
      7
      (b'0' ∷ b' ' ∷ b'1' ∷ b' ' ∷ b'8' ∷ b'\n' ∷ b'\n' ∷ [])
      (record { m_edges = [] })
    ≡ some
        (record { m_edges = (1 ∷ 8 ∷ []) ∷ [] ∷ [] ∷ [] ∷ [] ∷ [] ∷ [] ∷ [] ∷ [] ∷ [] ∷ [] ∷ [] })
unfolding run_file extract read_batch add_edge Adj.ingest Adj.post_ingest
run_file_run = refl

abbrev keep_order : List Edge → List Edge
keep_order es = es

kept_order : Permᴰ (keep_order three_edges) three_edges
kept_order = Permᴰ.refl three_edges

three_fit : (2 - 1) * edges_per_batch 3 2 ≤ 3
unfolding edges_per_batch
three_fit = omega arith

three-IsGood : AllEnds (IsGood (some 11) 7) three_edges
unfolding validate_vertex
three-IsGood = (
  ((omega arith, refl), (omega arith, refl)),
  (((omega arith, refl), (omega arith, refl)), (((omega arith, refl), (omega arith, refl)), tt)),
)

abbrev five_edges : List Edge
five_edges = (0, 1) ∷ (0, 2) ∷ (0, 3) ∷ (0, 4) ∷ (0, 5) ∷ []

divide_lem_example :
    (length five_edges < (4 - 1) * edges_per_batch (length five_edges) 4
      → divide keep_order five_edges 4 ≡ undefined)
    × ((4 - 1) * edges_per_batch (length five_edges) 4 ≤ length five_edges
        → (bs : List (List Edge)) × (divide keep_order five_edges 4 ≡ written (file_text bs))
          × (length bs ≡ 4)
          × ((v d : ℕ) → total (is_edge v d) (all_edges bs) ≡ total (is_edge v d) five_edges))
divide_lem_example =
    divide_lem keep_order five_edges 4 (Permᴰ.refl five_edges) (omega arith) (omega arith)
      (omega arith)

parse_batches-divide_example :
    (bs : List (List Edge)) × (text : Text) × (divide keep_order three_edges 2 ≡ written text)
    × (parse_batches (some 11) 7 (length (open_input text).lines + 2) (open_input text)
        ≡ some (parsed (some 11) 7 bs))
    × (length bs ≡ 2)
    × ((v d : ℕ) → total (is_edge v d) (all_edges bs) ≡ total (is_edge v d) three_edges)
parse_batches-divide_example =
    parse_batches-divide keep_order three_edges 2 kept_order (omega arith) (omega arith)
      (omega arith) three_fit (some 11) 7 three-IsGood

count_file-divide_example :
    (text : Text) × (c : Counts) × (divide keep_order three_edges 2 ≡ written text)
    × (count_file 7 text ≡ some c)
    × (c.num_edges ≡ 3)
    × ((b : ℕ) → (c.max_vertex_id ≤ b) ↔ AllEnds (λ v. v ≤ b) three_edges)
count_file-divide_example =
    count_file-divide keep_order three_edges 2 kept_order (omega arith) (omega arith) (omega arith)
      three_fit 7 (omega arith)

run_file-divide_example :
    (text : Text) × (g' : AdjGraph) × (divide keep_order three_edges 2 ≡ written text)
    × (run_file (adj_graph pairwise_swapped) (λ g. g) (some 11) 7 text (record { m_edges = [] })
        ≡ some g')
    × ((v d : ℕ)
        → count d (Adj.neighbors g' v)
          ≡ count d (Adj.neighbors (record { m_edges = [] }) v) + total (is_edge v d) three_edges)
run_file-divide_example =
    run_file-divide keep_order three_edges 2 kept_order (omega arith) (omega arith) (omega arith)
      three_fit (some 11) 7 three-IsGood (omega arith) pairwise_swapped (λ g. g) (λ g v d. refl)
      (record { m_edges = [] })
