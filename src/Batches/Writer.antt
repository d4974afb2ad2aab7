-- ===== src/Batches/Writer.antt =====
-- scripts/divide_into_batches.cpp: a list of edges is divided into batches, each written with a
-- line for each source.
use graph_log_sketch.Base.{
  ℕ, zero, suc, ◌+◌, ◌-◌, ◌*◌, ◌/◌, ◌%◌, min, Bool, true, false, ◌&&◌, ◌||◌, Option, none, some,
  ◌>>=◌, List, [], ◌∷◌, ◌++◌, foldl, ltb, ◌==◌, if◌then◌else◌, length, take, drop,
}
use graph_log_sketch.Base.Text.{Text}
use graph_log_sketch.Graph.{u64_mod}
use graph_log_sketch.Batches.Streams.{
  newline, space, decimal, Stream, open_stream, extract, is_empty,
}

abbrev pub Edge : Type 0
Edge = ℕ × ℕ

-- `std::sort` on pairs; the order is total, so every sort gives this list.
abbrev pub precedes : Edge → Edge → Bool
precedes (a, b) (c, d) = ltb a c || (a == c && ltb b d)

abbrev pub insert_pair : Edge → List Edge → List Edge
insert_pair e [] = e ∷ []
insert_pair e (f ∷ es) =
    let rest = insert_pair e es in if precedes f e then f ∷ rest else e ∷ f ∷ es

abbrev pub sort_pairs : List Edge → List Edge
sort_pairs [] = []
sort_pairs (e ∷ es) = insert_pair e (sort_pairs es)

-- The loop over the edges of a batch: `prev_src`, and what `fout` has got.
abbrev pub same_source : Option ℕ → ℕ → Bool
same_source none src = false
same_source (some prev) src = prev == src

abbrev pub line_break : Option ℕ → Text
line_break none = []
line_break (some prev) = newline ∷ []

unfoldable pub write_edge : Option ℕ × Text → Edge → Option ℕ × Text
write_edge (prev_src, fout) (next_src, next_dst) =
    if same_source prev_src next_src then (prev_src, fout ++ space ∷ decimal next_dst) else (
      some next_src,
      fout ++ line_break prev_src ++ decimal next_src ++ space ∷ decimal next_dst,
    )

-- The loop, and the two line ends behind it.
unfoldable pub write_batch : Text → List Edge → Text
unfolding write_edge
write_batch fout edges = (foldl write_edge (none, fout) edges).1 ++ newline ∷ newline ∷ []

unfoldable pub edges_per_batch : ℕ → ℕ → ℕ
edges_per_batch num_edges num_batches =
    (num_edges + (num_batches + u64_mod - 1)) % u64_mod / num_batches

-- The range of a batch, sorted; `none` if it ends before it begins, which is undefined.
unfoldable pub batch_of : List Edge → ℕ → ℕ → Option (List Edge)
batch_of edges per_batch batch_idx =
    let begin = batch_idx * per_batch % u64_mod in
    let end = min (length edges) ((batch_idx + 1) * per_batch % u64_mod) in
    if ltb end begin then none else some (sort_pairs (take (end - begin) (drop begin edges)))

-- The loop over the batches, with the number that is left.
unfoldable pub write_batches : List Edge → ℕ → ℕ → ℕ → Text → Option Text
unfolding batch_of write_batch
write_batches edges per_batch batch_idx zero fout = some fout
write_batches edges per_batch batch_idx (suc left) fout =
    batch_of edges per_batch batch_idx >>= λ batch.
    write_batches edges per_batch (batch_idx + 1) left (write_batch fout batch)

-- How `main` ends: with a code, by undefined behaviour, or with code 0 and a file.
pub data Division : Type 0 where
  failed : ℕ → Division
  undefined : Division
  written : Text → Division

abbrev pub division_of : Option Text → Division
division_of none = undefined
division_of (some fout) = written fout

-- `main`, behind the reading: `arrange` is `random_shuffle` where that is asked for. The largest
-- vertex is taken from the end of the edges if there are none, which is undefined.
unfoldable pub divide : (List Edge → List Edge) → List Edge → ℕ → Division
unfolding write_batches edges_per_batch
divide arrange edges num_batches =
    if is_empty edges
    then undefined
    else if num_batches == 0
    then failed 3
    else division_of (
        write_batches (arrange edges) (edges_per_batch (length edges) num_batches) 0 num_batches [])

-- `while (fin.peek() == '#')`: lines at the head of the file that begin with `#` are passed over.
abbrev skip_comments : Bool → Text → Text
skip_comments inside [] = []
skip_comments true (c ∷ cs) =
    let outside = skip_comments false cs in
    let further = skip_comments true cs in if c == newline then outside else further
skip_comments false (c ∷ cs) = let rest = skip_comments true cs in if c == 35 then rest else c ∷ cs

-- `while (fin >> src >> dst)`, on fuel; `none` means that the fuel ran out.
abbrev read_pairs : ℕ → Stream → Option (List Edge)
read_pairs zero s = none
read_pairs (suc fuel) s =
    let (s₁, src) = extract 0 s in
    let (s₂, dst) = extract 0 s₁ in
    elim s₂.fail [
      | true ↦ some []
      | false ↦ read_pairs fuel s₂ >>= λ edges. some ((src, dst) ∷ edges)
    ]

-- The edges of the input file.
unfoldable pub read_edge_list : Text → Option (List Edge)
read_edge_list text = read_pairs (length text + 1) (open_stream (skip_comments false text))
