-- ===== src/Graph.antt =====
-- include/scea/graph/mutable_graph_interface.hpp: the interface that the benchmarked graph
-- representations implement and that the algorithms are written against.
pub mod Sorting
pub mod Adj
pub mod Walk
pub mod Csr
mod Tests
use graph_log_sketch.Base.{ℕ, List, Bool}

-- `S` is the state of the representation. A method returns the new state; `neighbors g src` is the
-- sequence of arguments with which `for_each_edge(src, callback)` calls its callback.
pub record MutableGraph (S : Type 0) : Type 0 where
  pub size : S → ℕ
  pub get_out_degree : S → ℕ → ℕ
  pub ingest : S → List (ℕ × List ℕ) → S
  pub post_ingest : S → S
  pub neighbors : S → ℕ → List ℕ
  pub sort_edges : S → ℕ → S
  pub find_edge_sorted : S → ℕ → ℕ → Bool

-- A uint64_t holds a vertex id, a size or a distance.
abbrev pub u64_mod : ℕ
u64_mod = 18446744073709551616
