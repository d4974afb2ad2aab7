-- ===== src/Lib.antt =====
-- graph-log-sketch: mutable graph representations, the algorithms that are benchmarked on them, and
-- the distributed trade network workflow (wf4).
--
-- How the parts interact: a driver ingests batches of edges into a graph representation, calls
-- post_ingest after each batch and runs an algorithm on the result. The algorithms know a graph only
-- through the interface of include/scea/graph/mutable_graph_interface.hpp. The workflow keeps a
-- partitioned graph of traders, cancels traders, and lets others trade until the market is quiet.
--
-- Files:
--   Base      what all parts share: numbers, lists, integers, sums, and the order in which a
--             parallel loop runs (Base.DoAll).
--   Graph     the interface (record MutableGraph, one field per method; for_each_edge is the
--             sequence of vertices that it calls back with). Graph.Sorting has std::sort and
--             std::binary_search; Graph.Adj is include/scea/graph/adj.hpp and Graph.Csr
--             include/scea/graph/csr.hpp. A method is the function of the same name on the state.
--   Algo      Algo.Bfs is include/scea/algo/bfs.hpp, Algo.Bc include/scea/algo/bc.hpp (the search
--             in Bc itself, the scores in Bc.Brandes), Algo.Triangles include/scea/algo/tc.hpp;
--             Algo.Triangles.Interface says what counting needs of a representation.
--   Wf4       Wf4.Network has the types of wf4/include/wf4/graph.hpp and what is used of the
--             distributed graph; Wf4.Quiesce is wf4/src/quiesce.cpp. Wf4.Influence is
--             wf4/src/influence_maximization.cpp: the walk of a set in Influence itself, the sets on
--             their way between hosts in Exchange, the removal of covered sets in Removal, the
--             choice of a node in Selection, the edge weights in Weights, the first sets in
--             Seeds, and GetInfluentialNodes on all hosts in Greedy, in rounds as the hosts wait for
--             each other. Wf4.Import is wf4/src/import.cpp with wf4/include/wf4/full_graph.hpp, on the
--             fields of a line (Base.Text has strings and std::stoull), and Wf4.Options is the part
--             of wf4/src/main.cpp that reads the command line, with InputFiles.
--   Bench     microbench/edit_scalability_large.cpp: prepare_batch, the bounds of the batches and the
--             loop that ingests them into the adjacency vector.
--   Batches   microbench/edit_scalability.cpp (Reader), scripts/divide_into_batches.cpp (Writer) and
--             scripts/count_batched.cpp (Counter), which share a file format; Streams has what they use
--             of the standard library's streams.
--
-- Conventions: a uint64_t is a natural number, with the wrap-around written as % 2^64 where the code
-- adds or subtracts. A parallel loop (galois::do_all) runs its body over the elements in the order
-- that a Schedule gives, which may be any permutation. One call of the body is one step, which for the
-- loop Ingest of AdjGraph, which has no lock, is so where no source is listed twice; what threads can do inside one body at the
-- same time is modelled for the trading loop only, as a relation on atomic steps
-- (Wf4.Quiesce.Reservation); there a double is an integer whose sums are rounded, by a function that
-- keeps integers up to 2^53. Elsewhere amounts are exact integers, and rounding is not modelled.
--
-- Fuel: the loops of the breadth-first search and of levelSSSP get one round more than the graph has
-- vertices. Each round but the last gives a distance to a vertex that had none, so that is enough, and their theorems
-- say that they return. The walk of a set gets one round for each node of the graph and for
-- each node on the frontier it starts with, since a node joins the queue once; its theorem says that it
-- returns. A buffer of sets is read with its length as fuel. The halving loop of the binary search gets
-- the length of the range. The loops over the targets of a line get the length of the line, and the
-- loop over the batches of a file two rounds more than the file has lines, since a round reads a line or
-- the end; on a written file the theorems say that this is enough, and where a stream fails inside a
-- line no fuel is, since the loop does not end.
--
-- Parameters: galois::PrefixSum is a record with the documented behaviour as laws (Graph.Csr), and
-- the placement of the nodes of the distributed graph is the record Partition (Wf4.Network). What the
-- random generators draw is a function that says which weights a draw meets (Wf4.Influence), or what a
-- uniform distribution draws (Wf4.Influence.Seeds). How sums of doubles are rounded is the record
-- Rounding (Wf4.Quiesce.Reservation). A hash set
-- is a list in the order of its iteration, and a buffer is the list of its 64-bit words. How a double
-- converts to an integer, and what 64 bits are as a double, is the record Doubles
-- (Wf4.Quiesce.Proposals). The scores of betweenness centrality are over the record Double, an
-- arithmetic without laws, and std::shuffle is a schedule, which may be any permutation. The memory of
-- a variable without initializer holds an arbitrary number, the parameter junk.
--
-- Not modelled: the Galois graph classes behind lscsr.hpp, lccsr.hpp and morph.hpp, statistics,
-- command lines of the benchmarks, network transport, and the scripts in Go, Python and shell.
mod Base
pub mod Graph
pub mod Algo
pub mod Wf4
pub mod Bench
pub mod Batches
