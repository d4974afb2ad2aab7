-- ===== src/Wf4/Influence/Exchange.antt =====
-- wf4/src/influence_maximization.cpp: sets on their way between the hosts. A buffer is
-- the list of its 64-bit words.
pub mod RoundTrip
use graph_log_sketch.Base.{
  ℕ, zero, suc, ◌+◌, ◌*◌, ◌-◌, ◌%◌, Option, none, some, List, [], ◌∷◌, ◌++◌, map, foldl, ◌==◌, ltb,
  ◌>>=◌, if◌then◌else◌, length, get_or,
}
use graph_log_sketch.Base.DoAll.{Schedule, range}
use graph_log_sketch.Base.Sets.{insert_new}
use graph_log_sketch.Graph.{u64_mod}
use graph_log_sketch.Wf4.Network.{NodeData, Partition, Nodes, update}
use graph_log_sketch.Wf4.Influence.{PartialReachableSet}

-- `PartialReachableSet::serialize`.
unfoldable pub serialize : PartialReachableSet → List ℕ
serialize s =
    s.id
    ∷ s.owner_host
    ∷ length s.partial_reachable_set
    ∷ length s.frontier
    ∷ (s.partial_reachable_set ++ s.frontier)

-- A loop of `deserialize`: that many words are put into a set. `none` means that the buffer has
-- too few of them.
pub extract_set : ℕ → List ℕ → List ℕ → Option (List ℕ × List ℕ)
extract_set zero xs buf = some (xs, buf)
extract_set (suc n) xs [] = none
extract_set (suc n) xs (elt ∷ buf) = extract_set n (insert_new elt xs) buf

-- `PartialReachableSet::deserialize`, with what is left in the buffer.
unfoldable pub deserialize : List ℕ → Option (PartialReachableSet × List ℕ)
unfolding extract_set
deserialize (id ∷ owner_host ∷ reachable_size ∷ frontier_size ∷ buf) = do
  reached ← extract_set reachable_size [] buf
  waiting ← extract_set frontier_size [] reached.1
  some (
    record {
      id = id;
      owner_host = owner_host;
      partial_reachable_set = reached.0;
      frontier = waiting.0;
    },
    waiting.1,
  )
deserialize _ = none

-- A message is the letter 'a', or words.
pub data Message : Type 0 where
  letter_a : Message
  words : List ℕ → Message

abbrev pub byte_size : Message → ℕ
byte_size letter_a = 1
byte_size (words ws) = 8 * length ws

abbrev pub serialize_all : List PartialReachableSet → List ℕ
unfolding serialize
serialize_all [] = []
serialize_all (s ∷ sets) = serialize s ++ serialize_all sets

-- What a host sends: an empty buffer is filled up with a letter.
pub send_sets : List PartialReachableSet → Message
send_sets sets = let ws = serialize_all sets in if length ws == 0 then letter_a else words ws

-- `while (buf.size() > 0)`, on fuel.
pub receive_sets : ℕ → List ℕ → Option (List PartialReachableSet)
unfolding deserialize
receive_sets zero [] = some []
receive_sets zero (word ∷ buf) = none
receive_sets (suc fuel) [] = some []
receive_sets (suc fuel) (word ∷ buf) = do
  r ← deserialize (word ∷ buf)
  sets ← receive_sets fuel r.1
  some (r.0 ∷ sets)

-- Short buffers are skipped.
pub read_sets : Message → Option (List PartialReachableSet)
unfolding receive_sets
read_sets letter_a = some []
read_sets (words ws) = if ltb (8 * length ws) 16 then some [] else receive_sets (length ws) ws

-- What the host `host` gets: `outboxes` has for each host, from `i` on, the lists of the sets that
-- it keeps for each host. The buffer of the host itself stays empty.
unfoldable pub receive_partial_sets :
    ℕ → ℕ → List (List (List PartialReachableSet)) → Option (List PartialReachableSet)
unfolding send_sets read_sets
receive_partial_sets host i [] = some []
receive_partial_sets host i (outbox ∷ outboxes) = do
  received ← read_sets (if i == host then words [] else send_sets (get_or outbox host []))
  rest ← receive_partial_sets host (suc i) outboxes
  some (received ++ rest)

-- `ExchangePartialSets` on the host `host`, when the hosts keep `outboxes`: the sets that it gets,
-- and its own lists, which are cleared.
unfoldable pub exchange_partial_sets :
    ℕ
    → List (List (List PartialReachableSet))
    → Option (List PartialReachableSet × List (List PartialReachableSet))
unfolding receive_partial_sets
exchange_partial_sets host outboxes = do
  received ← receive_partial_sets host 0 outboxes
  some (received, map (λ sets. []) (get_or outboxes host []))
