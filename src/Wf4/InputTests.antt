-- ===== src/Wf4/InputTests.antt =====
-- Runs of the option and line parsers, and their theorems there.
use graph_log_sketch.Base.{ℕ, ◌≤◌, ◌<◌, ◌≡◌, ◌↔◌, refl, some, [], ◌∷◌, arith}
use graph_log_sketch.Base.Int.{pos}
use graph_log_sketch.Base.Text.{Text, same_text, stoull}
use graph_log_sketch.Wf4.Network.{sale, person, device}
use graph_log_sketch.Wf4.Import.{
  FullNetworkEdge, FullNetworkNode, parsed_node, parsed_edges, half_max, device_id, device_text,
  new_node, parse_node, parse_uses,
}
use graph_log_sketch.Wf4.Import.Ids.{parse_uses-parse_node, parse_node_injective}
use graph_log_sketch.Wf4.Options.{defaults, parse, input_files}
use graph_log_sketch.Wf4.Options.Checked.{number_of_files, parse-number_of_files}

-- "7" and "12"
abbrev seven : Text
seven = 55 ∷ []

abbrev twelve : Text
twelve = 49 ∷ 50 ∷ []

stoull_run : stoull (32 ∷ 43 ∷ 49 ∷ 50 ∷ 44 ∷ []) ≡ some 12
unfolding stoull
stoull_run = refl

abbrev raw : FullNetworkEdge
raw = record {
  date = 0;
  amount = pos 0;
  weight = record { numerator = pos 0; denominator = pos 1 };
  type = sale;
  src_type = person;
  dst_type = person;
  src = 0;
  dst = 0;
  src_glbid = 18446744073709551615;
  dst_glbid = 18446744073709551615;
  topic = 0;
  epoch_time = 0;
  duration = 0;
  protocol = 0;
  src_port = 0;
  dst_port = 0;
  src_packets = 0;
  dst_packets = 0;
  src_bytes = 0;
  dst_bytes = 0;
}

-- An encoding of the two names.
abbrev encode : Text → ℕ
encode (c ∷ []) = 7
encode _ = 12

parse_uses-parse_node_example :
    (edge : FullNetworkEdge) × (node : FullNetworkNode) × (parse_uses raw (seven ∷ twelve ∷ [])
      ≡ some (parsed_edges (edge ∷ [])))
    × (parse_node encode 0 (device_text ∷ twelve ∷ []) ≡ parsed_node node)
    × (edge.dst ≡ node.id)
    × (edge.src ≡ 7)
    × (half_max ≤ node.id)
    × (node.id < 18446744073709551616)
unfolding stoull
parse_uses-parse_node_example = parse_uses-parse_node encode raw 0 12 7 seven twelve refl refl refl

parse_node_injective_example : (device_id 7 ≡ 12) ↔ (
    (same_text device_text device_text ≡ same_text seven device_text)
    × (encode seven ≡ encode twelve))
unfolding parse_node
parse_node_injective_example =
    parse_node_injective encode 0 device_text seven seven twelve (omega arith) (omega arith)
      (new_node 0 (device_id 7) device) (new_node 0 12 person) refl refl

-- -k 7 -d 12
parse-number_of_files_example :
    (0 < 7)
    × (0 < 100000)
    × (0 < number_of_files (input_files (record defaults { k = 7; input_directory = twelve })))
unfolding parse
parse-number_of_files_example =
    parse-number_of_files ((107, seven) ∷ (100, twelve) ∷ [])
      (record defaults { k = 7; input_directory = twelve }) refl
