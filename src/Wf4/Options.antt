-- ===== src/Wf4/Options.antt =====
-- wf4/src/main.cpp and wf4/include/wf4/graph.hpp: the command line options, and the input files that
-- they name.
pub mod Checked
use graph_log_sketch.Base.{
  ℕ, ◌+◌, ◌-◌, ◌%◌, Bool, true, false, not, ◌&&◌, ◌||◌, Option, none, some, List, [], ◌∷◌, ◌++◌,
  ltb, ◌==◌, ◌>>=◌, if◌then◌else◌, length,
}
use graph_log_sketch.Graph.{u64_mod}
use graph_log_sketch.Base.Text.{Text, skip_spaces, digits_value}

-- `strtoull(text, nullptr, 10)`: what is no number counts as 0, and a number that is too large as
-- the largest one.
abbrev pub saturated : Bool → Text → ℕ
saturated negative cs =
    let value = digits_value 0 cs in
    if not (ltb value u64_mod)
    then u64_mod - 1
    else if negative
    then (u64_mod - value) % u64_mod
    else value

abbrev pub saturated_digits : Text → ℕ
saturated_digits [] = 0
saturated_digits (c ∷ cs) =
    if c == 45
    then saturated true cs
    else if c == 43
    then saturated false cs
    else saturated false (c ∷ cs)

unfoldable pub strtoull : Text → ℕ
strtoull text = saturated_digits (skip_spaces text)

-- `ProgramOptions`.
pub record ProgramOptions : Type 0 where
  pub num_threads : ℕ
  pub k : ℕ
  pub rrr : ℕ
  pub seed : ℕ
  pub epochs : ℕ
  pub input_directory : Text
  pub commercial_input_file : Text
  pub cyber_input_file : Text
  pub social_input_file : Text
  pub uses_input_file : Text
  pub nodes_input_file : Text

abbrev pub defaults : ProgramOptions
defaults = record {
  num_threads = 16;
  k = 100;
  rrr = 100000;
  seed = 98011089;
  epochs = 100;
  input_directory = [];
  commercial_input_file = [];
  cyber_input_file = [];
  social_input_file = [];
  uses_input_file = [];
  nodes_input_file = [];
}

-- The `switch` on the letter that `getopt` returns; `none` for the usage text and the exit.
unfoldable pub parse_option : ProgramOptions → ℕ × Text → Option ProgramOptions
unfolding strtoull
parse_option o (opt, optarg) =
    if opt == 116
    then some (record o { num_threads = strtoull optarg })
    else if opt == 107
    then some (record o { k = strtoull optarg })
    else if opt == 114
    then some (record o { rrr = strtoull optarg })
    else if opt == 115
    then some (record o { seed = strtoull optarg })
    else if opt == 101
    then some (record o { epochs = strtoull optarg })
    else if opt == 100
    then some (record o { input_directory = optarg })
    else if opt == 99
    then some (record o { commercial_input_file = optarg })
    else if opt == 121
    then some (record o { cyber_input_file = optarg })
    else if opt == 111
    then some (record o { social_input_file = optarg })
    else if opt == 117
    then some (record o { uses_input_file = optarg })
    else if opt == 110
    then some (record o { nodes_input_file = optarg })
    else none

pub parse_options : ProgramOptions → List (ℕ × Text) → Option ProgramOptions
unfolding parse_option
parse_options o [] = some o
parse_options o (arg ∷ args) = do next ← parse_option o arg; parse_options next args

abbrev pub is_empty : Text → Bool
is_empty text = length text == 0

-- `Verify`.
unfoldable pub verify : ProgramOptions → Bool
verify o =
    if o.k == 0
    then false
    else if o.rrr == 0
    then false
    else not (
        is_empty o.input_directory
        && is_empty o.commercial_input_file
        && is_empty o.cyber_input_file
        && is_empty o.social_input_file
        && is_empty o.uses_input_file
        && is_empty o.nodes_input_file)

-- `Parse` on what `getopt` returns, call by call.
unfoldable pub parse : List (ℕ × Text) → Option ProgramOptions
unfolding parse_options verify
parse args = do o ← parse_options defaults args; if verify o then some o else none

-- `InputFiles`.
pub record InputFiles : Type 0 where
  pub commercial_files : List Text
  pub cyber_files : List Text
  pub social_files : List Text
  pub uses_files : List Text
  pub nodes_files : List Text

-- The files of one kind: the one in the directory, if there is a directory, and the one that is
-- given, if one is given.
pub files_of : Text → Text → Text → List Text
files_of input_directory name file =
    (if is_empty input_directory then [] else (input_directory ++ name) ∷ [])
    ++ (if is_empty file then [] else file ∷ [])

-- "/commercial.csv", "/cyber.csv", "/social.csv", "/uses.csv" and "/nodes.csv"
abbrev pub commercial_csv : Text
commercial_csv =
    47 ∷ 99 ∷ 111 ∷ 109 ∷ 109 ∷ 101 ∷ 114 ∷ 99 ∷ 105 ∷ 97 ∷ 108 ∷ 46 ∷ 99 ∷ 115 ∷ 118 ∷ []

abbrev pub cyber_csv : Text
cyber_csv = 47 ∷ 99 ∷ 121 ∷ 98 ∷ 101 ∷ 114 ∷ 46 ∷ 99 ∷ 115 ∷ 118 ∷ []

abbrev pub social_csv : Text
social_csv = 47 ∷ 115 ∷ 111 ∷ 99 ∷ 105 ∷ 97 ∷ 108 ∷ 46 ∷ 99 ∷ 115 ∷ 118 ∷ []

abbrev pub uses_csv : Text
uses_csv = 47 ∷ 117 ∷ 115 ∷ 101 ∷ 115 ∷ 46 ∷ 99 ∷ 115 ∷ 118 ∷ []

abbrev pub nodes_csv : Text
nodes_csv = 47 ∷ 110 ∷ 111 ∷ 100 ∷ 101 ∷ 115 ∷ 46 ∷ 99 ∷ 115 ∷ 118 ∷ []

-- The constructor `InputFiles`, with the options that `main` gives it.
unfoldable pub input_files : ProgramOptions → InputFiles
unfolding files_of
input_files o = record {
  commercial_files = files_of o.input_directory commercial_csv o.commercial_input_file;
  cyber_files = files_of o.input_directory cyber_csv o.cyber_input_file;
  social_files = files_of o.input_directory social_csv o.social_input_file;
  uses_files = files_of o.input_directory uses_csv o.uses_input_file;
  nodes_files = files_of o.input_directory nodes_csv o.nodes_input_file;
}
