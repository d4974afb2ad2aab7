-- ===== src/Wf4/Options/Checked.antt =====
-- `ProgramOptions::Parse` and `InputFiles`: what `main` relies on.
use graph_log_sketch.Base.{
  ℕ, ◌+◌, ◌<◌, ◌≡◌, refl, subst, inl, inr, true, some, List, arith, if◌then◌else◌, Bool-cases,
  Option-cases, length,
}
use graph_log_sketch.Base.Text.{Text}
use graph_log_sketch.Wf4.Options.{
  ProgramOptions, defaults, parse_options, is_empty, verify, parse, InputFiles, files_of,
  input_files,
}
use mathlib.Core.Option.{some-injective, none-ne-some}

abbrev pub number_of_files : InputFiles → ℕ
number_of_files f =
    length f.commercial_files
    + length f.cyber_files
    + length f.social_files
    + length f.uses_files
    + length f.nodes_files

length-files_of :
    (directory name file : Text)
    → length (files_of directory name file)
      ≡ (if is_empty directory then 0 else 1) + (if is_empty file then 0 else 1)
unfolding files_of
length-files_of directory name file = elim (Bool-cases (is_empty directory)) [
  | inl e ↦ elim (Bool-cases (is_empty file)) [
    | inl e' ↦ rw (e, e') refl
    | inr e' ↦ rw (e, e') refl
  ]
  | inr e ↦ elim (Bool-cases (is_empty file)) [
    | inl e' ↦ rw (e, e') refl
    | inr e' ↦ rw (e, e') refl
  ]
]

verify-counts :
    (o : ProgramOptions)
    → verify o ≡ true
    → (0 < o.k) × (0 < o.rrr) × (0 < number_of_files (input_files o))
unfolding verify input_files
verify-counts o h = (
  ground arith,
  ground arith,
  ground (
    arith,
    length-files_of o.input_directory _ o.commercial_input_file,
    length-files_of o.input_directory _ o.cyber_input_file,
    length-files_of o.input_directory _ o.social_input_file,
    length-files_of o.input_directory _ o.uses_input_file,
    length-files_of o.input_directory _ o.nodes_input_file,
  ),
)

-- Options that are accepted ask for at least one influential node and at least one reverse
-- reachable set, and the program has at least one input file to read.
pub parse-number_of_files :
    (args : List (ℕ × Text)) (o : ProgramOptions)
    → parse args ≡ some o
    → (0 < o.k) × (0 < o.rrr) × (0 < number_of_files (input_files o))
unfolding parse
parse-number_of_files args o run = elim (Option-cases (parse_options defaults args)) [
  | inl e ↦ absurd (none-ne-some _ (rw e at run))
  | inr (parsed, e) ↦ elim (Bool-cases (verify parsed)) [
    | inl ok ↦
        subst (λ o'. (0 < o'.k) × (0 < o'.rrr) × (0 < number_of_files (input_files o')))
          (some-injective _ _ (rw (e, ok) at run)) (verify-counts parsed ok)
    | inr bad ↦ absurd (none-ne-some _ (rw (e, bad) at run))
  ]
]
