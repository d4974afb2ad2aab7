-- ===== src/Batches/Streams.antt =====
-- What the batch programs use of the standard library's streams: `std::getline`, and `>>` into a
-- uint64_t and `<<` of one, as libstdc++ has them.
use graph_log_sketch.Base.{
  ℕ, zero, suc, ◌+◌, ◌-◌, ◌/◌, ◌%◌, Bool, true, false, not, ◌||◌, Option, some, List, [], ◌∷◌, ◌++◌,
  ltb, ◌==◌, if◌then◌else◌, ◌>>=◌,
}
use graph_log_sketch.Base.Text.{Text, is_digit, skip_spaces, digits_value, starts_with_digit}
use graph_log_sketch.Graph.{u64_mod}

abbrev pub newline : ℕ
newline = 10

abbrev pub space : ℕ
space = 32

-- `std::istringstream`: what is left to read, and the two flags.
pub record Stream : Type 0 where
  pub rest : Text
  pub eof : Bool
  pub fail : Bool

abbrev pub open_stream : Text → Stream
open_stream text = record { rest = text; eof = false; fail = false }

abbrev pub after_digits : Text → Text
after_digits [] = []
after_digits (c ∷ cs) = let rest = after_digits cs in if is_digit c then rest else c ∷ cs

abbrev pub is_empty {ℓ} : {A : Type ℓ} → List A → Bool
is_empty [] = true
is_empty (x ∷ xs) = false

-- The digits behind a sign. Without a digit the value is 0 and the stream fails; a number that is
-- too large is cut down and the stream fails.
abbrev pub extract_digits : Bool → Text → Stream × ℕ
extract_digits negative cs =
    let value = digits_value 0 cs in
    let left = after_digits cs in
    if not (starts_with_digit cs)
    then (record { rest = cs; eof = is_empty cs; fail = true }, 0)
    else if ltb value u64_mod
    then (
      record { rest = left; eof = is_empty left; fail = false },
      if negative then (u64_mod - value) % u64_mod else value,
    )
    else (record { rest = left; eof = is_empty left; fail = true }, u64_mod - 1)

abbrev pub extract_number : ℕ → Text → Stream × ℕ
extract_number old [] = (record { rest = []; eof = true; fail = true }, old)
extract_number old (c ∷ cs) =
    if c == 45
    then extract_digits true cs
    else if c == 43
    then extract_digits false cs
    else extract_digits false (c ∷ cs)

-- `stream >> x`, where `x` holds `old`: the value stays if the stream is not good or only spaces
-- are left.
unfoldable pub extract : ℕ → Stream → Stream × ℕ
extract old s =
    if s.eof || s.fail
    then (record s { fail = true }, old)
    else extract_number old (skip_spaces s.rest)

-- An input file: its complete lines, and what stands behind the last of them.
pub record Input : Type 0 where
  pub lines : List Text
  pub tail : Text
  pub eof : Bool

abbrev push_char : ℕ → List Text → Text → List Text × Text
push_char c [] tail = ([], c ∷ tail)
push_char c (line ∷ lines) tail = ((c ∷ line) ∷ lines, tail)

abbrev pub split_lines : Text → List Text × Text
split_lines [] = ([], [])
split_lines (c ∷ cs) =
    let (lines, tail) = split_lines cs in
    if c == newline then ([] ∷ lines, tail) else push_char c lines tail

abbrev pub open_input : Text → Input
open_input text =
    let (lines, tail) = split_lines text in record { lines = lines; tail = tail; eof = false }

-- How the body of a loop over lines ends: in the next round, or by `break`.
pub data Outcome {ℓ} (A : Type ℓ) : Type ℓ where
  going : A → Outcome A
  stopped : A → Outcome A

abbrev pub result {ℓ} : {A : Type ℓ} → Outcome A → A
result (going a) = a
result (stopped a) = a

module _ {ℓ} {A : Type ℓ} (body : A → Text → Option (Outcome A)) where
  abbrev ended : Input
  ended = record { lines = []; tail = []; eof = true }

  -- The last line, which no newline ends; reading it sets the flag.
  abbrev pub read_tail : Text → Bool → A → Option (A × Input)
  read_tail tail true acc = some (acc, ended)
  read_tail [] false acc = some (acc, ended)
  read_tail (c ∷ cs) false acc = body acc (c ∷ cs) >>= λ out. some (result out, ended)

  -- `while (std::getline(in, line))` with a `break` at an empty line; `none` means that the body
  -- does not return.
  unfoldable pub read_batch : List Text → Text → Bool → A → Option (A × Input)
  read_batch [] tail eof acc = read_tail tail eof acc
  read_batch ([] ∷ lines) tail eof acc =
      some (acc, record { lines = lines; tail = tail; eof = eof })
  read_batch ((c ∷ cs) ∷ lines) tail eof acc = body acc (c ∷ cs) >>= λ out. elim out [
    | going acc' ↦ read_batch lines tail eof acc'
    | stopped acc' ↦ some (acc', record { lines = lines; tail = tail; eof = eof })
  ]

-- `stream << n`, with at most that many digits.
abbrev pub digits : ℕ → ℕ → Text
digits zero n = []
digits (suc fuel) n =
    let rest = digits fuel (n / 10) in
    if ltb n 10 then (48 + n) ∷ [] else rest ++ (48 + n % 10) ∷ []

-- A uint64_t has at most 20 digits.
unfoldable pub decimal : ℕ → Text
decimal n = digits 20 n
