-- ===== src/Base/Text.antt =====
-- Strings as the lists of their character codes, and the conversions of the standard library that
-- the parsers call.
use Prim.Native.Nat.{ℕ, ◌+◌, ◌-◌, ◌*◌, ◌%◌}
use mathlib.Core.Bool.{Bool, true, false, ◌&&◌, ◌||◌}
use mathlib.Core.Option.{Option, none, some}
use mathlib.Core.List.{List, [], ◌∷◌}
use graph_log_sketch.Base.Tests.{ltb, leb, ◌==◌, if◌then◌else◌}

-- 2 ^ 64.
abbrev word_mod : ℕ
word_mod = 18446744073709551616

abbrev pub Text : Type 0
Text = List ℕ

-- `==` on strings.
abbrev pub same_text : Text → Text → Bool
same_text [] [] = true
same_text [] (y ∷ ys) = false
same_text (x ∷ xs) [] = false
same_text (x ∷ xs) (y ∷ ys) = x == y && same_text xs ys

-- `isspace` and `isdigit`.
abbrev pub is_space : ℕ → Bool
is_space c = c == 32 || (leb 9 c && leb c 13)

abbrev pub is_digit : ℕ → Bool
is_digit c = leb 48 c && leb c 57

abbrev pub skip_spaces : Text → Text
skip_spaces [] = []
skip_spaces (c ∷ cs) = let rest = skip_spaces cs in if is_space c then rest else c ∷ cs

-- The value of the digits up to the first other character.
abbrev pub digits_value : ℕ → Text → ℕ
digits_value acc [] = acc
digits_value acc (c ∷ cs) =
    let rest = digits_value (acc * 10 + (c - 48)) cs in if is_digit c then rest else acc

abbrev pub starts_with_digit : Text → Bool
starts_with_digit [] = false
starts_with_digit (c ∷ cs) = is_digit c

-- Digits behind a sign; `none` for `std::invalid_argument` and `std::out_of_range`.
abbrev pub unsigned_of : Bool → Text → Option ℕ
unsigned_of negative cs =
    let value = digits_value 0 cs in
    if starts_with_digit cs && ltb value word_mod
    then some (if negative then (word_mod - value) % word_mod else value)
    else none

abbrev pub signed_digits : Text → Option ℕ
signed_digits [] = none
signed_digits (c ∷ cs) =
    if c == 45
    then unsigned_of true cs
    else if c == 43
    then unsigned_of false cs
    else unsigned_of false (c ∷ cs)

-- `std::stoull`.
unfoldable pub stoull : Text → Option ℕ
stoull text = signed_digits (skip_spaces text)
