-- ===== src/Batches/Decimal.antt =====
-- Numbers that a stream writes and reads: `<<` and `>>` of Batches.Streams.
use graph_log_sketch.Base.{
  ℕ, zero, suc, ◌+◌, ◌-◌, ◌*◌, ◌/◌, ◌%◌, ◌<◌, ◌≡◌, refl, ◌∙◌, inl, inr, true, false, [], ◌∷◌, ◌++◌,
  All, arith, ltb, lt→ltb, ◌==◌, Bool-cases,
}
use graph_log_sketch.Base.Text.{
  Text, is_digit, is_space, skip_spaces, digits_value, starts_with_digit,
}
use graph_log_sketch.Graph.{u64_mod}
use graph_log_sketch.Batches.Streams.{
  space, after_digits, is_empty, extract_digits, extract_number, extract, digits, decimal,
}

abbrev IsDigits : Text → Type 0
IsDigits = All (λ c. is_digit c ≡ true)

abbrev pow10 : ℕ → ℕ
pow10 zero = 1
pow10 (suc k) = pow10 k * 10

digits_value-append :
    (acc : ℕ) (ds rest : Text)
    → IsDigits ds
    → starts_with_digit rest ≡ false
    → digits_value acc (ds ++ rest) ≡ digits_value acc ds
digits_value-append acc [] [] all off = refl
digits_value-append acc [] (c ∷ cs) all off = rw off refl
digits_value-append acc (d ∷ ds) rest (one, all) off =
    rw one (digits_value-append (acc * 10 + (d - 48)) ds rest all off)

digits_value-snoc :
    (acc : ℕ) (ds : Text) (r : ℕ)
    → IsDigits ds
    → r < 10
    → digits_value acc (ds ++ (48 + r) ∷ []) ≡ digits_value acc ds * 10 + r
digits_value-snoc acc [] r all h = ground arith
digits_value-snoc acc (d ∷ ds) r (one, all) h =
    rw one (digits_value-snoc (acc * 10 + (d - 48)) ds r all h)

after_digits-append :
    (ds rest : Text)
    → IsDigits ds
    → starts_with_digit rest ≡ false
    → after_digits (ds ++ rest) ≡ rest
after_digits-append [] [] all off = refl
after_digits-append [] (c ∷ cs) all off = rw off refl
after_digits-append (d ∷ ds) rest (one, all) off = rw one (after_digits-append ds rest all off)

IsDigits-snoc : (ds : Text) (r : ℕ) → IsDigits ds → r < 10 → IsDigits (ds ++ (48 + r) ∷ [])
IsDigits-snoc [] r all h = (ground arith, tt)
IsDigits-snoc (d ∷ ds) r (one, all) h = (one, IsDigits-snoc ds r all h)

starts_with_digit-snoc :
    (ds : Text) (r : ℕ) → IsDigits ds → r < 10 → starts_with_digit (ds ++ (48 + r) ∷ []) ≡ true
starts_with_digit-snoc [] r all h = ground arith
starts_with_digit-snoc (d ∷ ds) r (one, all) h = one

-- A text of digits for the number, and at least one.
abbrev IsNumeral : Text → ℕ → Type 0
IsNumeral ds n = IsDigits ds × (starts_with_digit ds ≡ true) × (digits_value 0 ds ≡ n)

-- The digits of a number that has at most `suc fuel` of them.
digits-IsNumeral : (fuel n : ℕ) → n < pow10 (suc fuel) → IsNumeral (digits (suc fuel) n) n
digits-IsNumeral zero n h =
    rw (lt→ltb n 10 (omega arith)) ((ground arith, tt), ground arith, ground arith)
digits-IsNumeral (suc fuel) n h = elim (Bool-cases (ltb n 10)) [
  | inl e ↦ rw e ((ground arith, tt), ground arith, ground arith)
  | inr e ↦
      let (all, starts, value) = digits-IsNumeral fuel (n / 10) (omega arith) in
      rw e (
        IsDigits-snoc (digits (suc fuel) (n / 10)) (n % 10) all (omega arith),
        starts_with_digit-snoc (digits (suc fuel) (n / 10)) (n % 10) all (omega arith),
        digits_value-snoc 0 (digits (suc fuel) (n / 10)) (n % 10) all (omega arith) ∙ omega arith,
      )
]

pub decimal-IsNumeral : (n : ℕ) → n < u64_mod → IsNumeral (decimal n) n
unfolding decimal
decimal-IsNumeral n h = digits-IsNumeral 19 n (omega arith)

extract_digits_lem :
    (n : ℕ) (cs left : Text)
    → starts_with_digit cs ≡ true
    → digits_value 0 cs ≡ n
    → after_digits cs ≡ left
    → n < u64_mod
    → extract_digits false cs ≡ (record { rest = left; eof = is_empty left; fail = false }, n)
extract_digits_lem n cs left starts value behind h =
    rw (starts, value, behind, lt→ltb n u64_mod h) refl

-- A numeral is read up to where it ends.
extract_number-IsNumeral :
    (old n : ℕ) (ds rest : Text)
    → IsNumeral ds n
    → n < u64_mod
    → starts_with_digit rest ≡ false
    → extract_number old (skip_spaces (ds ++ rest))
      ≡ (record { rest = rest; eof = is_empty rest; fail = false }, n)
extract_number-IsNumeral old n [] rest (all, starts, value) h off = absurd (ground arith)
extract_number-IsNumeral old n (d ∷ ds) rest (all, starts, value) h off =
    let not_space : is_space d ≡ false = ground arith in
    let no_minus : (d == 45) ≡ false = ground arith in
    let no_plus : (d == 43) ≡ false = ground arith in
    let whole = digits_value-append 0 (d ∷ ds) rest all off ∙ value in
    let left = after_digits-append (d ∷ ds) rest all off in
    rw (not_space, no_minus, no_plus)
      (extract_digits_lem n (d ∷ (ds ++ rest)) rest starts whole left h)

pub extract-decimal :
    (old n : ℕ) (rest : Text)
    → n < u64_mod
    → starts_with_digit rest ≡ false
    → extract old (record { rest = decimal n ++ rest; eof = false; fail = false })
      ≡ (record { rest = rest; eof = is_empty rest; fail = false }, n)
unfolding extract
extract-decimal old n rest h off =
    extract_number-IsNumeral old n (decimal n) rest (decimal-IsNumeral n h) h off

-- A space in front is passed over.
pub extract-space-decimal :
    (old n : ℕ) (rest : Text)
    → n < u64_mod
    → starts_with_digit rest ≡ false
    → extract old (record { rest = space ∷ decimal n ++ rest; eof = false; fail = false })
      ≡ (record { rest = rest; eof = is_empty rest; fail = false }, n)
unfolding extract
extract-space-decimal old n rest h off =
    extract_number-IsNumeral old n (decimal n) rest (decimal-IsNumeral n h) h off
