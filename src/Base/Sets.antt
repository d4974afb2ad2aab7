-- ===== src/Base/Sets.antt =====
-- A hash set of vertices as the list of its members, in the order in which the set is iterated.
use Prim.Native.Nat.{ℕ, zero, suc, ◌+◌, ◌<◌, ◌≤◌}
use mathlib.Core.Path.{◌≡◌, refl}
use mathlib.Core.Logic.{inl, inr}
use mathlib.Core.Bool.{Bool, true, false}
use mathlib.Core.List.{List, [], ◌∷◌, ◌++◌}
use native.Mathlib.Omega.{arith}
use graph_log_sketch.Base.Tests.{◌==◌, if◌then◌else◌, eq-cases}
use graph_log_sketch.Base.Sums.{count}

abbrev pub contains : ℕ → List ℕ → Bool
contains a [] = false
contains a (x ∷ xs) = let rest = contains a xs in if a == x then true else rest

-- `emplace`.
abbrev pub insert_new : ℕ → List ℕ → List ℕ
insert_new a xs = if contains a xs then xs else xs ++ a ∷ []

-- `erase`.
abbrev pub erase : ℕ → List ℕ → List ℕ
erase a [] = []
erase a (x ∷ xs) = let rest = erase a xs in if a == x then rest else x ∷ rest

-- No member is listed twice.
abbrev pub HasNoRepeats : List ℕ → Type 0
HasNoRepeats [] = Unit
HasNoRepeats (x ∷ xs) = (count x xs ≡ 0) × HasNoRepeats xs

pub count-snoc : (v a : ℕ) (xs : List ℕ) → count v (xs ++ a ∷ []) ≡ count v xs + count v (a ∷ [])
count-snoc v a [] = omega arith
count-snoc v a (x ∷ xs) = ground (arith, count-snoc v a xs)

pub count-erase_ne : (v a : ℕ) (xs : List ℕ) → (v == a) ≡ false → count v (erase a xs) ≡ count v xs
count-erase_ne v a [] h = refl
count-erase_ne v a (x ∷ xs) h = ground (arith, count-erase_ne v a xs h)

pub contains-count : (v : ℕ) (xs : List ℕ) → count v xs ≡ 0 → contains v xs ≡ false
contains-count v [] h = refl
contains-count v (x ∷ xs) h = ground (arith, contains-count v xs)

contains-snoc_ne :
    (v a : ℕ) (xs : List ℕ) → (v == a) ≡ false → contains v (xs ++ a ∷ []) ≡ contains v xs
contains-snoc_ne v a [] h = ground arith
contains-snoc_ne v a (x ∷ xs) h = ground (arith, contains-snoc_ne v a xs h)

contains-snoc_self : (a : ℕ) (xs : List ℕ) → contains a (xs ++ a ∷ []) ≡ true
contains-snoc_self a [] = ground arith
contains-snoc_self a (x ∷ xs) = ground (arith, contains-snoc_self a xs)

-- How many of the numbers below `n` are not in the set.
abbrev pub missing : ℕ → List ℕ → ℕ
missing zero xs = 0
missing (suc n) xs = (if contains n xs then 0 else 1) + missing n xs

missing-snoc_ge : (n a : ℕ) (xs : List ℕ) → ¬ (a < n) → missing n (xs ++ a ∷ []) ≡ missing n xs
missing-snoc_ge zero a xs h = refl
missing-snoc_ge (suc n) a xs h = ground (arith, missing-snoc_ge n a xs, contains-snoc_ne n a xs)

pub missing-snoc :
    (n a : ℕ) (xs : List ℕ)
    → a < n
    → contains a xs ≡ false
    → suc (missing n (xs ++ a ∷ [])) ≡ missing n xs
missing-snoc zero a xs h e = absurd (omega arith)
missing-snoc (suc n) a xs h e = elim (eq-cases n a) [
  | inl same ↦ ground (arith, missing-snoc_ge n a xs, contains-snoc_self a xs)
  | inr ne ↦ ground (arith, missing-snoc n a xs, contains-snoc_ne n a xs)
]

pub missing-le : (n : ℕ) (xs : List ℕ) → missing n xs ≤ n
missing-le zero xs = omega arith
missing-le (suc n) xs = ground (arith, missing-le n xs)
