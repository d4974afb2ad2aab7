-- ===== src/Wf4/Quiesce/Claims.antt =====
-- wf4/src/quiesce.cpp: the claims of threads on one seller, between the addition to `sold_` and the
-- comparison.
use graph_log_sketch.Base.{◌≡◌, ◌⊎◌, inl, inr, List, [], ◌∷◌, ◌++◌, arith, All}
use graph_log_sketch.Base.Int.{ℤ, pos, ◌+ℤ◌, ◌≤ℤ◌, int_laws, eq_parts}

-- A thread between its addition and its comparison: the amount, and the sum that the addition
-- returned.
pub record Claim : Type 0 where
  pub delta : ℤ
  pub seller_sold : ℤ

abbrev pub deltas : List Claim → ℤ
deltas [] = pos 0
deltas (c ∷ cs) = c.delta +ℤ deltas cs

-- Each open claim, kept together with all goods kept so far and all older claims, would stay
-- within the sum that its addition returned, or within what is bought by now.
abbrev pub Bounded : ℤ → ℤ → List Claim → Type 0
Bounded k b [] = Unit
Bounded k b (c ∷ cs) =
    ((k +ℤ c.delta ≤ℤ c.seller_sold) ⊎ (k +ℤ c.delta ≤ℤ b))
    × (pos 0 ≤ℤ c.delta)
    × Bounded (k +ℤ c.delta) b cs

pub Bounded-mono :
    (k k' b b' : ℤ) (cs : List Claim) → k' ≤ℤ k → b ≤ℤ b' → Bounded k b cs → Bounded k' b' cs
Bounded-mono k k' b b' [] h p q = tt
Bounded-mono k k' b b' (c ∷ cs) h p (inl l, pos_c, q) = (
  inl (omega int_laws),
  pos_c,
  Bounded-mono (k +ℤ c.delta) (k' +ℤ c.delta) b b' cs (omega int_laws) p q,
)
Bounded-mono k k' b b' (c ∷ cs) h p (inr l, pos_c, q) = (
  inr (omega int_laws),
  pos_c,
  Bounded-mono (k +ℤ c.delta) (k' +ℤ c.delta) b b' cs (omega int_laws) p q,
)

pub deltas-append :
    (before after : List Claim) (c : Claim)
    → deltas (before ++ c ∷ after) ≡ deltas (before ++ after) +ℤ c.delta
deltas-append [] after c = omega int_laws
deltas-append (x ∷ before) after c = omega (int_laws, eq_parts (deltas-append before after c))

pub Bounded-add :
    (k b : ℤ) (cs : List Claim) (c : Claim)
    → Bounded k b cs
    → pos 0 ≤ℤ c.delta
    → k +ℤ deltas cs +ℤ c.delta ≤ℤ c.seller_sold
    → Bounded k b (cs ++ c ∷ [])
Bounded-add k b [] c h p q = (inl (omega int_laws), p, tt)
Bounded-add k b (x ∷ cs) c h p q =
    (h.0, h.1, Bounded-add (k +ℤ x.delta) b cs c h.2 p (omega int_laws))

pub Bounded-remove :
    (k b : ℤ) (before after : List Claim) (c : Claim)
    → Bounded k b (before ++ c ∷ after)
    → Bounded k b (before ++ after)
Bounded-remove k b [] after c h =
    Bounded-mono (k +ℤ c.delta) k b b after (omega (int_laws, h.1)) (omega arith) h.2
Bounded-remove k b (x ∷ before) after c h =
    (h.0, h.1, Bounded-remove (k +ℤ x.delta) b before after c h.2)

pub Bounded-keep :
    (k b : ℤ) (before after : List Claim) (c : Claim)
    → c.seller_sold ≤ℤ b
    → Bounded k b (before ++ c ∷ after)
    → (k +ℤ c.delta ≤ℤ b) × Bounded (k +ℤ c.delta) b (before ++ after)
Bounded-keep k b [] after c p (inl l, _, q) = (omega int_laws, q)
Bounded-keep k b [] after c p (inr l, _, q) = (l, q)
Bounded-keep k b (x ∷ before) after c p (_, pos_x, q) =
    let (le, rest) = Bounded-keep (k +ℤ x.delta) b before after c p q in
    (
      omega int_laws,
      (
        inr (omega int_laws),
        pos_x,
        Bounded-mono (k +ℤ x.delta +ℤ c.delta) (k +ℤ c.delta +ℤ x.delta) b b (before ++ after)
            (omega int_laws) (omega arith) rest,
      ),
    )

abbrev pub amounts : List ℤ → ℤ
amounts [] = pos 0
amounts (a ∷ xs) = a +ℤ amounts xs

pub amounts-append :
    (before after : List ℤ) (a : ℤ) → amounts (before ++ a ∷ after) ≡ amounts (before ++ after) +ℤ a
amounts-append [] after a = omega int_laws
amounts-append (x ∷ before) after a = omega (int_laws, eq_parts (amounts-append before after a))

abbrev pub ArePositive : List ℤ → Type 0
ArePositive = All (λ a. pos 0 ≤ℤ a)

pub ArePositive-remove :
    (before after : List ℤ) (a : ℤ)
    → ArePositive (before ++ a ∷ after)
    → (pos 0 ≤ℤ a) × ArePositive (before ++ after)
ArePositive-remove [] after a h = h
ArePositive-remove (x ∷ before) after a (one, h) =
    let (le, rest) = ArePositive-remove before after a h in (le, (one, rest))

pub amounts_positive : (xs : List ℤ) → ArePositive xs → pos 0 ≤ℤ amounts xs
amounts_positive [] h = omega int_laws
amounts_positive (a ∷ xs) (one, h) = omega (int_laws, one, amounts_positive xs h)

pub deltas_positive : (k b : ℤ) (cs : List Claim) → Bounded k b cs → pos 0 ≤ℤ deltas cs
deltas_positive k b [] h = omega int_laws
deltas_positive k b (c ∷ cs) (le, one, h) =
    omega (int_laws, one, deltas_positive (k +ℤ c.delta) b cs h)

pub claim_positive :
    (k b : ℤ) (before after : List Claim) (c : Claim)
    → Bounded k b (before ++ c ∷ after)
    → pos 0 ≤ℤ c.delta
claim_positive k b [] after c (le, one, h) = one
claim_positive k b (x ∷ before) after c (le, one, h) =
    claim_positive (k +ℤ x.delta) b before after c h
