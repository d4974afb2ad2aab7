-- ===== src/Wf4/Quiesce/Solvency.antt =====
-- wf4/src/quiesce.cpp: what holds of a seller while threads reserve its goods.
use graph_log_sketch.Base.{◌≡◌, ap, subst, List, [], ◌∷◌, ◌++◌, append-nil, arith}
use graph_log_sketch.Base.Int.{ℤ, pos, ◌+ℤ◌, ◌-ℤ◌, ◌≤ℤ◌, int_laws, eq_parts}
use graph_log_sketch.Wf4.Quiesce.Claims.{
  Claim, deltas, Bounded, Bounded-mono, deltas-append, Bounded-add, Bounded-remove, Bounded-keep,
  amounts, amounts-append, ArePositive, ArePositive-remove, amounts_positive, deltas_positive,
  claim_positive,
}

-- The seller as the threads see it, oldest claim first. `refused` has the amounts of the threads
-- that found the sum too large and have not subtracted yet. No thread reads the last two fields:
-- `kept` is what the threads have kept so far, and `asked` is what was sold and bought at first
-- and all amounts since then together.
pub record Seller : Type 0 where
  pub sold : ℤ
  pub bought : ℤ
  pub claims : List Claim
  pub refused : List ℤ
  pub kept : ℤ
  pub asked : ℤ

pub record Inv (s : Seller) : Type 0 where
  pub total : s.sold ≡ s.kept +ℤ deltas s.claims +ℤ amounts s.refused
  pub positive : pos 0 ≤ℤ s.kept
  pub within : s.kept ≤ℤ s.bought
  pub bounded : Bounded s.kept s.bought s.claims
  pub returned : ArePositive s.refused
  pub enough : s.sold +ℤ s.bought ≤ℤ s.asked

module _ (s : Seller) (h : Inv s) where
  pub sold_positive : pos 0 ≤ℤ s.sold
  sold_positive = omega (
    int_laws,
    eq_parts h.total,
    h.positive,
    deltas_positive s.kept s.bought s.claims h.bounded,
    amounts_positive s.refused h.returned,
  )

  pub add-Inv :
      (delta sum : ℤ)
      → pos 0 ≤ℤ delta
      → sum ≡ s.sold +ℤ delta
      → Inv (record s {
        sold = sum;
        claims = s.claims ++ (record { delta = delta; seller_sold = sum }) ∷ [];
        asked = s.asked +ℤ delta;
      })
  add-Inv delta sum p e =
      let c : Claim = record { delta = delta; seller_sold = sum } in
      record {
        total = omega (
          int_laws,
          eq_parts e,
          eq_parts h.total,
          eq_parts (deltas-append s.claims [] c),
          eq_parts (ap deltas (append-nil s.claims)),
        );
        positive = h.positive;
        within = h.within;
        bounded =
            Bounded-add s.kept s.bought s.claims c h.bounded p (
              omega
                (int_laws, eq_parts e, eq_parts h.total, amounts_positive s.refused h.returned));
        returned = h.returned;
        enough = omega (int_laws, eq_parts e, h.enough);
      }

  pub refuse-Inv :
      (before after : List Claim) (c : Claim)
      → s.claims ≡ before ++ c ∷ after
      → Inv (record s { claims = before ++ after; refused = c.delta ∷ s.refused })
  refuse-Inv before after c e =
      let bounded = subst (Bounded s.kept s.bought) e h.bounded in
      record {
        total = omega (
          int_laws,
          eq_parts h.total,
          eq_parts (ap deltas e),
          eq_parts (deltas-append before after c),
        );
        positive = h.positive;
        within = h.within;
        bounded = Bounded-remove s.kept s.bought before after c bounded;
        returned = (claim_positive s.kept s.bought before after c bounded, h.returned);
        enough = h.enough;
      }

  pub give_back-Inv :
      (before after : List ℤ) (delta rest : ℤ)
      → s.refused ≡ before ++ delta ∷ after
      → rest ≡ s.sold -ℤ delta
      → Inv (record s { sold = rest; refused = before ++ after })
  give_back-Inv before after delta rest e e' =
      let (one, all) = ArePositive-remove before after delta (subst ArePositive e h.returned) in
      record {
        total = omega (
          int_laws,
          eq_parts e',
          eq_parts h.total,
          eq_parts (ap amounts e),
          eq_parts (amounts-append before after delta),
        );
        positive = h.positive;
        within = h.within;
        bounded = h.bounded;
        returned = all;
        enough = omega (int_laws, eq_parts e', one, h.enough);
      }

  -- What is given back was in the sum.
  pub give_back_positive :
      (before after : List ℤ) (delta : ℤ)
      → s.refused ≡ before ++ delta ∷ after
      → (pos 0 ≤ℤ delta) × (pos 0 ≤ℤ s.sold -ℤ delta)
  give_back_positive before after delta e =
      let (one, all) = ArePositive-remove before after delta (subst ArePositive e h.returned) in
      (
        one,
        omega (
          int_laws,
          eq_parts h.total,
          h.positive,
          deltas_positive s.kept s.bought s.claims h.bounded,
          eq_parts (ap amounts e),
          eq_parts (amounts-append before after delta),
          amounts_positive (before ++ after) all,
        ),
      )

  pub keep-Inv :
      (before after : List Claim) (c : Claim)
      → s.claims ≡ before ++ c ∷ after
      → c.seller_sold ≤ℤ s.bought
      → Inv (record s { kept = s.kept +ℤ c.delta; claims = before ++ after })
  keep-Inv before after c e p =
      let bounded = subst (Bounded s.kept s.bought) e h.bounded in
      let (le, rest) = Bounded-keep s.kept s.bought before after c p bounded in
      record {
        total = omega (
          int_laws,
          eq_parts h.total,
          eq_parts (ap deltas e),
          eq_parts (deltas-append before after c),
        );
        positive =
            omega (int_laws, h.positive, claim_positive s.kept s.bought before after c bounded);
        within = le;
        bounded = rest;
        returned = h.returned;
        enough = h.enough;
      }

  pub buy-Inv :
      (amount sum : ℤ)
      → pos 0 ≤ℤ amount
      → sum ≡ s.bought +ℤ amount
      → Inv (record s { bought = sum; asked = s.asked +ℤ amount })
  buy-Inv amount sum p e = record {
    total = h.total;
    positive = h.positive;
    within = omega (int_laws, eq_parts e, h.within);
    bounded =
        Bounded-mono s.kept s.kept s.bought sum s.claims (omega arith)
          (omega (int_laws, eq_parts e)) h.bounded;
    returned = h.returned;
    enough = omega (int_laws, eq_parts e, h.enough);
  }
