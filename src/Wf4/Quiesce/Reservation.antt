-- ===== src/Wf4/Quiesce/Reservation.antt =====
-- wf4/src/quiesce.cpp: the atomic steps of `TryQuiesceNode` and `TryAddEdge` on one seller, when
-- threads interleave: a thread adds to `sold_`, then compares the value that it got with `bought_`,
-- and either keeps the goods or, in a step of its own, subtracts again. Sums of doubles are rounded.
use graph_log_sketch.Base.{◌≡◌, ap, ◌∙◌, List, [], ◌∷◌, ◌++◌}
use graph_log_sketch.Base.Int.{ℤ, pos, ◌+ℤ◌, ◌-ℤ◌, ◌≤ℤ◌, int_laws, eq_parts}
use graph_log_sketch.Wf4.Quiesce.Claims.{Claim, deltas, amounts, amounts_positive, deltas_positive}
use graph_log_sketch.Wf4.Quiesce.Solvency.{
  Seller, Inv, sold_positive, add-Inv, refuse-Inv, give_back-Inv, give_back_positive, keep-Inv,
  buy-Inv,
}

-- Up to this number a double holds every integer.
abbrev pub exact_limit : ℤ
exact_limit = pos 9007199254740992

-- How a sum or a difference of doubles is rounded: an integer that a double holds stays.
pub record Rounding : Type 0 where
  pub round : ℤ → ℤ
  pub exact : (a : ℤ) → pos 0 ≤ℤ a → a ≤ℤ exact_limit → round a ≡ a

pub data Step (d : Rounding) : Seller → Seller → Type 0 where
  -- `atomicAdd(sold_, trade_delta) + trade_delta`, at whatever surplus the thread had read.
  add :
      (s : Seller) (delta : ℤ)
      → pos 0 ≤ℤ delta
      → Step d s (record s {
        sold = d.round (s.sold +ℤ delta);
        claims =
            s.claims ++ (record { delta = delta; seller_sold = d.round (s.sold +ℤ delta) }) ∷ [];
        asked = s.asked +ℤ delta;
      })
  -- `seller_sold > bought_`: the thread is about to subtract.
  refuse :
      (s : Seller) (before after : List Claim) (c : Claim)
      → s.claims ≡ before ++ c ∷ after
      → ¬ (c.seller_sold ≤ℤ s.bought)
      → Step d s (record s { claims = before ++ after; refused = c.delta ∷ s.refused })
  -- `atomicSubtract(sold_, trade_delta)` of any thread that is about to subtract.
  give_back :
      (s : Seller) (before after : List ℤ) (delta : ℤ)
      → s.refused ≡ before ++ delta ∷ after
      → Step d s (record s { sold = d.round (s.sold -ℤ delta); refused = before ++ after })
  -- Otherwise the goods are kept.
  keep :
      (s : Seller) (before after : List Claim) (c : Claim)
      → s.claims ≡ before ++ c ∷ after
      → c.seller_sold ≤ℤ s.bought
      → Step d s (record s { kept = s.kept +ℤ c.delta; claims = before ++ after })
  -- The seller is a buyer too, and another thread credits it.
  buy :
      (s : Seller) (amount : ℤ)
      → pos 0 ≤ℤ amount
      → Step d s (record s { bought = d.round (s.bought +ℤ amount); asked = s.asked +ℤ amount })

pub data Reach (d : Rounding) (s : Seller) : Seller → Type 0 where
  start : Reach d s s
  next : {t u : Seller} → Reach d s t → Step d t u → Reach d s u

-- No amount is taken back from the sum of all amounts.
Step-asked : (d : Rounding) {s t : Seller} → Step d s t → s.asked ≤ℤ t.asked
Step-asked d (add s delta p) = omega int_laws
Step-asked d (refuse s before after c e p) = omega int_laws
Step-asked d (give_back s before after delta e) = omega int_laws
Step-asked d (keep s before after c e p) = omega int_laws
Step-asked d (buy s amount p) = omega int_laws

Step-Inv : (d : Rounding) {s t : Seller} → Step d s t → t.asked ≤ℤ exact_limit → Inv s → Inv t
Step-Inv d (add s delta p) small h = add-Inv s h delta (d.round (s.sold +ℤ delta)) p (
    d.exact (s.sold +ℤ delta) (omega (int_laws, sold_positive s h))
      (omega (int_laws, h.enough, h.positive, h.within)))
Step-Inv d (refuse s before after c e p) small h = refuse-Inv s h before after c e
Step-Inv d (give_back s before after delta e) small h =
    let (one, rest) = give_back_positive s h before after delta e in
    give_back-Inv s h before after delta (d.round (s.sold -ℤ delta)) e
      (d.exact (s.sold -ℤ delta) rest (omega (int_laws, one, h.enough, h.positive, h.within)))
Step-Inv d (keep s before after c e p) small h = keep-Inv s h before after c e p
Step-Inv d (buy s amount p) small h = buy-Inv s h amount (d.round (s.bought +ℤ amount)) p (
    d.exact (s.bought +ℤ amount) (omega (int_laws, h.positive, h.within))
      (omega (int_laws, h.enough, sold_positive s h)))

Reach-Inv : (d : Rounding) {s t : Seller} → Reach d s t → t.asked ≤ℤ exact_limit → Inv s → Inv t
Reach-Inv d start small h = h
Reach-Inv d (next r st) small h =
    Step-Inv d st small (Reach-Inv d r (omega (int_laws, Step-asked d st)) h)

-- Before the loop nothing is claimed, and what was sold counts as kept.
abbrev pub idle : ℤ → ℤ → Seller
idle sold bought = record {
  sold = sold;
  bought = bought;
  claims = [];
  refused = [];
  kept = sold;
  asked = sold +ℤ bought;
}

idle-Inv : (sold bought : ℤ) → pos 0 ≤ℤ sold → sold ≤ℤ bought → Inv (idle sold bought)
idle-Inv sold bought zero_up le = record {
  total = omega int_laws;
  positive = zero_up;
  within = le;
  bounded = tt;
  returned = tt;
  enough = omega int_laws;
}

-- Amounts are integers, and what the seller had sold and bought and all amounts that threads added
-- since are together at most 2^53, so that no sum of doubles is rounded. A seller starts with no
-- claims and has not sold more than it bought. However the additions, comparisons and subtractions
-- of any number of threads interleave, once no thread is between two of them it has not sold more
-- than it bought, and what it sold is exactly what was kept.
pub Reach-sold_le_bought :
    (d : Rounding) (sold bought : ℤ) (t : Seller)
    → pos 0 ≤ℤ sold
    → sold ≤ℤ bought
    → Reach d (idle sold bought) t
    → t.asked ≤ℤ exact_limit
    → t.claims ≡ []
    → t.refused ≡ []
    → (t.sold ≤ℤ t.bought) × (t.sold ≡ t.kept)
Reach-sold_le_bought d sold bought t zero_up le r small e e' =
    let inv = Reach-Inv d r small (idle-Inv sold bought zero_up le) in
    let total =
      inv.total
      ∙ ap (λ cs. t.kept +ℤ deltas cs +ℤ amounts t.refused) e
      ∙ ap (λ xs. t.kept +ℤ pos 0 +ℤ amounts xs) e' in
    (omega (int_laws, inv.within, eq_parts total), omega (int_laws, eq_parts total))

-- Amounts are integers and small enough that no sum of doubles is rounded: with what the seller had
-- sold and bought they are together at most 2^53. A seller starts with no claims and has not sold
-- more than it bought. However the additions, comparisons and subtractions interleave, at every
-- moment what was kept is at most what it bought, and at most what it sold, which counts the open
-- claims too.
pub Reach-kept_le_bought :
    (d : Rounding) (sold bought : ℤ) (t : Seller)
    → pos 0 ≤ℤ sold
    → sold ≤ℤ bought
    → Reach d (idle sold bought) t
    → t.asked ≤ℤ exact_limit
    → (t.kept ≤ℤ t.bought) × (t.kept ≤ℤ t.sold)
Reach-kept_le_bought d sold bought t zero_up le r small =
    let inv = Reach-Inv d r small (idle-Inv sold bought zero_up le) in
    (
      inv.within,
      omega (
        int_laws,
        eq_parts inv.total,
        deltas_positive t.kept t.bought t.claims inv.bounded,
        amounts_positive t.refused inv.returned,
      ),
    )
