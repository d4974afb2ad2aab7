-- ===== src/Wf4/Influence/Placed.antt =====
-- wf4/src/influence_maximization.cpp: a host and the nodes that it owns.
use graph_log_sketch.Base.{
  ℕ, ◌≡◌, sym, ap, subst, ◌∙◌, inl, inr, true, false, arith, ◌==◌, ==_iff, Bool-cases,
}
use graph_log_sketch.Wf4.Network.{Partition}
use mathlib.Core.Bool.{false≢true}

pub owned_apart :
    (p : Partition) (v g : ℕ) → p.is_owned v ≡ true → p.is_owned g ≡ false → (v == g) ≡ false
owned_apart p v g mine other = elim (Bool-cases (v == g)) [
  | inl e ↦
      absurd (false≢true (sym other ∙ subst (λ x. p.is_owned x ≡ true) ((==_iff v g).0 e) mine))
  | inr e ↦ e
]

-- The host finds the nodes that it owns under their ids.
abbrev pub IsPlaced : Partition → Type 0
IsPlaced p = (g : ℕ) → p.is_owned g ≡ true → p.get_gid (p.get_lid g) ≡ g

pub same_place :
    (p : Partition) (v g : ℕ)
    → p.is_owned v ≡ true
    → IsPlaced p
    → p.is_owned g ≡ true
    → (p.get_lid g == p.get_lid v) ≡ (v == g)
same_place p v g mine placed owned = elim (Bool-cases (v == g)) [
  | inl e ↦ ground (arith, ap p.get_lid ((==_iff v g).0 e))
  | inr e ↦ ground (arith, placed g owned, placed v mine, ap p.get_gid)
]
