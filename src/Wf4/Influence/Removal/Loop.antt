-- ===== src/Wf4/Influence/Removal/Loop.antt =====
-- `GetInfluentialNodes`: the loop over the sets, in any order.
use graph_log_sketch.Base.{
  ℕ, zero, suc, ◌≤◌, ◌≡◌, refl, sym, ap, ap₂, subst, ◌∙◌, ◌⊎◌, inl, inr, ⊎_elim, true, false, List,
  [], ◌∷◌, foldl, Memᴰ, arith, if◌then◌else◌, Bool-cases, le_or_lt, length, get_or, set,
}
use graph_log_sketch.Base.DoAll.{Schedule, range, Permᴰ-Memᴰ}
use graph_log_sketch.Base.Sums.{mem-range_from_iff}
use graph_log_sketch.Base.Sets.{contains}
use graph_log_sketch.Wf4.Network.{Partition}
use graph_log_sketch.Wf4.Influence.Removal.{
  Removal, remove_node, remove_reachable_set, remove_at, remove_reachable_sets,
}
use mathlib.Core.List.Memᴰ
use mathlib.Core.List.Permᴰ

-- The sets, with those emptied that have the node.
abbrev pub without : ℕ → List (List ℕ) → List (List ℕ)
without n [] = []
without n (s ∷ sets) = (if contains n s then [] else s) ∷ without n sets

set_same : (sets : List (List ℕ)) (i : ℕ) → set sets i (get_or sets i []) ≡ sets
set_same [] i = refl
set_same (s ∷ sets) zero = refl
set_same (s ∷ sets) (suc i) = ap (λ r. s ∷ r) (set_same sets i)

module _ (p : Partition) (n : ℕ) where
  -- A round empties a set with the node, or changes nothing.
  remove_at-cases :
      (r : Removal) (sets : List (List ℕ)) (i : ℕ)
      → ((contains n (get_or sets i []) ≡ true)
          × (remove_at p n (r, sets) i
              ≡ (foldl (remove_node p) r (get_or sets i []), set sets i [])))
        ⊎ ((contains n (get_or sets i []) ≡ false) × (remove_at p n (r, sets) i ≡ (r, sets)))
  unfolding remove_at remove_reachable_set
  remove_at-cases r sets i = elim (Bool-cases (contains n (get_or sets i []))) [
    | inl e ↦ inl (e, rw e refl)
    | inr e ↦ inr (e, rw e (ap (λ left. (r, left)) (set_same sets i)))
  ]

  module _ {κ} (P : Removal → List (List ℕ) → Type κ)
      (step : (r : Removal) (sets : List (List ℕ)) (i : ℕ)
        → contains n (get_or sets i []) ≡ true
        → P r sets
        → P (foldl (remove_node p) r (get_or sets i [])) (set sets i [])) where
    rounds-keep :
        (is : List ℕ) (r : Removal) (sets : List (List ℕ))
        → P r sets
        → P (foldl (remove_at p n) (r, sets) is).0 (foldl (remove_at p n) (r, sets) is).1
    rounds-keep [] r sets h = h
    rounds-keep (i ∷ is) r sets h = elim (remove_at-cases r sets i) [
      | inl (e, same) ↦
          subst (λ st. P (foldl (remove_at p n) st is).0 (foldl (remove_at p n) st is).1) (sym same)
            (rounds-keep is (foldl (remove_node p) r (get_or sets i [])) (set sets i [])
              (step r sets i e h))
      | inr (e, same) ↦
          subst (λ st. P (foldl (remove_at p n) st is).0 (foldl (remove_at p n) st is).1) (sym same)
            (rounds-keep is r sets h)
    ]

    -- What the removal of a set with the node keeps, the whole loop keeps.
    pub remove_reachable_sets-keep :
        (sched : Schedule) (r : Removal) (sets : List (List ℕ))
        → P r sets
        → P (remove_reachable_sets p sched n r sets).0 (remove_reachable_sets p sched n r sets).1
    unfolding remove_reachable_sets
    remove_reachable_sets-keep sched r sets = rounds-keep (sched.order (range (length sets))) r sets

  abbrev IsClean : ℕ → List (List ℕ) → Type 0
  IsClean k sets = contains n (get_or sets k []) ≡ false

  set-IsClean : (k i : ℕ) (sets : List (List ℕ)) → IsClean k sets → IsClean k (set sets i [])
  set-IsClean k i [] h = h
  set-IsClean zero zero (s ∷ sets) h = refl
  set-IsClean zero (suc i) (s ∷ sets) h = h
  set-IsClean (suc k) zero (s ∷ sets) h = h
  set-IsClean (suc k) (suc i) (s ∷ sets) h = set-IsClean k i sets h

  emptied-IsClean : (k : ℕ) (sets : List (List ℕ)) → IsClean k (set sets k [])
  emptied-IsClean k [] = refl
  emptied-IsClean zero (s ∷ sets) = refl
  emptied-IsClean (suc k) (s ∷ sets) = emptied-IsClean k sets

  rounds-IsClean :
      (k : ℕ) (is : List ℕ) (r : Removal) (sets : List (List ℕ))
      → Memᴰ k is ⊎ IsClean k sets
      → IsClean k (foldl (remove_at p n) (r, sets) is).1
  rounds-IsClean k [] r sets h = ⊎_elim (λ m. absurd (Memᴰ.not-nil m)) (λ c. c) h
  rounds-IsClean k (i ∷ is) r sets h = elim (remove_at-cases r sets i) [
    | inl (e, same) ↦
        subst (λ st. IsClean k (foldl (remove_at p n) st is).1) (sym same)
          (rounds-IsClean k is (foldl (remove_node p) r (get_or sets i [])) (set sets i []) (
            ⊎_elim
              (λ m. ⊎_elim (λ here. inr (rw here (emptied-IsClean i sets))) inl (Memᴰ.cases_cons m))
              (λ c. inr (set-IsClean k i sets c)) h))
    | inr (e, same) ↦
        subst (λ st. IsClean k (foldl (remove_at p n) st is).1) (sym same)
          (rounds-IsClean k is r sets
            (⊎_elim (λ m. ⊎_elim (λ here. inr (rw here e)) inl (Memᴰ.cases_cons m)) inr h))
  ]

  short-IsClean : (k : ℕ) (sets : List (List ℕ)) → length sets ≤ k → IsClean k sets
  short-IsClean k [] h = refl
  short-IsClean zero (s ∷ sets) h = absurd (omega arith)
  short-IsClean (suc k) (s ∷ sets) h = short-IsClean k sets (omega arith)

  without_clean : (sets : List (List ℕ)) → ((k : ℕ) → IsClean k sets) → without n sets ≡ sets
  without_clean [] h = refl
  without_clean (s ∷ sets) h =
      ap₂ (λ x xs. x ∷ xs) (ap (λ b. if b then [] else s) (h 0))
        (without_clean sets (λ k. h (suc k)))

  without-set :
      (sets : List (List ℕ)) (i : ℕ)
      → contains n (get_or sets i []) ≡ true
      → without n (set sets i []) ≡ without n sets
  without-set [] i e = refl
  without-set (s ∷ sets) zero e = rw e refl
  without-set (s ∷ sets) (suc i) e =
      ap (λ r. (if contains n s then [] else s) ∷ r) (without-set sets i e)

  -- The loop empties the sets with the node, whatever order it takes.
  pub remove_reachable_sets-without :
      (sched : Schedule) (r : Removal) (sets : List (List ℕ))
      → (remove_reachable_sets p sched n r sets).1 ≡ without n sets
  unfolding remove_reachable_sets
  remove_reachable_sets-without sched r sets =
      let is = sched.order (range (length sets)) in
      let left = (foldl (remove_at p n) (r, sets) is).1 in
      sym (
        without_clean left (λ k. rounds-IsClean k is r sets (elim (le_or_lt (length sets) k) [
          | inl le ↦ inr (short-IsClean k sets le)
          | inr lt ↦ inl (
              Permᴰ-Memᴰ (Permᴰ.symm (sched.order-perm (range (length sets))))
                ((mem-range_from_iff 0 (length sets) k).1 (omega arith)))
        ])))
      ∙ rounds-keep (λ r' sets'. without n sets' ≡ without n sets)
          (λ r' sets' i e h. without-set sets' i e ∙ h) is r sets refl
