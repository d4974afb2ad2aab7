-- ===== src/Wf4/Influence/Selection/Local.antt =====
-- `GetMaxNode` and `FindLocalMaxNode`.
use graph_log_sketch.Base.{
  ℕ, ◌≤◌, ◌≡◌, refl, ap, ◌∙◌, inl, inr, ◌⊎◌, ⊎_elim, List, [], ◌∷◌, foldl, Memᴰ, arith, ltb,
  Bool-cases,
}
use graph_log_sketch.Wf4.Network.{Partition, Nodes}
use graph_log_sketch.Wf4.Influence.Selection.{
  LocalMaxNode, find_local_max_node, larger_influence, get_max_node,
}
use mathlib.Core.List.Memᴰ

larger_influence-bounds :
    (best : LocalMaxNode) (nodes : List LocalMaxNode)
    → (best.max_influence ≤ (foldl larger_influence best nodes).max_influence)
      × ((m : LocalMaxNode)
          → Memᴰ m nodes
          → m.max_influence ≤ (foldl larger_influence best nodes).max_influence)
unfolding larger_influence
larger_influence-bounds best [] = (omega arith, λ m h. absurd (Memᴰ.not-nil h))
larger_influence-bounds best (x ∷ nodes) =
    let (le, all) = larger_influence-bounds (larger_influence best x) nodes in
    (
      ground arith,
      λ m h. ⊎_elim (λ e. ground (arith, ap (λ y. y.max_influence) e)) (all m) (Memᴰ.cases_cons h),
    )

larger_influence-attained :
    (best : LocalMaxNode) (nodes : List LocalMaxNode)
    → (foldl larger_influence best nodes ≡ best) ⊎ Memᴰ (foldl larger_influence best nodes) nodes
unfolding larger_influence
larger_influence-attained best [] = inl refl
larger_influence-attained best (x ∷ nodes) =
    ⊎_elim
      (λ e. elim (Bool-cases (ltb best.max_influence x.max_influence)) [
        | inl t ↦ let picks : larger_influence best x ≡ x = rw t refl in inr (Memᴰ.head (e ∙ picks))
        | inr f ↦ let stays : larger_influence best x ≡ best = rw f refl in inl (e ∙ stays)
      ])
      (λ m. inr (Memᴰ.tail m)) (larger_influence-attained (larger_influence best x) nodes)

pub get_max_node-bounds :
    (unset : ℕ) (nodes : List LocalMaxNode) (m : LocalMaxNode)
    → Memᴰ m nodes
    → m.max_influence ≤ (get_max_node unset nodes).max_influence
unfolding get_max_node
get_max_node-bounds unset nodes =
    (larger_influence-bounds (record { max_node = unset; max_influence = 0 }) nodes).1

pub get_max_node-attained :
    (unset : ℕ) (nodes : List LocalMaxNode)
    → ((get_max_node unset nodes).max_influence ≡ 0) ⊎ Memᴰ (get_max_node unset nodes) nodes
unfolding get_max_node
get_max_node-attained unset nodes =
    ⊎_elim (λ e. inl (ap (λ m. m.max_influence) e)) inr
      (larger_influence-attained (record { max_node = unset; max_influence = 0 }) nodes)

module _ (p : Partition) (nodes : Nodes) where
  -- The node data of one node, as it is compared.
  abbrev pub of_node : ℕ → LocalMaxNode
  of_node v = record { max_node = p.get_gid v; max_influence = (nodes v).frequency }

  find-keeps :
      (acc : List LocalMaxNode) (v : ℕ) (m : LocalMaxNode)
      → Memᴰ m acc
      → (m' : LocalMaxNode) × Memᴰ m' (find_local_max_node p nodes acc v)
        × (m.max_influence ≤ m'.max_influence)
  unfolding find_local_max_node
  find-keeps [] v m h = absurd (Memᴰ.not-nil h)
  find-keeps (best ∷ more) v m h = elim (Bool-cases (ltb best.max_influence (nodes v).frequency)) [
    | inl t ↦ rw t (
        ⊎_elim (λ e. (of_node v, Memᴰ.head refl, ground (arith, ap (λ y. y.max_influence) e)))
          (λ r. (m, Memᴰ.tail r, omega arith)) (Memᴰ.cases_cons h))
    | inr f ↦ rw f (m, h, omega arith)
  ]

  find-covers :
      (acc : List LocalMaxNode) (v : ℕ)
      → (m' : LocalMaxNode) × Memᴰ m' (find_local_max_node p nodes acc v)
        × ((nodes v).frequency ≤ m'.max_influence)
  unfolding find_local_max_node
  find-covers [] v = (of_node v, Memᴰ.head refl, omega arith)
  find-covers (best ∷ more) v = elim (Bool-cases (ltb best.max_influence (nodes v).frequency)) [
    | inl t ↦ rw t (of_node v, Memᴰ.head refl, omega arith)
    | inr f ↦ rw f (best, Memᴰ.head refl, ground arith)
  ]

  find-from :
      (acc : List LocalMaxNode) (v : ℕ) (m : LocalMaxNode)
      → Memᴰ m (find_local_max_node p nodes acc v)
      → Memᴰ m acc ⊎ (m ≡ of_node v)
  unfolding find_local_max_node
  find-from [] v m h = inr (Memᴰ.eq_of_singleton h)
  find-from (best ∷ more) v m h = elim (Bool-cases (ltb best.max_influence (nodes v).frequency)) [
    | inl t ↦ ⊎_elim inr (λ r. inl (Memᴰ.tail r)) (Memᴰ.cases_cons (rw t at h))
    | inr f ↦ inl (rw f at h)
  ]

  finds-keep :
      (share : List ℕ) (acc : List LocalMaxNode) (m : LocalMaxNode)
      → Memᴰ m acc
      → (m' : LocalMaxNode) × Memᴰ m' (foldl (find_local_max_node p nodes) acc share)
        × (m.max_influence ≤ m'.max_influence)
  finds-keep [] acc m h = (m, h, omega arith)
  finds-keep (v ∷ share) acc m h =
      let (m1, h1, le1) = find-keeps acc v m h in
      let (m2, h2, le2) = finds-keep share (find_local_max_node p nodes acc v) m1 h1 in
      (m2, h2, omega arith)

  pub finds-cover :
      (share : List ℕ) (acc : List LocalMaxNode) (v : ℕ)
      → Memᴰ v share
      → (m : LocalMaxNode) × Memᴰ m (foldl (find_local_max_node p nodes) acc share)
        × ((nodes v).frequency ≤ m.max_influence)
  finds-cover [] acc v h = absurd (Memᴰ.not-nil h)
  finds-cover (u ∷ share) acc v h =
      ⊎_elim
        (λ e.
          let (m1, h1, le1) = find-covers acc u in
          let (m2, h2, le2) = finds-keep share (find_local_max_node p nodes acc u) m1 h1 in
          (m2, h2, omega (arith, ap (λ w. (nodes w).frequency) e)))
        (finds-cover share (find_local_max_node p nodes acc u) v) (Memᴰ.cases_cons h)

  pub finds-from :
      (share : List ℕ) (acc : List LocalMaxNode) (m : LocalMaxNode)
      → Memᴰ m (foldl (find_local_max_node p nodes) acc share)
      → Memᴰ m acc ⊎ ((v : ℕ) × Memᴰ v share × (m ≡ of_node v))
  finds-from [] acc m h = inl h
  finds-from (u ∷ share) acc m h =
      ⊎_elim (λ at. ⊎_elim inl (λ e. inr (u, Memᴰ.head refl, e)) (find-from acc u m at))
        (λ (v, at, e). inr (v, Memᴰ.tail at, e))
        (finds-from share (find_local_max_node p nodes acc u) m h)
