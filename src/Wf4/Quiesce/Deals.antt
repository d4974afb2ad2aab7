-- ===== src/Wf4/Quiesce/Deals.antt =====
-- wf4/src/quiesce.cpp: what a deal between two traders keeps.
use graph_log_sketch.Base.{
  ℕ, ◌≡◌, subst, inl, inr, true, List, [], ◌∷◌, arith, ◌==◌, ==_iff, ==_refl, Bool-cases,
}
use graph_log_sketch.Base.Int.{
  ℤ, pos, ◌+ℤ◌, ◌-ℤ◌, ◌≤ℤ◌, ltb_ℤ, int_laws, +ℤ_cancel, ltb_ℤ→≤ℤ, ltb_ℤ_false,
}
use graph_log_sketch.Wf4.Network.{is_purchase, Arc, Partition, Nodes, update}
use graph_log_sketch.Wf4.Quiesce.{
  Market, add_sold, add_bought, sub_sold, min_ℤ, is_positive, accept, reserve, try_quiesce_edge,
  try_quiesce_edges,
}

min_ℤ-le : (a b : ℤ) → min_ℤ a b ≤ℤ a
min_ℤ-le a b = elim (Bool-cases (ltb_ℤ b a)) [
  | inl e ↦ rw e (ltb_ℤ→≤ℤ b a e)
  | inr e ↦ rw e (omega arith)
]

abbrev pub IsSolvent : Nodes → Type 0
IsSolvent nodes = (v : ℕ) → (nodes v).sold ≤ℤ (nodes v).bought

-- The desired amount is known on the host that owns the node only.
abbrev pub IsRestrained : Partition → Nodes → Type 0
IsRestrained p nodes =
    (v : ℕ) → p.is_owned (p.get_gid v) ≡ true → (nodes v).bought ≤ℤ (nodes v).desired

module _ (p : Partition) where
  -- In the loop over the edges of `node`: `needed` still fits below what the node desires.
  pub record Kept (node : ℕ) (needed : ℤ) (nodes : Nodes) : Type 0 where
    pub solvent : IsSolvent nodes
    pub restrained : IsRestrained p nodes
    pub room : needed +ℤ (nodes node).bought ≤ℤ (nodes node).desired

  module _ (nodes : Nodes) (node : ℕ) (delta needed : ℤ) (h : Kept node needed nodes)
      (positive : pos 0 ≤ℤ delta) (fits : delta ≤ℤ needed) where
    buy-Kept : Kept node (needed -ℤ delta) (update nodes node (add_bought delta))
    buy-Kept = record {
      solvent = λ v. elim (Bool-cases (node == v)) [
        | inl e ↦ rw e (omega (int_laws, h.solvent v))
        | inr e ↦ rw e (h.solvent v)
      ];
      restrained = λ v owned. elim (Bool-cases (node == v)) [
        | inl e ↦
            let same = (==_iff node v).0 e in
            let room = subst (λ w. needed +ℤ (nodes w).bought ≤ℤ (nodes w).desired) same h.room in
            rw e (omega int_laws)
        | inr e ↦ rw e (h.restrained v owned)
      ];
      room = rw (==_refl node) (omega (int_laws, h.room));
    }

    wait-Kept : Kept node (needed -ℤ delta) nodes
    wait-Kept = record {
      solvent = h.solvent;
      restrained = h.restrained;
      room = omega (int_laws, h.room);
    }

  -- A reservation that stays within what the seller bought.
  pub sell-Kept :
      (nodes : Nodes) (node seller : ℕ) (delta needed : ℤ)
      → Kept node needed nodes
      → (nodes seller).sold +ℤ delta ≤ℤ (nodes seller).bought
      → Kept node needed (update nodes seller (add_sold delta))
  sell-Kept nodes node seller delta needed h fits = record {
    solvent = λ v. elim (Bool-cases (seller == v)) [
      | inl e ↦
          let same = (==_iff seller v).0 e in
          let at = subst (λ w. (nodes w).sold +ℤ delta ≤ℤ (nodes w).bought) same fits in rw e at
      | inr e ↦ rw e (h.solvent v)
    ];
    restrained = λ v owned. elim (Bool-cases (seller == v)) [
      | inl e ↦ rw e (h.restrained v owned)
      | inr e ↦ rw e (h.restrained v owned)
    ];
    room = elim (Bool-cases (seller == node)) [ inl e ↦ rw e h.room | inr e ↦ rw e h.room ];
  }

  -- A reservation that is given back leaves every amount as it was.
  pub undo-Kept :
      (nodes : Nodes) (node seller : ℕ) (delta needed : ℤ)
      → Kept node needed nodes
      → Kept node needed (update (update nodes seller (add_sold delta)) seller (sub_sold delta))
  undo-Kept nodes node seller delta needed h = record {
    solvent = λ v. elim (Bool-cases (seller == v)) [
      | inl e ↦ rw (e, +ℤ_cancel) (h.solvent v)
      | inr e ↦ rw e (h.solvent v)
    ];
    restrained = λ v owned. elim (Bool-cases (seller == v)) [
      | inl e ↦ rw e (h.restrained v owned)
      | inr e ↦ rw e (h.restrained v owned)
    ];
    room = elim (Bool-cases (seller == node)) [ inl e ↦ rw e h.room | inr e ↦ rw e h.room ];
  }

  accept-Kept :
      (m : Market) (node seller : ℕ) (delta needed : ℤ)
      → Kept node needed m.nodes
      → pos 0 ≤ℤ delta
      → delta ≤ℤ needed
      → Kept node (needed -ℤ delta) (accept p node seller delta m).nodes
  unfolding accept
  accept-Kept m node seller delta needed h positive fits =
      elim (Bool-cases (p.is_owned (p.get_gid seller))) [
        | inl e ↦ rw e (buy-Kept m.nodes node delta needed h positive fits)
        | inr e ↦ rw e (wait-Kept m.nodes node delta needed h positive fits)
      ]

  reserve-Kept :
      (m : Market) (node seller : ℕ) (delta needed : ℤ)
      → Kept node needed m.nodes
      → pos 0 ≤ℤ delta
      → delta ≤ℤ needed
      → Kept node
          (reserve p node seller delta needed m).1
          (reserve p node seller delta needed m).0.nodes
  unfolding reserve
  reserve-Kept m node seller delta needed h positive fits =
      elim (Bool-cases (
        ltb_ℤ (update m.nodes seller (add_sold delta) seller).bought
          ((m.nodes seller).sold +ℤ delta))) [
            | inl e ↦ rw e (undo-Kept m.nodes node seller delta needed h)
            | inr e ↦ rw e (
                accept-Kept (record m { nodes = update m.nodes seller (add_sold delta) }) node
                  seller delta needed
                  (sell-Kept m.nodes node seller delta needed h (
                    ltb_ℤ_false (m.nodes seller).bought ((m.nodes seller).sold +ℤ delta)
                      (rw (==_refl seller) at e)))
                  positive fits)
          ]

  try_quiesce_edge-Kept :
      (node : ℕ) (arc : Arc) (needed : ℤ) (m : Market)
      → Kept node needed m.nodes
      → Kept node
          (try_quiesce_edge p node arc needed m).1
          (try_quiesce_edge p node arc needed m).0.nodes
  unfolding try_quiesce_edge
  try_quiesce_edge-Kept node arc needed m h = elim (Bool-cases (is_purchase arc.edge_data.type)) [
    | inr e ↦ rw e h
    | inl e ↦ rw e (elim (Bool-cases (is_positive delta)) [
      | inr e' ↦ rw e' h
      | inl e' ↦ rw e' (
          reserve-Kept m node arc.dst_node delta needed h (ltb_ℤ→≤ℤ (pos 0) delta e')
            (min_ℤ-le needed ((m.nodes arc.dst_node).bought -ℤ (m.nodes arc.dst_node).sold)))
    ])
  ]
    where
      delta : ℤ
      delta = min_ℤ needed ((m.nodes arc.dst_node).bought -ℤ (m.nodes arc.dst_node).sold)

  pub try_quiesce_edges-Kept :
      (node : ℕ) (arcs : List Arc) (needed : ℤ) (m : Market)
      → Kept node needed m.nodes
      → Kept node
          (try_quiesce_edges p node arcs needed m).1
          (try_quiesce_edges p node arcs needed m).0.nodes
  unfolding try_quiesce_edges
  try_quiesce_edges-Kept node [] needed m h = h
  try_quiesce_edges-Kept node (arc ∷ arcs) needed m h = elim (Bool-cases (is_positive needed)) [
    | inr e ↦ rw e h
    | inl e ↦ rw e (
        try_quiesce_edges-Kept node arcs (try_quiesce_edge p node arc needed m).1
          (try_quiesce_edge p node arc needed m).0 (try_quiesce_edge-Kept node arc needed m h))
  ]
