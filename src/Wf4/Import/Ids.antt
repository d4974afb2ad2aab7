-- ===== src/Wf4/Import/Ids.antt =====
-- The ids that the parsers of wf4/src/import.cpp give to nodes and to the ends of edges.
use graph_log_sketch.Base.{
  ℕ, ◌≤◌, ◌<◌, ◌≡◌, refl, sym, ap, ◌↔◌, inl, inr, some, [], ◌∷◌, arith, Bool-cases,
}
use mathlib.Core.Bool.{false≢true}
use graph_log_sketch.Base.Text.{Text, same_text, stoull}
use graph_log_sketch.Wf4.Network.{person, device, uses}
use graph_log_sketch.Wf4.Import.{
  FullNetworkEdge, FullNetworkNode, half_max, device_id, Parsed, parsed_node, parsed_edges,
  device_text, new_node, parse_node, parse_uses,
}

id_of : Parsed → ℕ
id_of (parsed_node n) = n.id
id_of (parsed_edges edges) = 0

-- A line of the nodes file for a device and a line of the uses file whose second field names the
-- same device, of a number that `encode` and `std::stoull` read alike: if the line of the uses
-- file is read, it becomes one edge, which leads to the id of the node, and that id is at least
-- half_max and fits into 64 bits.
pub parse_uses-parse_node :
    (encode : Text → ℕ) (raw : FullNetworkEdge) (frequency uid src : ℕ) (person_text name : Text)
    → stoull name ≡ some uid
    → encode name ≡ uid
    → stoull person_text ≡ some src
    → (edge : FullNetworkEdge) × (node : FullNetworkNode) × (parse_uses raw
          (person_text ∷ name ∷ [])
        ≡ some (parsed_edges (edge ∷ [])))
      × (parse_node encode frequency (device_text ∷ name ∷ []) ≡ parsed_node node)
      × (edge.dst ≡ node.id)
      × (edge.src ≡ src)
      × (half_max ≤ node.id)
      × (node.id < 18446744073709551616)
unfolding parse_uses parse_node
parse_uses-parse_node encode raw frequency uid src person_text name reads same reads_person = (
  record raw { type = uses; src_type = person; dst_type = device; src = src; dst = device_id uid },
  new_node frequency (device_id uid) device,
  rw (reads_person, reads) refl,
  rw same refl,
  refl,
  refl,
  omega arith,
  omega arith,
)

-- Two lines of the nodes file whose numbers are below half_max give nodes with the same id exactly
-- if both are devices or neither is, and the numbers are the same.
pub parse_node_injective :
    (encode : Text → ℕ) (frequency : ℕ) (kind kind' name name' : Text)
    → encode name < half_max
    → encode name' < half_max
    → (n n' : FullNetworkNode) → parse_node encode frequency (kind ∷ name ∷ []) ≡ parsed_node n
    → parse_node encode frequency (kind' ∷ name' ∷ []) ≡ parsed_node n'
    → (n.id ≡ n'.id)
      ↔ ((same_text kind device_text ≡ same_text kind' device_text) × (encode name ≡ encode name'))
unfolding parse_node id_of
parse_node_injective encode frequency kind kind' name name' small small' n n' e e' =
    elim (Bool-cases (same_text kind device_text)) [
      | inl d ↦ elim (Bool-cases (same_text kind' device_text)) [
        | inl d' ↦
            let i : device_id (encode name) ≡ n.id = ap id_of (rw d at e) in
            let i' : device_id (encode name') ≡ n'.id = ap id_of (rw d' at e') in
            rw (d, d') (λ q. (refl, omega arith), λ (_, q). omega arith)
        | inr f' ↦
            let i : device_id (encode name) ≡ n.id = ap id_of (rw d at e) in
            let i' : encode name' ≡ n'.id = ap id_of (rw f' at e') in
            rw (d, f') (λ q. absurd (omega arith), λ (q, _). absurd (false≢true (sym q)))
      ]
      | inr f ↦ elim (Bool-cases (same_text kind' device_text)) [
        | inl d' ↦
            let i : encode name ≡ n.id = ap id_of (rw f at e) in
            let i' : device_id (encode name') ≡ n'.id = ap id_of (rw d' at e') in
            rw (f, d') (λ q. absurd (omega arith), λ (q, _). absurd (false≢true q))
        | inr f' ↦
            let i : encode name ≡ n.id = ap id_of (rw f at e) in
            let i' : encode name' ≡ n'.id = ap id_of (rw f' at e') in
            rw (f, f') (λ q. (refl, omega arith), λ (_, q). omega arith)
      ]
    ]
