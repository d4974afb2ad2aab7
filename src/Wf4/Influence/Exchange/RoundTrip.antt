-- ===== src/Wf4/Influence/Exchange/RoundTrip.antt =====
-- `serialize`, `deserialize` and `ExchangePartialSets`.
use graph_log_sketch.Base.{
  ℕ, zero, suc, ◌≤◌, ◌≡◌, refl, sym, ap, ◌∙◌, inl, inr, some, List, [], ◌∷◌, ◌++◌, map, append-nil,
  append_assoc, arith, ◌==◌, ◌>>=◌, if◌then◌else◌, Bool-cases, length, get_or, All, length-append,
}
use graph_log_sketch.Base.Sums.{count}
use graph_log_sketch.Base.Sets.{HasNoRepeats, count-snoc, contains-count}
use graph_log_sketch.Wf4.Influence.{PartialReachableSet}
use graph_log_sketch.Wf4.Influence.Exchange.{
  serialize, extract_set, deserialize, serialize_all, send_sets, receive_sets, read_sets,
  receive_partial_sets, exchange_partial_sets,
}

-- The two sets list no member twice.
abbrev pub IsWellFormed : PartialReachableSet → Type 0
IsWellFormed s = HasNoRepeats s.partial_reachable_set × HasNoRepeats s.frontier

others :
    (xs ys : List ℕ) (y : ℕ)
    → All (λ x. count x xs ≡ 0) ys
    → count y ys ≡ 0
    → All (λ x. count x (xs ++ y ∷ []) ≡ 0) ys
others xs [] y h e = tt
others xs (z ∷ ys) y h e =
    (ground (arith, count-snoc z y xs, h.0), others xs ys y h.1 (ground arith))

extract_set-append :
    (xs ys buf : List ℕ)
    → All (λ y. count y xs ≡ 0) ys
    → HasNoRepeats ys
    → extract_set (length ys) xs (ys ++ buf) ≡ some (xs ++ ys, buf)
unfolding extract_set
extract_set-append xs [] buf h u = ap (λ zs. some (zs, buf)) (sym (append-nil xs))
extract_set-append xs (y ∷ ys) buf h u = rw (contains-count y xs h.0) (
    extract_set-append (xs ++ y ∷ []) ys buf (others xs ys y h.1 u.0) u.1
    ∙ ap (λ zs. some (zs, buf)) (append_assoc xs (y ∷ []) ys))

none_yet : (ys : List ℕ) → All (λ y. count y [] ≡ 0) ys
none_yet [] = tt
none_yet (y ∷ ys) = (refl, none_yet ys)

-- A set whose members are listed once comes back from its words, and what follows them stays in
-- the buffer.
pub deserialize-serialize :
    (s : PartialReachableSet) (buf : List ℕ)
    → IsWellFormed s
    → deserialize (serialize s ++ buf) ≡ some (s, buf)
unfolding deserialize serialize
deserialize-serialize s buf h =
    let tail = s.frontier ++ buf in
    let reached =
      extract_set-append [] s.partial_reachable_set tail (none_yet s.partial_reachable_set) h.0 in
    let waiting = extract_set-append [] s.frontier buf (none_yet s.frontier) h.1 in
    rw (append_assoc s.partial_reachable_set s.frontier buf, reached, waiting) refl

receive_sets-serialize_all :
    (fuel : ℕ) (sets : List PartialReachableSet)
    → All IsWellFormed sets
    → length (serialize_all sets) ≤ fuel
    → receive_sets fuel (serialize_all sets) ≡ some sets
unfolding receive_sets serialize_all
receive_sets-serialize_all zero [] h enough = refl
receive_sets-serialize_all (suc fuel) [] h enough = refl
receive_sets-serialize_all zero (s ∷ sets) h enough = absurd (omega arith)
receive_sets-serialize_all (suc fuel) (s ∷ sets) h enough =
    ap (λ o. o >>= (λ r. receive_sets fuel r.1 >>= (λ rest. some (r.0 ∷ rest))))
      (deserialize-serialize s (serialize_all sets) h.0)
    ∙ ap (λ o. o >>= (λ rest. some (s ∷ rest)))
        (receive_sets-serialize_all fuel sets h.1
          (omega (arith, length-append (serialize s) (serialize_all sets))))

read_sets-send_sets :
    (sets : List PartialReachableSet)
    → All IsWellFormed sets
    → read_sets (send_sets sets) ≡ some sets
unfolding read_sets send_sets serialize_all
read_sets-send_sets [] h = refl
read_sets-send_sets (s ∷ sets) h = ground (
  arith,
  receive_sets-serialize_all (length (serialize_all (s ∷ sets))) (s ∷ sets) h (omega arith),
)

-- The sets that the hosts from `i` on keep for `host`, without its own.
pub kept_for : ℕ → ℕ → List (List (List PartialReachableSet)) → List PartialReachableSet
kept_for host i [] = []
kept_for host i (outbox ∷ outboxes) =
    let rest = kept_for host (suc i) outboxes in
    if i == host then rest else get_or outbox host [] ++ rest

receive_partial_sets-kept_for :
    (host i : ℕ) (outboxes : List (List (List PartialReachableSet)))
    → All (λ outbox. All IsWellFormed (get_or outbox host [])) outboxes
    → receive_partial_sets host i outboxes ≡ some (kept_for host i outboxes)
unfolding receive_partial_sets kept_for
receive_partial_sets-kept_for host i [] h = refl
receive_partial_sets-kept_for host i (outbox ∷ outboxes) h = elim (Bool-cases (i == host)) [
  | inl e ↦ rw (e, receive_partial_sets-kept_for host (suc i) outboxes h.1) refl
  | inr e ↦
      rw
        (
          e,
          read_sets-send_sets (get_or outbox host []) h.0,
          receive_partial_sets-kept_for host (suc i) outboxes h.1,
        )
        refl
]

-- If the sets list no member twice, the exchange returns, and a host gets exactly the sets that the
-- other hosts keep for it, host by host and in their order; what it kept for each host is cleared.
pub exchange_partial_sets-kept_for :
    (host : ℕ) (outboxes : List (List (List PartialReachableSet)))
    → All (λ outbox. All IsWellFormed (get_or outbox host [])) outboxes
    → exchange_partial_sets host outboxes
      ≡ some (kept_for host 0 outboxes, map (λ sets. []) (get_or outboxes host []))
unfolding exchange_partial_sets
exchange_partial_sets-kept_for host outboxes h =
    ap (λ o. o >>= (λ received. some (received, map (λ sets. []) (get_or outboxes host []))))
      (receive_partial_sets-kept_for host 0 outboxes h)
