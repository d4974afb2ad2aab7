-- ===== src/Wf4/Influence/Seeds/Shares.antt =====
-- `GetRandomReverseReachableSets`: the sets of all hosts together.
use graph_log_sketch.Base.{ℕ, ◌+◌, ◌-◌, ◌*◌, ◌/◌, ◌<◌, ◌≡◌, sym, subst, arith}
use native.Mathlib.Nat.{div-add-mod, add-mul}
use graph_log_sketch.Base.DoAll.{range, range_from}
use graph_log_sketch.Base.Sums.{sum, sum-ext, sum-split, sum_const, mem-range_from_iff}
use graph_log_sketch.Wf4.Influence.Seeds.{host_sets}

shares-add : (g m : ℕ) → sum (range (m + 1)) (host_sets g (m + 1)) ≡ g
unfolding host_sets
shares-add g m =
    let q = g / (m + 1) in
    let all_but_last =
      sum-ext (range_from 0 m) (host_sets g (m + 1)) (λ _. q)
        (λ h mem. ground (arith, (mem-range_from_iff 0 m h).0 mem)) in
    let last : host_sets g (m + 1) (0 + m) ≡ g - m * q = ground arith in
    let whole = div-add-mod g (m + 1) in
    let parts : (m + 1) * q ≡ m * q + q = omega (arith, add-mul m 1 q) in
    omega (
      arith,
      sum-split 0 m 1 (host_sets g (m + 1)),
      all_but_last,
      sum_const 0 m q,
      last,
      whole,
      parts,
    )

-- The sets that the hosts begin are together as many as were asked for, if there is a host.
pub host_sets-sum :
    (global_sets num_hosts : ℕ)
    → 0 < num_hosts
    → sum (range num_hosts) (host_sets global_sets num_hosts) ≡ global_sets
host_sets-sum global_sets num_hosts h =
    let one_more : num_hosts ≡ num_hosts - 1 + 1 = omega arith in
    subst (λ n. sum (range n) (host_sets global_sets n) ≡ global_sets) (sym one_more)
      (shares-add global_sets (num_hosts - 1))
