-- ===== src/Bench/Ranges.antt =====
-- The bounds of the batches of microbench/edit_scalability_large.cpp.
use graph_log_sketch.Base.{ℕ, ◌+◌, ◌-◌, ◌*◌, ◌/◌, ◌%◌, ◌≤◌, ◌<◌, ◌≡◌, List, [], ◌∷◌, ◌++◌, arith}
use native.Mathlib.Nat.{div-add-mod, mod-lt}
use graph_log_sketch.Base.Sums.{count}
use graph_log_sketch.Graph.{u64_mod}
use graph_log_sketch.Bench.{edges_per_batch, batch_bound}

pub count-append : (a : ℕ) (xs ys : List ℕ) → count a (xs ++ ys) ≡ count a xs + count a ys
count-append a [] ys = omega arith
count-append a (x ∷ xs) ys = ground (arith, count-append a xs ys)

pub division : (k m : ℕ) → 0 < m → (m * (k / m) ≤ k) × (k ≤ m * (k / m) + (m - 1))
division k m h =
    (omega (arith, div-add-mod k m, mod-lt k h), omega (arith, div-add-mod k m, mod-lt k h))

-- The batches are long enough, and not too long for 64 bits.
pub per_batch-covers :
    (n pre num_batches : ℕ)
    → 0 < num_batches
    → pre ≤ n
    → n + num_batches < u64_mod
    → (pre + (0 + num_batches) * edges_per_batch n pre num_batches < u64_mod)
      × (n ≤ pre + (0 + num_batches) * edges_per_batch n pre num_batches)
unfolding edges_per_batch
per_batch-covers n pre num_batches h inside small =
    let same : (n + u64_mod - pre + (num_batches + u64_mod - 1)) % u64_mod
        ≡ n - pre + (num_batches - 1) =
      omega arith in
    let (le, ge) = division (n - pre + (num_batches - 1)) num_batches h in
    let all : 0 + num_batches ≡ num_batches = omega arith in
    rw (same, all) (omega arith, omega arith)

pub batch_bound-zero : (n pre per : ℕ) → pre ≤ n → n < u64_mod → batch_bound n pre per 0 ≡ pre
unfolding batch_bound
batch_bound-zero n pre per inside small = omega arith

pub batch_bound-last :
    (n pre per b : ℕ) → pre + b * per < u64_mod → n ≤ pre + b * per → batch_bound n pre per b ≡ n
unfolding batch_bound
batch_bound-last n pre per b fits covers = omega arith
