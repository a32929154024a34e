-- ===== src/Netflow/Aggregate/Count.antt =====
-- Counts that stop at `MaxCount`.
use Prim.Native.Nat.{min}
use tikman.Prelude.{ℕ, ◌+◌, ◌^◌, ◌≤◌, ◌<◌, ◌≡◌, arith}
use tikman.Netflow.Classify.{max_count}
use tikman.Netflow.Aggregate.{add_count}

-- On 64-bit numbers the sum is exact up to the cap, and the cap from there on; it never wraps.
pub add_count-min :
    (sum n : ℕ) → sum < 2 ^ 64 → n < 2 ^ 64 → add_count sum n ≡ min (sum + n) max_count
unfolding add_count
add_count-min sum n h k = ground arith

pub add_count_exact : (sum n : ℕ) → sum + n < max_count → add_count sum n ≡ sum + n
unfolding add_count
add_count_exact sum n h = ground arith

pub add_count-le : (sum n : ℕ) → add_count sum n ≤ max_count
unfolding add_count
add_count-le sum n = ground arith
