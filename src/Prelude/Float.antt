-- ===== src/Prelude/Float.antt =====
-- `f64` at the values that the metrics hold: natural numbers, rounded to 53 significant bits.
use Prim.Native.Nat.{ℕ, zero, suc, ◌+◌, ◌-◌, ◌*◌, ◌/◌, ◌%◌, ◌^◌, ◌<◌}
use mathlib.Core.Path.{◌≡◌, refl}
use ebpf_oom_watcher.Prelude.Tests.{ltb, if◌then◌else◌, lt→ltb}

-- The largest `n` such that all whole numbers below `n` are floats.
abbrev pub exact_below : ℕ
exact_below = 9007199254740992

-- How many low bits a number has beyond 53.
excess : ℕ → ℕ → ℕ
excess zero n = 0
excess (suc fuel) n = let rest = suc (excess fuel (n / 2)) in if ltb n exact_below then 0 else rest

-- `q` or `q + 1`, whichever is nearer to `q + r / (2 * half)`; the even one at a tie.
half_even : ℕ → ℕ → ℕ → ℕ
half_even q r half = if ltb r half then q else if ltb half r then q + 1 else q + q % 2

-- Rounding to nearest, ties to even, which `u64 as f64` and `+` on floats do.
unfoldable pub to_f64 : ℕ → ℕ
unfolding excess half_even
to_f64 n =
    if ltb n exact_below
    then n
    else half_even (n / 2 ^ excess 64 n) (n % 2 ^ excess 64 n) (2 ^ (excess 64 n - 1))
      * 2 ^ excess 64 n

unfoldable pub f64_add : ℕ → ℕ → ℕ
unfolding to_f64
f64_add a b = to_f64 (a + b)

pub to_f64_exact : (n : ℕ) → n < exact_below → to_f64 n ≡ n
unfolding to_f64
to_f64_exact n h = rw (lt→ltb n exact_below h)

pub f64_add_exact : (a b : ℕ) → a + b < exact_below → f64_add a b ≡ a + b
unfolding f64_add
f64_add_exact a b h = to_f64_exact (a + b) h

-- 2 ^ 53 + 1 and 2 ^ 53 + 3 lie half-way, and go to the even neighbour.
to_f64_ties : to_f64 9007199254740993 ≡ 9007199254740992
unfolding to_f64
to_f64_ties = refl

to_f64_ties_up : to_f64 9007199254740995 ≡ 9007199254740996
unfolding to_f64
to_f64_ties_up = refl
