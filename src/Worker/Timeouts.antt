-- ===== src/Worker/Timeouts.antt =====
-- How long an executor gets.
use golang_assignment.Prelude.{ℕ, ◌*◌, ◌^◌, ◌≤◌, ◌<◌, ◌≡◌, arith}
use golang_assignment.Prelude.Int.{ℤ, pos, negsuc}
use golang_assignment.Worker.{seconds, timeout_of}

seconds-lt : (s : ℤ) → seconds s < 2 ^ 64
unfolding seconds
seconds-lt (pos n) = omega arith
seconds-lt (negsuc n) = omega arith

-- Whatever `timeout_seconds` a job has, negative, 0 or so large that the product wraps around, its
-- executor gets a positive `time.Duration`.
pub timeout_of_positive : (s : ℤ) → (0 < timeout_of s) × (timeout_of s < 2 ^ 63)
unfolding timeout_of
timeout_of_positive s = (ground (arith, seconds-lt s), ground (arith, seconds-lt s))

-- A positive number of seconds up to 9223372036 (292 years) is taken exactly.
pub timeout_of_exact : (n : ℕ) → 0 < n → n ≤ 9223372036 → timeout_of (pos n) ≡ n * 1000000000
unfolding timeout_of seconds
timeout_of_exact n positive small = ground arith
