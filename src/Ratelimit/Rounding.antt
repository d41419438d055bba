-- ===== src/Ratelimit/Rounding.antt =====
-- `roundDownDuration` of utils.go: what rounding does to a duration.
use etcdlabs.Prelude.{ℕ, suc, ◌+◌, ◌*◌, ◌/◌, ◌^◌, ◌≤◌, ◌<◌, ◌≡◌, refl, arith, ret}
use etcdlabs.Prelude.Int.{pos, wrap_int64_fits, times}
use etcdlabs.Ratelimit.{round_down_duration}

abbrev pub floor_to : ℕ → ℕ → ℕ
floor_to s n = n / s * s

pub floor_to_bounds : (n s : ℕ) → (floor_to (suc s) n ≤ n) × (n < floor_to (suc s) n + suc s)
floor_to_bounds n s = grind arith

div_le : (n s : ℕ) → n / suc s ≤ n
div_le n s = grind arith

times_pos : (q s : ℕ) → times (pos q) (pos s) ≡ pos (q * s)
times_pos q s = ground arith

-- A duration that is not negative is rounded down to a multiple of the scale.
pub round_down_duration_pos :
    (n s : ℕ)
    → n < 2 ^ 63
    → round_down_duration (pos n) (pos (suc s)) ≡ ret (pos (floor_to (suc s) n))
unfolding round_down_duration
round_down_duration_pos n s h =
    rw
      (
        wrap_int64_fits (pos (n / suc s)) (omega (arith, div_le n s), omega arith),
        times_pos (n / suc s) (suc s),
        wrap_int64_fits (pos (n / suc s * suc s)) (omega (arith, floor_to_bounds n s), omega arith),
      )
      refl
