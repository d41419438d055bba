-- ===== src/Runs/Limits.antt =====
-- The theorems of the rate limiter at concrete requests.
use etcdlabs.Prelude.{ℕ, ◌+◌, ◌*◌, ◌≤◌, ◌≡◌, refl, ◌↔◌, true, false, List, [], ◌∷◌, arith, ret, All}
use etcdlabs.Prelude.Int.{pos}
use etcdlabs.Ratelimit.{
  RequestLimiter, advance, timer_fired, wait_closed, permitted, check, limit_message, ok_message,
}
use etcdlabs.Ratelimit.Decision.{HasInterval, check_timer_iff, check_retry}
use etcdlabs.Ratelimit.Spacing
use etcdlabs.Ratelimit.Spacing.{serve, accepted_spacing}
use etcdlabs.Runs.{limiter, show}

abbrev limiter-HasInterval : HasInterval 3_000_000_000 limiter
limiter-HasInterval = record { interval_eq = refl; scale_eq = refl; fits = omega arith }

check_timer_iff_example :
    (check show timer_fired 4_000_000_000 limiter ≡ ret (ok_message, true))
    ↔ (limiter.last_request + 3_000_000_000 ≤ 4_000_000_000)
check_timer_iff_example =
    check_timer_iff show 3_000_000_000 4_000_000_000 limiter limiter-HasInterval (omega arith)

check_retry_example :
    (q : ℕ) × (check show timer_fired 2_000_000_000 limiter
      ≡ ret (limit_message show (pos (q * 1_000_000)), false))
    × (2_000_000_000 + q * 1_000_000 ≤ limiter.last_request + 3_000_000_000)
    × ((later : ℕ)
        → 2_000_000_000 + (q + 1) * 1_000_000 ≤ later
        → check show timer_fired later limiter ≡ ret (ok_message, true))
check_retry_example =
    check_retry show 3_000_000_000 2_000_000_000 limiter limiter-HasInterval (omega arith)
      (omega arith)

abbrev history : List Spacing.Request
history = record { at = 10; select = wait_closed permitted; advanced = 20 } ∷ []

abbrev busy : RequestLimiter ℕ
busy = record limiter { last_request = 20 }

served : serve show history limiter ≡ ret (busy, 20 ∷ [])
unfolding serve Spacing.guarded check advance
served = refl

accepted : check show timer_fired 4_000_000_000 busy ≡ ret (ok_message, true)
accepted =
    (check_timer_iff show 3_000_000_000 4_000_000_000 busy
        (record { interval_eq = refl; scale_eq = refl; fits = omega arith }) (omega arith)).1
      (omega arith)

accepted_spacing_example : All (λ a. a + 3_000_000_000 ≤ 4_000_000_000) (20 ∷ [])
accepted_spacing_example =
    accepted_spacing show 3_000_000_000 history 4_000_000_000 limiter busy (20 ∷ [])
      limiter-HasInterval (omega arith) served (omega arith) accepted
