-- ===== src/Ratelimit/Decision.antt =====
-- What `Check` answers in each case of its `select`.
use etcdlabs.Prelude.{
  ℕ, ◌+◌, ◌-◌, ◌*◌, ◌/◌, ◌^◌, ◌≤◌, ◌<◌, ◌≡◌, refl, ◌≢◌, ◌↔◌, inl, inr, Bool, true, false, arith,
  ret, Text, leb, Bool-cases,
}
use etcdlabs.Ratelimit.{
  root_done, wait_closed, permitted, wait_failed, wait_canceled, timer_fired, Select, check,
  RequestLimiter, since, remaining, check_timer, limit_message, ok_message,
}
use etcdlabs.Prelude.Int.{◌-ℤ◌, ℤ, pos, wrap_int64, pos_part}
use etcdlabs.Ratelimit.Rounding.{floor_to, round_down_duration_pos}

-- A limiter as `NewRequestLimiter` and `SetInterval` leave it: the interval `n` is a duration that is
-- not negative, and the scale is a millisecond.
pub record HasInterval {L : Type 0} (n : ℕ) (rl : RequestLimiter L) : Type 0 where
  pub interval_eq : rl.interval ≡ pos n
  pub scale_eq : rl.min_scale ≡ pos 1_000_000
  pub fits : n < 2 ^ 63

remaining_left :
    (n now last : ℕ)
    → n < 2 ^ 63
    → last ≤ now
    → now < last + n
    → remaining now (pos n) last ≡ pos (last + n - now)
unfolding remaining since ◌-ℤ◌ wrap_int64
remaining_left n now last f h k = ground arith

remaining_due :
    (n now last : ℕ) → n < 2 ^ 63 → last + n ≤ now → pos_part (remaining now (pos n) last) ≡ 0
unfolding remaining since ◌-ℤ◌ wrap_int64
remaining_due n now last f h = ground arith

module _ (show_duration : ℤ → Text) where
  -- The timer's branch accepts once the interval has passed since the last `Advance`.
  pub check_timer_accepts :
      {L : Type 0} (n now : ℕ) (rl : RequestLimiter L)
      → HasInterval n rl
      → rl.last_request + n ≤ now
      → check_timer show_duration now rl ≡ ret (ok_message, true)
  unfolding check_timer
  check_timer_accepts n now rl v h =
      ground (arith, v.interval_eq, remaining_due n now rl.last_request v.fits h)

  pub check_timer_rejects :
      {L : Type 0} (n now : ℕ) (rl : RequestLimiter L)
      → HasInterval n rl
      → rl.last_request ≤ now
      → now < rl.last_request + n
      → check_timer show_duration now rl
        ≡ ret (
          limit_message show_duration (pos (floor_to 1_000_000 (rl.last_request + n - now))),
          false,
        )
  unfolding check_timer
  check_timer_rejects n now rl v h k = ground (
    arith,
    remaining_left n now rl.last_request v.fits h k,
    round_down_duration_pos (rl.last_request + n - now) 999_999,
  )

  limit_message-ne-ok : (left : ℤ) → limit_message show_duration left ≢ ok_message
  unfolding limit_message
  limit_message-ne-ok left e = cc

  -- Whatever case of the `select` is taken, `Check` returns, and its message is "OK" exactly when it
  -- accepts, for a limiter with an interval that is not negative and a clock that has not gone back
  -- behind the last `Advance`.
  pub check_message :
      {L : Type 0} (sel : Select) (n now : ℕ) (rl : RequestLimiter L)
      → HasInterval n rl
      → rl.last_request ≤ now
      → (answer : Text × Bool) × (check show_duration sel now rl ≡ ret answer)
        × ((answer.1 ≡ true) ↔ (answer.0 ≡ ok_message))
  unfolding check
  check_message root_done n now rl v h = (_, refl, ((λ e. cc), (λ e. cc)))
  check_message (wait_closed permitted) n now rl v h = (_, refl, ((λ e. refl), (λ e. refl)))
  check_message (wait_closed wait_failed) n now rl v h = (_, refl, ((λ e. refl), (λ e. refl)))
  check_message (wait_closed wait_canceled) n now rl v h = (_, refl, ((λ e. cc), (λ e. cc)))
  check_message timer_fired n now rl v h = elim (Bool-cases (leb (rl.last_request + n) now)) [
    | inl due ↦ (_, check_timer_accepts n now rl v (ground arith), ((λ e. refl), (λ e. refl)))
    | inr early ↦ (
      _,
      check_timer_rejects n now rl v h (ground arith),
      ((λ e. cc), (λ e. absurd (limit_message-ne-ok _ e))),
    )
  ]

  -- When the limiter blocks for 5ms, `Check` accepts exactly if the interval has passed since the
  -- last `Advance`.
  pub check_timer_iff :
      {L : Type 0} (n now : ℕ) (rl : RequestLimiter L)
      → HasInterval n rl
      → rl.last_request ≤ now
      → (check show_duration timer_fired now rl ≡ ret (ok_message, true))
        ↔ (rl.last_request + n ≤ now)
  unfolding check
  check_timer_iff n now rl v h = (only, check_timer_accepts n now rl v)
    where
      only : check_timer show_duration now rl ≡ ret (ok_message, true) → rl.last_request + n ≤ now
      only e = elim (Bool-cases (leb (rl.last_request + n) now)) [
        | inl due ↦ ground arith
        | inr early ↦ cc (check_timer_rejects n now rl v h (ground arith))
      ]

  -- A request that is rejected at the timer is told a whole number of milliseconds, never more than
  -- the time that is left, and a request that comes a millisecond after that time is not rejected at
  -- the timer.
  pub check_retry :
      {L : Type 0} (n now : ℕ) (rl : RequestLimiter L)
      → HasInterval n rl
      → rl.last_request ≤ now
      → now < rl.last_request + n
      → (q : ℕ) × (check show_duration timer_fired now rl
          ≡ ret (limit_message show_duration (pos (q * 1_000_000)), false))
        × (now + q * 1_000_000 ≤ rl.last_request + n)
        × ((later : ℕ)
            → now + (q + 1) * 1_000_000 ≤ later
            → check show_duration timer_fired later rl ≡ ret (ok_message, true))
  unfolding check
  check_retry n now rl v h k = (
    (rl.last_request + n - now) / 1_000_000,
    check_timer_rejects n now rl v h k,
    omega arith,
    λ later m. check_timer_accepts n later rl v (omega arith),
  )
