-- ===== src/Ratelimit.antt =====
-- pkg/ratelimit: `requestLimiter` of ratelimit.go and `roundDownDuration` of utils.go.
-- Instants are nanoseconds, and the zero `time.Time` is 0. The goroutine that waits on the vendored
-- `rate.Limiter` and the `select` over three channels enter as the event that wins the `select`;
-- the token bucket itself is a parameter, and so is the text of a duration.
pub mod Rounding
pub mod Decision
pub mod Spacing
use Prim.Native.Nat.{min}
use etcdlabs.Prelude.{
  ℕ, ◌-◌, ◌^◌, Bool, true, false, ◌++◌, Text, codes, Exec, ret, panics, ◌>>=◌, leb, ltb,
  if◌then◌else◌,
}
use etcdlabs.Prelude.Int.{ℤ, pos, negsuc, ◌-ℤ◌, wrap_int64, quot, times, pos_part, neg_part}

-- `d /= scale; d *= scale`, which panics on a zero divisor.
unfoldable pub round_down_duration : ℤ → ℤ → Exec ℤ
round_down_duration d (pos ℕ.zero) = panics
round_down_duration d (pos (ℕ.suc s)) =
    ret (wrap_int64 (times (wrap_int64 (quot d (pos (ℕ.suc s)))) (pos (ℕ.suc s))))
round_down_duration d (negsuc s) =
    ret (wrap_int64 (times (wrap_int64 (quot d (negsuc s))) (negsuc s)))

-- `time.Since`, which stops at the ends of `int64`.
unfoldable pub since : ℕ → ℕ → ℤ
since now t =
    if leb t now then pos (min (now - t) (2 ^ 63 - 1)) else negsuc (min (t - now - 1) (2 ^ 63 - 1))

abbrev pub millisecond : ℤ
millisecond = pos 1_000_000

-- What the program uses of `golang.org/x/time/rate`: `NewLimiter(Every(interval), burst)` and
-- `SetLimit(Every(interval))`.
pub record Buckets : Type 1 where
  pub Limiter : Type 0
  pub new_limiter : ℤ → ℕ → Limiter
  pub set_limit : Limiter → ℤ → Limiter

-- What `limiter.Wait` gives the goroutine: a token, `context.Canceled`, or another error.
pub data WaitResult : Type 0 where
  permitted wait_canceled wait_failed : WaitResult

-- The case of the `select` that is taken.
pub data Select : Type 0 where
  root_done : Select
  wait_closed : WaitResult → Select
  timer_fired : Select

pub record RequestLimiter (L : Type 0) : Type 0 where
  pub interval : ℤ
  pub min_scale : ℤ
  pub limiter : L
  pub last_request : ℕ

abbrev pub ok_message : Text
ok_message = codes "OK"

abbrev pub canceled_message : Text
canceled_message = codes "context canceled"

abbrev pub root_canceled_message : Text
root_canceled_message = codes "root " ++ canceled_message

module _ (buckets : Buckets) where
  open buckets use {Limiter, new_limiter, set_limit}

  unfoldable pub new_request_limiter : ℤ → RequestLimiter Limiter
  new_request_limiter interval = record {
    interval = interval;
    min_scale = millisecond;
    limiter = new_limiter interval 1;
    last_request = 0;
  }

  unfoldable pub set_interval : ℤ → RequestLimiter Limiter → RequestLimiter Limiter
  set_interval interval rl = record rl {
    limiter = set_limit rl.limiter interval;
    interval = interval;
  }

unfoldable pub advance : {L : Type 0} → ℕ → RequestLimiter L → RequestLimiter L
advance now rl = record rl { last_request = now }

-- `rl.interval - time.Since(rl.lastRequest)`, an `int64` difference.
unfoldable pub remaining : ℕ → ℤ → ℕ → ℤ
remaining now interval last = wrap_int64 (interval -ℤ since now last)

module _ (show_duration : ℤ → Text) where
  pub limit_message : ℤ → Text
  limit_message left =
      codes "rate limit exceeded (try again after " ++ (show_duration left ++ codes ")")

  -- The timer's branch: the limiter did not answer within 5ms.
  unfoldable pub check_timer : {L : Type 0} → ℕ → RequestLimiter L → Exec (Text × Bool)
  check_timer now rl =
      let left = remaining now rl.interval rl.last_request in
      if ltb (neg_part left) (pos_part left)
      then (round_down_duration left rl.min_scale >>= λ d. ret (limit_message d, false))
      else ret (ok_message, true)

  -- `now` is the time at which the timer fires.
  unfoldable pub check : {L : Type 0} → Select → ℕ → RequestLimiter L → Exec (Text × Bool)
  unfolding check_timer
  check root_done now rl = ret (root_canceled_message, false)
  check (wait_closed wait_canceled) now rl = ret (canceled_message, false)
  check (wait_closed permitted) now rl = ret (ok_message, true)
  check (wait_closed wait_failed) now rl = ret (ok_message, true)
  check timer_fired now rl = check_timer now rl
