-- ===== src/Ratelimit/Spacing.antt =====
-- A history of requests that are guarded the way the handlers guard theirs: `Check`, and `Advance`
-- if it accepts.
use etcdlabs.Prelude.{
  Exec-cases, ℕ, ◌+◌, ◌≤◌, ◌≡◌, arith, Exec, ret, ◌>>=◌, Bool, true, Text, inl, inr, if◌then◌else◌,
  List, [], ◌∷◌, All,
}
use etcdlabs.Prelude.Int.{ℤ}
use etcdlabs.Ratelimit.{RequestLimiter, Select, timer_fired, check, advance, ok_message}
use etcdlabs.Ratelimit.Decision.{HasInterval, check_timer_iff}

-- One request: the time of the `select`, the case that it takes, and the time of the `Advance`.
pub record Request : Type 0 where
  pub at : ℕ
  pub select : Select
  pub advanced : ℕ

module _ (show_duration : ℤ → Text) where
  unfoldable pub guarded :
      {L : Type 0} → Request → RequestLimiter L → Exec (RequestLimiter L × Bool)
  guarded q rl = do
    (msg, ok) ← check show_duration q.select q.at rl
    ret (if ok then advance q.advanced rl else rl, ok)

  -- The limiter after a history, and the `Advance` times of the requests that were accepted.
  unfoldable pub serve :
      {L : Type 0} → List Request → RequestLimiter L → Exec (RequestLimiter L × List ℕ)
  serve [] rl = ret (rl, [])
  serve (q ∷ qs) rl = do
    (rl', ok) ← guarded q rl
    (rl'', log) ← serve qs rl'
    ret (rl'', if ok then q.advanced ∷ log else log)

-- Requests come one after the other, none before `t`.
abbrev pub IsChronological : ℕ → List Request → Type 0
IsChronological t [] = Unit {0}
IsChronological t (q ∷ qs) = (t ≤ q.at) × (q.at ≤ q.advanced) × IsChronological q.advanced qs

-- The time of the last `Advance` of a history, `t` if there is none.
abbrev pub end_of : ℕ → List Request → ℕ
end_of t [] = t
end_of t (q ∷ qs) = end_of q.advanced qs

end_of_ge : (t : ℕ) (qs : List Request) → IsChronological t qs → t ≤ end_of t qs
end_of_ge t [] c = omega arith
end_of_ge t (q ∷ qs) c = omega (arith, end_of_ge q.advanced qs c.2)

module _ (show_duration : ℤ → Text) where
  guarded_served :
      {L : Type 0} (n : ℕ) (q : Request) (rl rl' : RequestLimiter L) (ok : Bool)
      → HasInterval n rl
      → rl.last_request ≤ q.at
      → q.at ≤ q.advanced
      → guarded show_duration q rl ≡ ret (rl', ok)
      → HasInterval n rl'
        × (rl.last_request ≤ rl'.last_request)
        × (rl'.last_request ≤ q.advanced)
        × (ok ≡ true → q.advanced ≤ rl'.last_request)
  unfolding guarded advance
  guarded_served n q rl rl' ok v h k e = ground arith

  -- What a history leaves: the interval, and a last request not before any accepted one.
  serve_served :
      {L : Type 0} (n t : ℕ) (qs : List Request) (rl rl' : RequestLimiter L) (log : List ℕ)
      → HasInterval n rl
      → rl.last_request ≤ t
      → IsChronological t qs
      → serve show_duration qs rl ≡ ret (rl', log)
      → HasInterval n rl'
        × (rl.last_request ≤ rl'.last_request)
        × (rl'.last_request ≤ end_of t qs)
        × All (λ a. a ≤ rl'.last_request) log
  unfolding serve
  serve_served n t [] rl rl' log v h c e = ground arith
  serve_served n t (q ∷ qs) rl rl' log v h c e = elim (Exec-cases (guarded show_duration q rl)) [
    | inl p ↦ ground (arith, p)
    | inr ((rl₁, ok), p) ↦ elim (Exec-cases (serve show_duration qs rl₁)) [
      | inl p₁ ↦ ground (arith, p, p₁)
      | inr ((rl₂, log₂), p₁) ↦
          let (v₁, lo, hi, took) = guarded_served n q rl rl₁ ok v (omega arith) c.1 p in
          let (v₂, lo₂, hi₂, kept) = serve_served n q.advanced qs rl₁ rl₂ log₂ v₁ hi c.2 p₁ in
          ground arith
    ]
  ]

  -- Take a history of guarded requests, each with its `Advance` behind its `select`, and one request
  -- after it that is accepted by the timer. It comes at least the interval after every request of the
  -- history that was accepted.
  pub accepted_spacing :
      {L : Type 0} (n : ℕ) (qs : List Request) (now : ℕ) (rl rl' : RequestLimiter L) (log : List ℕ)
      → HasInterval n rl
      → IsChronological rl.last_request qs
      → serve show_duration qs rl ≡ ret (rl', log)
      → end_of rl.last_request qs ≤ now
      → check show_duration timer_fired now rl' ≡ ret (ok_message, true)
      → All (λ a. a + n ≤ now) log
  accepted_spacing n qs now rl rl' log v c e h a =
      let (v', lo, hi, kept) = serve_served n rl.last_request qs rl rl' log v (omega arith) c e in
      let due : rl'.last_request + n ≤ now =
        (check_timer_iff show_duration n now rl' v' (omega arith)).0 a in
      shift log kept due
    where
      shift :
          (xs : List ℕ)
          → All (λ a. a ≤ rl'.last_request) xs
          → rl'.last_request + n ≤ now
          → All (λ a. a + n ≤ now) xs
      shift [] k d = tt
      shift (x ∷ xs) k d = (omega arith, shift xs k.1 d)
