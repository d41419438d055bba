-- ===== src/Web/Sessions/Timers.antt =====
-- The user cache seen one user at a time: the time of the last activity of a user, by the events of
-- that user and the rounds of `cleanCache` alone.
use etcdlabs.Prelude.{
  ℕ, ◌+◌, ◌≡◌, refl, ap, ◌∙◌, inl, inr, Option, none, some, arith, Text, text_eq, text_eq_iff, ltb,
  if◌then◌else◌, Option-cases,
}
use etcdlabs.Prelude.Dict.{lookup, lookup-delete}
use etcdlabs.Web.Identity.{Library}
use etcdlabs.Web.Sessions.{Sessions, idle_limit}
use etcdlabs.Web.Sessions.Lifetime.{
  History, Event, empty, after, visited, left_, touched, cleaned, IsKeyed, Event-IsKeyed,
  lookup-visit, lookup-touch, lookup-clean, lookup-clean-none,
}

-- What one event does to the timer of the user `id`: a visit starts it, a status request sets it if it
-- runs, a DELETE stops it, and so does a round of `cleanCache` that finds it more than 15 minutes old.
abbrev pub turn : {lib : Library} {m n : Sessions} → Text → Event lib m n → Option ℕ → Option ℕ
turn id (visited now req j e) timer =
    if text_eq j id then (elim timer [ none ↦ some now | some t ↦ some t ]) else timer
turn id (left_ j) timer = if text_eq j id then none else timer
turn id (touched now j) timer =
    if text_eq j id then (elim timer [ none ↦ none | some t ↦ some now ]) else timer
turn id (cleaned now) timer = elim timer [
  | none ↦ none
  | some t ↦ if ltb (t + idle_limit) now then none else some t
]

abbrev pub timer_of : {lib : Library} {m : Sessions} → Text → History lib m → Option ℕ
timer_of id empty = none
timer_of id (after h ev) = turn id ev (timer_of id h)

History-IsKeyed : {lib : Library} {m : Sessions} → History lib m → IsKeyed m
History-IsKeyed empty = tt
History-IsKeyed (after h ev) = Event-IsKeyed ev (History-IsKeyed h)

lookup-turn :
    {lib : Library} {m n : Sessions} (id : Text) (ev : Event lib m n)
    → IsKeyed m
    → lookup id n ≡ turn id ev (lookup id m)
lookup-turn {lib} {m} id (visited now req j e) k =
    ground (arith, lookup-visit now j id m, text_eq_iff j id)
lookup-turn {lib} {m} id (left_ j) k = ground (arith, lookup-delete j id m)
lookup-turn {lib} {m} id (touched now j) k =
    ground (arith, (lookup-touch now j id m).0, text_eq_iff j id)
lookup-turn {lib} {m} id (cleaned now) k = elim (Option-cases (lookup id m)) [
  | inl e ↦ rw e (lookup-clean-none now id m e)
  | inr (t, e) ↦ rw e (lookup-clean now id t m k e)
]

-- After any history of the cache, a user is in it exactly if the timer of the user runs, and the cache
-- holds the timer's time: the users do not disturb each other, a visit starts a timer only if it does
-- not run, a status request sets one that runs, and it is stopped by a DELETE or by a round of `cleanCache` more than 15
-- minutes after that time, and by nothing else.
pub lookup-timer_of :
    {lib : Library} {m : Sessions} (h : History lib m) (id : Text) → lookup id m ≡ timer_of id h
unfolding lookup
lookup-timer_of empty id = refl
lookup-timer_of (after h ev) id =
    lookup-turn id ev (History-IsKeyed h) ∙ ap (turn id ev) (lookup-timer_of h id)
