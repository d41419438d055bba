-- ===== src/Web/Sessions.antt =====
-- The user cache of backend/web/handler.go: `globalUserCache` and what `withCache`, `cleanCache` and
-- the handlers do to it. An entry is a user id with the time of the last activity.
pub mod Lifetime
pub mod Timers
pub mod Listing
pub mod Order
use etcdlabs.Prelude.{
  ℕ, ◌+◌, Bool, true, false, ◌&&◌, ◌||◌, none, some, List, [], ◌∷◌, ◌++◌, Exec, ret, ◌>>=◌, Text,
  length, ltb, ◌==◌, if◌then◌else◌,
}
use etcdlabs.Prelude.Int.{pos_part, neg_part}
use etcdlabs.Prelude.Dict.{lookup, insert, delete}
use etcdlabs.Ratelimit.{since}
use etcdlabs.Web.Identity.{mask_user_id}

abbrev pub Sessions : Type 0
Sessions = List (Text × ℕ)

-- `getUserIDsN`
abbrev pub get_user_ids_n : Sessions → ℕ
get_user_ids_n cache = length cache

-- 15 minutes.
abbrev pub idle_limit : ℕ
idle_limit = 900_000_000_000

-- `withCache`: a user who is not in the cache is added.
unfoldable pub visit : ℕ → Text → Sessions → Sessions
visit now id cache = elim (lookup id cache) [ none ↦ insert id now cache | some t ↦ cache ]

-- The DELETE of `connectHandler`.
abbrev pub leave : Text → Sessions → Sessions
leave = delete

-- The GET of `serverStatusHandler`: a user in the cache is active now.
unfoldable pub touch : ℕ → Text → Sessions → Sessions × Bool
touch now id cache = elim (lookup id cache) [
  | none ↦ (cache, false)
  | some t ↦ (insert id now cache, true)
]

-- `since > 15*time.Minute`
unfoldable pub is_idle : ℕ → ℕ → Bool
is_idle now t = let d = since now t in ltb (idle_limit + neg_part d) (pos_part d)

-- One round of `cleanCache`.
unfoldable pub clean : ℕ → Sessions → Sessions
clean now [] = []
clean now ((id, t) ∷ m) = let rest = clean now m in if is_idle now t then rest else (id, t) ∷ rest

-- Go's order of strings, by bytes, and `sort.Strings`.
unfoldable pub text_leb : Text → Text → Bool
text_leb [] t = true
text_leb (a ∷ s) [] = false
text_leb (a ∷ s) (b ∷ t) = ltb a b || (a == b && text_leb s t)

unfoldable pub place : Text → List Text → List Text
place s [] = s ∷ []
place s (t ∷ ts) = if text_leb s t then s ∷ t ∷ ts else t ∷ place s ts

unfoldable pub sort_strings : List Text → List Text
unfolding place
sort_strings [] = []
sort_strings (s ∷ ss) = place s (sort_strings ss)

-- The loop of `getUserIDs` over the ids in the order in which Go ranges over the map.
unfoldable pub collect : List Text → List Text → Exec (List Text)
collect s [] = ret s
collect s (id ∷ ids) = mask_user_id id >>= λ m.
    let s' = s ++ m ∷ [] in let more = collect s' ids in if ltb 20 (length s') then ret s' else more

unfoldable pub get_user_ids : List Text → Exec (List Text)
unfolding collect sort_strings
get_user_ids ids = collect [] ids >>= λ s. ret (sort_strings s)
