-- ===== src/Web/Sessions/Lifetime.antt =====
-- Who is in the cache, and for how long.
use etcdlabs.Web.Identity.{hash_sha512, Library, Request, generate_user_id}
use etcdlabs.Web.Identity.Masking.{generate_user_id-mask}
use etcdlabs.Prelude.{
  ℕ, ◌+◌, ◌≤◌, ◌<◌, ◌≡◌, refl, subst, ◌≢◌, ◌↔◌, inl, inr, true, none, some, [], ◌∷◌, arith, ret,
  Text, text_eq, text_eq_iff, length, ltb, if◌then◌else◌, Bool-cases, Option-cases,
}
use etcdlabs.Prelude.Dict.{lookup, insert, delete, lookup-insert, lookup-delete}
use etcdlabs.Ratelimit.{since}
use etcdlabs.Web.Sessions.{Sessions, visit, leave, touch, is_idle, clean, idle_limit}

-- After a visit the user is in the cache: from now on if the user is new, and otherwise with the last
-- activity as it was. Nobody else is affected.
pub lookup-visit :
    (now : ℕ) (id j : Text) (m : Sessions)
    → lookup j (visit now id m) ≡ (
        if text_eq id j
        then (elim (lookup id m) [ none ↦ some now | some t ↦ some t ])
        else lookup j m)
unfolding visit
lookup-visit now id j m = ground (arith, lookup-insert id j now m, text_eq_iff id j)

-- The status request marks a user of the cache as active now, brings in nobody, and reports exactly
-- whether the user was there.
pub lookup-touch :
    (now : ℕ) (id j : Text) (m : Sessions)
    → (lookup j (touch now id m).0 ≡ (elim (lookup id m) [
      | none ↦ lookup j m
      | some t ↦ (if text_eq id j then some now else lookup j m)
    ]))
      × (((touch now id m).1 ≡ true) ↔ (lookup id m ≢ none))
unfolding touch
lookup-touch now id j m = elim (Option-cases (lookup id m)) [
  | inl e ↦ (ground (arith, e), ((λ x. ground (arith, e)), (λ x. absurd (x e))))
  | inr (t, e) ↦
      (ground (arith, e, lookup-insert id j now m), ((λ x y. cc (e, y)), (λ x. ground (arith, e))))
]

is_idle_iff : (now t : ℕ) → (is_idle now t ≡ true) ↔ (t + idle_limit < now)
unfolding is_idle since
is_idle_iff now t = ground arith

-- Keys stand once.
abbrev pub IsKeyed : Sessions → Type 0
IsKeyed [] = Unit {0}
IsKeyed ((id, t) ∷ m) = (lookup id m ≡ none) × IsKeyed m

pub lookup-clean-none :
    (now : ℕ) (id : Text) (m : Sessions) → lookup id m ≡ none → lookup id (clean now m) ≡ none
unfolding lookup clean
lookup-clean-none now id [] e = refl
lookup-clean-none now id ((j, t) ∷ m) e = ground (arith, lookup-clean-none now id m)

-- A round of `cleanCache` drops exactly the users whose last activity is more than 15 minutes ago.
pub lookup-clean :
    (now : ℕ) (id : Text) (t : ℕ) (m : Sessions)
    → IsKeyed m
    → lookup id m ≡ some t
    → lookup id (clean now m) ≡ (if ltb (t + idle_limit) now then none else some t)
unfolding lookup clean
lookup-clean now id t [] k e = cc
lookup-clean now id t ((j, u) ∷ m) k e = ground (
  arith,
  is_idle_iff now u,
  text_eq_iff j id,
  lookup-clean now id t m,
  lookup-clean-none now id m,
)

-- What `generateUserID` and `maskUserID` need of the cache: keys stand once, and are long.
abbrev pub AllLong : Sessions → Type 0
AllLong [] = Unit {0}
AllLong ((id, t) ∷ m) = (15 ≤ length id) × AllLong m

AllLong-insert :
    (id : Text) (t : ℕ) (m : Sessions) → 15 ≤ length id → AllLong m → AllLong (insert id t m)
unfolding insert
AllLong-insert id t [] h a = (h, tt)
AllLong-insert id t ((j, u) ∷ m) h a = ground (arith, AllLong-insert id t m h a.1)

AllLong-delete : (id : Text) (m : Sessions) → AllLong m → AllLong (delete id m)
unfolding delete
AllLong-delete id [] a = tt
AllLong-delete id ((j, u) ∷ m) a = ground (arith, AllLong-delete id m a.1)

AllLong-clean : (now : ℕ) (m : Sessions) → AllLong m → AllLong (clean now m)
unfolding clean
AllLong-clean now [] a = tt
AllLong-clean now ((j, u) ∷ m) a = ground (arith, AllLong-clean now m a.1)

IsKeyed-insert : (id : Text) (t : ℕ) (m : Sessions) → IsKeyed m → IsKeyed (insert id t m)
unfolding insert lookup
IsKeyed-insert id t [] k = (refl, tt)
IsKeyed-insert id t ((j, u) ∷ m) k =
    ground
      (arith, IsKeyed-insert id t m k.1, lookup-insert id j t m, text_eq_iff id j, text_eq_iff j id)

IsKeyed-delete : (id : Text) (m : Sessions) → IsKeyed m → IsKeyed (delete id m)
unfolding delete
IsKeyed-delete id [] k = tt
IsKeyed-delete id ((j, u) ∷ m) k = ground (arith, IsKeyed-delete id m k.1, lookup-delete id j m)

IsKeyed-clean : (now : ℕ) (m : Sessions) → IsKeyed m → IsKeyed (clean now m)
unfolding clean
IsKeyed-clean now [] k = tt
IsKeyed-clean now ((j, u) ∷ m) k =
    ground (arith, IsKeyed-clean now m k.1, lookup-clean-none now j m)

-- One event of the server: a request that passes `withCache`, a DELETE, a status request, a round of
-- `cleanCache`.
pub data Event (lib : Library) : Sessions → Sessions → Type 0 where
  visited :
      {m : Sessions} (now : ℕ) (req : Request) (id : Text)
      → generate_user_id lib req ≡ ret id
      → Event lib m (visit now id m)
  left_ : {m : Sessions} (id : Text) → Event lib m (leave id m)
  touched : {m : Sessions} (now : ℕ) (id : Text) → Event lib m (touch now id m).0
  cleaned : {m : Sessions} (now : ℕ) → Event lib m (clean now m)

pub Event-IsKeyed : {lib : Library} {m n : Sessions} → Event lib m n → IsKeyed m → IsKeyed n
unfolding visit touch
Event-IsKeyed {lib} {m} (visited now req id e) k = elim (Option-cases (lookup id m)) [
  | inl x ↦ rw (x, visit) (IsKeyed-insert id now m k)
  | inr (t, x) ↦ rw (x, visit) k
]
Event-IsKeyed {lib} {m} (left_ id) k = IsKeyed-delete id m k
Event-IsKeyed {lib} {m} (touched now id) k = elim (Option-cases (lookup id m)) [
  | inl x ↦ rw (x, touch) k
  | inr (t, x) ↦ rw (x, touch) (IsKeyed-insert id now m k)
]
Event-IsKeyed {lib} {m} (cleaned now) k = IsKeyed-clean now m k

pub data History (lib : Library) : Sessions → Type 0 where
  empty : History lib []
  after : {m n : Sessions} → History lib m → Event lib m n → History lib n

pub record IsSound (m : Sessions) : Type 0 where
  pub keyed : IsKeyed m
  pub long : AllLong m

pub lookup_long :
    (id : Text) (t : ℕ) (m : Sessions) → lookup id m ≡ some t → AllLong m → 15 ≤ length id
unfolding lookup
lookup_long id t [] e a = cc
lookup_long id t ((j, u) ∷ m) e a = elim (Bool-cases (text_eq j id)) [
  | inl same ↦ let eq : j ≡ id = (text_eq_iff j id).0 same in subst (λ x. 15 ≤ length x) eq a.0
  | inr other ↦ lookup_long id t m (ground (arith, other)) a.1
]

visit-IsSound :
    (now : ℕ) (id : Text) (m : Sessions) → 15 ≤ length id → IsSound m → IsSound (visit now id m)
unfolding visit
visit-IsSound now id m h s = elim (Option-cases (lookup id m)) [
  | inl e ↦
      rw (e, visit)
        (record {
          keyed = IsKeyed-insert id now m s.keyed;
          long = AllLong-insert id now m h s.long;
        })
  | inr (t, e) ↦ rw (e, visit) s
]

touch-IsSound : (now : ℕ) (id : Text) (m : Sessions) → IsSound m → IsSound (touch now id m).0
unfolding touch
touch-IsSound now id m s = elim (Option-cases (lookup id m)) [
  | inl e ↦ rw (e, touch) s
  | inr (t, e) ↦
      rw (e, touch)
        (record {
          keyed = IsKeyed-insert id now m s.keyed;
          long = AllLong-insert id now m (lookup_long id t m e s.long) s.long;
        })
]

pub Event-IsSound :
    (lib : Library)
    → ((s : Text) → length (hash_sha512 lib s) ≡ 88)
    → {m n : Sessions} → Event lib m n
    → IsSound m
    → IsSound n
Event-IsSound lib hashed {m} (visited now req id e) s =
    let (id', mask, e', long, x, y) = generate_user_id-mask lib req hashed in
    let same : id' ≡ id = ground (arith, e, e') in
    visit-IsSound now id m (subst (λ t. 15 ≤ length t) same long) s
Event-IsSound lib hashed {m} (left_ id) s = record {
  keyed = IsKeyed-delete id m s.keyed;
  long = AllLong-delete id m s.long;
}
Event-IsSound lib hashed {m} (touched now id) s = touch-IsSound now id m s
Event-IsSound lib hashed {m} (cleaned now) s = record {
  keyed = IsKeyed-clean now m s.keyed;
  long = AllLong-clean now m s.long;
}

-- After any history every user stands once in the cache, under an id of at least 15 bytes; a SHA-512
-- sum has 88 bytes in base64.
pub History-IsSound :
    (lib : Library)
    → ((s : Text) → length (hash_sha512 lib s) ≡ 88)
    → {m : Sessions} → History lib m
    → IsSound m
History-IsSound lib hashed empty = record { keyed = tt; long = tt }
History-IsSound lib hashed (after h ev) = Event-IsSound lib hashed ev (History-IsSound lib hashed h)
