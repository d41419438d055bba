-- ===== src/Runs/Users.antt =====
-- The theorems of the user cache and of the user ids at a concrete request.
use etcdlabs.Prelude.Dict.{insert, lookup}
use etcdlabs.Prelude.{
  ◌+◌, ◌≤◌, ◌≡◌, refl, none, some, List, [], ◌∷◌, ◌++◌, arith, ret, Text, codes, text_eq, contains,
  length, take, drop, ltb, if◌then◌else◌,
}
use Prim.Native.Nat.{min}
use etcdlabs.Web.Identity.{
  hash_sha512, classify_ua, mask_user_id, generate_user_id, user_ip, slice, os_part, browser_part,
}
use etcdlabs.Web.Identity.Masking.{mask_user_id_hides, generate_user_id-mask}
use etcdlabs.Web.Sessions.{Sessions, visit, clean, idle_limit, get_user_ids}
use etcdlabs.Web.Sessions.Lifetime.{IsKeyed, History, empty, after, visited, lookup-clean}
use mathlib.Core.List.{Perm}
use mathlib.Core.List.Perm
use etcdlabs.Web.Sessions.Order.{get_user_ids-order}
use etcdlabs.Web.Sessions.Listing.{get_user_ids_lem, mask_each, IsSorted}
use etcdlabs.Web.Sessions.Timers.{timer_of, lookup-timer_of}
use etcdlabs.Runs.{library, request}

abbrev id : Text
id = codes "10001linuxfirefox012345678901234"

generated : generate_user_id library request ≡ ret id
unfolding generate_user_id user_ip slice classify_ua os_part browser_part
    etcdlabs.Prelude.Bytes.contains
generated = refl

hashed : (s : Text) → length (hash_sha512 library s) ≡ 88
hashed s = refl

abbrev cache : Sessions
cache = visit 7 id []

visits : History library cache
visits = after empty (visited 7 request id generated)

mask_user_id_hides_example : mask_user_id (codes "101201linux") ≡ mask_user_id (codes "109999999ux")
mask_user_id_hides_example =
    mask_user_id_hides (codes "101201linux") (codes "109999999ux") (omega arith) (omega arith) refl
      refl

generate_user_id-mask_example :
    (id : Text) × (mask : Text) × (generate_user_id library request ≡ ret id)
    × (15 ≤ length id)
    × (mask_user_id id ≡ ret mask)
    × (length mask ≤ 26)
generate_user_id-mask_example = generate_user_id-mask library request hashed

found : lookup (codes "a") ((codes "a", 7) ∷ []) ≡ some 7
unfolding lookup etcdlabs.Prelude.Bytes.text_eq
found = refl

single : IsKeyed ((codes "a", 7) ∷ [])
unfolding lookup etcdlabs.Prelude.Bytes.text_eq
single = (refl, tt)

lookup-clean_example :
    lookup (codes "a") (clean 900_000_000_008 ((codes "a", 7) ∷ []))
    ≡ (if ltb (7 + idle_limit) 900_000_000_008 then none else some 7)
lookup-clean_example = lookup-clean 900_000_000_008 (codes "a") 7 ((codes "a", 7) ∷ []) single found

lookup-timer_of_example : lookup id cache ≡ timer_of id visits
lookup-timer_of_example = lookup-timer_of visits id

present : lookup id cache ≡ some 7
unfolding visit lookup insert etcdlabs.Prelude.Bytes.text_eq
present = refl

get_user_ids_lem_example :
    (ms : List Text) × (r : List Text) × (mask_each (id ∷ []) ≡ ret ms)
    × (get_user_ids (id ∷ []) ≡ ret r)
    × Perm r ms
    × IsSorted r
    × (length r ≡ min 21 (length (id ∷ [])))
get_user_ids_lem_example = get_user_ids_lem library cache (id ∷ []) hashed visits ((7, present), tt)

abbrev other : Text
other = codes "10002darwinchrome012345678901234"

get_user_ids-order_example : get_user_ids (id ∷ other ∷ []) ≡ get_user_ids (other ∷ id ∷ [])
get_user_ids-order_example =
    get_user_ids-order (id ∷ other ∷ []) (other ∷ id ∷ []) (omega arith, (omega arith, tt))
      (omega arith) (Perm.swap other id [])
