-- ===== src/Web/Sessions/Listing.antt =====
-- `getUserIDs`: which masks it lists, and in which order.
use etcdlabs.Prelude.{
  ℕ, suc, ◌≤◌, ◌≡◌, refl, inl, inr, true, some, List, [], ◌∷◌, ◌++◌, arith, ret, Text, codes,
  length, take, drop, All, length-append, ltb, Bool-cases, ◌-◌, sym, ap, ◌∙◌, Exec, ◌>>=◌,
}
use Prim.Native.Nat.{min}
use mathlib.Core.List.{append-nil, append_assoc, Perm}
use mathlib.Core.List.Perm
use etcdlabs.Prelude.Dict.{lookup}
use etcdlabs.Prelude.Slices.{take-nil}
use etcdlabs.Web.Identity.{hash_sha512, Library, mask_user_id, clip}
use etcdlabs.Web.Identity.Masking.{mask_user_id-shape}
use etcdlabs.Web.Sessions.{Sessions, text_leb, place, sort_strings, collect, get_user_ids}
use etcdlabs.Web.Sessions.Order.{text_leb_total}
use etcdlabs.Web.Sessions.Lifetime.{History, History-IsSound, AllLong, lookup_long}

abbrev pub IsSorted : List Text → Type 0
IsSorted [] = Unit {0}
IsSorted (s ∷ []) = Unit {0}
IsSorted (s ∷ t ∷ ts) = (text_leb s t ≡ true) × IsSorted (t ∷ ts)

place-IsSorted : (s : Text) (ts : List Text) → IsSorted ts → IsSorted (place s ts)
unfolding place
place-IsSorted s [] h = tt
place-IsSorted s (t ∷ []) h = ground (arith, text_leb_total s t)
place-IsSorted s (t ∷ u ∷ ts) h =
    ground (arith, text_leb_total s t, text_leb_total s u, place-IsSorted s (u ∷ ts) h.1)

sort-IsSorted : (ss : List Text) → IsSorted (sort_strings ss)
unfolding sort_strings
sort-IsSorted [] = tt
sort-IsSorted (s ∷ ss) = place-IsSorted s (sort_strings ss) (sort-IsSorted ss)

length-place : (s : Text) (ts : List Text) → length (place s ts) ≡ suc (length ts)
unfolding place
length-place s [] = refl
length-place s (t ∷ ts) = ground (arith, length-place s ts)

length-sort : (ss : List Text) → length (sort_strings ss) ≡ length ss
unfolding sort_strings
length-sort [] = refl
length-sort (s ∷ ss) = omega (arith, length-place s (sort_strings ss), length-sort ss)

place-Perm : (s : Text) (ts : List Text) → Perm (place s ts) (s ∷ ts)
unfolding place
place-Perm s [] = Perm.refl (s ∷ [])
place-Perm s (t ∷ ts) = elim (Bool-cases (text_leb s t)) [
  | inl first ↦ rw first (Perm.refl (s ∷ t ∷ ts))
  | inr later ↦ rw later (Perm.trans (Perm.cons t (place-Perm s ts)) (Perm.swap s t ts))
]

sort-Perm : (ss : List Text) → Perm (sort_strings ss) ss
unfolding sort_strings
sort-Perm [] = Perm.refl []
sort-Perm (s ∷ ss) = Perm.trans (place-Perm s (sort_strings ss)) (Perm.cons s (sort-Perm ss))

-- `maskUserID` of each.
abbrev pub mask_each : List Text → Exec (List Text)
mask_each [] = ret []
mask_each (id ∷ ids) = mask_user_id id >>= λ m. mask_each ids >>= λ ms. ret (m ∷ ms)

-- The loop breaks behind the id that makes the list longer than 20.
collect_lem :
    (s ids : List Text)
    → All (λ id. 15 ≤ length id) ids
    → length s ≤ 20
    → (ms : List Text) × (mask_each (take (21 - length s) ids) ≡ ret ms)
      × (collect s ids ≡ ret (s ++ ms))
      × (length ms ≡ min (21 - length s) (length ids))
unfolding collect
collect_lem s [] h k =
    ([], ap mask_each (take-nil (21 - length s)), ap ret (sym (append-nil s)), omega arith)
collect_lem s (id ∷ ids) h k = elim (Bool-cases (ltb 20 (length (s ++ mask ∷ [])))) [
  | inl full ↦
      let one : 21 - length s ≡ 1 = ground (arith, full, length-append s (mask ∷ [])) in
      (mask ∷ [], rw (one, shape) refl, rw (shape, full) refl, omega (arith, one))
  | inr more ↦
      let grown = length-append s (mask ∷ []) in
      let (ms, e, c, n) = collect_lem (s ++ mask ∷ []) ids h.1 (ground (arith, more)) in
      let less : 21 - length s ≡ suc (21 - length (s ++ mask ∷ [])) = ground (arith, more, grown) in
      (
        mask ∷ ms,
        rw (less, shape, e) refl,
        rw (shape, more) (c ∙ ap ret (append_assoc s (mask ∷ []) ms)),
        omega (arith, n, grown, less),
      )
]
  where
    mask : Text
    mask = clip (take 2 id ++ (codes "xxxxxxx" ++ drop 9 id))

    shape : mask_user_id id ≡ ret mask
    shape = mask_user_id-shape id (omega arith)

ids_long :
    (m : Sessions) (ids : List Text)
    → AllLong m
    → All (λ id. (t : ℕ) × (lookup id m ≡ some t)) ids
    → All (λ id. 15 ≤ length id) ids
ids_long m [] a h = tt
ids_long m (id ∷ ids) a ((t, e), h) = (lookup_long id t m e a, ids_long m ids a h)

-- After any history of the cache, let Go range over its users in the order `ids`. `getUserIDs` returns
-- the masks that `maskUserID` gives for the first 21 of them, each as often as it comes up, in Go's
-- order of strings; a SHA-512 sum has 88 bytes in base64.
pub get_user_ids_lem :
    (lib : Library) (m : Sessions) (ids : List Text)
    → ((s : Text) → length (hash_sha512 lib s) ≡ 88)
    → History lib m
    → All (λ id. (t : ℕ) × (lookup id m ≡ some t)) ids
    → (ms : List Text) × (r : List Text) × (mask_each (take 21 ids) ≡ ret ms)
      × (get_user_ids ids ≡ ret r)
      × Perm r ms
      × IsSorted r
      × (length r ≡ min 21 (length ids))
unfolding get_user_ids
get_user_ids_lem lib m ids hashed h keys =
    let long = ids_long m ids (History-IsSound lib hashed h).long keys in
    let (ms, e, c, n) = collect_lem [] ids long (omega arith) in
    (
      ms,
      sort_strings ms,
      e,
      rw c refl,
      sort-Perm ms,
      sort-IsSorted ms,
      omega (arith, length-sort ms, n),
    )
