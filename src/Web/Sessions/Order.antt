-- ===== src/Web/Sessions/Order.antt =====
-- `getUserIDs` and the order in which Go ranges over the map of users.
use etcdlabs.Prelude.{
  suc, ◌+◌, ◌≤◌, ◌≡◌, refl, sym, ap, ◌∙◌, Bool, if◌then◌else◌, true, false, List, [], ◌∷◌, ◌++◌,
  arith, ret, Text, codes, length, take, drop, All, length-append, ltb,
}
use mathlib.Core.Logic.{∥∥₁_elim}
use mathlib.Core.List.{append-nil, append_assoc, Perm, Permᴰ}
use etcdlabs.Web.Identity.{clip}
use etcdlabs.Web.Identity.Masking.{mask_user_id-shape}
use etcdlabs.Web.Sessions.{text_leb, place, sort_strings, collect, get_user_ids}

pub text_leb_total : (s t : Text) → text_leb s t ≡ false → text_leb t s ≡ true
unfolding text_leb
text_leb_total [] t e = cc
text_leb_total (a ∷ s) [] e = refl
text_leb_total (a ∷ s) (b ∷ t) e = ground (arith, text_leb_total s t)

text_leb_trans : (s t u : Text) → text_leb s t ≡ true → text_leb t u ≡ true → text_leb s u ≡ true
unfolding text_leb
text_leb_trans [] t u e f = refl
text_leb_trans (a ∷ s) [] u e f = cc
text_leb_trans (a ∷ s) (b ∷ t) [] e f = cc
text_leb_trans (a ∷ s) (b ∷ t) (c ∷ u) e f = ground (arith, text_leb_trans s t u)

text_leb_antisym : (s t : Text) → text_leb s t ≡ true → text_leb t s ≡ true → s ≡ t
unfolding text_leb
text_leb_antisym [] [] e f = refl
text_leb_antisym [] (b ∷ t) e f = cc
text_leb_antisym (a ∷ s) [] e f = cc
text_leb_antisym (a ∷ s) (b ∷ t) e f = ground (arith, text_leb_antisym s t)

place_comm : (s t : Text) (us : List Text) → place s (place t us) ≡ place t (place s us)
unfolding place
place_comm s t [] = ground (arith, text_leb_total s t, text_leb_antisym s t)
place_comm s t (u ∷ us) = ground (
  arith,
  place_comm s t us,
  text_leb_total s t,
  text_leb_antisym s t,
  text_leb_trans s t u,
  text_leb_trans t s u,
)

sort-Perm : {ss ts : List Text} → Permᴰ ss ts → sort_strings ss ≡ sort_strings ts
unfolding sort_strings
sort-Perm Permᴰ.nil = refl
sort-Perm (Permᴰ.cons {a = s} {b = t} {l₁ = ss} {l₂ = ts} e h) =
    ap (place s) (sort-Perm h) ∙ ap (λ x. place x (sort_strings ts)) e
sort-Perm (Permᴰ.swap {a = s} {b = t} {a' = s'} {b' = t'} {l = us} e f) =
    place_comm s t (sort_strings us)
    ∙ ap (λ x. place x (place s (sort_strings us))) f
    ∙ ap (λ x. place s' (place x (sort_strings us))) e
sort-Perm (Permᴰ.trans h k) = sort-Perm h ∙ sort-Perm k

if_same : {A : Type 0} {a : A} (b : Bool) → (if b then a else a) ≡ a
if_same true = refl
if_same false = refl

mask : Text → Text
mask id = clip (take 2 id ++ (codes "xxxxxxx" ++ drop 9 id))

abbrev masks : List Text → List Text
masks [] = []
masks (id ∷ ids) = mask id ∷ masks ids

masks-Perm : {ids ids' : List Text} → Permᴰ ids ids' → Permᴰ (masks ids) (masks ids')
masks-Perm Permᴰ.nil = Permᴰ.nil
masks-Perm (Permᴰ.cons e h) = Permᴰ.cons (ap mask e) (masks-Perm h)
masks-Perm (Permᴰ.swap e f) = Permᴰ.swap (ap mask e) (ap mask f)
masks-Perm (Permᴰ.trans h k) = Permᴰ.trans (masks-Perm h) (masks-Perm k)

All-Perm :
    {ids ids' : List Text}
    → Permᴰ ids ids'
    → All (λ id. 15 ≤ length id) ids
    → All (λ id. 15 ≤ length id) ids'
All-Perm Permᴰ.nil a = tt
All-Perm (Permᴰ.cons e h) (x, a) = (rw e at x, All-Perm h a)
All-Perm (Permᴰ.swap e f) (x, (y, a)) = (rw f at y, (rw e at x, a))
All-Perm (Permᴰ.trans h k) a = All-Perm k (All-Perm h a)

length-Perm : {ids ids' : List Text} → Permᴰ ids ids' → length ids ≡ length ids'
length-Perm Permᴰ.nil = refl
length-Perm (Permᴰ.cons s h) = ap suc (length-Perm h)
length-Perm (Permᴰ.swap e f) = refl
length-Perm (Permᴰ.trans h k) = length-Perm h ∙ length-Perm k

collect-masks :
    (s ids : List Text)
    → All (λ id. 15 ≤ length id) ids
    → length s + length ids ≤ 21
    → collect s ids ≡ ret (s ++ masks ids)
unfolding collect mask
collect-masks s [] h k = ap ret (sym (append-nil s))
collect-masks s (id ∷ []) h k =
    rw (mask_user_id-shape id (omega (arith, h.0))) (if_same (ltb 20 (length (s ++ mask id ∷ []))))
collect-masks s (id ∷ id' ∷ ids) h k =
    let short : ltb 20 (length (s ++ mask id ∷ [])) ≡ false =
      ground (arith, length-append s (mask id ∷ [])) in
    rw (mask_user_id-shape id (omega (arith, h.0)), short)
      (collect-masks (s ++ mask id ∷ []) (id' ∷ ids) h.1
        (omega (arith, length-append s (mask id ∷ []))))
    ∙ ap ret (append_assoc s (mask id ∷ []) (masks (id' ∷ ids)))

-- Up to 21 users, the order in which Go ranges over them has no effect on what `getUserIDs` returns.
pub get_user_ids-order :
    (ids ids' : List Text)
    → All (λ id. 15 ≤ length id) ids
    → length ids ≤ 21
    → Perm ids ids'
    → get_user_ids ids ≡ get_user_ids ids'
unfolding get_user_ids
get_user_ids-order ids ids' h k perm = ∥∥₁_elim perm (hlevel) λ d.
    rw
      (
        collect-masks [] ids h (omega (arith, k)),
        collect-masks [] ids' (All-Perm d h) (omega (arith, k, length-Perm d)),
      )
      (ap ret (sort-Perm (masks-Perm d)))
