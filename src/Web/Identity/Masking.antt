-- ===== src/Web/Identity/Masking.antt =====
-- `classifyUA` and `generateUserID` on any request, the mask of the id that they give, and what the mask
-- of an id with at least nine bytes shows: all but the bytes 2 to 8.
use etcdlabs.Prelude.{
  ℕ, ◌-◌, ◌≤◌, ◌<◌, ◌≡◌, refl, ◌≢◌, ◌∷◌, ◌++◌, arith, ret, panics, returns, Text, codes, length,
  set, take, drop, length-append, length-take,
}
use etcdlabs.Web.Identity.{
  hash_sha512, Library, Request, slice, os_part, browser_part, classify_ua, user_ip,
  generate_user_id, blot, clip, mask_user_id, without,
}

slice_fits :
    (s : Text) (lo hi : ℕ)
    → lo ≤ hi
    → hi ≤ length s
    → slice s lo hi ≡ ret (take (hi - lo) (drop lo s))
unfolding slice
slice_fits s lo hi h k = ground arith

os_part-ne-panics : (raw : Text) → os_part raw ≢ panics
unfolding os_part
os_part-ne-panics raw = ground (arith, slice_fits raw 2 7 (omega arith))

browser_part-ne-panics : (raw : Text) → browser_part raw ≢ panics
unfolding browser_part
browser_part-ne-panics raw = ground (arith, slice_fits raw 9 14 (omega arith))

-- `classifyUA` returns for every user agent: its two slices are within bounds.
pub classify_ua_total : (lib : Library) (ua : Text) → (t : Text) × (classify_ua lib ua ≡ ret t)
unfolding classify_ua
classify_ua_total lib ua =
    let raw = without b' ' (lib.to_lower ua) in
    let (os, e) = returns (os_part raw) (os_part-ne-panics raw) in
    let (browser, f) = returns (browser_part raw) (browser_part-ne-panics raw) in
    (os ++ browser, rw (e, f) refl)

blot_fits : (i : ℕ) (s : Text) → i < length s → blot i s ≡ ret (set s i b'x')
unfolding blot
blot_fits i s h = ground arith

-- The mask of an id with at least nine bytes keeps the first two bytes and what follows the ninth.
pub mask_user_id-shape :
    (id : Text)
    → 9 ≤ length id
    → mask_user_id id ≡ ret (clip (take 2 id ++ (codes "xxxxxxx" ++ drop 9 id)))
unfolding mask_user_id
mask_user_id-shape (a ∷ b ∷ c ∷ d ∷ e ∷ f ∷ g ∷ k ∷ l ∷ s) h = ground arith
mask_user_id-shape _ h = absurd (omega arith)

-- Ids that differ at most in the bytes 2 to 8 have the same mask.
pub mask_user_id_hides :
    (s t : Text)
    → 9 ≤ length s
    → 9 ≤ length t
    → take 2 s ≡ take 2 t
    → drop 9 s ≡ drop 9 t
    → mask_user_id s ≡ mask_user_id t
mask_user_id_hides s t h k e f = rw (mask_user_id-shape s h, mask_user_id-shape t k, e, f) refl

length-clip : (s : Text) → length (clip s) ≤ 26
length-clip s = ground (arith, length-append (take 23 s) (codes "..."), length-take 23 s)

-- `generateUserID` returns an id of at least 15 bytes for every request, so that the mask of the id
-- is defined, and the mask has at most 26 bytes; a SHA-512 sum has 88 bytes in base64.
pub generate_user_id-mask :
    (lib : Library) (req : Request)
    → ((s : Text) → length (hash_sha512 lib s) ≡ 88)
    → (id : Text) × (mask : Text) × (generate_user_id lib req ≡ ret id)
      × (15 ≤ length id)
      × (mask_user_id id ≡ ret mask)
      × (length mask ≤ 26)
unfolding generate_user_id
generate_user_id-mask lib req hashed =
    let source = user_ip lib req ++ req.user_agent in
    let digest : Text = take 15 (hash_sha512 lib source) in
    let (class, e) = classify_ua_total lib req.user_agent in
    let cut : slice (hash_sha512 lib source) 0 15 ≡ ret digest =
      slice_fits (hash_sha512 lib source) 0 15 (omega arith) (omega (arith, hashed source)) in
    let id : Text = user_ip lib req ++ (class ++ digest) in
    let long : 15 ≤ length id = omega (
      arith,
      length-append (user_ip lib req) (class ++ digest),
      length-append class digest,
      length-take 15 (hash_sha512 lib source),
      hashed source,
    ) in
    (
      id,
      clip (take 2 id ++ (codes "xxxxxxx" ++ drop 9 id)),
      rw (e, cut) refl,
      long,
      mask_user_id-shape id (omega arith),
      length-clip (take 2 id ++ (codes "xxxxxxx" ++ drop 9 id)),
    )
