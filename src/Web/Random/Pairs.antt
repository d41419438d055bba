-- ===== src/Web/Random/Pairs.antt =====
-- `multiRandKeyValues`: its pairs are in bounds, and neither a key nor a value is repeated.
use mathlib.Core.Option
use etcdlabs.Prelude.{
  ℕ, suc, ◌≡◌, ◌∙◌, refl, sym, subst, ap, some, List, [], ◌∷◌, arith, ret, Text, length, All,
}
use etcdlabs.Web.Requests.{KeyValue}
use etcdlabs.Web.Random.{multi_rand_strings, pair_up, multi_rand_key_values}
use etcdlabs.Web.Random.Distinct.{IsDistinct, multi_rand_strings_lem}

abbrev pub keys_of : List KeyValue → List Text
keys_of [] = []
keys_of (kv ∷ kvs) = kv.key ∷ keys_of kvs

abbrev pub values_of : List KeyValue → List Text
values_of [] = []
values_of (kv ∷ kvs) = kv.value ∷ values_of kvs

record Paired (keys vals : List Text) (kvs : List KeyValue) : Type 0 where
  first : keys_of kvs ≡ keys
  second : values_of kvs ≡ vals

pair_up_total :
    (keys vals : List Text)
    → length vals ≡ length keys
    → (kvs : List KeyValue) × (pair_up (length keys) keys vals ≡ ret kvs) × Paired keys vals kvs
unfolding pair_up
pair_up_total [] [] h = ([], refl, record { first = refl; second = refl })
pair_up_total [] (v ∷ vals) h = absurd (omega (arith, h))
pair_up_total (s ∷ keys) [] h = absurd (omega (arith, h))
pair_up_total (s ∷ keys) (v ∷ vals) h =
    let (kvs, e, p) = pair_up_total keys vals (omega (arith, h)) in
    (
      record { key = s; value = v } ∷ kvs,
      rw e refl,
      record { first = ap (λ x. s ∷ x) p.first; second = ap (λ x. v ∷ x) p.second },
    )

length-keys_of : (kvs : List KeyValue) → length (keys_of kvs) ≡ length kvs
length-keys_of [] = refl
length-keys_of (kv ∷ kvs) = ap suc (length-keys_of kvs)

multi_rand_key_values-pair_up :
    (kp vp : Text) (n : ℕ) (fk fv keys vals : List Text)
    → multi_rand_strings n kp fk ≡ some keys
    → multi_rand_strings n vp fv ≡ some vals
    → multi_rand_key_values kp vp n fk fv ≡ some (pair_up n keys vals)
unfolding multi_rand_key_values Option.bind
multi_rand_key_values-pair_up kp vp n fk fv keys vals e f = rw (e, f) refl

-- If `randBytes` returns the same number of bytes each time, `multiRandKeyValues` needs it exactly
-- once for each key and once for each value, stays within both slices, and returns as many pairs as
-- asked for, with keys that are all different and values that are all different.
pub multi_rand_key_values_lem :
    (key_prefix val_prefix : Text) (k : ℕ) (for_keys for_vals : List Text)
    → length for_vals ≡ length for_keys
    → All (λ b. length b ≡ k) for_keys
    → All (λ b. length b ≡ k) for_vals
    → (kvs : List KeyValue) × (multi_rand_key_values key_prefix val_prefix
          (length for_keys)
          for_keys
          for_vals
        ≡ some (ret kvs))
      × (length kvs ≡ length for_keys)
      × IsDistinct (keys_of kvs)
      × IsDistinct (values_of kvs)
multi_rand_key_values_lem kp vp k fk fv same hk hv =
    let (keys, e, l, d) = multi_rand_strings_lem kp k fk hk in
    let (vals, f, m, c) = multi_rand_strings_lem vp k fv hv in
    let (kvs, g, p) = pair_up_total keys vals (m ∙ same ∙ sym l) in
    (
      kvs,
      multi_rand_key_values-pair_up kp vp (length fk) fk fv keys vals e (rw same at f)
          ∙ ap some (subst (λ n. pair_up n keys vals ≡ ret kvs) l g),
      sym (length-keys_of kvs) ∙ ap length p.first ∙ l,
      subst IsDistinct (sym p.first) d,
      subst IsDistinct (sym p.second) c,
    )
