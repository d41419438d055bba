-- ===== src/Web/Random.antt =====
-- backend/web/utils.go: `randBytes`, `multiRandStrings` and `multiRandKeyValues`. The source of randomness is a list of the
-- `Int63` values that it gives; `none` says that it gives too few.
pub mod Distinct
pub mod Letters
pub mod Pairs
use mathlib.Core.Option
use etcdlabs.Prelude.{
  ℕ, zero, suc, ◌+◌, ◌/◌, ◌%◌, Bool, false, ◌||◌, Option, none, some, List, [], ◌∷◌, ◌++◌, Text,
  codes, text_eq, decimal, length, get_elem?, ◌==◌, if◌then◌else◌, Exec, ret, panics, ◌>>=◌,
}
use etcdlabs.Web.Requests.{KeyValue}

abbrev pub letter_bytes : Text
letter_bytes = codes "abcdefghijklmnopqrstuvwxyzABCDEFGHIJKLMNOPQRSTUVWXYZ"

-- The `remain` indices of 6 bits that are left in `cache`, and then those of the later values, ten
-- of each.
unfoldable pub chunks : ℕ → ℕ → List ℕ
chunks zero cache = []
chunks (suc remain) cache = cache % 64 ∷ chunks remain (cache / 64)

unfoldable pub indices : List ℕ → List ℕ
unfolding chunks
indices [] = []
indices (v ∷ vs) = chunks 10 v ++ indices vs

-- Fills the slots from the last to the first: `done` holds the bytes behind the next slot.
pub fill_back : ℕ → List ℕ → Text → Option Text
fill_back zero is done = some done
fill_back (suc n) [] done = none
fill_back (suc n) (i ∷ is) done =
    let skipped = fill_back (suc n) is done in
    elim (get_elem? letter_bytes i) [ none ↦ skipped | some b ↦ fill_back n is (b ∷ done) ]

unfoldable pub rand_bytes : ℕ → List ℕ → Option Text
unfolding fill_back indices
rand_bytes bytes_n values = fill_back bytes_n (indices values) []

-- Membership in the map `m`, whose keys are the strings of `rs`.
unfoldable pub has : Text → List Text → Bool
has s [] = false
has s (r ∷ rs) = text_eq r s || has s rs

-- The loop of `multiRandStrings`, over the results of its calls of `randBytes`.
unfoldable pub rand_strings : Text → ℕ → List Text → List Text → Option (List Text)
rand_strings prefix slice_n [] rs = if length rs == slice_n then some rs else none
rand_strings prefix slice_n (b ∷ bs) rs =
    let s = prefix ++ (b ++ decimal (length rs + 1)) in
    let again = rand_strings prefix slice_n bs rs in
    let fresh = rand_strings prefix slice_n bs (rs ++ s ∷ []) in
    if length rs == slice_n then some rs else if has s rs then again else fresh

unfoldable pub multi_rand_strings : ℕ → Text → List Text → Option (List Text)
unfolding rand_strings
multi_rand_strings slice_n prefix results = rand_strings prefix slice_n results []

-- The loop over the slots of `kvs`, whose number is left: a string that is missing is an index out of
-- range.
unfoldable pub pair_up : ℕ → List Text → List Text → Exec (List KeyValue)
pair_up zero keys vals = ret []
pair_up (suc n) [] vals = panics
pair_up (suc n) (k ∷ keys) [] = panics
pair_up (suc n) (k ∷ keys) (v ∷ vals) =
    pair_up n keys vals >>= λ kvs. ret (record { key = k; value = v } ∷ kvs)

-- `multiRandKeyValues`, over the results of the calls of `randBytes` for the keys and for the values;
-- `none` says that they are too few.
unfoldable pub multi_rand_key_values :
    Text → Text → ℕ → List Text → List Text → Option (Exec (List KeyValue))
unfolding multi_rand_strings pair_up Option.bind
multi_rand_key_values key_prefix val_prefix slice_n for_keys for_vals =
    Option.bind (multi_rand_strings slice_n key_prefix for_keys)
      λ keys. Option.map (pair_up slice_n keys) (multi_rand_strings slice_n val_prefix for_vals)
