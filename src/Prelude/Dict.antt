-- ===== src/Prelude/Dict.antt =====
-- A Go map from strings to numbers, as an association list.
use Prim.Native.Nat.{ℕ}
use mathlib.Core.Path.{◌≡◌, refl}
use mathlib.Core.Option.{Option, none, some}
use mathlib.Core.List.{List, [], ◌∷◌}
use native.Mathlib.Omega.{arith}
use etcdlabs.Prelude.Tests.{if◌then◌else◌}
use etcdlabs.Prelude.Bytes.{Text, text_eq, text_eq_iff}

unfoldable pub lookup : Text → List (Text × ℕ) → Option ℕ
lookup k [] = none
lookup k ((j, v) ∷ m) = if text_eq j k then some v else lookup k m

unfoldable pub insert : Text → ℕ → List (Text × ℕ) → List (Text × ℕ)
insert k v [] = (k, v) ∷ []
insert k v ((j, w) ∷ m) = if text_eq j k then (k, v) ∷ m else (j, w) ∷ insert k v m

-- `delete(m, k)`; a list may hold a key twice, so all its entries go.
unfoldable pub delete : Text → List (Text × ℕ) → List (Text × ℕ)
delete k [] = []
delete k ((j, w) ∷ m) = if text_eq j k then delete k m else (j, w) ∷ delete k m

pub lookup-insert :
    (k j : Text) (v : ℕ) (m : List (Text × ℕ))
    → lookup j (insert k v m) ≡ (if text_eq k j then some v else lookup j m)
unfolding lookup insert
lookup-insert k j v [] = refl
lookup-insert k j v ((i, w) ∷ m) =
    ground (arith, text_eq_iff k j, text_eq_iff i k, text_eq_iff i j, lookup-insert k j v m)

pub lookup-delete :
    (k j : Text) (m : List (Text × ℕ))
    → lookup j (delete k m) ≡ (if text_eq k j then none else lookup j m)
unfolding lookup delete
lookup-delete k j [] = ground arith
lookup-delete k j ((i, w) ∷ m) =
    ground (arith, text_eq_iff k j, text_eq_iff i k, text_eq_iff i j, lookup-delete k j m)
