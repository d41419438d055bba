-- ===== src/Prelude/Panics.antt =====
-- A Go call returns, or panics (a nil pointer is followed, an index is out of range).
use mathlib.Core.Logic.{◌≢◌, ◌⊎◌, inl, inr}
use mathlib.Core.Path.{◌≡◌, refl}
use mathlib.Core.Option.{Option, none, some}
use Prim.Native.Nat.{ℕ}
use mathlib.Core.List.{List}
use etcdlabs.Prelude.Lists.{get_elem?}

pub data Exec {ℓ} (A : Type ℓ) : Type ℓ where
  ret : A → Exec A
  panics : Exec A

infixl 5 ◌>>=◌ ◌>>◌
abbrev pub ◌>>=◌ {ℓ κ} : {A : Type ℓ} {B : Type κ} → Exec A → (A → Exec B) → Exec B
ret a >>= f = f a
panics >>= f = panics

abbrev pub ◌>>◌ {ℓ κ} : {A : Type ℓ} {B : Type κ} → Exec A → Exec B → Exec B
m >> k = m >>= λ _. k

-- A pointer that must not be nil.
abbrev pub deref {ℓ} : {A : Type ℓ} → Option A → Exec A
deref none = panics
deref (some a) = ret a

-- `xs[i]`
abbrev pub index {ℓ} : {A : Type ℓ} → List A → ℕ → Exec A
index xs i = deref (get_elem? xs i)

pub >>=-eq-ret {ℓ κ} :
    {A : Type ℓ} {B : Type κ} (m : Exec A) (f : A → Exec B) {b : B}
    → (m >>= f) ≡ ret b
    → (a : A) × (m ≡ ret a) × (f a ≡ ret b)
>>=-eq-ret (ret a) f h = (a, refl, h)
>>=-eq-ret panics f h = cc

pub Exec-cases {ℓ} : {A : Type ℓ} (m : Exec A) → (m ≡ panics) ⊎ ((a : A) × (m ≡ ret a))
Exec-cases panics = inl refl
Exec-cases (ret a) = inr (a, refl)

pub returns {ℓ} : {A : Type ℓ} (m : Exec A) → m ≢ panics → (a : A) × (m ≡ ret a)
returns (ret a) h = (a, refl)
returns panics h = absurd (h refl)
