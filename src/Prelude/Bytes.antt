-- ===== src/Prelude/Bytes.antt =====
-- Go strings as lists of bytes: equality, decimal print, `strings.Join` and `strings.Contains`.
use Prim.Native.Char.{code}
use Prim.Native.String.{String}
use Prim.Native.Nat.{ℕ, zero, suc, ◌+◌, ◌-◌, ◌*◌, ◌/◌, ◌%◌, ◌≤◌, ◌<◌}
use mathlib.Core.Path.{◌≡◌, refl, sym, ap, ◌∙◌}
use mathlib.Core.Logic.{◌↔◌, ◌≢◌}
use mathlib.Core.Bool.{Bool, true, false, ◌&&◌, ◌||◌}
use mathlib.Core.List.{List, [], ◌∷◌, ◌++◌}
use native.Mathlib.Omega.{arith}
use etcdlabs.Prelude.Tests.{ltb, ◌==◌, if◌then◌else◌}
use etcdlabs.Prelude.Lists.{All, All-append}

abbrev pub Text : Type 0
Text = List ℕ

-- The bytes of an ASCII literal.
abbrev pub codes : String → Text
codes String.[] = []
codes (String.◌∷◌ c s) = code c ∷ codes s

unfoldable pub text_eq : Text → Text → Bool
text_eq [] [] = true
text_eq [] (b ∷ t) = false
text_eq (a ∷ s) [] = false
text_eq (a ∷ s) (b ∷ t) = a == b && text_eq s t

pub text_eq_iff : (s t : Text) → (text_eq s t ≡ true) ↔ (s ≡ t)
unfolding text_eq
text_eq_iff [] [] = ((λ h. refl), (λ h. refl))
text_eq_iff [] (b ∷ t) = ((λ h. cc), (λ h. cc))
text_eq_iff (a ∷ s) [] = ((λ h. cc), (λ h. cc))
text_eq_iff (a ∷ s) (b ∷ t) = ground (arith, text_eq_iff s t)

pub text_eq_refl : (s : Text) → text_eq s s ≡ true
text_eq_refl s = (text_eq_iff s s).1 refl

-- `fmt.Sprintf("%d", n)` for a number that is not negative. Each digit uses one unit of fuel.
decimal_go : ℕ → ℕ → Text
decimal_go zero n = (n % 10 + 48) ∷ []
decimal_go (suc f) n =
    let front = decimal_go f (n / 10) in
    if ltb n 10 then (n + 48) ∷ [] else front ++ (n % 10 + 48) ∷ []

unfoldable pub decimal : ℕ → Text
unfolding decimal_go
decimal n = decimal_go n n

-- The number that a text of digits stands for, read from the left.
value : ℕ → Text → ℕ
value acc [] = acc
value acc (d ∷ s) = value (acc * 10 + (d - 48)) s

value-append : (acc d : ℕ) (s : Text) → value acc (s ++ d ∷ []) ≡ value acc s * 10 + (d - 48)
unfolding value
value-append acc d [] = refl
value-append acc d (c ∷ s) = value-append (acc * 10 + (c - 48)) d s

value-decimal_go : (f n : ℕ) → n ≤ f → value 0 (decimal_go f n) ≡ n
unfolding decimal_go value
value-decimal_go zero n h = omega arith
value-decimal_go (suc f) n h =
    ground
      (arith, value-append 0 (n % 10 + 48) (decimal_go f (n / 10)), value-decimal_go f (n / 10))

-- Different numbers print differently.
pub decimal_injective : (m n : ℕ) → decimal m ≡ decimal n → m ≡ n
unfolding decimal
decimal_injective m n e =
    sym (value-decimal_go m m (omega arith)) ∙ ap (value 0) e ∙ value-decimal_go n n (omega arith)

abbrev pub IsDigit : ℕ → Type 0
IsDigit c = (48 ≤ c) × (c < 58)

decimal_go-digits : (f n : ℕ) → All IsDigit (decimal_go f n)
unfolding decimal_go
decimal_go-digits zero n = omega arith
decimal_go-digits (suc f) n = ground (
  arith,
  decimal_go-digits f (n / 10),
  All-append IsDigit (decimal_go f (n / 10)) ((n % 10 + 48) ∷ []),
)

pub decimal-digits : (n : ℕ) → All IsDigit (decimal n)
unfolding decimal
decimal-digits n = decimal_go-digits n n

-- `strings.Join`
unfoldable pub join : Text → List Text → Text
join sep [] = []
join sep (s ∷ []) = s
join sep (s ∷ t ∷ ts) = s ++ (sep ++ join sep (t ∷ ts))

unfoldable pub has_prefix : Text → Text → Bool
has_prefix s [] = true
has_prefix [] (p ∷ ps) = false
has_prefix (c ∷ s) (p ∷ ps) = c == p && has_prefix s ps

-- `strings.Contains`
unfoldable pub contains : Text → Text → Bool
unfolding has_prefix
contains [] sub = has_prefix [] sub
contains (c ∷ s) sub = has_prefix (c ∷ s) sub || contains s sub

-- A text without the second byte of another does not contain the other.
pub contains_without :
    (s : Text) (a p : ℕ) (ps : Text) → All (λ c. c ≢ p) s → contains s (a ∷ p ∷ ps) ≡ false
unfolding contains
contains_without [] a p ps h = refl
contains_without (c ∷ []) a p ps h = ground arith
contains_without (c ∷ d ∷ s) a p ps h = ground (arith, contains_without (d ∷ s) a p ps h.1)

has_prefix-append : (sub t : Text) → has_prefix (sub ++ t) sub ≡ true
unfolding has_prefix
has_prefix-append [] t = refl
has_prefix-append (c ∷ sub) t = ground (arith, has_prefix-append sub t)

contains-of_prefix : (s sub : Text) → has_prefix s sub ≡ true → contains s sub ≡ true
unfolding contains
contains-of_prefix [] sub h = h
contains-of_prefix (c ∷ s) sub h = ground (arith, h)

pub contains-append : (s sub t : Text) → contains (s ++ (sub ++ t)) sub ≡ true
unfolding contains
contains-append [] sub t = contains-of_prefix (sub ++ t) sub (has_prefix-append sub t)
contains-append (c ∷ s) sub t = ground (arith, contains-append s sub t)
