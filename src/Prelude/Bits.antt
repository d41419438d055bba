-- ===== src/Prelude/Bits.antt =====
-- Go's `&` and `|` where the masks are ones from bit 0 on, or the operands share no bit; and the
-- order of the numbers as a well-founded relation, for loops that shift their variable away.
use Prim.Native.Nat.{
  ℕ, zero, suc, ◌+◌, ◌*◌, ◌/◌, ◌%◌, ◌^◌, ◌<◌, ◌≤◌, min, max, bit_and, bit_or, digits,
  bit_and-bitwise, bit_or-bitwise,
}
use mathlib.Core.Path.{◌≡◌, refl, ap}
use mathlib.Core.WellFounded.{Acc, WellFounded}
use native.Mathlib.Omega.{arith}
use native.Mathlib.Nat.{pow-suc}

Acc-under : (bound n : ℕ) → n < bound → Acc ◌<◌ n
Acc-under zero n h = elim h [ ]
Acc-under (suc bound) n h = Acc.intro n (λ m below. Acc-under bound m (omega arith))

unfoldable pub lt_wf : WellFounded ◌<◌
unfolding Acc-under
lt_wf = record { apply = λ n. Acc-under (suc n) n (omega arith) }

-- The recursion of `digits` may be given more rounds than the first number has digits.
module _ (z : ℕ → ℕ) (f : ℕ → ℕ → ℕ) where
  digits_rounds : (r s a b : ℕ) → a ≤ r → a ≤ s → digits z f r a b ≡ digits z f s a b
  digits_rounds zero zero a b h k = refl
  digits_rounds zero (suc s) zero b h k = refl
  digits_rounds zero (suc s) (suc a) b h k = absurd (omega arith)
  digits_rounds (suc r) zero zero b h k = refl
  digits_rounds (suc r) zero (suc a) b h k = absurd (omega arith)
  digits_rounds (suc r) (suc s) zero b h k = refl
  digits_rounds (suc r) (suc s) (suc a) b h k =
      omega (arith, digits_rounds r s (suc a / 2) (b / 2) (omega arith) (omega arith))

bit_or_halves : (a b : ℕ) → bit_or a b ≡ bit_or (a / 2) (b / 2) * 2 + max (a % 2) (b % 2)
bit_or_halves zero b = omega (arith, bit_or-bitwise 0 b, bit_or-bitwise 0 (b / 2))
bit_or_halves (suc a) b = omega (
  arith,
  bit_or-bitwise (suc a) b,
  bit_or-bitwise (suc a / 2) (b / 2),
  digits_rounds (λ c. c) max a (suc a / 2) (suc a / 2) (b / 2) (omega arith) (omega arith),
)

bit_and_halves : (a b : ℕ) → bit_and a b ≡ bit_and (a / 2) (b / 2) * 2 + min (a % 2) (b % 2)
bit_and_halves zero b = omega (arith, bit_and-bitwise 0 b, bit_and-bitwise 0 (b / 2))
bit_and_halves (suc a) b = omega (
  arith,
  bit_and-bitwise (suc a) b,
  bit_and-bitwise (suc a / 2) (b / 2),
  digits_rounds (λ c. 0) min a (suc a / 2) (suc a / 2) (b / 2) (omega arith) (omega arith),
)

-- Numbers that share no bit: one lies below `2 ^ s`, and the other is shifted past it.
pub bit_or_above : (s a g : ℕ) → a < 2 ^ s → bit_or a (g * 2 ^ s) ≡ a + g * 2 ^ s
bit_or_above zero zero g h =
    let whole : g * 2 ^ 0 ≡ g = omega arith in omega (arith, bit_or-bitwise 0 (g * 2 ^ 0))
bit_or_above zero (suc a) g h = absurd (omega arith)
bit_or_above (suc s) a g h =
    let twice : g * 2 ^ suc s ≡ 2 * (g * 2 ^ s) =
      omega (arith, ap (λ (t : ℕ). g * t) (pow-suc 2 s)) in
    omega (
      arith,
      twice,
      pow-suc 2 s,
      bit_or_halves a (g * 2 ^ suc s),
      ap (λ (t : ℕ). bit_or (a / 2) (t / 2)) twice,
      ap (λ (t : ℕ). bit_or (a / 2) t) half,
      bit_or_above s (a / 2) g (omega (arith, pow-suc 2 s)),
    )
  where
    half : 2 * (g * 2 ^ s) / 2 ≡ g * 2 ^ s
    half = omega arith

bit_and-zero_rounds : (r a : ℕ) → a ≤ r → bit_and a 0 ≡ 0
bit_and-zero_rounds r zero h = refl
bit_and-zero_rounds zero (suc a) h = absurd (omega arith)
bit_and-zero_rounds (suc r) (suc a) h =
    omega (arith, bit_and_halves (suc a) 0, bit_and-zero_rounds r (suc a / 2) (omega arith))

bit_and-zero : (a : ℕ) → bit_and a 0 ≡ 0
bit_and-zero a = bit_and-zero_rounds a a (omega arith)

-- A mask of the lowest `k` bits.
bit_and-low : (k m q r : ℕ) → m + 1 ≡ 2 ^ k → r ≤ m → bit_and (q * 2 ^ k + r) m ≡ r
bit_and-low zero m q r e h =
    let none : m ≡ 0 = omega (arith, e) in
    omega
      (arith, h, none, ap (λ (t : ℕ). bit_and (q * 2 ^ 0 + r) t) none, bit_and-zero (q * 2 ^ 0 + r))
bit_and-low (suc k) m q r e h =
    let twice : q * 2 ^ suc k ≡ 2 * (q * 2 ^ k) =
      omega (arith, ap (λ (t : ℕ). q * t) (pow-suc 2 k)) in
    let shifted : (q * 2 ^ suc k + r) / 2 ≡ q * 2 ^ k + r / 2 = omega (arith, twice) in
    let rest = bit_and-low k (m / 2) q (r / 2) (omega (arith, e, pow-suc 2 k)) (omega (arith, h)) in
    omega (
      arith,
      twice,
      e,
      pow-suc 2 k,
      bit_and_halves (q * 2 ^ suc k + r) m,
      ap (λ (t : ℕ). bit_and t (m / 2)) shifted,
      rest,
    )

-- `a & 0x7f`
pub bit_and_127 : (a : ℕ) → bit_and a 0x7f ≡ a % 128
bit_and_127 a =
    let whole : a / 128 * 2 ^ 7 + a % 128 ≡ a = omega arith in
    omega (
      arith,
      ap (λ (t : ℕ). bit_and t 0x7f) whole,
      bit_and-low 7 0x7f (a / 128) (a % 128) refl (omega arith),
    )
