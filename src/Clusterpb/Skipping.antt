-- ===== src/Clusterpb/Skipping.antt =====
-- `skipClusterpb` ends on any bytes, and where it may end.
use Prim.Native.Nat.{bit_and, bit_or}
use etcdlabs.Prelude.{
  ℕ, zero, suc, ◌+◌, ◌-◌, ◌*◌, ◌%◌, ◌^◌, ◌≤◌, ◌<◌, ◌≡◌, ◌⊎◌, inl, inr, Bool, true, false, List, [],
  ◌∷◌, arith, length, drop, ltb, leb, leb→lt, Bool-cases, ◌==◌, if◌then◌else◌,
}
use etcdlabs.Prelude.Int.{ℤ, pos, negsuc, ◌-ℤ◌, wrap_int64}
use etcdlabs.Prelude.Slices.{length-drop}
use etcdlabs.Clusterpb.Decode.{
  Decoded, ok, err, crash, stuck, ◌>>=◌, Read, read_groups, read_varint, skip_groups, skip_plain,
  skip, skip_group, add_index,
}

-- A call does not run out of fuel, and a result that it returns satisfies `P`.
abbrev pub Returns : {A : Type 0} → (A → Type 0) → Decoded A → Type 0
Returns P (ok a) = P a
Returns P (err e) = Unit
Returns P crash = Unit
Returns P stuck = ⊥

pub Returns-bind :
    {A B : Type 0} (P : A → Type 0) (Q : B → Type 0) (m : Decoded A) (f : A → Decoded B)
    → Returns P m
    → ((a : A) → P a → Returns Q (f a))
    → Returns Q (m >>= f)
Returns-bind P Q (ok a) f h next = next a h
Returns-bind P Q (err e) f h next = tt
Returns-bind P Q crash f h next = tt
Returns-bind P Q stuck f h next = absurd h

pub Returns-if :
    {A : Type 0} (P : A → Type 0) (b : Bool) (x y : Decoded A)
    → Returns P x
    → Returns P y
    → Returns P (if b then x else y)
Returns-if P true x y hx hy = hx
Returns-if P false x y hx hy = hy

pub Returns-mono :
    {A : Type 0} (P Q : A → Type 0) (m : Decoded A)
    → Returns P m
    → ((a : A) → P a → Q a)
    → Returns Q m
Returns-mono P Q (ok a) h f = f a h
Returns-mono P Q (err e) h f = tt
Returns-mono P Q crash h f = tt
Returns-mono P Q stuck h f = absurd h

-- A read that has moved the index from `at` on, over the bytes `bs`.
abbrev pub Moved : {A : Type 0} → ℕ → List ℕ → Read A → Type 0
Moved at bs (a, at', bs') = (at < at') × (at' + length bs' ≡ at + length bs)

read_groups-Moved :
    (rounds modulus shift acc at : ℕ) (bs : List ℕ)
    → Returns (Moved at bs) (read_groups rounds modulus shift acc at bs)
unfolding read_groups
read_groups-Moved zero modulus shift acc at bs = tt
read_groups-Moved (suc rounds) modulus shift acc at [] = tt
read_groups-Moved (suc rounds) modulus shift acc at (b ∷ bs) =
    let more =
      read_groups-Moved rounds modulus (shift + 7)
        (bit_or acc (bit_and b 0x7f * 2 ^ shift % modulus)) (at + 1) bs in
    Returns-if (Moved at (b ∷ bs)) (ltb b 0x80) _ _ (omega arith, omega arith)
      (Returns-mono (Moved (at + 1) bs) (Moved at (b ∷ bs)) _ more
        (λ r h. (omega (arith, h.0), omega (arith, h.1))))

-- Where a skip may end: at `low` or later within the range of `int`, or far below zero.
abbrev pub Past : ℕ → ℤ → Type 0
Past low (pos n) = (low ≤ n) × (n < 2 ^ 63)
Past low (negsuc n) = 2 ^ 62 ≤ n

Past-mono : (low high : ℕ) → low ≤ high → (z : ℤ) → Past high z → Past low z
Past-mono low high h (pos n) p = (omega (arith, p.0), p.1)
Past-mono low high h (negsuc n) p = p

skip_groups-Past :
    (rounds at : ℕ) (bs : List ℕ)
    → at + length bs < 2 ^ 62
    → Returns (Past at) (skip_groups rounds at bs)
unfolding skip_groups
skip_groups-Past zero at bs h = tt
skip_groups-Past (suc rounds) at [] h = tt
skip_groups-Past (suc rounds) at (b ∷ bs) h =
    Returns-if (Past at) (ltb b 0x80) _ _ (omega arith, omega arith)
      (Returns-mono (Past (at + 1)) (Past at) _ (skip_groups-Past rounds (at + 1) bs (omega arith))
        (Past-mono at (at + 1) (omega arith)))

wrap_sum : (a n : ℕ) → a < 2 ^ 62 → n < 2 ^ 63 → Past a (wrap_int64 (pos (a + n)))
unfolding wrap_int64
wrap_sum a n h k = ground arith

pub read_varint-Moved :
    (modulus at : ℕ) (bs : List ℕ) → Returns (Moved at bs) (read_varint modulus at bs)
unfolding read_varint
read_varint-Moved modulus at bs = read_groups-Moved 10 modulus 0 0 at bs

skip_plain-Past :
    (wire_type at : ℕ) (bs : List ℕ)
    → at + length bs < 2 ^ 62
    → Returns (Past at) (skip_plain wire_type at bs)
unfolding skip_plain
skip_plain-Past wire_type at bs h =
    Returns-if (Past at) (wire_type == 0) _ _ (skip_groups-Past 10 at bs h) (
      Returns-if (Past at) (wire_type == 1) _ _ (omega arith, omega arith)
        (Returns-if (Past at) (wire_type == 2) _ _
          (Returns-bind (Moved at bs) (Past at) (read_varint (2 ^ 64) at bs) _
            (read_varint-Moved (2 ^ 64) at bs)
            (λ (n, at', bs') m. elim (Bool-cases (leb (2 ^ 63) n)) [
              | inl big ↦ rw big tt
              | inr fits ↦ rw fits (
                  Past-mono at at' (omega (arith, m.0)) _
                    (wrap_sum at' n (omega (arith, m.1)) (leb→lt (2 ^ 63) n fits)))
            ]))
          (Returns-if (Past at) (wire_type == 4) _ _ (omega arith, omega arith)
            (Returns-if (Past at) (wire_type == 5) _ _ (omega arith, omega arith) tt))))

-- Behind a skipped field of a group: the index has moved on, or it is negative.
add_index-Past :
    (start : ℕ) (next : ℤ)
    → start < 2 ^ 62
    → Past 1 next
    → ((n : ℕ) × (add_index start next ≡ pos n) × (start < n))
      ⊎ ((n : ℕ) × (add_index start next ≡ negsuc n))
unfolding wrap_int64 ◌-ℤ◌
add_index-Past start (pos n) h p = elim (Bool-cases (ltb (start + n) (2 ^ 63))) [
  | inl fits ↦ inl (start + n, ground arith, omega (arith, p.0))
  | inr wraps ↦ inr (2 ^ 64 - 1 - (start + n), ground arith)
]
add_index-Past start (negsuc n) h p = inr (n - start, ground arith)

mutual
  unfolding skip skip_group

  pub skip-Past :
      (fuel : ℕ) (bs : List ℕ)
      → 1 ≤ fuel
      → 2 * length bs ≤ fuel
      → length bs < 2 ^ 62
      → Returns (Past 1) (skip fuel bs)
  skip-Past zero bs some enough h = absurd (omega arith)
  skip-Past (suc fuel) bs some enough h =
      Returns-bind (Moved 0 bs) (Past 1) (read_varint (2 ^ 64) 0 bs) _
        (read_varint-Moved (2 ^ 64) 0 bs)
        (λ (wire, at, rest) m.
          Returns-if (Past 1) (bit_and wire 0x7 == 3) _ _
            (skip_group-Past fuel bs at (omega (arith, m.0, m.1)) h)
            (Returns-mono (Past at) (Past 1) _
              (skip_plain-Past (bit_and wire 0x7) at rest (omega (arith, m.1)))
              (Past-mono 1 at (omega (arith, m.0)))))

  skip_group-Past :
      (fuel : ℕ) (bs : List ℕ) (start : ℕ)
      → 2 * (length bs - start) + 1 ≤ fuel
      → length bs < 2 ^ 62
      → Returns (Past 1) (skip_group fuel bs (pos start))
  skip_group-Past zero bs start enough h = absurd (omega arith)
  skip_group-Past (suc fuel) bs start enough h =
      let size = length-drop start bs in
      Returns-bind (Moved start (drop start bs)) (Past 1)
        (read_varint (2 ^ 64) start (drop start bs)) _
        (read_varint-Moved (2 ^ 64) start (drop start bs))
        (λ (inner, at, rest) m.
          let inside : start < length bs = omega (arith, m.0, m.1) in
          Returns-if (Past 1) (bit_and inner 0x7 == 4) _ _ (omega (arith, m.0), omega (arith, m.1))
            (Returns-bind (Past 1) (Past 1) (skip fuel (drop start bs)) _
              (skip-Past fuel (drop start bs) (omega arith) (omega arith) (omega arith))
              (λ next p. elim (add_index-Past start next (omega arith) p) [
                | inl (n, e, later) ↦ rw e (skip_group-Past fuel bs n (omega arith) h)
                | inr (n, e) ↦ rw e (skip_group-negsuc fuel bs n (omega arith))
              ])))

  skip_group-negsuc :
      (fuel : ℕ) (bs : List ℕ) (n : ℕ) → 1 ≤ fuel → Returns (Past 1) (skip_group fuel bs (negsuc n))
  skip_group-negsuc zero bs n h = absurd (omega arith)
  skip_group-negsuc (suc fuel) bs n h = tt
