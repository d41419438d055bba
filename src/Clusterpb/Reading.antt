-- ===== src/Clusterpb/Reading.antt =====
-- The decoder's reads of a varint and of a string on what the encoder writes.
use Prim.Native.Nat.{bit_and, bit_or}
use native.Mathlib.Nat.{mod-eq_of_lt, div-add-mod}
use native.Mathlib.Numerals.{towards_suc}
use etcdlabs.Prelude.{
  ℕ, zero, suc, ◌+◌, ◌*◌, ◌/◌, ◌%◌, ◌^◌, ◌<◌, ◌≡◌, refl, ap, ◌∙◌, List, ◌∷◌, ◌++◌, arith, Text,
  length, length-append, ltb, lt→ltb, le→ltb, ltb→lt, Bool-cases, inl, inr,
}
use etcdlabs.Prelude.Int.{pos, wrap_int64_fits}
use etcdlabs.Prelude.Bits.{bit_or_above, bit_and_127}
use etcdlabs.Prelude.Slices.{take-append, drop-append_self}
use etcdlabs.Clusterpb.Varint.{groups, varint}
use etcdlabs.Clusterpb.Decode.{slice_to, ok, read_groups, read_varint, read_bytes, read_string}

-- One group, shifted behind what has been read.
add_group :
    (b g acc shift modulus : ℕ)
    → b % 128 ≡ g
    → acc < 2 ^ shift
    → acc + g * 2 ^ shift < modulus
    → bit_or acc (bit_and b 0x7f * 2 ^ shift % modulus) ≡ acc + g * 2 ^ shift
add_group b g acc shift modulus e h k =
    rw (bit_and_127 b, e, mod-eq_of_lt {n = g * 2 ^ shift} {m = modulus} (omega arith))
      (bit_or_above shift acc g h)

group_fits : (g acc p : ℕ) → g < 128 → acc < p → acc + g * p < 128 * p
group_fits g acc p h k = grind arith

seven_more : (s : ℕ) → 2 ^ (s + 7) ≡ 128 * 2 ^ s
seven_more s = simp towards_suc (omega arith)

-- The lowest group of `v` and the groups above it, both shifted by `s`.
low_group : (v s : ℕ) → v * 2 ^ s ≡ v % 128 * 2 ^ s + v / 128 * 2 ^ (s + 7)
low_group v s = omega (
  arith,
  ap (λ (t : ℕ). t * 2 ^ s) (div-add-mod v 128),
  ap (λ (t : ℕ). v / 128 * t) (seven_more s),
)

read_groups_last :
    (rounds modulus shift acc at v : ℕ) (rest : List ℕ)
    → v < 128
    → acc < 2 ^ shift
    → acc + v * 2 ^ shift < modulus
    → read_groups (suc rounds) modulus shift acc at (v ∷ rest)
      ≡ ok (acc + v * 2 ^ shift, at + 1, rest)
unfolding read_groups
read_groups_last rounds modulus shift acc at v rest small h k =
    rw (lt→ltb v 128 small, add_group v v acc shift modulus (omega arith) h k) refl

read_groups_next :
    (rounds modulus shift acc at g : ℕ) (rest : List ℕ)
    → g < 128
    → acc < 2 ^ shift
    → acc + g * 2 ^ shift < modulus
    → read_groups (suc rounds) modulus shift acc at ((g + 128) ∷ rest)
      ≡ read_groups rounds modulus (shift + 7) (acc + g * 2 ^ shift) (at + 1) rest
unfolding read_groups
read_groups_next rounds modulus shift acc at g rest small h k =
    rw
      (
        le→ltb (g + 128) 128 (omega arith),
        add_group (g + 128) g acc shift modulus (omega arith) h k,
      )
      refl

read_groups_lem :
    (k rounds modulus shift acc at v : ℕ) (rest : List ℕ)
    → v < 128 ^ suc k
    → k < rounds
    → acc < 2 ^ shift
    → acc + v * 2 ^ shift < modulus
    → read_groups rounds modulus shift acc at (groups k v ++ rest)
      ≡ ok (acc + v * 2 ^ shift, at + length (groups k v), rest)
unfolding groups
read_groups_lem k zero modulus shift acc at v rest fits more h room = elim more [ ]
read_groups_lem zero (suc rounds) modulus shift acc at v rest fits more h room =
    read_groups_last rounds modulus shift acc at v rest (omega arith) h room
read_groups_lem (suc k) (suc rounds) modulus shift acc at v rest fits more h room =
    let split = low_group v shift in
    let above = seven_more shift in
    elim (Bool-cases (ltb v 128)) [
      | inl small ↦ rw small (
          read_groups_last rounds modulus shift acc at v rest (omega (arith, ltb→lt v 128 small)) h
            room)
      | inr big ↦
          let read : acc + v % 128 * 2 ^ shift + v / 128 * 2 ^ (shift + 7) ≡ acc + v * 2 ^ shift =
            omega (arith, split) in
          let index : at + 1 + length (groups k (v / 128))
              ≡ at + suc (length (groups k (v / 128))) =
            omega arith in
          let next =
            read_groups_lem k rounds modulus (shift + 7) (acc + v % 128 * 2 ^ shift) (at + 1)
              (v / 128) rest (omega arith) (omega arith)
              (rw above (group_fits (v % 128) acc (2 ^ shift) (omega arith) h))
              (omega (arith, read)) in
          rw big (
            read_groups_next rounds modulus shift acc at (v % 128) (groups k (v / 128) ++ rest)
              (omega arith) h (omega (arith, split))
            ∙ next
            ∙ rw (read, index) refl)
    ]

pub read_varint_lem :
    (modulus at v : ℕ) (rest : List ℕ)
    → v < 2 ^ 64
    → v < modulus
    → read_varint modulus at (varint v ++ rest) ≡ ok (v, at + length (varint v), rest)
unfolding read_varint
read_varint_lem modulus at v rest fits room =
    let whole : 0 + v * 2 ^ 0 ≡ v = omega arith in
    read_groups_lem 9 10 modulus 0 0 at v rest (omega arith) (omega arith) (omega arith)
      (omega arith)
    ∙ rw whole refl

read_bytes_lem :
    (s : Text) (at : ℕ) (rest : List ℕ)
    → at + length s < 2 ^ 63
    → read_bytes (length s) at (s ++ rest) ≡ ok (s, at + length s, rest)
unfolding read_bytes slice_to
read_bytes_lem s at rest h =
    rw
      (
        wrap_int64_fits (pos (at + length s)) (omega arith),
        le→ltb (at + length (s ++ rest)) (at + length s) (omega (arith, length-append s rest)),
        take-append s rest,
        drop-append_self s rest,
      )
      refl

pub read_string_lem :
    (s : Text) (at : ℕ) (rest : List ℕ)
    → at + length (varint (length s)) + length s < 2 ^ 63
    → read_string at (varint (length s) ++ (s ++ rest))
      ≡ ok (s, at + length (varint (length s)) + length s, rest)
unfolding read_string
read_string_lem s at rest h =
    rw
      (
        read_varint_lem (2 ^ 64) at (length s) (s ++ rest) (omega arith) (omega arith),
        read_bytes_lem s (at + length (varint (length s))) rest h,
      )
      (ground arith)
