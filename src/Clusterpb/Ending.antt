-- ===== src/Clusterpb/Ending.antt =====
-- `Unmarshal` ends on any bytes, well formed or not: every read and every skip moves the index on.
use Prim.Native.Nat.{bit_and}
use etcdlabs.Prelude.{
  ℕ, zero, suc, ◌+◌, ◌*◌, ◌^◌, ◌≤◌, ◌<◌, ◌≢◌, ◌||◌, List, [], ◌∷◌, arith, Text, length, ltb, leb,
  ◌==◌,
}
use etcdlabs.Prelude.Int.{ℤ, pos, negsuc, wrap_int64}
use etcdlabs.Prelude.Slices.{length-drop}
use etcdlabs.Clusterpb.{Message}
use etcdlabs.Clusterpb.Decode.{
  Decoded, ok, err, crash, stuck, Read, read_varint, slice_to, read_bytes, read_string, skip,
  text_value, number_value, skip_to, skip_by, skip_field, field_number, illegal_tag, read_field,
  read_tagged, unmarshal_loop, unmarshal,
}
use etcdlabs.Clusterpb.Skipping.{
  Moved, Past, Returns, Returns-bind, Returns-if, Returns-mono, read_varint-Moved, skip-Past,
}

-- A read that leaves fewer bytes.
abbrev Shorter : {A : Type 0} → List ℕ → Read A → Type 0
Shorter bs (a, at', bs') = length bs' < length bs

slice_to-le :
    (post : ℤ) (n at : ℕ) (bs : List ℕ)
    → Returns (λ r. length r.2 ≤ length bs) (slice_to post n at bs)
unfolding slice_to
slice_to-le (negsuc p) n at bs = tt
slice_to-le (pos p) n at bs =
    Returns-if (λ r. length r.2 ≤ length bs) (ltb (at + length bs) p) _ _ tt
      (omega (arith, length-drop n bs))

text_value-Shorter :
    (wire_type : ℕ) (set : Text → Message) (at : ℕ) (bs : List ℕ)
    → Returns (Shorter bs) (text_value wire_type set at bs)
unfolding text_value read_string read_bytes
text_value-Shorter wire_type set at bs =
    Returns-if (Shorter bs) (wire_type == 2) _ _
      (Returns-bind (Shorter bs) (Shorter bs) (read_string at bs) _
        (Returns-bind (Moved at bs) (Shorter bs) (read_varint (2 ^ 64) at bs) _
          (read_varint-Moved (2 ^ 64) at bs)
          (λ (n, at', bs') m. Returns-if (Shorter bs) (leb (2 ^ 63) n) _ _ tt (
            Returns-mono (λ r. length r.2 ≤ length bs') (Shorter bs) _
              (slice_to-le (wrap_int64 (pos (at' + n))) n at' bs')
              (λ r le. omega (arith, le, m.0, m.1)))))
        (λ r h. h))
      tt

number_value-Shorter :
    (modulus wire_type : ℕ) (set : ℕ → Message) (at : ℕ) (bs : List ℕ)
    → Returns (Shorter bs) (number_value modulus wire_type set at bs)
unfolding number_value
number_value-Shorter modulus wire_type set at bs =
    Returns-if (Shorter bs) (wire_type == 0) _ _
      (Returns-bind (Moved at bs) (Shorter bs) (read_varint modulus at bs) _
        (read_varint-Moved modulus at bs) (λ r m. omega (arith, m.0, m.1)))
      tt

skip_to-Shorter :
    (next : ℤ) (n : ℕ) (m : Message) (start : ℕ) (whole : List ℕ)
    → 1 ≤ n
    → 1 ≤ length whole
    → Returns (Shorter whole) (skip_to next n m start whole)
unfolding skip_to
skip_to-Shorter (negsuc z) n m start whole h k = tt
skip_to-Shorter (pos z) n m start whole h k =
    Returns-if (Shorter whole) (ltb (start + length whole) z) _ _ tt
      (omega (arith, length-drop n whole))

skip_by-Shorter :
    (skippy : ℤ) (m : Message) (start : ℕ) (whole : List ℕ)
    → Past 1 skippy
    → 1 ≤ length whole
    → Returns (Shorter whole) (skip_by skippy m start whole)
unfolding skip_by
skip_by-Shorter (negsuc n) m start whole p k = tt
skip_by-Shorter (pos n) m start whole p k =
    skip_to-Shorter (wrap_int64 (pos (start + n))) n m start whole p.0 k

skip_field-Shorter :
    (m : Message) (start : ℕ) (whole : List ℕ)
    → 1 ≤ length whole
    → length whole < 2 ^ 62
    → Returns (Shorter whole) (skip_field m start whole)
unfolding skip_field
skip_field-Shorter m start whole some h =
    Returns-bind (Past 1) (Shorter whole) (skip (2 * length whole + 1) whole) _
      (skip-Past (2 * length whole + 1) whole (omega arith) (omega arith) h)
      (λ skippy p. skip_by-Shorter skippy m start whole p some)

read_field-Shorter :
    (field wire_type : ℕ) (m : Message) (start : ℕ) (whole : List ℕ) (at : ℕ) (bs : List ℕ)
    → length bs < length whole
    → length whole < 2 ^ 62
    → Returns (Shorter whole) (read_field field wire_type m start whole at bs)
unfolding read_field
read_field-Shorter field wt m start whole at bs less h =
    let text = λ (set : Text → Message).
      Returns-mono (Shorter bs) (Shorter whole) (text_value wt set at bs)
        (text_value-Shorter wt set at bs) (λ r s. omega (arith, s)) in
    let number = λ (modulus : ℕ) (set : ℕ → Message).
      Returns-mono (Shorter bs) (Shorter whole) (number_value modulus wt set at bs)
        (number_value-Shorter modulus wt set at bs) (λ r s. omega (arith, s)) in
    Returns-if (Shorter whole) (field == 1) _ _ (text _) (
      Returns-if (Shorter whole) (field == 2) _ _ (text _) (
        Returns-if (Shorter whole) (field == 3) _ _ (text _) (
          Returns-if (Shorter whole) (field == 4) _ _ (number _ _) (
            Returns-if (Shorter whole) (field == 5) _ _ (text _) (
              Returns-if (Shorter whole) (field == 6) _ _ (text _) (
                Returns-if (Shorter whole) (field == 7) _ _ (number _ _) (
                  Returns-if (Shorter whole) (field == 8) _ _ (text _) (
                    Returns-if (Shorter whole) (field == 9) _ _ (number _ _)
                      (skip_field-Shorter m start whole (omega arith) h)))))))))

read_tagged-Shorter :
    (m : Message) (at : ℕ) (bs : List ℕ)
    → length bs < 2 ^ 62
    → Returns (Shorter bs) (read_tagged m at bs)
unfolding read_tagged
read_tagged-Shorter m at bs h =
    Returns-bind (Moved at bs) (Shorter bs) (read_varint (2 ^ 64) at bs) _
      (read_varint-Moved (2 ^ 64) at bs)
      (λ (wire, at', bs') moved. Returns-if (Shorter bs) (bit_and wire 0x7 == 4) _ _ tt (
        Returns-if (Shorter bs) (field_number wire == 0 || leb (2 ^ 31) (field_number wire))
          (err illegal_tag) (read_field (field_number wire) (bit_and wire 0x7) m at bs at' bs') tt
          (read_field-Shorter (field_number wire) (bit_and wire 0x7) m at bs at' bs'
            (omega (arith, moved.0, moved.1)) h)))

unmarshal_loop-Returns :
    (fuel : ℕ) (m : Message) (at : ℕ) (bs : List ℕ)
    → length bs ≤ fuel
    → length bs < 2 ^ 62
    → Returns (λ m'. Unit {0}) (unmarshal_loop fuel m at bs)
unfolding unmarshal_loop
unmarshal_loop-Returns fuel m at [] enough h = tt
unmarshal_loop-Returns zero m at (b ∷ bs) enough h = absurd (omega arith)
unmarshal_loop-Returns (suc fuel) m at (b ∷ bs) enough h =
    Returns-bind (Shorter (b ∷ bs)) (λ m'. Unit {0}) (read_tagged m at (b ∷ bs)) _
      (read_tagged-Shorter m at (b ∷ bs) h)
      (λ (m', at', bs') less.
        unmarshal_loop-Returns fuel m' at' bs' (omega (arith, less)) (omega (arith, less)))

Returns-ne-stuck : {A : Type 0} (P : A → Type 0) (m : Decoded A) → Returns P m → m ≢ stuck
Returns-ne-stuck P (ok a) h e = cc
Returns-ne-stuck P (err d) h e = cc
Returns-ne-stuck P crash h e = cc
Returns-ne-stuck P stuck h e = absurd h

-- `Unmarshal` ends on any slice of fewer than 2^62 bytes, well formed or not: with a message, with an
-- error, or with a panic. Neither its loop nor the skipping of unknown fields and nested groups runs
-- out of the rounds that the model gives them.
pub unmarshal-ne-stuck : (m : Message) (bs : List ℕ) → length bs < 2 ^ 62 → unmarshal m bs ≢ stuck
unfolding unmarshal
unmarshal-ne-stuck m bs h =
    Returns-ne-stuck (λ m'. Unit {0}) (unmarshal m bs)
      (unmarshal_loop-Returns (length bs) m 0 bs (omega arith) h)
