-- ===== src/Clusterpb/Decode.antt =====
-- The protobuf decoder of clusterpb.pb.go: `Unmarshal` and `skipClusterpb`. The bytes from the index on
-- stand beside the index, so that `iNdEx >= l` is the empty list and `dAtA[iNdEx]` its head; where an
-- index is computed by an addition, it is an `int` that wraps around.
use Prim.Native.Nat.{bit_and, bit_or}
use etcdlabs.Prelude.{
  ℕ, zero, suc, ◌+◌, ◌*◌, ◌/◌, ◌%◌, ◌^◌, not, ◌||◌, List, [], ◌∷◌, Text, length, take, drop, ltb,
  leb, ◌==◌, if◌then◌else◌,
}
use etcdlabs.Prelude.Int.{ℤ, pos, negsuc, ◌-ℤ◌, wrap_int64}
use etcdlabs.Clusterpb.{Message}

-- The errors, without the numbers that their texts name.
pub data DecodeError : Type 0 where
  int_overflow unexpected_eof invalid_length end_group illegal_tag wrong_wire_type
        illegal_wire_type :
      DecodeError

-- A result, an error, or a panic; `stuck` is no Go value: a loop ran out of fuel.
pub data Decoded {ℓ} (A : Type ℓ) : Type ℓ where
  ok : A → Decoded A
  err : DecodeError → Decoded A
  crash : Decoded A
  stuck : Decoded A

infixl 5 ◌>>=◌
abbrev pub ◌>>=◌ {ℓ κ} : {A : Type ℓ} {B : Type κ} → Decoded A → (A → Decoded B) → Decoded B
ok a >>= f = f a
err e >>= f = err e
crash >>= f = crash
stuck >>= f = stuck

-- What a read leaves: the value, the index behind it, and the bytes from there on.
abbrev pub Read : Type 0 → Type 0
Read A = A × ℕ × List ℕ

-- The loop `for shift := uint(0); ; shift += 7` into an unsigned number below `modulus`. After ten
-- rounds `shift` is 70, which is past 63.
unfoldable pub read_groups : ℕ → ℕ → ℕ → ℕ → ℕ → List ℕ → Decoded (Read ℕ)
read_groups zero modulus shift acc at bs = err int_overflow
read_groups (suc rounds) modulus shift acc at [] = err unexpected_eof
read_groups (suc rounds) modulus shift acc at (b ∷ bs) =
    let acc' = bit_or acc (bit_and b 0x7f * 2 ^ shift % modulus) in
    let more = read_groups rounds modulus (shift + 7) acc' (at + 1) bs in
    if ltb b 0x80 then ok (acc', at + 1, bs) else more

unfoldable pub read_varint : ℕ → ℕ → List ℕ → Decoded (Read ℕ)
unfolding read_groups
read_varint modulus at bs = read_groups 10 modulus 0 0 at bs

-- The test of `postIndex` for the end of the input, and the slice, which panics if `postIndex` is
-- negative.
unfoldable pub slice_to : ℤ → ℕ → ℕ → List ℕ → Decoded (Read Text)
slice_to (negsuc _) n at bs = crash
slice_to (pos post) n at bs =
    if ltb (at + length bs) post then err unexpected_eof else ok (take n bs, post, drop n bs)

-- `postIndex := iNdEx + intStringLen` may wrap around.
unfoldable pub read_bytes : ℕ → ℕ → List ℕ → Decoded (Read Text)
unfolding slice_to
read_bytes n at bs = slice_to (wrap_int64 (pos (at + n))) n at bs

-- A string behind its length, an `int` that must not be negative.
unfoldable pub read_string : ℕ → List ℕ → Decoded (Read Text)
unfolding read_varint read_bytes
read_string at bs = read_varint (2 ^ 64) at bs >>= λ (n, at', bs').
    if leb (2 ^ 63) n then err invalid_length else read_bytes n at' bs'

-- The varint of an unknown field, which is only walked over.
unfoldable pub skip_groups : ℕ → ℕ → List ℕ → Decoded ℤ
skip_groups zero at bs = err int_overflow
skip_groups (suc rounds) at [] = err unexpected_eof
skip_groups (suc rounds) at (b ∷ bs) =
    let more = skip_groups rounds (at + 1) bs in if ltb b 0x80 then ok (pos (at + 1)) else more

-- The wire types of `skipClusterpb` that hold no other field.
unfoldable pub skip_plain : ℕ → ℕ → List ℕ → Decoded ℤ
unfolding skip_groups read_varint
skip_plain wire_type at bs =
    if wire_type == 0
    then skip_groups 10 at bs
    else if wire_type == 1
    then ok (pos (at + 8))
    else if wire_type == 2
    then (read_varint (2 ^ 64) at bs >>= λ (n, at', bs').
        if leb (2 ^ 63) n then err invalid_length else ok (wrap_int64 (pos (at' + n))))
    else if wire_type == 4
    then ok (pos at)
    else if wire_type == 5
    then ok (pos (at + 4))
    else err illegal_wire_type

-- `start + next`, where `next` may have wrapped.
abbrev pub add_index : ℕ → ℤ → ℤ
add_index start (pos next) = wrap_int64 (pos (start + next))
add_index start (negsuc n) = pos start -ℤ pos (suc n)

unfoldable mutual
  unfolding read_varint skip_plain

  -- `skipClusterpb` on a slice that is not empty; the answer is an index, which may have wrapped.
  pub skip : ℕ → List ℕ → Decoded ℤ
  skip zero bs = stuck
  skip (suc fuel) bs = read_varint (2 ^ 64) 0 bs >>= λ (wire, at, rest).
      let inside = skip_group fuel bs (pos at) in
      if bit_and wire 0x7 == 3 then inside else skip_plain (bit_and wire 0x7) at rest

  -- The loop over the fields of a group, up to its end tag.
  pub skip_group : ℕ → List ℕ → ℤ → Decoded ℤ
  skip_group zero bs start = stuck
  skip_group (suc fuel) bs (negsuc n) = crash
  skip_group (suc fuel) bs (pos start) =
      read_varint (2 ^ 64) start (drop start bs) >>= λ (inner, at, rest).
      let more =
        (skip fuel (drop start bs) >>= λ next. skip_group fuel bs (add_index start next)) in
      if bit_and inner 0x7 == 4 then ok (pos at) else more

-- The string fields, and the number fields with their width.
unfoldable pub text_value : ℕ → (Text → Message) → ℕ → List ℕ → Decoded (Read Message)
unfolding read_string
text_value wire_type set at bs =
    if wire_type == 2
    then (read_string at bs >>= λ (s, at', bs'). ok (set s, at', bs'))
    else err wrong_wire_type

unfoldable pub number_value : ℕ → ℕ → (ℕ → Message) → ℕ → List ℕ → Decoded (Read Message)
unfolding read_varint
number_value modulus wire_type set at bs =
    if wire_type == 0
    then (read_varint modulus at bs >>= λ (n, at', bs'). ok (set n, at', bs'))
    else err wrong_wire_type

-- `iNdEx += skippy` behind an unknown field that starts at `start`. An index that has wrapped is below
-- `l`, and the next byte panics.
unfoldable pub skip_to : ℤ → ℕ → Message → ℕ → List ℕ → Decoded (Read Message)
skip_to (negsuc _) n m start whole = crash
skip_to (pos next) n m start whole =
    if ltb (start + length whole) next then err unexpected_eof else ok (m, next, drop n whole)

-- `skippy`, which must not be negative.
unfoldable pub skip_by : ℤ → Message → ℕ → List ℕ → Decoded (Read Message)
unfolding skip_to
skip_by (negsuc _) m start whole = err invalid_length
skip_by (pos n) m start whole = skip_to (wrap_int64 (pos (start + n))) n m start whole

-- An unknown field: `start` and `whole` are the index and the bytes from its tag on.
unfoldable pub skip_field : Message → ℕ → List ℕ → Decoded (Read Message)
unfolding skip skip_by
skip_field m start whole =
    skip (2 * length whole + 1) whole >>= λ skippy. skip_by skippy m start whole

-- The fields of the `switch` by their numbers, behind the tag.
unfoldable pub read_field : ℕ → ℕ → Message → ℕ → List ℕ → ℕ → List ℕ → Decoded (Read Message)
unfolding text_value number_value skip_field
read_field field wire_type m start whole at bs =
    if field == 1
    then text_value wire_type (λ s. record m { name = s }) at bs
    else if field == 2
    then text_value wire_type (λ s. record m { id = s }) at bs
    else if field == 3
    then text_value wire_type (λ s. record m { endpoint = s }) at bs
    else if field == 4
    then number_value (2 ^ 64) wire_type (λ n. record m { is_leader = not (n == 0) }) at bs
    else if field == 5
    then text_value wire_type (λ s. record m { state = s }) at bs
    else if field == 6
    then text_value wire_type (λ s. record m { state_txt = s }) at bs
    else if field == 7
    then number_value (2 ^ 64) wire_type (λ n. record m { db_size = n }) at bs
    else if field == 8
    then text_value wire_type (λ s. record m { db_size_txt = s }) at bs
    else if field == 9
    then number_value (2 ^ 32) wire_type (λ n. record m { hash = n }) at bs
    else skip_field m start whole

-- `fieldNum := int32(wire >> 3)`, which must be positive.
abbrev pub field_number : ℕ → ℕ
field_number wire = wire / 8 % 2 ^ 32

-- One round of the loop of `Unmarshal`: a tag and its field.
unfoldable pub read_tagged : Message → ℕ → List ℕ → Decoded (Read Message)
unfolding read_varint read_field
read_tagged m at bs = read_varint (2 ^ 64) at bs >>= λ (wire, at', bs').
    let wire_type = bit_and wire 0x7 in
    if wire_type == 4
    then err end_group
    else if field_number wire == 0 || leb (2 ^ 31) (field_number wire)
    then err illegal_tag
    else read_field (field_number wire) wire_type m at bs at' bs'

-- The loop `for iNdEx < l`. A message that is filled in part behind an error is left out.
unfoldable pub unmarshal_loop : ℕ → Message → ℕ → List ℕ → Decoded Message
unfolding read_tagged
unmarshal_loop fuel m at [] = ok m
unmarshal_loop zero m at (b ∷ bs) = stuck
unmarshal_loop (suc fuel) m at (b ∷ bs) =
    read_tagged m at (b ∷ bs) >>= λ (m', at', bs'). unmarshal_loop fuel m' at' bs'

-- `Unmarshal`. Each round reads a byte at least, so that the bytes are enough rounds.
unfoldable pub unmarshal : Message → List ℕ → Decoded Message
unfolding unmarshal_loop
unmarshal m bs = unmarshal_loop (length bs) m 0 bs
