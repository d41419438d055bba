-- ===== src/Clusterpb/Overflow.antt =====
-- What `Unmarshal` answers to a string field whose declared length the input does not hold.
use etcdlabs.Prelude.{
  leb, leb→le, leb→lt, inl, inr, if◌then◌else◌, Bool-cases, ℕ, zero, suc, ◌+◌, ◌-◌, ◌≤◌, ◌<◌, ◌^◌,
  ◌≡◌, refl, sym, ◌∙◌, List, ◌∷◌, ◌++◌, arith, ret, length, length-append, lt→ltb, le→leb, lt→leb,
}
use etcdlabs.Prelude.Int.{pos, negsuc, wrap_int64, wrap_int64_fits}
use etcdlabs.Clusterpb.{Message}
use etcdlabs.Clusterpb.Encode.{marshal}
use etcdlabs.Clusterpb.Varint.{varint}
use etcdlabs.Clusterpb.Writing.{wire_form, IsMessage}
use etcdlabs.Clusterpb.Written.{marshal_lem}
use etcdlabs.Clusterpb.Decode.{
  Decoded, DecodeError, err, crash, invalid_length, unexpected_eof, read_groups, read_varint,
  slice_to, read_bytes, read_string, text_value, read_field, read_tagged, unmarshal_loop, unmarshal,
}
use etcdlabs.Clusterpb.Reading.{read_varint_lem}
use etcdlabs.Clusterpb.Fields.{wire_form-Reads, merge}

wrap_past : (x : ℕ) → 2 ^ 63 ≤ x → x < 2 ^ 64 → wrap_int64 (pos x) ≡ negsuc (2 ^ 64 - 1 - x)
unfolding wrap_int64
wrap_past x h k = ground arith

module _ (at n : ℕ) (rest : List ℕ) (room : at + length (varint n) + length rest < 2 ^ 63) where
  read_negative : 2 ^ 63 ≤ n → n < 2 ^ 64 → read_string at (varint n ++ rest) ≡ err invalid_length
  unfolding read_string
  read_negative h k = rw (read_varint_lem (2 ^ 64) at n rest k k, le→leb (2 ^ 63) n h) refl

  read_past_int :
      n < 2 ^ 63 → 2 ^ 63 ≤ at + length (varint n) + n → read_string at (varint n ++ rest) ≡ crash
  unfolding read_string read_bytes slice_to
  read_past_int h k =
      rw
        (
          read_varint_lem (2 ^ 64) at n rest (omega arith) (omega arith),
          lt→leb (2 ^ 63) n h,
          wrap_past (at + length (varint n) + n) k (omega arith),
        )
        refl

  read_past_end :
      at + length (varint n) + n < 2 ^ 63
      → length rest < n
      → read_string at (varint n ++ rest) ≡ err unexpected_eof
  unfolding read_string read_bytes slice_to
  read_past_end h k =
      rw
        (
          read_varint_lem (2 ^ 64) at n rest (omega arith) (omega arith),
          lt→leb (2 ^ 63) n (omega arith),
          wrap_int64_fits (pos (at + length (varint n) + n)) (omega arith),
          lt→ltb (at + length (varint n) + length rest) (at + length (varint n) + n) (omega arith),
        )
        refl

-- The loop on a name that cannot be read.
module _ (m : Message) (at : ℕ) (bs : List ℕ) where
  name_error :
      (fuel : ℕ) (e : DecodeError)
      → 1 ≤ fuel
      → read_string (at + 1) bs ≡ err e
      → unmarshal_loop fuel m at (0x0a ∷ bs) ≡ err e
  unfolding unmarshal_loop read_tagged read_varint read_groups read_field text_value
  name_error zero e some h = absurd (omega arith)
  name_error (suc fuel) e some h = rw h refl

  name_crash :
      (fuel : ℕ)
      → 1 ≤ fuel
      → read_string (at + 1) bs ≡ crash
      → unmarshal_loop fuel m at (0x0a ∷ bs) ≡ crash
  unfolding unmarshal_loop read_tagged read_varint read_groups read_field text_value
  name_crash zero some h = absurd (omega arith)
  name_crash (suc fuel) some h = rw h refl

-- Behind a message, its wire form being read.
behind_message :
    (m old : Message) (bs : List ℕ) (result : Decoded Message)
    → IsMessage m
    → length (wire_form m) + suc (length bs) < 2 ^ 63
    → ((left : ℕ)
        → 1 ≤ left
        → unmarshal_loop left (merge m old) (length (wire_form m)) (0x0a ∷ bs) ≡ result)
    → unmarshal old (wire_form m ++ 0x0a ∷ bs) ≡ result
unfolding unmarshal
behind_message m old bs result v room h =
    let whole = length-append (wire_form m) (0x0a ∷ bs) in
    let index : 0 + length (wire_form m) ≡ length (wire_form m) = omega arith in
    (wire_form-Reads m v).reads old 0 (length (wire_form m ++ 0x0a ∷ bs)) (0x0a ∷ bs) result
      (omega arith) (omega (arith, whole)) (λ left enough. rw index (h left (omega arith)))

-- A length that is negative as an `int`, an index behind it that is past the largest `int`, or neither.
abbrev pub refusal : ℕ → ℕ → Decoded Message
refusal at n =
    if leb (2 ^ 63) n
    then err invalid_length
    else if leb (2 ^ 63) (at + n)
    then crash
    else err unexpected_eof

-- Take the bytes of a message, and behind them a field `Name` that declares a length of 64 bits where
-- fewer bytes follow, all in a slice shorter than 2^63. `Unmarshal` rejects a length that is negative
-- as an `int`. Otherwise it panics if the index behind the declared bytes is past the largest `int`, and
-- returns the error of an unexpected end if it is not.
pub unmarshal_name :
    (m old : Message) (bytes rest : List ℕ) (n : ℕ)
    → IsMessage m
    → marshal m ≡ ret bytes
    → length bytes + 1 + length (varint n) + length rest < 2 ^ 63
    → n < 2 ^ 64
    → length rest < n
    → unmarshal old (bytes ++ 0x0a ∷ (varint n ++ rest))
      ≡ refusal (length bytes + 1 + length (varint n)) n
unmarshal_name m old bytes rest n v e room fits short =
    let same : bytes ≡ wire_form m = ret_injective (sym e ∙ (marshal_lem m v).0) in
    let at = length (wire_form m) in
    let index = at + 1 in
    let bs = varint n ++ rest in
    let size = length-append (varint n) rest in
    let room' : at + 1 + length (varint n) + length rest < 2 ^ 63 = rw same at room in
    let behind =
      λ (result : Decoded Message). behind_message m old bs result v (omega (arith, size, room')) in
    rw same (elim (Bool-cases (leb (2 ^ 63) n)) [
      | inl big ↦ rw big (
          behind (err invalid_length) (λ left some.
            name_error (merge m old) at bs left invalid_length some
              (read_negative index n rest room' (leb→le (2 ^ 63) n big) fits)))
      | inr small ↦ rw small (elim (Bool-cases (leb (2 ^ 63) (index + length (varint n) + n))) [
        | inl far ↦ rw far (
            behind crash (λ left some. name_crash (merge m old) at bs left some (
              read_past_int index n rest room' (leb→lt (2 ^ 63) n small)
                (leb→le (2 ^ 63) (index + length (varint n) + n) far))))
        | inr near ↦ rw near (
            behind (err unexpected_eof) (λ left some.
              name_error (merge m old) at bs left unexpected_eof some (
                read_past_end index n rest room'
                  (leb→lt (2 ^ 63) (index + length (varint n) + n) near) short)))
      ])
    ])
  where
    ret_injective : {a b : List ℕ} → ret a ≡ ret b → a ≡ b
    ret_injective h = cc
