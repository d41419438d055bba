-- ===== src/Clusterpb/Written.antt =====
-- What `Marshal` writes: the wire form of a message, in a slice of exactly its length.
use etcdlabs.Prelude.{
  ℕ, zero, suc, ◌<◌, ◌^◌, ◌≡◌, refl, sym, ap, ◌∙◌, Bool, true, false, [], ◌∷◌, ◌++◌, arith, ret,
  ◌>>=◌, Text, length, length-append, drop, ltb, ◌==◌, if◌then◌else◌,
}
use mathlib.Core.List.{append-nil}
use etcdlabs.Prelude.Slices.{take-length, drop-length}
use etcdlabs.Clusterpb.{Message}
use etcdlabs.Clusterpb.Encode.{
  Writer, put, copy_in, encode_varint, string_size, number_size, size, put_string, put_number,
  put_bool, marshal_to, zeros, marshal,
}
use etcdlabs.Clusterpb.Varint.{varint, sov-length}
use etcdlabs.Clusterpb.Writing.{
  IsMessage, IsMessage-TextsFit, Writes, Writes-if, Writes-then, bool_field, copy_in-Writes,
  encode_varint-Writes, none-Writes, number_field, put-Writes, string_field, wire_form,
}

put_string-Writes :
    (tag : ℕ) (s : Text) → length s < 2 ^ 63 → Writes (put_string tag s) (string_field tag s)
unfolding put_string string_field
put_string-Writes tag s h =
    let act = λ (w : Writer). encode_varint (length s) w >>= copy_in s in
    Writes-if (ltb 0 (length s)) (λ w. put tag w >>= act) ret (tag ∷ (varint (length s) ++ s)) []
      (Writes-then (put tag) act (tag ∷ []) (varint (length s) ++ s) (put-Writes tag) (
        Writes-then (encode_varint (length s)) (copy_in s) (varint (length s)) s
          (encode_varint-Writes (length s) (omega arith)) (copy_in-Writes s)))
      none-Writes

put_number-Writes : (tag n : ℕ) → n < 2 ^ 64 → Writes (put_number tag n) (number_field tag n)
unfolding put_number number_field
put_number-Writes tag n h =
    Writes-if (n == 0) ret (λ w. put tag w >>= encode_varint n) [] (tag ∷ varint n) none-Writes
      (Writes-then (put tag) (encode_varint n) (tag ∷ []) (varint n) (put-Writes tag)
        (encode_varint-Writes n h))

put_bool-Writes : (tag : ℕ) (b : Bool) → Writes (put_bool tag b) (bool_field tag b)
unfolding put_bool bool_field
put_bool-Writes tag true =
    Writes-then (put tag) (put 1) (tag ∷ []) (1 ∷ []) (put-Writes tag) (put-Writes 1)
put_bool-Writes tag false = none-Writes

string_size-length :
    (tag : ℕ) (s : Text) → length s < 2 ^ 63 → string_size s ≡ length (string_field tag s)
unfolding string_size string_field
string_size-length tag s h =
    ground (arith, sov-length (length s) (omega arith), length-append (varint (length s)) s)

number_size-length : (tag n : ℕ) → n < 2 ^ 64 → number_size n ≡ length (number_field tag n)
unfolding number_size number_field
number_size-length tag n h = ground (arith, sov-length n h)

bool_size-length : (tag : ℕ) (b : Bool) → (if b then 2 else 0) ≡ length (bool_field tag b)
unfolding bool_field
bool_size-length tag true = refl
bool_size-length tag false = refl

marshal_to-Writes : (m : Message) → IsMessage m → Writes (marshal_to m) (wire_form m)
unfolding marshal_to wire_form
marshal_to-Writes m v =
    let t = IsMessage-TextsFit m v in
    Writes-then _ _ _ _ (put_string-Writes 0x0a m.name t.name_fits) (
      Writes-then _ _ _ _ (put_string-Writes 0x12 m.id t.id_fits) (
        Writes-then _ _ _ _ (put_string-Writes 0x1a m.endpoint t.endpoint_fits) (
          Writes-then _ _ _ _ (put_bool-Writes 0x20 m.is_leader) (
            Writes-then _ _ _ _ (put_string-Writes 0x2a m.state t.state_fits) (
              Writes-then _ _ _ _ (put_string-Writes 0x32 m.state_txt t.state_txt_fits) (
                Writes-then _ _ _ _ (put_number-Writes 0x38 m.db_size v.db_size_fits) (
                  Writes-then _ _ _ _ (put_string-Writes 0x42 m.db_size_txt t.db_size_txt_fits)
                    (put_number-Writes 0x48 m.hash (omega (arith, v.hash_fits))))))))))

size-length : (m : Message) → IsMessage m → size m ≡ length (wire_form m)
unfolding size wire_form
size-length m v =
    let t = IsMessage-TextsFit m v in
    rw
      (
        length-append (string_field 0x0a m.name) _,
        length-append (string_field 0x12 m.id) _,
        length-append (string_field 0x1a m.endpoint) _,
        length-append (bool_field 0x20 m.is_leader) _,
        length-append (string_field 0x2a m.state) _,
        length-append (string_field 0x32 m.state_txt) _,
        length-append (number_field 0x38 m.db_size) _,
        length-append (string_field 0x42 m.db_size_txt) _,
        string_size-length 0x0a m.name t.name_fits,
        string_size-length 0x12 m.id t.id_fits,
        string_size-length 0x1a m.endpoint t.endpoint_fits,
        bool_size-length 0x20 m.is_leader,
        string_size-length 0x2a m.state t.state_fits,
        string_size-length 0x32 m.state_txt t.state_txt_fits,
        number_size-length 0x38 m.db_size v.db_size_fits,
        string_size-length 0x42 m.db_size_txt t.db_size_txt_fits,
        number_size-length 0x48 m.hash (omega (arith, v.hash_fits)),
      )
      refl

length-zeros : (n : ℕ) → length (zeros n) ≡ n
unfolding zeros
length-zeros zero = refl
length-zeros (suc n) = ap suc (length-zeros n)

-- `Marshal` never panics: `Size` is the length of the wire form, which fills the slice.
pub marshal_lem :
    (m : Message) → IsMessage m → (marshal m ≡ ret (wire_form m)) × (size m ≡ length (wire_form m))
unfolding marshal
marshal_lem m v =
    let sized = size-length m v in
    let n = length-zeros (size m) in
    let filled = (marshal_to-Writes m v).writes [] (zeros (size m)) (omega (arith, n, sized)) in
    let nothing_left : drop (length (wire_form m)) (zeros (size m)) ≡ [] =
      ap (λ k. drop k (zeros (size m))) (sym sized ∙ sym n) ∙ drop-length (zeros (size m)) in
    (rw (filled, nothing_left, append-nil (wire_form m), take-length (wire_form m)) refl, sized)
