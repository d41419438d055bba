-- ===== src/Clusterpb/Writing.antt =====
-- The wire form of a message, and the actions that write a list of bytes into a slice.
use Prim.Native.Nat.{min}
use etcdlabs.Prelude.{
  ℕ, ◌+◌, ◌≤◌, ◌<◌, ◌^◌, ◌≡◌, refl, sym, ap, ◌∙◌, Bool, true, false, List, [], ◌∷◌, ◌++◌, arith,
  Exec, ret, ◌>>=◌, Text, length, length-append, set, drop, ltb, lt→ltb, le→ltb, ◌==◌,
  if◌then◌else◌,
}
use mathlib.Core.List.{append_assoc, append-nil}
use etcdlabs.Prelude.Slices.{
  length-drop, drop-drop, take-length, take-append, drop-append, drop-append_self,
}
use etcdlabs.Clusterpb.{Message}
use etcdlabs.Clusterpb.Encode.{Writer, put, copy_in, encode_varint, string_size, size}
use etcdlabs.Clusterpb.Varint.{varint, write, encode_varint-write}

-- The wire form of a field: nothing for the zero value, otherwise the tag and the value.
unfoldable pub string_field : ℕ → Text → List ℕ
string_field tag s = if ltb 0 (length s) then tag ∷ (varint (length s) ++ s) else []

unfoldable pub number_field : ℕ → ℕ → List ℕ
number_field tag n = if n == 0 then [] else tag ∷ varint n

unfoldable pub bool_field : ℕ → Bool → List ℕ
bool_field tag b = if b then tag ∷ 1 ∷ [] else []

unfoldable pub wire_form : Message → List ℕ
unfolding string_field number_field bool_field
wire_form m =
    string_field 0x0a m.name
    ++ (string_field 0x12 m.id
        ++ (string_field 0x1a m.endpoint
            ++ (bool_field 0x20 m.is_leader
                ++ (string_field 0x2a m.state
                    ++ (string_field 0x32 m.state_txt
                        ++ (number_field 0x38 m.db_size
                            ++ (string_field 0x42 m.db_size_txt ++ number_field 0x48 m.hash)))))))

-- The messages that Go can hold, and whose wire form fits a slice.
pub record IsMessage (m : Message) : Type 0 where
  pub sized : size m < 2 ^ 63
  pub db_size_fits : m.db_size < 2 ^ 64
  pub hash_fits : m.hash < 2 ^ 32

pub record TextsFit (m : Message) : Type 0 where
  pub name_fits : length m.name < 2 ^ 63
  pub id_fits : length m.id < 2 ^ 63
  pub endpoint_fits : length m.endpoint < 2 ^ 63
  pub state_fits : length m.state < 2 ^ 63
  pub state_txt_fits : length m.state_txt < 2 ^ 63
  pub db_size_txt_fits : length m.db_size_txt < 2 ^ 63

string_size_ge : (s : Text) → length s ≤ string_size s
unfolding string_size
string_size_ge s = ground arith

pub IsMessage-TextsFit : (m : Message) → IsMessage m → TextsFit m
unfolding size
IsMessage-TextsFit m v = omega (
  arith,
  v.sized,
  string_size_ge m.name,
  string_size_ge m.id,
  string_size_ge m.endpoint,
  string_size_ge m.state,
  string_size_ge m.state_txt,
  string_size_ge m.db_size_txt,
)

-- The slice filled up to the offset.
abbrev pub at_end : List ℕ → List ℕ → Writer
at_end done rest = record { buf = done ++ rest; at = length done }

set-append :
    (done : List ℕ) (b x : ℕ) (rest : List ℕ)
    → set (done ++ x ∷ rest) (length done) b ≡ done ++ b ∷ rest
set-append [] b x rest = refl
set-append (y ∷ done) b x rest = ap (λ l. y ∷ l) (set-append done b x rest)

put_lem :
    (done : List ℕ) (b x : ℕ) (rest : List ℕ)
    → put b (at_end done (x ∷ rest)) ≡ ret (at_end (done ++ b ∷ []) rest)
unfolding put
put_lem done b x rest =
    rw
      (
        lt→ltb (length done) (length (done ++ x ∷ rest))
            (omega (arith, length-append done (x ∷ rest))),
        set-append done b x rest,
        append_assoc done (b ∷ []) rest,
        length-append done (b ∷ []),
      )
      refl

pub write_lem :
    (bs done rest : List ℕ)
    → length bs ≤ length rest
    → write bs (at_end done rest) ≡ ret (at_end (done ++ bs) (drop (length bs) rest))
unfolding write
write_lem [] done rest h = rw (append-nil done) refl
write_lem (b ∷ bs) done [] h = elim h [ ]
write_lem (b ∷ bs) done (x ∷ rest) h = rw (put_lem done b x rest) (
    write_lem bs (done ++ b ∷ []) rest (omega arith)
    ∙ ap (λ l. ret (at_end l (drop (length bs) rest))) (append_assoc done (b ∷ []) bs))

-- An action writes `bs` behind what is there, if there is room.
pub record Writes (act : Writer → Exec Writer) (bs : List ℕ) : Type 0 where
  pub writes :
      (done rest : List ℕ)
      → length bs ≤ length rest
      → act (at_end done rest) ≡ ret (at_end (done ++ bs) (drop (length bs) rest))

pub Writes-then :
    (f g : Writer → Exec Writer) (bs cs : List ℕ)
    → Writes f bs
    → Writes g cs
    → Writes (λ w. f w >>= g) (bs ++ cs)
Writes-then f g bs cs hf hg = record {
  writes = λ done rest h.
      let lengths : length (bs ++ cs) ≡ length bs + length cs = length-append bs cs in
      rw (hf.writes done rest (omega arith)) (
        hg.writes (done ++ bs) (drop (length bs) rest) (omega (arith, length-drop (length bs) rest))
        ∙ rw (append_assoc done bs cs, lengths, drop-drop (length cs) (length bs) rest) refl);
}

pub put-Writes : (b : ℕ) → Writes (put b) (b ∷ [])
put-Writes b = record {
  writes = λ done rest h.
      elim rest
          as (λ r.
            1 ≤ length r → put b (at_end done r) ≡ ret (at_end (done ++ b ∷ []) (drop 1 r))) [
              | [] ↦ λ k. absurd (omega arith)
              | x ∷ r ↦ λ k. put_lem done b x r
            ]
        h;
}

copy_in_lem :
    (s : Text) (done rest : List ℕ)
    → length s ≤ length rest
    → copy_in s (at_end done rest) ≡ ret (at_end (done ++ s) (drop (length s) rest))
unfolding copy_in
copy_in_lem s done rest h =
    let fits : min (length s) (length rest) ≡ length s = omega arith in
    let room : ltb (length (done ++ rest)) (length done) ≡ false =
      le→ltb (length (done ++ rest)) (length done) (omega (arith, length-append done rest)) in
    rw
      (
        drop-append_self done rest,
        room,
        fits,
        take-append done rest,
        take-length s,
        drop-append (length s) done rest,
        length-append done s,
        append_assoc done s (drop (length s) rest),
      )
      refl

pub copy_in-Writes : (s : Text) → Writes (copy_in s) s
copy_in-Writes s = record { writes = copy_in_lem s }

pub encode_varint-Writes : (v : ℕ) → v < 2 ^ 64 → Writes (encode_varint v) (varint v)
encode_varint-Writes v h = record {
  writes = λ done rest room.
      encode_varint-write v (at_end done rest) h ∙ write_lem (varint v) done rest room;
}

pub none-Writes : Writes ret []
none-Writes = record {
  writes = λ done rest h. ap (λ l. ret (at_end l rest)) (sym (append-nil done));
}

pub Writes-if :
    (b : Bool) (f g : Writer → Exec Writer) (bs cs : List ℕ)
    → Writes f bs
    → Writes g cs
    → Writes (λ w. if b then f w else g w) (if b then bs else cs)
Writes-if true f g bs cs hf hg = hf
Writes-if false f g bs cs hf hg = hg
