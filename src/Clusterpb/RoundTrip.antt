-- ===== src/Clusterpb/RoundTrip.antt =====
-- `Unmarshal` behind `Marshal`: what is written is read back, over whatever the message held.
use etcdlabs.Prelude.{
  ℕ, ◌+◌, ◌<◌, ◌^◌, ◌≡◌, refl, sym, ap, ◌∙◌, false, List, [], ◌∷◌, arith, ret, Text, length,
}
use mathlib.Core.List.{append-nil}
use etcdlabs.Clusterpb.{Message}
use etcdlabs.Clusterpb.Encode.{size, marshal}
use etcdlabs.Clusterpb.Writing.{wire_form, IsMessage}
use etcdlabs.Clusterpb.Written.{marshal_lem}
use etcdlabs.Clusterpb.Decode.{ok, unmarshal_loop, unmarshal}
use etcdlabs.Clusterpb.Fields.{merge, over_number, over_text, wire_form-Reads}

-- `MemberStatus{}`, which `Reset` leaves
abbrev pub empty_message : Message
empty_message = record {
  name = [];
  id = [];
  endpoint = [];
  is_leader = false;
  state = [];
  state_txt = [];
  db_size = 0;
  db_size_txt = [];
  hash = 0;
}

over_text-nil : (s : Text) → over_text s [] ≡ s
over_text-nil [] = refl
over_text-nil (c ∷ s) = ground arith

over_number-zero : (n : ℕ) → over_number n 0 ≡ n
over_number-zero n = ground arith

merge-empty : (m : Message) → merge m empty_message ≡ m
merge-empty m = ground (
  arith,
  over_text-nil m.name,
  over_text-nil m.id,
  over_text-nil m.endpoint,
  over_text-nil m.state,
  over_text-nil m.state_txt,
  over_number-zero m.db_size,
  over_text-nil m.db_size_txt,
  over_number-zero m.hash,
)

unmarshal-wire_form :
    (m old : Message) → IsMessage m → unmarshal old (wire_form m) ≡ ok (merge m old)
unfolding unmarshal
unmarshal-wire_form m old v =
    let bytes = wire_form m in
    let room : length bytes < 2 ^ 63 = omega (arith, v.sized, (marshal_lem m v).1) in
    let alone = append-nil bytes in
    let read =
      (wire_form-Reads m v).reads old 0 (length bytes) [] (ok (merge m old)) (omega arith)
        (omega arith) (λ left enough. done left (merge m old) (0 + length bytes)) in
    rw alone at read
  where
    done : (fuel : ℕ) (x : Message) (at : ℕ) → unmarshal_loop fuel x at [] ≡ ok x
    done fuel x at = unfold unmarshal_loop in refl

-- `Marshal` returns as many bytes as `Size` says, without a panic, for every message whose numbers are
-- within their types and whose size fits an `int`. `Unmarshal` of these bytes returns the message if it
-- starts from the empty one; over any other message the fields that are not zero are written, and the
-- rest is kept.
pub unmarshal-marshal :
    (m old : Message)
    → IsMessage m
    → (bytes : List ℕ) × (marshal m ≡ ret bytes)
      × (length bytes ≡ size m)
      × (unmarshal empty_message bytes ≡ ok m)
      × (unmarshal old bytes ≡ ok (merge m old))
unmarshal-marshal m old v =
    let (written, sized) = marshal_lem m v in
    (
      wire_form m,
      written,
      sym sized,
      unmarshal-wire_form m empty_message v ∙ ap ok (merge-empty m),
      unmarshal-wire_form m old v,
    )
