-- ===== src/Clusterpb/Fields.antt =====
-- The fields of a message, read back one by one from their wire form.
use etcdlabs.Prelude.{
  ℕ, zero, suc, ◌+◌, ◌≤◌, ◌<◌, ◌^◌, ◌≡◌, refl, subst, ◌∙◌, Bool, true, false, not, List, [], ◌∷◌,
  ◌++◌, arith, Text, length, length-append, ltb, ◌==◌, if◌then◌else◌,
}
use mathlib.Core.Path.{fun_ext}
use mathlib.Core.List.{append_assoc}
use etcdlabs.Clusterpb.{Message}
use etcdlabs.Clusterpb.Varint
use etcdlabs.Clusterpb.Varint.{varint}
use etcdlabs.Clusterpb.Writing.{string_field, number_field, bool_field, wire_form, IsMessage}
use etcdlabs.Clusterpb.Decode.{
  Decoded, ok, read_groups, read_varint, text_value, number_value, read_field, read_tagged,
  unmarshal_loop,
}
use etcdlabs.Clusterpb.Reading.{read_varint_lem, read_string_lem}

-- A message over another: the fields that are not zero win.
abbrev pub over_text : Text → Text → Text
over_text s old = if ltb 0 (length s) then s else old

abbrev pub over_number : ℕ → ℕ → ℕ
over_number n old = if n == 0 then old else n

abbrev pub merge : Message → Message → Message
merge m old = record {
  name = over_text m.name old.name;
  id = over_text m.id old.id;
  endpoint = over_text m.endpoint old.endpoint;
  is_leader = if m.is_leader then true else old.is_leader;
  state = over_text m.state old.state;
  state_txt = over_text m.state_txt old.state_txt;
  db_size = over_number m.db_size old.db_size;
  db_size_txt = over_text m.db_size_txt old.db_size_txt;
  hash = over_number m.hash old.hash;
}

-- Reading `bs` in front of any rest applies `f` to the message: whatever the loop makes of the rest
-- behind `f`, it makes of both.
pub record Reads (f : Message → Message) (bs : List ℕ) : Type 0 where
  pub reads :
      (m : Message) (at fuel : ℕ) (rest : List ℕ) (result : Decoded Message)
      → at + length bs + length rest < 2 ^ 63
      → length bs + length rest ≤ fuel
      → ((left : ℕ) → length rest ≤ left → unmarshal_loop left (f m) (at + length bs) rest ≡ result)
      → unmarshal_loop fuel m at (bs ++ rest) ≡ result

Reads-then :
    (f g : Message → Message) (bs cs : List ℕ)
    → Reads f bs
    → Reads g cs
    → Reads (λ m. g (f m)) (bs ++ cs)
Reads-then f g bs cs hf hg = record {
  reads = λ m at fuel rest result room enough later.
      let both = length-append bs cs in
      let tail = length-append cs rest in
      let index : at + length (bs ++ cs) ≡ at + length bs + length cs = omega (arith, both) in
      rw (append_assoc bs cs rest) (
        hf.reads m at fuel (cs ++ rest) result (omega arith) (omega arith) (λ left more.
          hg.reads (f m) (at + length bs) left rest result (omega arith) (omega arith)
            (λ left' more'. rw index at (later left' more'))));
}

none-Reads : Reads (λ m. m) []
none-Reads = record {
  reads = λ m at fuel rest result room enough later.
      let same : at + 0 ≡ at = omega arith in rw same at (later fuel (omega arith));
}

-- A field that is written only if it is not the zero value. `get_set` says that a field may be set to
-- what it holds.
module _ {A : Type 0} (set : Message → A → Message) (get : Message → A)
    (get_set : (m : Message) → m ≡ set m (get m)) where
  Reads-if :
      (b : Bool) (a : A) (bs : List ℕ)
      → Reads (λ m. set m a) bs
      → Reads (λ m. set m (if b then a else get m)) (if b then bs else [])
  Reads-if true a bs h = h
  Reads-if false a bs h = subst (λ f. Reads f []) (fun_ext get_set) none-Reads

  Reads-unless :
      (b : Bool) (a : A) (bs : List ℕ)
      → Reads (λ m. set m a) bs
      → Reads (λ m. set m (if b then get m else a)) (if b then [] else bs)
  Reads-unless false a bs h = h
  Reads-unless true a bs h = subst (λ f. Reads f []) (fun_ext get_set) none-Reads

-- One round of the loop.
round_lem :
    (m m' : Message) (at at' fuel b : ℕ) (bs rest : List ℕ) (result : Decoded Message)
    → read_tagged m at (b ∷ bs) ≡ ok (m', at', rest)
    → unmarshal_loop fuel m' at' rest ≡ result
    → unmarshal_loop (suc fuel) m at (b ∷ bs) ≡ result
unfolding unmarshal_loop
round_lem m m' at at' fuel b bs rest result e h = rw e h

-- A field with its value, given what the loop does with its tag.
text_round :
    (tag : ℕ) (set : Message → Text → Message)
    → ((m : Message) (at : ℕ) (bs : List ℕ)
        → read_tagged m at (tag ∷ bs) ≡ text_value 2 (set m) (at + 1) bs)
    → (s : Text) (m : Message) (at fuel : ℕ) (rest : List ℕ) (result : Decoded Message)
    → at + suc (length (varint (length s) ++ s)) + length rest < 2 ^ 63
    → suc (length (varint (length s) ++ s)) + length rest ≤ fuel
    → ((left : ℕ)
        → length rest ≤ left
        → unmarshal_loop left (set m s) (at + suc (length (varint (length s) ++ s))) rest ≡ result)
    → unmarshal_loop fuel m at (tag ∷ ((varint (length s) ++ s) ++ rest)) ≡ result
unfolding text_value
text_round tag set tagged s m at zero rest result room enough later = absurd (omega arith)
text_round tag set tagged s m at (suc fuel) rest result room enough later =
    let lengths = length-append (varint (length s)) s in
    let index : at + 1 + length (varint (length s)) + length s
        ≡ at + suc (length (varint (length s) ++ s)) =
      omega (arith, lengths) in
    round_lem m (set m s) at (at + suc (length (varint (length s) ++ s))) fuel tag
      ((varint (length s) ++ s) ++ rest) rest result
      (tagged m at ((varint (length s) ++ s) ++ rest)
        ∙ rw
            (
              append_assoc (varint (length s)) s rest,
              read_string_lem s (at + 1) rest (omega (arith, lengths)),
              index,
            )
            refl)
      (later fuel (omega arith))

text_field-Reads :
    (tag : ℕ) (set : Message → Text → Message) (get : Message → Text)
    → ((m : Message) → m ≡ set m (get m))
    → ((m : Message) (at : ℕ) (bs : List ℕ)
        → read_tagged m at (tag ∷ bs) ≡ text_value 2 (set m) (at + 1) bs)
    → (s : Text) → Reads (λ m. set m (over_text s (get m))) (string_field tag s)
unfolding string_field
text_field-Reads tag set get get_set tagged s =
    Reads-if set get get_set (ltb 0 (length s)) s (tag ∷ (varint (length s) ++ s))
      (record { reads = text_round tag set tagged s })

number_round :
    (tag modulus : ℕ) (set : Message → ℕ → Message)
    → ((m : Message) (at : ℕ) (bs : List ℕ)
        → read_tagged m at (tag ∷ bs) ≡ number_value modulus 0 (set m) (at + 1) bs)
    → (n : ℕ) → n < 2 ^ 64
    → n < modulus
    → (m : Message) (at fuel : ℕ) (rest : List ℕ) (result : Decoded Message)
    → at + suc (length (varint n)) + length rest < 2 ^ 63
    → suc (length (varint n)) + length rest ≤ fuel
    → ((left : ℕ)
        → length rest ≤ left
        → unmarshal_loop left (set m n) (at + suc (length (varint n))) rest ≡ result)
    → unmarshal_loop fuel m at (tag ∷ (varint n ++ rest)) ≡ result
unfolding number_value
number_round tag modulus set tagged n h k m at zero rest result room enough later =
    absurd (omega arith)
number_round tag modulus set tagged n h k m at (suc fuel) rest result room enough later =
    let index : at + 1 + length (varint n) ≡ at + suc (length (varint n)) = omega arith in
    round_lem m (set m n) at (at + suc (length (varint n))) fuel tag (varint n ++ rest) rest result
      (tagged m at (varint n ++ rest)
        ∙ rw (read_varint_lem modulus (at + 1) n rest h k, index) refl)
      (later fuel (omega arith))

number_field-Reads :
    (tag modulus : ℕ) (set : Message → ℕ → Message) (get : Message → ℕ)
    → ((m : Message) → m ≡ set m (get m))
    → ((m : Message) (at : ℕ) (bs : List ℕ)
        → read_tagged m at (tag ∷ bs) ≡ number_value modulus 0 (set m) (at + 1) bs)
    → (n : ℕ) → n < 2 ^ 64
    → n < modulus
    → Reads (λ m. set m (over_number n (get m))) (number_field tag n)
unfolding number_field
number_field-Reads tag modulus set get get_set tagged n h k =
    Reads-unless set get get_set (n == 0) n (tag ∷ varint n)
      (record { reads = number_round tag modulus set tagged n h k })

leader_field-Reads :
    (b : Bool)
    → Reads (λ m. record m { is_leader = (if b then true else m.is_leader) }) (bool_field 0x20 b)
unfolding bool_field read_tagged read_varint read_groups read_field Varint.groups
leader_field-Reads b =
    Reads-if (λ m l. record m { is_leader = l }) (λ m. m.is_leader) (λ m. refl) b true
      (0x20 ∷ 1 ∷ [])
      (record {
        reads =
            number_round 0x20 (2 ^ 64) (λ m n. record m { is_leader = not (n == 0) })
              (λ m at bs. refl) 1 (omega arith) (omega arith);
      })

pub wire_form-Reads : (m : Message) → IsMessage m → Reads (merge m) (wire_form m)
unfolding wire_form read_tagged read_varint read_groups read_field
wire_form-Reads m v =
    Reads-then _ _ _ _
      (text_field-Reads 0x0a (λ x s. record x { name = s }) (λ x. x.name) (λ x. refl)
        (λ x at bs. refl) m.name)
      (Reads-then _ _ _ _
        (text_field-Reads 0x12 (λ x s. record x { id = s }) (λ x. x.id) (λ x. refl)
          (λ x at bs. refl) m.id)
        (Reads-then _ _ _ _
          (text_field-Reads 0x1a (λ x s. record x { endpoint = s }) (λ x. x.endpoint) (λ x. refl)
            (λ x at bs. refl) m.endpoint)
          (Reads-then _ _ _ _ (leader_field-Reads m.is_leader) (
            Reads-then _ _ _ _
              (text_field-Reads 0x2a (λ x s. record x { state = s }) (λ x. x.state) (λ x. refl)
                (λ x at bs. refl) m.state)
              (Reads-then _ _ _ _
                (text_field-Reads 0x32 (λ x s. record x { state_txt = s }) (λ x. x.state_txt)
                  (λ x. refl) (λ x at bs. refl) m.state_txt)
                (Reads-then _ _ _ _
                  (number_field-Reads 0x38 (2 ^ 64) (λ x n. record x { db_size = n })
                    (λ x. x.db_size) (λ x. refl) (λ x at bs. refl) m.db_size v.db_size_fits
                    v.db_size_fits)
                  (Reads-then _ _ _ _
                    (text_field-Reads 0x42 (λ x s. record x { db_size_txt = s })
                      (λ x. x.db_size_txt) (λ x. refl) (λ x at bs. refl) m.db_size_txt)
                    (number_field-Reads 0x48 (2 ^ 32) (λ x n. record x { hash = n }) (λ x. x.hash)
                      (λ x. refl) (λ x at bs. refl) m.hash (omega (arith, v.hash_fits))
                      v.hash_fits))))))))
