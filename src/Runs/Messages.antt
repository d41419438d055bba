-- ===== src/Runs/Messages.antt =====
-- The protobuf code at concrete messages.
use etcdlabs.Prelude.{ℕ, ◌+◌, ◌≡◌, ◌≢◌, refl, true, List, [], ◌∷◌, ◌++◌, arith, ret, codes, length}
use etcdlabs.Prelude.Int.{wrap_int64}
use etcdlabs.Clusterpb.{Message, MemberStatus, leader, to_message}
use etcdlabs.Clusterpb.Encode.{size, marshal}
use etcdlabs.Clusterpb.Varint.{varint, groups}
use etcdlabs.Clusterpb.Writing.{IsMessage}
use etcdlabs.Clusterpb.Decode.{ok, err, crash, stuck, unexpected_eof, unmarshal}
use etcdlabs.Clusterpb.Fields.{merge}
use etcdlabs.Clusterpb.RoundTrip.{empty_message, unmarshal-marshal}
use etcdlabs.Clusterpb.Ending.{unmarshal-ne-stuck}
use etcdlabs.Clusterpb.Overflow.{refusal, unmarshal_name}

abbrev status : MemberStatus
status = record {
  name = codes "node1";
  id = codes "8e9e";
  endpoint = [];
  is_leader = true;
  state = leader;
  state_txt = [];
  db_size = 300;
  db_size_txt = [];
  hash = 7;
}

abbrev sample : Message
sample = to_message status

abbrev sample_bytes : List ℕ
sample_bytes =
    0x0a
    ∷ 5
    ∷ (codes "node1"
        ++ 0x12
          ∷ 4
          ∷ (codes "8e9e"
              ++ 0x20 ∷ 1 ∷ 0x2a ∷ 6 ∷ (codes "Leader" ++ 0x38 ∷ 0xac ∷ 0x02 ∷ 0x48 ∷ 7 ∷ [])))

sample_written : marshal sample ≡ ret sample_bytes
unfolding marshal
sample_written = refl

sample_read : unmarshal empty_message sample_bytes ≡ ok sample
unfolding unmarshal wrap_int64
sample_read = refl

-- A group within a group is skipped; a group that ends short is an error.
groups_skipped :
    unmarshal sample (0x53 ∷ 0x0b ∷ 0x08 ∷ 0x96 ∷ 0x01 ∷ 0x0c ∷ 0x54 ∷ 0x48 ∷ 9 ∷ [])
    ≡ ok (record sample { hash = 9 })
unfolding unmarshal wrap_int64
groups_skipped = refl

group_cut : unmarshal sample (0x53 ∷ 0x08 ∷ 0x96 ∷ 0x01 ∷ []) ≡ err unexpected_eof
unfolding unmarshal wrap_int64
group_cut = refl

sample-IsMessage : IsMessage sample
unfolding size
sample-IsMessage = record {
  sized = omega arith;
  db_size_fits = omega arith;
  hash_fits = omega arith;
}

unmarshal-marshal_example :
    (bytes : List ℕ) × (marshal sample ≡ ret bytes)
    × (length bytes ≡ size sample)
    × (unmarshal empty_message bytes ≡ ok sample)
    × (unmarshal sample bytes ≡ ok (merge sample sample))
unmarshal-marshal_example = unmarshal-marshal sample sample sample-IsMessage

unmarshal-ne-stuck_example : unmarshal sample (0x53 ∷ 0x0b ∷ 0xff ∷ []) ≢ stuck
unmarshal-ne-stuck_example = unmarshal-ne-stuck sample (0x53 ∷ 0x0b ∷ 0xff ∷ []) (omega arith)

-- A name that declares 2^63 - 1 bytes, of which two follow.
abbrev largest : ℕ
largest = 0x7fff_ffff_ffff_ffff

unmarshal_name_example :
    unmarshal sample (sample_bytes ++ 0x0a ∷ (varint largest ++ codes "ab"))
    ≡ refusal (length sample_bytes + 1 + length (varint largest)) largest
unfolding groups
unmarshal_name_example =
    unmarshal_name sample sample sample_bytes (codes "ab") largest sample-IsMessage sample_written
      (omega arith) (omega arith) (omega arith)

long_name_panics : unmarshal sample (sample_bytes ++ 0x0a ∷ (varint largest ++ codes "ab")) ≡ crash
unfolding unmarshal groups wrap_int64
long_name_panics = refl
