-- ===== src/Clusterpb/Encode.antt =====
-- The protobuf encoder of clusterpb.pb.go: `Size`, `Marshal`, `MarshalTo` and what they call. A byte
-- slice is a list of numbers; a write behind its end panics.
use Prim.Native.Nat.{min, bit_and, bit_or}
use mathlib.Core.Logic.{dite}
use mathlib.Core.WellFounded.{Acc}
use native.Mathlib.Decide.{dec_lt, dec_le}
use etcdlabs.Prelude.{
  ℕ, suc, ◌+◌, ◌/◌, ◌%◌, ◌≤◌, ◌<◌, Bool, List, [], ◌∷◌, ◌++◌, arith, Exec, ret, panics, ◌>>=◌, Text,
  length, set, take, drop, ltb, ◌==◌, if◌then◌else◌,
}
use etcdlabs.Prelude.Bits.{lt_wf}
use etcdlabs.Clusterpb.{Message}

-- The slice `dAtA` with the offset `i`.
pub record Writer : Type 0 where
  pub buf : List ℕ
  pub at : ℕ

-- `dAtA[i] = b; i++`
unfoldable pub put : ℕ → Writer → Exec Writer
put b w =
    if ltb w.at (length w.buf)
    then ret (record { buf = set w.buf w.at b; at = w.at + 1 })
    else panics

-- `i += copy(dAtA[i:], s)`, which copies what fits.
unfoldable pub copy_in : Text → Writer → Exec Writer
copy_in s w =
    let n = min (length s) (length (drop w.at w.buf)) in
    if ltb (length w.buf) w.at
    then panics
    else ret
        (record { buf = take w.at w.buf ++ (take n s ++ drop (w.at + n) w.buf); at = w.at + n })

pub shift_falls : (v : ℕ) → 128 ≤ v → v / 128 < v
shift_falls v h = omega arith

-- `encodeVarintClusterpb`; `uint8(v&0x7f | 0x80)` and `uint8(v)` keep eight bits.
unfoldable pub encode_varint_loop : (v : ℕ) → Acc ◌<◌ v → Writer → Exec Writer
unfolding put
encode_varint_loop v (Acc.intro _ smaller) w =
    dite (dec_le 128 v)
      (λ more.
        put (bit_or (bit_and v 0x7f) 0x80 % 256) w
        >>= encode_varint_loop (v / 128) (smaller (v / 128) (shift_falls v more)))
      (λ _. put (v % 256) w)

unfoldable pub encode_varint : ℕ → Writer → Exec Writer
unfolding encode_varint_loop lt_wf dec_le
encode_varint v w = encode_varint_loop v (lt_wf.apply v) w

pub shift_falls_pos : (x : ℕ) → 0 < x / 128 → x / 128 < x
shift_falls_pos x h = omega arith

-- `sovClusterpb`, the bytes of a varint.
unfoldable pub sov_loop : (x : ℕ) → Acc ◌<◌ x → ℕ
sov_loop x (Acc.intro _ smaller) =
    dite (dec_lt 0 (x / 128))
      (λ more. suc (sov_loop (x / 128) (smaller (x / 128) (shift_falls_pos x more)))) (λ _. 1)

unfoldable pub sov : ℕ → ℕ
unfolding sov_loop lt_wf dec_lt
sov x = sov_loop x (lt_wf.apply x)

-- The share of a string field in `Size`.
unfoldable pub string_size : Text → ℕ
unfolding sov
string_size s = let l = length s in if ltb 0 l then 1 + l + sov l else 0

unfoldable pub number_size : ℕ → ℕ
unfolding sov
number_size n = if n == 0 then 0 else 1 + sov n

-- `Size`
unfoldable pub size : Message → ℕ
unfolding string_size number_size
size m =
    string_size m.name
    + (string_size m.id
        + (string_size m.endpoint
            + ((if m.is_leader then 2 else 0)
                + (string_size m.state
                    + (string_size m.state_txt
                        + (number_size m.db_size
                            + (string_size m.db_size_txt + number_size m.hash)))))))

-- A string field of `MarshalTo`, with its tag.
unfoldable pub put_string : ℕ → Text → Writer → Exec Writer
unfolding put encode_varint copy_in
put_string tag s w =
    if ltb 0 (length s)
    then (put tag w >>= λ w₁. encode_varint (length s) w₁ >>= λ w₂. copy_in s w₂)
    else ret w

unfoldable pub put_number : ℕ → ℕ → Writer → Exec Writer
unfolding put encode_varint
put_number tag n w = if n == 0 then ret w else (put tag w >>= λ w₁. encode_varint n w₁)

unfoldable pub put_bool : ℕ → Bool → Writer → Exec Writer
unfolding put
put_bool tag b w = if b then (put tag w >>= λ w₁. put 1 w₁) else ret w

-- `MarshalTo`
unfoldable pub marshal_to : Message → Writer → Exec Writer
unfolding put_string put_number put_bool
marshal_to m w = do
  w₁ ← put_string 0x0a m.name w
  w₂ ← put_string 0x12 m.id w₁
  w₃ ← put_string 0x1a m.endpoint w₂
  w₄ ← put_bool 0x20 m.is_leader w₃
  w₅ ← put_string 0x2a m.state w₄
  w₆ ← put_string 0x32 m.state_txt w₅
  w₇ ← put_number 0x38 m.db_size w₆
  w₈ ← put_string 0x42 m.db_size_txt w₇
  put_number 0x48 m.hash w₈

-- `make([]byte, n)`
unfoldable pub zeros : ℕ → List ℕ
zeros ℕ.zero = []
zeros (suc n) = 0 ∷ zeros n

-- `Marshal`, whose error is always nil.
unfoldable pub marshal : Message → Exec (List ℕ)
unfolding size marshal_to zeros
marshal m = marshal_to m (record { buf = zeros (size m); at = 0 }) >>= λ w. ret (take w.at w.buf)
