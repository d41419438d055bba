-- ===== src/Clusterpb/Varint.antt =====
-- What `encodeVarintClusterpb` writes and `sovClusterpb` counts: the groups of seven bits of a number,
-- the lowest first.
use Prim.Native.Nat.{bit_and, bit_or}
use mathlib.Core.WellFounded.{Acc}
use mathlib.Core.Path.{fun_ext}
use mathlib.Core.Logic.{dif_pos, dif_neg}
use native.Mathlib.Decide.{dec_le}
use native.Mathlib.Bridge.{le_prop}
use etcdlabs.Prelude.{
  ℕ, zero, suc, ◌+◌, ◌/◌, ◌%◌, ◌^◌, ◌≤◌, ◌<◌, ◌≡◌, refl, ap, List, [], ◌∷◌, arith, Exec, ret,
  panics, ◌>>=◌, length, ltb, lt→ltb, le→ltb, if◌then◌else◌,
}
use etcdlabs.Prelude.Bits.{lt_wf, bit_or_above, bit_and_127}
use etcdlabs.Clusterpb.Encode.{
  Writer, put, encode_varint_loop, encode_varint, sov_loop, sov, shift_falls,
}

-- The groups of a number below `128 ^ (k + 1)`.
unfoldable pub groups : ℕ → ℕ → List ℕ
groups zero v = v ∷ []
groups (suc k) v =
    let more = groups k (v / 128) in if ltb v 128 then v ∷ [] else (v % 128 + 128) ∷ more

-- A varint of a `uint64`.
abbrev pub varint : ℕ → List ℕ
varint v = groups 9 v

-- Writing one byte after the other.
unfoldable pub write : List ℕ → Writer → Exec Writer
write [] w = ret w
write (b ∷ bs) w = put b w >>= λ w'. write bs w'

pub length-groups : (k v : ℕ) → 1 ≤ length (groups k v)
unfolding groups
length-groups zero v = omega arith
length-groups (suc k) v = ground arith

marked : (v : ℕ) → bit_or (bit_and v 0x7f) 0x80 % 256 ≡ v % 128 + 128
marked v =
    omega (arith, bit_and_127 v, bit_or_above 7 (bit_and v 0x7f) 1 (omega (arith, bit_and_127 v)))

-- A call that is only handed on.
>>=-ret : (m : Exec Writer) → m ≡ (m >>= λ w. ret w)
>>=-ret (ret w) = refl
>>=-ret panics = refl

put-write : (b : ℕ) (w : Writer) → put b w ≡ write (b ∷ []) w
unfolding write
put-write b w = >>=-ret (put b w)

encode_varint_loop-write :
    (k v : ℕ) (acc : Acc ◌<◌ v) (w : Writer)
    → v < 128 ^ suc k
    → encode_varint_loop v acc w ≡ write (groups k v) w
unfolding encode_varint_loop groups write
encode_varint_loop-write zero v (Acc.intro _ smaller) w h =
    let byte : v % 256 ≡ v = omega arith in
    elim (dec_le 128 v) [
      | yes more ↦ absurd (omega arith)
      | no last ↦ rw (dif_neg (dec_le 128 v) last, byte) (put-write v w)
    ]
encode_varint_loop-write (suc k) v (Acc.intro _ smaller) w h =
    let byte : v < 128 → v % 256 ≡ v = λ p. omega arith in
    elim (dec_le 128 v) [
      | yes more ↦
          rw (dif_pos (dec_le 128 v) le_prop more, marked v, le→ltb v 128 more)
            (ap (λ rest. put (v % 128 + 128) w >>= rest)
              (fun_ext (λ w'.
                encode_varint_loop-write k (v / 128) (smaller (v / 128) (shift_falls v more)) w'
                  (omega arith))))
      | no last ↦
          rw (dif_neg (dec_le 128 v) last, lt→ltb v 128 (omega arith), byte (omega arith))
            (put-write v w)
    ]

pub encode_varint-write : (v : ℕ) (w : Writer) → v < 2 ^ 64 → encode_varint v w ≡ write (varint v) w
unfolding encode_varint
encode_varint-write v w h = encode_varint_loop-write 9 v (lt_wf.apply v) w (omega arith)

sov_loop-length :
    (k x : ℕ) (acc : Acc ◌<◌ x) → x < 128 ^ suc k → sov_loop x acc ≡ length (groups k x)
unfolding sov_loop groups
sov_loop-length zero x (Acc.intro _ smaller) h = ground arith
sov_loop-length (suc k) x (Acc.intro _ smaller) h = grind (
  arith,
  λ (less : x / 128 < x). sov_loop-length k (x / 128) (smaller (x / 128) less) (omega arith),
)

pub sov-length : (x : ℕ) → x < 2 ^ 64 → sov x ≡ length (varint x)
unfolding sov
sov-length x h = sov_loop-length 9 x (lt_wf.apply x) (omega arith)
