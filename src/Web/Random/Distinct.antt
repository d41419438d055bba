-- ===== src/Web/Random/Distinct.antt =====
-- `multiRandStrings` of backend/web/utils.go never draws twice for one string.
use etcdlabs.Prelude.{
  ℕ, ◌+◌, ◌≤◌, ◌≡◌, refl, sym, ap, ◌∙◌, false, Bool-cases, inl, inr, some, List, [], ◌∷◌, ◌++◌,
  arith, Text, text_eq, text_eq_iff, decimal, decimal_injective, length, length-append, drop, All,
  All-append,
}
use etcdlabs.Web.Random.{has, rand_strings, multi_rand_strings}

-- The texts stand once.
abbrev pub IsDistinct : List Text → Type 0
IsDistinct [] = Unit {0}
IsDistinct (r ∷ rs) = (has r rs ≡ false) × IsDistinct rs

-- A string that an earlier round made: `k` random bytes and a number up to `n`.
record Made (prefix : Text) (k n : ℕ) (r : Text) : Type 0 where
  bytes : Text
  number : ℕ
  size : length bytes ≡ k
  below : number ≤ n
  eq : r ≡ prefix ++ (bytes ++ decimal number)

drop-append : (s t : Text) → drop (length s) (s ++ t) ≡ t
drop-append [] t = refl
drop-append (c ∷ s) t = drop-append s t

same_number :
    (prefix b c : Text) (m n : ℕ)
    → length b ≡ length c
    → prefix ++ (b ++ decimal m) ≡ prefix ++ (c ++ decimal n)
    → m ≡ n
same_number prefix b c m n h e = decimal_injective m n tails
  where
    inner : b ++ decimal m ≡ c ++ decimal n
    inner =
        sym (drop-append prefix (b ++ decimal m))
        ∙ ap (drop (length prefix)) e
        ∙ drop-append prefix (c ++ decimal n)

    tails : decimal m ≡ decimal n
    tails =
        sym (drop-append b (decimal m))
        ∙ ap (drop (length b)) inner
        ∙ rw h (drop-append c (decimal n))

fresh-has :
    (prefix b : Text) (k n : ℕ) (rs : List Text)
    → length b ≡ k
    → All (Made prefix k n) rs
    → has (prefix ++ (b ++ decimal (n + 1))) rs ≡ false
unfolding has
fresh-has prefix b k n [] h a = refl
fresh-has prefix b k n (r ∷ rs) h (m, a) =
    elim (Bool-cases (text_eq r (prefix ++ (b ++ decimal (n + 1))))) [
      | inl t ↦
          let e = (text_eq_iff r (prefix ++ (b ++ decimal (n + 1)))).0 t in
          let q =
            same_number prefix m.bytes b m.number (n + 1) (omega (arith, m.size)) (sym m.eq ∙ e) in
          absurd (omega (arith, m.below))
      | inr f ↦ rw f (fresh-has prefix b k n rs h a)
    ]

Made-more :
    (prefix : Text) (k n : ℕ) (rs : List Text)
    → All (Made prefix k n) rs
    → All (Made prefix k (n + 1)) rs
Made-more prefix k n [] a = tt
Made-more prefix k n (r ∷ rs) (m, a) = (
  record {
    bytes = m.bytes;
    number = m.number;
    size = m.size;
    below = omega (arith, m.below);
    eq = m.eq;
  },
  Made-more prefix k n rs a,
)

has-snoc :
    (r s : Text) (rs : List Text)
    → has r rs ≡ false
    → text_eq s r ≡ false
    → has r (rs ++ s ∷ []) ≡ false
unfolding has
has-snoc r s [] h e = rw e refl
has-snoc r s (t ∷ rs) h e = ground (arith, has-snoc r s rs)

IsDistinct-snoc :
    (s : Text) (rs : List Text) → IsDistinct rs → has s rs ≡ false → IsDistinct (rs ++ s ∷ [])
unfolding has
IsDistinct-snoc s [] d h = (refl, tt)
IsDistinct-snoc s (r ∷ rs) (f, d) h = (
  has-snoc r s rs f (ground (arith, text_eq_iff r s, text_eq_iff s r)),
  IsDistinct-snoc s rs d (ground arith),
)

rand_strings_total :
    (prefix : Text) (k n : ℕ) (bs rs : List Text)
    → n ≡ length rs + length bs
    → All (λ b. length b ≡ k) bs
    → All (Made prefix k (length rs)) rs
    → IsDistinct rs
    → (out : List Text) × (rand_strings prefix n bs rs ≡ some out)
      × (length out ≡ n)
      × IsDistinct out
unfolding rand_strings
rand_strings_total prefix k n [] rs q h a d = (rs, ground arith, omega arith, d)
rand_strings_total prefix k n (b ∷ bs) rs q (one, h) a d =
    let s = prefix ++ (b ++ decimal (length rs + 1)) in
    let new = fresh-has prefix b k (length rs) rs one a in
    let grown : length (rs ++ s ∷ []) ≡ length rs + 1 = length-append rs (s ∷ []) in
    let (out, e, l, o) =
      rand_strings_total prefix k n bs (rs ++ s ∷ []) (omega (arith, q, grown)) h
        (rw grown (
          All-append (Made prefix k (length rs + 1)) rs (s ∷ [])
            (Made-more prefix k (length rs) rs a)
            (
              record {
                bytes = b;
                number = length rs + 1;
                size = one;
                below = omega arith;
                eq = refl;
              },
              tt,
            )))
        (IsDistinct-snoc s rs d new) in
    (out, ground (arith, new, e, q), l, o)

-- If `randBytes` returns the same number of bytes each time, `multiRandStrings` needs it exactly once
-- for each string, and returns as many strings as asked for, all different.
pub multi_rand_strings_lem :
    (prefix : Text) (k : ℕ) (bs : List Text)
    → All (λ b. length b ≡ k) bs
    → (out : List Text) × (multi_rand_strings (length bs) prefix bs ≡ some out)
      × (length out ≡ length bs)
      × IsDistinct out
unfolding multi_rand_strings
multi_rand_strings_lem prefix k bs h =
    rand_strings_total prefix k (length bs) bs [] (omega arith) h tt tt
