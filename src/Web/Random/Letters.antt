-- ===== src/Web/Random/Letters.antt =====
-- `randBytes` of backend/web/utils.go returns as soon as enough of the indices are those of letters.
use etcdlabs.Prelude.{
  ℕ, zero, suc, ◌+◌, ◌≤◌, ◌≡◌, refl, Bool-cases, inl, inr, some, List, [], ◌∷◌, arith, Text, length,
  get_elem?_lt, get_elem?_ge, ltb, if◌then◌else◌,
}
use etcdlabs.Web.Random.{letter_bytes, indices, fill_back, rand_bytes}

-- The number of indices below 52.
abbrev pub usable : List ℕ → ℕ
usable [] = 0
usable (i ∷ is) = if ltb i 52 then suc (usable is) else usable is

fill_back_total :
    (n : ℕ) (is : List ℕ) (done : Text)
    → n ≤ usable is
    → (b : Text) × (fill_back n is done ≡ some b) × (length b ≡ n + length done)
unfolding fill_back
fill_back_total zero is done h = (done, refl, omega arith)
fill_back_total (suc n) [] done h = absurd (omega arith)
fill_back_total (suc n) (i ∷ is) done h = elim (Bool-cases (ltb i 52)) [
  | inl fits ↦
      let (c, e) = get_elem?_lt letter_bytes i (ground (arith, fits)) in
      let (b, f, l) = fill_back_total n is (c ∷ done) (ground (arith, fits, h)) in
      (b, rw e f, omega (arith, l))
  | inr out ↦
      let e = get_elem?_ge letter_bytes i (ground (arith, out)) in
      let (b, f, l) = fill_back_total (suc n) is done (ground (arith, out, h)) in (b, rw e f, l)
]

-- If at least as many of the 6-bit indices that the source gives are below 52 as bytes are asked for,
-- `randBytes` returns, and it returns that many bytes.
pub rand_bytes_lem :
    (n : ℕ) (values : List ℕ)
    → n ≤ usable (indices values)
    → (b : Text) × (rand_bytes n values ≡ some b) × (length b ≡ n)
unfolding rand_bytes
rand_bytes_lem n values h =
    let (b, e, l) = fill_back_total n (indices values) [] h in (b, e, omega (arith, l))
