-- ===== src/Network/Buffer/Slices.antt =====
-- Network/Buffer.cpp: slices, checksums and differences.
use flakkari.Prelude.{
  ℕ, ◌+◌, ◌%◌, ◌^◌, ◌≤◌, ◌<◌, ◌≡◌, [], ◌∷◌, ◌++◌, arith, Bytes, length, take, drop, length-take_le,
  length-drop, ok, throws, out_of_range, Bool-cases, inl, inr, ◌==◌, >>=-eq-ok, ltb, ◌⊎◌,
}
use flakkari.Network.Buffer.{
  extract_data, size_mod, checksum_from, calculate_checksum, concat, erase_first, subtract,
}

-- The sum of the bytes, without wrap-around.
abbrev pub sum : Bytes → ℕ
sum [] = 0
sum (x ∷ xs) = x + sum xs

pub sum-append : (xs ys : Bytes) → sum (xs ++ ys) ≡ sum xs + sum ys
sum-append [] ys = omega arith
sum-append (x ∷ xs) ys = omega (arith, sum-append xs ys)

-- While offset + length does not wrap, `extractData` gives the slice of that length when the
-- range lies inside the buffer, and throws out_of_range when it does not.
pub extract_data_exact :
    (b : Bytes) (offset len : ℕ)
    → offset + len < size_mod
    → ((offset + len ≤ length b)
        × (extract_data b offset len ≡ ok (take len (drop offset b)))
        × (length (take len (drop offset b)) ≡ len))
      ⊎ ((length b < offset + len) × (extract_data b offset len ≡ throws out_of_range))
unfolding extract_data
extract_data_exact b offset len h = elim (Bool-cases (ltb (length b) (offset + len))) [
  | inl e ↦ inr (ground arith, ground arith)
  | inr e ↦ inl (
    ground arith,
    ground arith,
    length-take_le len (drop offset b) (ground (arith, length-drop offset b)),
  )
]

checksum_from-eq-sum :
    (c : ℕ) (xs : Bytes) → c < 2 ^ 16 → checksum_from c xs ≡ (c + sum xs) % 2 ^ 16
unfolding checksum_from
checksum_from-eq-sum c [] h = omega arith
checksum_from-eq-sum c (x ∷ xs) h =
    omega (arith, checksum_from-eq-sum ((c + x) % 2 ^ 16) xs (omega arith))

-- The checksum is the sum of the bytes modulo 2^16, so that of a concatenation is determined by
-- the checksums of the two parts, in either order.
pub calculate_checksum-concat :
    (a b : Bytes)
    → (calculate_checksum a ≡ sum a % 2 ^ 16)
      × (calculate_checksum (concat a b) ≡ (calculate_checksum a + calculate_checksum b) % 2 ^ 16)
      × (calculate_checksum (concat a b) ≡ calculate_checksum (concat b a))
unfolding calculate_checksum concat
calculate_checksum-concat a b = omega (
  arith,
  checksum_from-eq-sum 0 a (omega arith),
  checksum_from-eq-sum 0 b (omega arith),
  checksum_from-eq-sum 0 (a ++ b) (omega arith),
  checksum_from-eq-sum 0 (b ++ a) (omega arith),
  sum-append a b,
  sum-append b a,
)

length-erase_first :
    (y : ℕ) (b : Bytes) {r : Bytes}
    → erase_first y b ≡ ok r
    → (length b ≡ length r + 1) × (sum b ≡ sum r + y)
unfolding erase_first
length-erase_first y [] h = cc
length-erase_first y (x ∷ xs) {r} h = elim (Bool-cases (x == y)) [
  | inl e ↦ ground arith
  | inr e ↦
      let (rest, p, q) =
        >>=-eq-ok (erase_first y xs) (λ s. ok (x ∷ s)) (rw (e, erase_first) at h) in
      ground (arith, length-erase_first y xs p)
]

-- Where the difference of two buffers is defined, it has lost as many bytes as the other has, and
-- their sum.
pub length-subtract :
    (b other : Bytes) {r : Bytes}
    → subtract b other ≡ ok r
    → (length b ≡ length r + length other) × (sum b ≡ sum r + sum other)
unfolding subtract
length-subtract b [] h = ground arith
length-subtract b (y ∷ ys) h =
    let (rest, p, q) = >>=-eq-ok (erase_first y b) (λ b'. subtract b' ys) h in
    omega (arith, length-erase_first y b p, length-subtract rest ys q)
