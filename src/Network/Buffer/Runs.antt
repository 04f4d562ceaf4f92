-- ===== src/Network/Buffer/Runs.antt =====
-- Network/Buffer.cpp: run-length coding.
use flakkari.Prelude.{
  ℕ, zero, suc, ◌+◌, ◌*◌, ◌%◌, ◌<◌, ◌≡◌, refl, sym, ap, ◌∙◌, [], ◌∷◌, ◌++◌, arith, Bytes, length,
  replicate, ok, undefined, Bool-cases, inl, inr, false, ◌==◌, ==_iff, lt→ltb,
}
use flakkari.Network.Buffer.{encode_runs, decode_runs, run_length_encode, copy_over}

replicate-snoc : (n x : ℕ) (ys : Bytes) → replicate (suc n) x ++ ys ≡ replicate n x ++ x ∷ ys
replicate-snoc zero x ys = refl
replicate-snoc (suc n) x ys = ap (λ t. x ∷ t) (replicate-snoc n x ys)

counts : (n : ℕ) → n + 1 < 256 → (n + 1) % 256 ≡ suc n
counts n h = omega arith

-- The loop with the current run in hand: while no counter passes 255 (the run and what is left
-- are fewer than 256 bytes), decoding gives the run and the rest back.
pub decode_runs-encode_runs :
    (current_byte current_count : ℕ) (xs : Bytes)
    → current_count + length xs < 256
    → decode_runs (encode_runs current_byte current_count xs)
      ≡ ok (replicate current_count current_byte ++ xs)
unfolding decode_runs encode_runs
decode_runs-encode_runs c n [] h = refl
decode_runs-encode_runs c n (x ∷ xs) h = elim (Bool-cases (x == c)) [
  | inl e ↦
      rw (e, encode_runs, counts n (omega arith))
        (decode_runs-encode_runs c (suc n) xs (omega arith)
          ∙ ap ok
              (replicate-snoc n c xs ∙ ap (λ t. replicate n c ++ t ∷ xs) (sym ((==_iff x c).0 e))))
  | inr e ↦ rw (e, encode_runs, decode_runs-encode_runs x 1 xs (omega arith)) refl
]

-- Neighbouring bytes differ.
abbrev pub Alternates : ℕ → Bytes → Type 0
Alternates c [] = Unit {0}
Alternates c (x ∷ xs) = ((x == c) ≡ false) × Alternates x xs

length-encode_runs :
    (c n : ℕ) (xs : Bytes) → Alternates c xs → length (encode_runs c n xs) ≡ 2 * length xs + 2
unfolding encode_runs
length-encode_runs c n [] h = omega arith
length-encode_runs c n (x ∷ xs) h =
    rw (h.0, encode_runs) (omega (arith, length-encode_runs x 1 xs h.1))

-- A buffer in which no byte repeats its neighbour has a code of twice its size, which is copied
-- over a buffer that is not resized: encoding it writes past its end.
pub run_length_encode_overruns :
    (x : ℕ) (xs : Bytes) → Alternates x xs → run_length_encode (x ∷ xs) ≡ undefined
unfolding run_length_encode copy_over
run_length_encode_overruns x xs h =
    let p : length (x ∷ xs) < length (encode_runs x 1 xs) =
      omega (arith, length-encode_runs x 1 xs h) in
    rw (lt→ltb _ _ p)
