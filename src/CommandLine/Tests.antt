-- ===== src/CommandLine/Tests.antt =====
-- ParseArgument.cpp: examples.
use flakkari.Prelude.{
  ℕ, zero, suc, ◌<◌, ◌≡◌, refl, [], ◌∷◌, List, Option, none, some, Bytes, codes, length, replicate,
  text_eq, Outcome, ok, arith, get_elem?,
}
use flakkari.CommandLine.{Arguments, argument, flag_of, other, parse_argument, lookup_addresses}
use flakkari.CommandLine.Ports.{InRange, parse_argument-ends, parse_argument-forever}

abbrev size : Bytes → Outcome ℕ
size text = ok (length text)

parse_argument-ends_example :
    (end : Outcome (Option Arguments)) × (parse_argument size
        (codes "-i" ∷ codes "-g" ∷ [])
        3
        none
        (lookup_addresses none none)
      ≡ some end)
    × InRange end
parse_argument-ends_example =
    parse_argument-ends size (codes "-i" ∷ codes "-g" ∷ []) none (lookup_addresses none none)
      (omega arith)

abbrev many : List Bytes
many = replicate 256 []

get_elem?-replicate : (n k : ℕ) → k < n → get_elem? (replicate {A = Bytes} n []) k ≡ some []
get_elem?-replicate zero k h = absurd (omega arith)
get_elem?-replicate (suc n) zero h = refl
get_elem?-replicate (suc n) (suc k) h = get_elem?-replicate n k (omega arith)

many_plain :
    (k : ℕ) → k < length many → (arg : Bytes) × (argument many k ≡ ok arg) × (flag_of arg ≡ other)
unfolding flag_of text_eq
many_plain k h = ([], rw (get_elem?-replicate 256 k (omega arith)) refl, refl)

many_empty_arguments : parse_argument size many 1000 none (lookup_addresses none none) ≡ none
many_empty_arguments =
    parse_argument-forever size many 1000 none (lookup_addresses none none) (omega arith) many_plain
