-- ===== src/Network/Buffer/Tests.antt =====
-- Network/Buffer.cpp: examples.
use flakkari.Prelude.{◌≡◌, [], ◌∷◌, Bytes, ok, arith}
use flakkari.Network.Buffer.{encode_runs, decode_runs}
use flakkari.Network.Buffer.Runs.{decode_runs-encode_runs}

abbrev word : Bytes
word = 104 ∷ 101 ∷ 108 ∷ 108 ∷ 111 ∷ []

decode_runs-encode_runs_example :
    decode_runs (encode_runs 104 1 (101 ∷ 108 ∷ 108 ∷ 111 ∷ [])) ≡ ok word
decode_runs-encode_runs_example =
    decode_runs-encode_runs 104 1 (101 ∷ 108 ∷ 108 ∷ 111 ∷ []) (omega arith)
