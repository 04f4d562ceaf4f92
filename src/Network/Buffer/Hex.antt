-- ===== src/Network/Buffer/Hex.antt =====
-- Network/Buffer.cpp: hexadecimal digits.
use flakkari.Prelude.{◌*◌, ◌≡◌, refl, ◌≢◌, [], ◌∷◌, arith, AreBytes, Bytes, length, ok, undefined}
use flakkari.Network.Buffer.{hex_digits, from_hex_digits, convert_to_hex, copy_over}

length-hex_digits : (b : Bytes) → length (hex_digits b) ≡ 2 * length b
unfolding hex_digits
length-hex_digits [] = omega arith
length-hex_digits (x ∷ xs) = omega (arith, length-hex_digits xs)

-- Reading the hexadecimal digits of a buffer of bytes gives the buffer back.
pub from_hex_digits-hex_digits : (b : Bytes) → AreBytes b → from_hex_digits (hex_digits b) ≡ ok b
unfolding hex_digits from_hex_digits
from_hex_digits-hex_digits [] h = refl
from_hex_digits-hex_digits (x ∷ xs) h = ground (arith, from_hex_digits-hex_digits xs h.1)

-- The digits are twice as many as the bytes and are copied over a buffer that is not resized, so
-- converting any buffer that is not empty writes past its end.
pub convert_to_hex_overruns : (b : Bytes) → b ≢ [] → convert_to_hex b ≡ undefined
unfolding convert_to_hex copy_over
convert_to_hex_overruns [] h = absurd (h refl)
convert_to_hex_overruns (x ∷ xs) h = ground (arith, length-hex_digits (x ∷ xs))
