-- ===== src/Network/Buffer.antt =====
-- Network/Buffer.cpp: `class Buffer : public std::vector<byte>`, as the list of its bytes.
pub mod Slices
mod Tests
pub mod Runs
pub mod Hex
use Prim.Native.Nat.{bit_xor}
use flakkari.Prelude.{
  ℕ, ◌+◌, ◌*◌, ◌/◌, ◌%◌, ◌^◌, List, [], ◌∷◌, ◌++◌, Bool, true, false, Bytes, length, take, drop,
  replicate, Outcome, ok, throws, undefined, Exception, out_of_range, ◌>>=◌, ◌>>◌, throw_if,
  undefined_if, ltb, ◌==◌, if◌then◌else◌,
}

-- std::size_t has 64 bits.
abbrev pub size_mod : ℕ
size_mod = 2 ^ 64

-- `Buffer::extractData`: the sum in the guard wraps, the iterators must stay inside.
pub extract_data : Bytes → ℕ → ℕ → Outcome Bytes
extract_data b offset len = do
  throw_if (ltb (length b) ((offset + len) % size_mod)) out_of_range
  undefined_if (ltb (length b) (offset + len))
  ok (take len (drop offset b))

-- `Buffer::concat`, `operator+=`, `operator+`.
pub concat : Bytes → Bytes → Bytes
concat b other = b ++ other

-- The loop of `Buffer::calculateChecksum`: a uint16_t accumulator.
pub checksum_from : ℕ → Bytes → ℕ
checksum_from checksum [] = checksum
checksum_from checksum (x ∷ xs) = checksum_from ((checksum + x) % 2 ^ 16) xs

pub calculate_checksum : Bytes → ℕ
unfolding checksum_from
calculate_checksum b = checksum_from 0 b

-- `Buffer::bitwiseXOR`: the first min(size(), other.size()) bytes.
pub bitwise_xor : Bytes → Bytes → Bytes
bitwise_xor [] ys = []
bitwise_xor (x ∷ xs) [] = x ∷ xs
bitwise_xor (x ∷ xs) (y ∷ ys) = bit_xor x y ∷ bitwise_xor xs ys

-- `std::copy(from.begin(), from.end(), begin())`: the buffer is not resized.
pub copy_over : Bytes → Bytes → Outcome Bytes
copy_over from b = do undefined_if (ltb (length b) (length from)); ok (from ++ drop (length from) b)

-- The loop of `Buffer::runLengthEncode`, from `currentByte` and `currentCount` (a byte).
pub encode_runs : ℕ → ℕ → Bytes → Bytes
encode_runs current_byte current_count [] = current_count ∷ current_byte ∷ []
encode_runs current_byte current_count (x ∷ xs) = elim (x == current_byte) [
  | true ↦ encode_runs current_byte ((current_count + 1) % 256) xs
  | false ↦ current_count ∷ current_byte ∷ encode_runs x 1 xs
]

pub run_length_encode : Bytes → Outcome Bytes
unfolding encode_runs copy_over
run_length_encode [] = undefined
run_length_encode (x ∷ xs) = copy_over (encode_runs x 1 xs) (x ∷ xs)

-- The loop of `Buffer::runLengthDecode`, two bytes a round.
pub decode_runs : Bytes → Outcome Bytes
decode_runs [] = ok []
decode_runs (current_count ∷ []) = undefined
decode_runs (current_count ∷ current_byte ∷ rest) = do
  decoded ← decode_runs rest
  ok (replicate current_count current_byte ++ decoded)

pub run_length_decode : Bytes → Outcome Bytes
unfolding decode_runs copy_over
run_length_decode b = do decoded ← decode_runs b; copy_over decoded b

-- The loops of `Buffer::convertToHex` and `Buffer::convertFromHex`.
pub hex_digits : Bytes → Bytes
hex_digits [] = []
hex_digits (x ∷ xs) = (x / 16) ∷ (x % 16) ∷ hex_digits xs

pub convert_to_hex : Bytes → Outcome Bytes
unfolding hex_digits copy_over
convert_to_hex b = copy_over (hex_digits b) b

pub from_hex_digits : Bytes → Outcome Bytes
from_hex_digits [] = ok []
from_hex_digits (high ∷ []) = undefined
from_hex_digits (high ∷ low ∷ rest) = do
  bytes ← from_hex_digits rest
  ok (((high * 16 + low) % 256) ∷ bytes)

pub convert_from_hex : Bytes → Outcome Bytes
unfolding from_hex_digits copy_over
convert_from_hex b = do bytes ← from_hex_digits b; copy_over bytes b

-- `erase(std::find(begin(), end(), byte))`: erasing `end()` is undefined.
pub erase_first : ℕ → Bytes → Outcome Bytes
erase_first y [] = undefined
erase_first y (x ∷ xs) = elim (x == y) [
  | true ↦ ok xs
  | false ↦ erase_first y xs >>= λ rest. ok (x ∷ rest)
]

-- `Buffer::operator-=`
pub subtract : Bytes → Bytes → Outcome Bytes
unfolding erase_first
subtract b [] = ok b
subtract b (y ∷ ys) = do b' ← erase_first y b; subtract b' ys
