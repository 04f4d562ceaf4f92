-- ===== src/Protocol/Packet/Counting.antt =====
-- Protocol/Packet.hpp: the length field against the payload.
use flakkari.Prelude.{
  ℕ, ◌+◌, ◌%◌, ◌^◌, ◌≡◌, ◌++◌, append_assoc, refl, arith, Bytes, length, take, drop, bytes_le,
  from_le, length-bytes_le, length-append, length-drop, Outcome, ok, throws, undefined,
}
use flakkari.Protocol.Packet.{Packet, Header, put, get, inject_string, extract_string, read_string}

-- The length field is the size of the payload, modulo 2^16.
abbrev pub IsCounted : Packet → Type 0
IsCounted p = p.content_length ≡ length p.payload % 2 ^ 16

-- What an extraction returns, if it returns, leaves such a packet.
abbrev pub LeavesCounted : Outcome (Bytes × Packet) → Type 0
LeavesCounted (ok (value, p)) = IsCounted p
LeavesCounted (throws e) = Unit {0}
LeavesCounted undefined = Unit {0}

pub put_payload : (p : Packet) (value : Bytes) → (put p value).payload ≡ p.payload ++ value
unfolding put
put_payload p value = refl

pub inject_string_payload :
    (p : Packet) (s : Bytes)
    → (inject_string p s).payload ≡ p.payload ++ (bytes_le 4 (length s % 2 ^ 32) ++ s)
unfolding inject_string
inject_string_payload p s = append_assoc p.payload (bytes_le 4 (length s % 2 ^ 32)) s

pub put-IsCounted : (p : Packet) (value : Bytes) → IsCounted p → IsCounted (put p value)
unfolding put
put-IsCounted p value h = omega (arith, length-append p.payload value)

pub inject_string-IsCounted :
    (p : Packet) (str : Bytes) → IsCounted p → IsCounted (inject_string p str)
unfolding inject_string
inject_string-IsCounted p str h = omega (
  arith,
  length-append (p.payload ++ bytes_le 4 (length str % 2 ^ 32)) str,
  length-append p.payload (bytes_le 4 (length str % 2 ^ 32)),
  length-bytes_le 4 (length str % 2 ^ 32),
)

get-LeavesCounted : (p : Packet) (width : ℕ) → IsCounted p → LeavesCounted (get p width)
unfolding get
get-LeavesCounted p width h = ground (arith, length-drop width p.payload)

read_string-LeavesCounted :
    (h : Header) (n : ℕ) (rest : Bytes)
    → h.content_length ≡ (length rest + 4) % 2 ^ 16
    → LeavesCounted (read_string h n rest)
unfolding read_string
read_string-LeavesCounted h n rest e = ground (arith, length-drop n rest)

extract_string-LeavesCounted : (p : Packet) → IsCounted p → LeavesCounted (extract_string p)
unfolding extract_string
extract_string-LeavesCounted p h = ground (
  arith,
  length-drop 4 p.payload,
  read_string-LeavesCounted p.header (from_le (take 4 p.payload)) (drop 4 p.payload),
)

-- The length field counts the payload modulo 2^16 in every packet that is built by `<<` and
-- `injectString` and read by `>>` and `extractString`.
pub packet_operations-IsCounted :
    (p : Packet) (value : Bytes) (width : ℕ)
    → IsCounted p
    → IsCounted (put p value)
      × IsCounted (inject_string p value)
      × LeavesCounted (get p width)
      × LeavesCounted (extract_string p)
packet_operations-IsCounted p value width h = (
  put-IsCounted p value h,
  inject_string-IsCounted p value h,
  get-LeavesCounted p width h,
  extract_string-LeavesCounted p h,
)
