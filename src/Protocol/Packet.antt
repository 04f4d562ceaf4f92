-- ===== src/Protocol/Packet.antt =====
-- Protocol/Header.hpp and Protocol/Packet.hpp: the V_1 header, packed into 12 bytes, and the packet.
-- The first bit-field stands in the low bits of its byte, as on the platforms built for.
pub mod Codec
pub mod Tests
pub mod Strings
pub mod Counting
use flakkari.Prelude.{
  ℕ, ◌+◌, ◌-◌, ◌*◌, ◌/◌, ◌%◌, ◌^◌, [], ◌∷◌, ◌++◌, Bool, true, false, Bytes, length, take, drop,
  bytes_le, from_le, Outcome, ok, Exception, runtime_error, ◌>>=◌, ◌>>◌, throw_if, undefined_if,
  ltb, leb, if◌then◌else◌,
}
use flakkari.Network.Buffer.{extract_data}
use flakkari.Protocol.Commands.{max_command_id}

pub record Header : Type 0 where
  pub priority : ℕ
  pub api_version : ℕ
  pub command_id : ℕ
  pub content_length : ℕ
  pub sequence_number : ℕ

abbrev pub header_size : ℕ
header_size = 12

-- `Priority::MAX_PRIORITY` and `ApiVersion::MAX_VERSION`
abbrev pub max_priority : ℕ
max_priority = 4

abbrev pub max_version : ℕ
max_version = 2

pub record Packet : Type 0 where
  pub header : Header
  pub open header use *
  pub payload : Bytes

-- A packet as its default constructor leaves it: LOW, V_1, and the clock as sequence number. The
-- command has no default value and is always assigned.
unfoldable pub new_packet : ℕ → ℕ → Packet
new_packet command clock = record {
  header = record {
    priority = 0;
    api_version = 1;
    command_id = command;
    content_length = 0;
    sequence_number = clock;
  };
  payload = [];
}

-- `Packet::size`
pub size : Packet → ℕ
size p = header_size + length p.payload

-- `operator<<` of a trivially copyable value, by its bytes.
unfoldable pub put : Packet → Bytes → Packet
put p value = record {
  header = record (p.header) {
    content_length = (p.content_length + length value % 2 ^ 16) % 2 ^ 16;
  };
  payload = p.payload ++ value;
}

-- `uint16_t -= n`, for n below 2^17
abbrev pub minus16 : ℕ → ℕ → ℕ
minus16 c n = (c + 2 ^ 17 - n) % 2 ^ 16

-- `operator>>` into a value of `width` bytes.
pub get : Packet → ℕ → Outcome (Bytes × Packet)
get p width = do
  throw_if (ltb (length p.payload) width) runtime_error
  ok (
    take width p.payload,
    record {
      header = record (p.header) { content_length = minus16 p.content_length (width % 2 ^ 16) };
      payload = drop width p.payload;
    },
  )

-- `Packet::injectString`: the size as an int, then the bytes.
unfoldable pub inject_string : Packet → Bytes → Packet
inject_string p str = record {
  header = record (p.header) {
    content_length = (p.content_length + (length str % 2 ^ 16 + 4)) % 2 ^ 16;
  };
  payload = (p.payload ++ bytes_le 4 (length str % 2 ^ 32)) ++ str;
}

-- The string behind the size in `Packet::extractString`. The size is an int: from 2^31 up it is
-- negative. Neither a negative size nor one past the end is tested for.
pub read_string : Header → ℕ → Bytes → Outcome (Bytes × Packet)
read_string h n rest = do
  undefined_if (leb (2 ^ 31) n)
  undefined_if (ltb (length rest) n)
  ok (
    take n rest,
    record {
      header = record h { content_length = minus16 h.content_length (n % 2 ^ 16 + 4) };
      payload = drop n rest;
    },
  )

pub extract_string : Packet → Outcome (Bytes × Packet)
extract_string p = do
  throw_if (ltb (length p.payload) 4) runtime_error
  read_string p.header (from_le (take 4 p.payload)) (drop 4 p.payload)

-- The bytes of a header in memory, and a header from its bytes.
pub header_bytes : Header → Bytes
header_bytes h =
    (h.priority % 16 + 16 * (h.api_version % 16))
    ∷ h.command_id
    ∷ (bytes_le 2 h.content_length ++ bytes_le 8 h.sequence_number)

pub byte_at : ℕ → Bytes → ℕ
byte_at i b = from_le (take 1 (drop i b))

pub header_of : Bytes → Header
unfolding byte_at
header_of b = record {
  priority = byte_at 0 b % 16;
  api_version = byte_at 0 b / 16;
  command_id = byte_at 1 b;
  content_length = from_le (take 2 (drop 2 b));
  sequence_number = from_le (take 8 (drop 4 b));
}

-- `Packet::serialize`
unfoldable pub serialize : Packet → Bytes
serialize p = header_bytes p.header ++ p.payload

-- The tests of `Packet::deserialize` on the header, which is overwritten before them.
pub check_header : Packet → Bytes → Outcome (Packet × Bool)
check_header p b =
    if leb max_priority p.priority
    then ok (p, false)
    else if leb max_version p.api_version
    then ok (p, false)
    else if leb max_command_id p.command_id
    then ok (p, false)
    else if ltb (length b - header_size) p.content_length
    then ok (p, false)
    else (extract_data b header_size p.content_length >>= λ payload.
        ok (record p { payload = payload }, true))

unfoldable pub deserialize : Packet → Bytes → Outcome (Packet × Bool)
deserialize p b =
    if ltb (length b) header_size
    then ok (p, false)
    else check_header (record p { header = header_of (take header_size b) }) b
