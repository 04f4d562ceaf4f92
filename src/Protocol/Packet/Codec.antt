-- ===== src/Protocol/Packet/Codec.antt =====
-- Protocol/Packet.hpp: `serialize` against `deserialize`.
use flakkari.Prelude.{
  ◌+◌, ◌/◌, ◌*◌, ◌%◌, ◌^◌, ◌≤◌, ◌<◌, ◌≡◌, refl, ap, ◌∙◌, [], ◌∷◌, ◌++◌, append_assoc, arith, Bytes,
  length, take, drop, bytes_le, from_le, length-bytes_le, from_le-bytes_le, length-append,
  take-append, take-append_of, drop-append_of, Outcome, throws, undefined, ltb, ge→ltb, ltb→le,
  Bool-cases, AreBytes, take-AreBytes, drop-AreBytes, from_le-take_two, ok, true, false, Bool, inl,
  inr,
}
use flakkari.Network.Buffer.{extract_data}
use flakkari.Network.Buffer.Slices.{extract_data_exact}
use flakkari.Protocol.Packet.{
  Header, Packet, header_bytes, header_of, serialize, check_header, deserialize, header_size,
}

-- A packet that the protocol allows: each field in its range, and the length that of the payload.
pub record IsValid (p : Packet) : Type 0 where
  pub priority_lt : p.priority < 4
  pub version_lt : p.api_version < 2
  pub command_lt : p.command_id < 60
  pub counted : p.content_length ≡ length p.payload
  pub length_lt : p.content_length < 2 ^ 16
  pub sequence_lt : p.sequence_number < 2 ^ 64

pub length-header_bytes : (h : Header) → length (header_bytes h) ≡ 12
unfolding header_bytes
length-header_bytes h = omega (
  arith,
  length-append (bytes_le 2 h.content_length) (bytes_le 8 h.sequence_number),
  length-bytes_le 2 h.content_length,
  length-bytes_le 8 h.sequence_number,
)

pub length-serialize : (p : Packet) → length (serialize p) ≡ 12 + length p.payload
unfolding serialize
length-serialize p =
    length-append (header_bytes p.header) p.payload
    ∙ ap (λ n. n + length p.payload) (length-header_bytes p.header)

header_of-header_bytes :
    (h : Header)
    → h.priority < 16
    → h.api_version < 16
    → h.content_length < 2 ^ 16
    → h.sequence_number < 2 ^ 64
    → header_of (header_bytes h) ≡ h
unfolding header_of header_bytes bytes_le from_le
header_of-header_bytes h p v c s = λ i. record {
  priority = first i;
  api_version = second i;
  command_id = third i;
  content_length = from_le-bytes_le 2 h.content_length c i;
  sequence_number = from_le-bytes_le 8 h.sequence_number s i;
}
  where
    first : from_le ((h.priority % 16 + 16 * (h.api_version % 16)) ∷ []) % 16 ≡ h.priority
    first = omega arith

    second : from_le ((h.priority % 16 + 16 * (h.api_version % 16)) ∷ []) / 16 ≡ h.api_version
    second = omega arith

    third : from_le (h.command_id ∷ []) ≡ h.command_id
    third = omega arith

extract_data_middle :
    (b q rest : Bytes)
    → length b ≡ 12
    → length q < 2 ^ 16
    → extract_data (b ++ (q ++ rest)) 12 (length q) ≡ ok q
extract_data_middle b q rest hb hs =
    elim (extract_data_exact (b ++ (q ++ rest)) 12 (length q) (omega arith)) [
      | inl (_, e, _) ↦ e ∙ rw (drop-append_of 12 b (q ++ rest) hb) (ap ok (take-append q rest))
      | inr (short, _) ↦ absurd (omega (arith, length-append b (q ++ rest), length-append q rest))
    ]

-- What the tests on the header let through when the length field is right.
check_header_pass :
    (p : Packet) (q b : Bytes) (rest : Bytes)
    → p.priority < 4
    → p.api_version < 2
    → p.command_id < 60
    → length b ≡ 12
    → p.content_length ≡ length q
    → length q < 2 ^ 16
    → check_header p (b ++ (q ++ rest)) ≡ ok (record p { payload = q }, true)
unfolding check_header
check_header_pass p q b rest hp hv hc hb hl hs =
    ground
      (arith, length-append b (q ++ rest), length-append q rest, extract_data_middle b q rest hb hs)

deserialize_whole :
    (p old : Packet) (rest : Bytes)
    → IsValid p
    → deserialize old (header_bytes p.header ++ (p.payload ++ rest)) ≡ ok (p, true)
unfolding deserialize
deserialize_whole p old rest v =
    rw
      (
        long,
        take-append_of 12 (header_bytes p.header) (p.payload ++ rest)
            (length-header_bytes p.header),
        header_of-header_bytes p.header (omega arith) (omega arith) v.length_lt v.sequence_lt,
      )
      (check_header_pass (record old { header = p.header }) p.payload (header_bytes p.header) rest
        v.priority_lt v.version_lt v.command_lt (length-header_bytes p.header) v.counted
        (omega arith))
  where
    long : ltb (length (header_bytes p.header ++ (p.payload ++ rest))) 12 ≡ false
    long = ge→ltb _ _ (
        omega (
          arith,
          length-append (header_bytes p.header) (p.payload ++ rest),
          length-header_bytes p.header,
        ))

-- A valid packet is read back whole from its serialisation, whatever packet it is read into and
-- whatever bytes follow it.
pub deserialize-serialize :
    (p old : Packet) (rest : Bytes)
    → IsValid p
    → deserialize old (serialize p ++ rest) ≡ ok (p, true)
unfolding deserialize serialize
deserialize-serialize p old rest v =
    ap (deserialize old) (append_assoc (header_bytes p.header) p.payload rest)
    ∙ deserialize_whole p old rest v

-- A valid packet that has lost the end of its payload is refused, with its header read.
pub deserialize_short :
    (p old : Packet) (front : Bytes)
    → IsValid p
    → length front < p.content_length
    → deserialize old (header_bytes p.header ++ front)
      ≡ ok (record old { header = p.header }, false)
unfolding deserialize check_header
deserialize_short p old front v short =
    let total = length-append (header_bytes p.header) front in
    let whole : ltb (length (header_bytes p.header ++ front)) 12 ≡ false =
      ge→ltb _ _ (omega (arith, total, length-header_bytes p.header)) in
    rw
      (
        whole,
        take-append_of 12 (header_bytes p.header) front (length-header_bytes p.header),
        header_of-header_bytes p.header (omega arith) (omega arith) v.length_lt v.sequence_lt,
      )
      (ground
        (arith, v.priority_lt, v.version_lt, v.command_lt, total, length-header_bytes p.header))

-- What a call of `deserialize` on `b` may return, over a packet with the payload `old`.
abbrev pub Reads : Bytes → Bytes → Outcome (Packet × Bool) → Type 0
Reads old b (ok (p, false)) = p.payload ≡ old
Reads old b (ok (p, true)) =
    (p.priority < 4)
    × (p.api_version < 2)
    × (p.command_id < 60)
    × (header_size + p.content_length ≤ length b)
    × (length p.payload ≡ p.content_length)
    × (p.payload ≡ take p.content_length (drop header_size b))
Reads old b (throws e) = ⊥
Reads old b undefined = ⊥

check_header-Reads :
    (p : Packet) (b : Bytes)
    → p.content_length < 2 ^ 16
    → header_size ≤ length b
    → Reads p.payload b (check_header p b)
unfolding check_header
check_header-Reads p b c h = ground (arith, extract_data_exact b header_size p.content_length)

content_length_lt :
    (b : Bytes) → AreBytes b → (header_of (take header_size b)).content_length < 2 ^ 16
unfolding header_of
content_length_lt b h = from_le-take_two _ (drop-AreBytes 2 _ (take-AreBytes header_size b h))

-- `deserialize` returns for every buffer of bytes. When it reports success, the header is in range, the
-- length field names a slice behind the header that the buffer holds, and that slice is the payload; when
-- it reports failure, the payload is the old one.
pub deserialize-Reads :
    (old : Packet) (b : Bytes) → AreBytes b → Reads old.payload b (deserialize old b)
unfolding deserialize
deserialize-Reads old b h = elim (Bool-cases (ltb (length b) header_size)) [
  | inl e ↦ rw e refl
  | inr e ↦ rw e (
      check_header-Reads (record old { header = header_of (take header_size b) }) b
        (content_length_lt b h) (ltb→le _ _ e))
]
