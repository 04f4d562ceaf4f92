-- ===== src/Protocol/Packet/Strings.antt =====
-- Protocol/Packet.hpp: values and strings put into a packet and taken out again.
use flakkari.Prelude.{
  ℕ, ◌+◌, ◌%◌, ◌^◌, ◌≤◌, ◌<◌, ◌≡◌, refl, ◌∙◌, [], ◌++◌, append_assoc, append-nil, arith, Bytes,
  length, take, drop, bytes_le, from_le, length-bytes_le, from_le-bytes_le, length-append,
  length-drop, take-append, drop-append, take-append_of, drop-append_of, Outcome, ok, throws,
  undefined, runtime_error, ◌⊎◌, ◌>>=◌,
}
use flakkari.Protocol.Packet.{
  Packet, new_packet, put, get, inject_string, extract_string, read_string, minus16,
}

-- What `extractString` does: it throws on a payload of fewer than four bytes; otherwise the first four
-- bytes are a size, and it is undefined for a size that is negative as an int or passes the end,
-- and splits the string off for every other.
pub extract_string_cases :
    (p : Packet)
    → let n = from_le (take 4 p.payload) in
      ((length p.payload < 4) × (extract_string p ≡ throws runtime_error))
      ⊎ ((4 ≤ length p.payload)
          × ((2 ^ 31 ≤ n) ⊎ (length p.payload < n + 4))
          × (extract_string p ≡ undefined))
      ⊎ ((n + 4 ≤ length p.payload)
          × (n < 2 ^ 31)
          × (extract_string p
              ≡ ok (
                take n (drop 4 p.payload),
                record {
                  header = record (p.header) {
                    content_length = minus16 p.content_length (n % 2 ^ 16 + 4);
                  };
                  payload = drop n (drop 4 p.payload);
                },
              )))
unfolding extract_string read_string
extract_string_cases p = ground (arith, length-drop 4 p.payload)

get_front :
    (p : Packet) (value rest : Bytes)
    → p.payload ≡ value ++ rest
    → get p (length value)
      ≡ ok (
        value,
        record {
          header = record (p.header) {
            content_length = minus16 p.content_length (length value % 2 ^ 16);
          };
          payload = rest;
        },
      )
unfolding get
get_front p value rest e =
    ground (arith, take-append value rest, drop-append value rest, length-append value rest)

extract_string_front :
    (p : Packet) (str rest : Bytes)
    → length str < 2 ^ 31
    → p.payload ≡ bytes_le 4 (length str % 2 ^ 32) ++ (str ++ rest)
    → extract_string p
      ≡ ok (
        str,
        record {
          header = record (p.header) {
            content_length = minus16 p.content_length (length str % 2 ^ 16 + 4);
          };
          payload = rest;
        },
      )
unfolding extract_string read_string
extract_string_front p str rest h e =
    let size = bytes_le 4 (length str % 2 ^ 32) in
    let n : length size ≡ 4 = length-bytes_le 4 (length str % 2 ^ 32) in
    let m : from_le size ≡ length str =
      from_le-bytes_le 4 (length str % 2 ^ 32) (omega arith) ∙ small in
    ground (
      arith,
      take-append_of 4 size (str ++ rest) n,
      drop-append_of 4 size (str ++ rest) n,
      length-append size (str ++ rest),
      length-append str rest,
      take-append str rest,
      drop-append str rest,
      n,
      m,
    )
  where
    small : length str % 2 ^ 32 ≡ length str
    small = omega arith

-- A value of `width` bytes and two strings, read in this order.
abbrev pub read_reply : ℕ → Packet → Outcome (Bytes × Bytes × Bytes × Packet)
read_reply width p = do
  (value, p₁) ← get p width
  (s, p₂) ← extract_string p₁
  (t, p₃) ← extract_string p₂
  pack value s t p₃
  where
    pack : Bytes → Bytes → Bytes → Packet → Outcome (Bytes × Bytes × Bytes × Packet)
    pack value s t q = ok (value, s, t, q)

module _ (command clock : ℕ) (value s t : Bytes) where
  abbrev reply : Packet
  reply = inject_string (inject_string (put (new_packet command clock) value) s) t

  abbrev size_of : Bytes → Bytes
  size_of str = bytes_le 4 (length str % 2 ^ 32)

  abbrev left : ℕ → Bytes → Packet
  left count rest = record {
    header = record (reply.header) { content_length = count };
    payload = rest;
  }

  reply_payload : reply.payload ≡ value ++ (size_of s ++ (s ++ (size_of t ++ (t ++ []))))
  unfolding put inject_string new_packet
  reply_payload = simp (append_assoc, append-nil)

  reply_left : (count : ℕ) → count ≡ 0 → left count [] ≡ new_packet command clock
  unfolding put inject_string new_packet
  reply_left count e = ground arith

  reply_length :
      reply.content_length
      ≡ ((length value % 2 ^ 16 + (length s % 2 ^ 16 + 4)) + (length t % 2 ^ 16 + 4)) % 2 ^ 16
  unfolding put inject_string new_packet
  reply_length = omega arith

  -- A value and two strings, as in the reply to a connection, come out of a packet in the order in
  -- which they went into an empty one, if each string has fewer than 2^31 bytes; what is left is the
  -- empty packet, with a length field of 0.
  pub read_reply-inject_string :
      length s < 2 ^ 31
      → length t < 2 ^ 31
      → read_reply
          (length value)
          (inject_string (inject_string (put (new_packet command clock) value) s) t)
        ≡ ok (value, s, t, new_packet command clock)
  read_reply-inject_string hs ht =
      let c₁ = minus16 reply.content_length (length value % 2 ^ 16) in
      let c₂ = minus16 c₁ (length s % 2 ^ 16 + 4) in
      let c₃ = minus16 c₂ (length t % 2 ^ 16 + 4) in
      let rest = size_of t ++ (t ++ []) in
      rw (
        get_front reply value (size_of s ++ (s ++ rest)) reply_payload,
        extract_string_front (left c₁ (size_of s ++ (s ++ rest))) s rest hs refl,
        extract_string_front (left c₂ rest) t [] ht refl,
        reply_left c₃ (omega (arith, reply_length)),
      )
