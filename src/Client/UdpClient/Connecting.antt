-- ===== src/Client/UdpClient/Connecting.antt =====
-- Client/UDPClient.cpp and Server/Client/ClientManager.cpp: the client's first packet, as the server
-- receives it.
use flakkari.Prelude.{
  ℕ, ◌+◌, ◌%◌, ◌^◌, ◌<◌, ◌≡◌, refl, sym, ap, ◌>>=◌, ◌∙◌, inl, inr, [], ◌∷◌, ◌++◌, false, none, some,
  Bytes, length, take, drop, bytes_le, from_le, length-bytes_le, from_le-bytes_le, length-append,
  take-append_of, drop-append_of, take_all, ok, lookup, insert, arith, Bool-cases, leb, leb→le,
  gt→leb, length-take_le, ◌≤◌, ◌⊎◌,
}
use flakkari.Protocol.Commands.{req_connect}
use flakkari.Protocol.Packet.{
  Packet, new_packet, inject_string, serialize, header_bytes, extract_string, minus16,
}
use flakkari.Protocol.Packet.Codec.{IsValid, length-serialize, length-header_bytes}
use flakkari.Protocol.Packet.Strings.{extract_string_cases}
use flakkari.Network.Socket.{fill}
use flakkari.Network.Socket.Receiving.{fill_of_le, fill_past}
use flakkari.Server.Client.{Address, or_empty, new_client}
use flakkari.Server.ClientManager.{ClientManager, is_banned, add_client, connect}
use flakkari.Server.ClientManager.Joining.{serialized_before, refused_before}
use flakkari.Client.UdpClient.{connect_packet}

module _ (now : ℕ) (name : Bytes) where
  connect_packet_payload :
      length name < 2 ^ 16 → (connect_packet now name).payload ≡ bytes_le 4 (length name) ++ name
  unfolding connect_packet inject_string new_packet
  connect_packet_payload h =
      let e : length name % 2 ^ 32 ≡ length name = omega arith in ap (λ n. bytes_le 4 n ++ name) e

  connect_packet-IsValid :
      now < 2 ^ 64 → 4 + length name < 2 ^ 16 → IsValid (connect_packet now name)
  unfolding connect_packet inject_string new_packet
  connect_packet-IsValid early short =
      let n = length-append (bytes_le 4 (length name % 2 ^ 32)) name in
      let k = length-bytes_le 4 (length name % 2 ^ 32) in
      record {
        priority_lt = omega arith;
        version_lt = omega arith;
        command_lt = omega arith;
        counted = omega (arith, n, k);
        length_lt = omega arith;
        sequence_lt = early;
      }

  connect_packet-length :
      4 + length name < 2 ^ 16 → length (connect_packet now name).payload ≡ 4 + length name
  connect_packet-length short =
      ap length (connect_packet_payload (omega arith))
      ∙ length-append (bytes_le 4 (length name)) name
      ∙ omega (arith, length-bytes_le 4 (length name))

  -- A request that is longer than the buffer.
  cut_datagram :
      4084 ≤ length (connect_packet now name).payload
      → let p = connect_packet now name in
        fill 4096 (serialize p) ≡ header_bytes p.header ++ take 4084 p.payload
  unfolding serialize
  cut_datagram h =
      let p = connect_packet now name in
      let e : length (header_bytes p.header) + 4084 ≡ 4096 =
        omega (arith, length-header_bytes p.header) in
      ap (λ n. fill n (header_bytes p.header ++ p.payload)) (sym e)
      ∙ fill_past 4084 (header_bytes p.header) p.payload h

  connect_packet_command : (connect_packet now name).command_id ≡ req_connect
  unfolding connect_packet inject_string new_packet
  connect_packet_command = refl

  connect_packet-extract_string :
      4 + length name < 2 ^ 16
      → (q : Packet) × (q.api_version ≡ 1)
        × (extract_string (connect_packet now name) ≡ ok (name, q))
  unfolding connect_packet inject_string new_packet
  connect_packet-extract_string short =
      let p = connect_packet now name in
      let e = connect_packet_payload (omega arith) in
      let k = length-bytes_le 4 (length name) in
      let t : take 4 p.payload ≡ bytes_le 4 (length name) =
        ap (take 4) e ∙ take-append_of 4 (bytes_le 4 (length name)) name k in
      let d : drop 4 p.payload ≡ name =
        ap (drop 4) e ∙ drop-append_of 4 (bytes_le 4 (length name)) name k in
      let n : from_le (take 4 p.payload) ≡ length name =
        ap from_le t ∙ from_le-bytes_le 4 (length name) (omega arith) in
      let l : length p.payload ≡ 4 + length name =
        ap length e ∙ length-append (bytes_le 4 (length name)) name ∙ omega (arith, k) in
      let size = from_le (take 4 p.payload) in
      let left : Packet = record {
        header = record (p.header) {
          content_length = minus16 p.content_length (size % 2 ^ 16 + 4);
        };
        payload = drop size (drop 4 p.payload);
      } in
      elim (extract_string_cases p) [
        | inl (few, _) ↦ absurd (omega arith)
        | inr (inl (_, inl long, _)) ↦ absurd (omega arith)
        | inr (inl (_, inr long, _)) ↦ absurd (omega arith)
        | inr (inr (_, _, s)) ↦ (
          left,
          refl,
          s
              ∙ ap (λ x. ok (x, left))
                  (ap (λ j. take j (drop 4 p.payload)) n
                    ∙ ap (take (length name)) d
                    ∙ take_all name),
        )
      ]

  abbrev pub datagram : Bytes
  datagram = fill 4096 (serialize (connect_packet now name))

  module _ (a : Address) (later : ℕ) (m : ClientManager) where
    connected :
        now < 2 ^ 64
        → length name ≤ 4080
        → is_banned a m ≡ false
        → lookup (or_empty a.text) m.clients ≡ none
        → add_client a datagram later m
          ≡ ok (
            some (name, some (length m.heap)),
            record m {
              clients = insert (or_empty a.text) (some (length m.heap)) m.clients;
              heap = m.heap ++ new_client a name 1 later ∷ [];
            },
          )
    unfolding connect
    connected early fits free unknown =
        let p = connect_packet now name in
        let v = connect_packet-IsValid early (omega arith) in
        let (q, version, read) = connect_packet-extract_string (omega arith) in
        ap (λ b. add_client a b later m)
          (fill_of_le 4096 (serialize p)
            (omega (arith, length-serialize p, connect_packet-length (omega arith))))
        ∙ serialized_before a later m p _ v connect_packet_command free unknown
        ∙ ap (λ o. o >>= λ r. ok (connect a later m r)) read
        ∙ rw version refl

    turned_away :
        (ip : Bytes)
        → now < 2 ^ 64
        → 4080 < length name
        → 4 + length name < 2 ^ 16
        → is_banned a m ≡ false
        → lookup (or_empty a.text) m.clients ≡ none
        → a.ip ≡ some ip
        → add_client a datagram later m
          ≡ ok (none, record m { banned_clients = m.banned_clients ++ ip ∷ [] })
    turned_away ip early long short free unknown has_ip =
        let p = connect_packet now name in
        let v = connect_packet-IsValid early short in
        let l = connect_packet-length short in
        ap (λ b. add_client a b later m) (cut_datagram (omega arith))
        ∙ refused_before a later m p (take 4084 p.payload) ip v
            (omega (arith, v.counted, length-take_le 4084 p.payload (omega arith))) free unknown
            has_ip

    -- The request to connect of a client, as the server receives it in a buffer of 4096 bytes, from an
    -- address that it has neither banned nor knows. A name of the game of at most 4080 bytes gets the
    -- address a new client of that game, active now. A longer one, up to the 2^16 - 5 bytes that the
    -- length field can count, is cut off on the way, and the address is banned for it.
    pub add_client-connect_packet :
        (ip : Bytes)
        → now < 2 ^ 64
        → 4 + length name < 2 ^ 16
        → is_banned a m ≡ false
        → lookup (or_empty a.text) m.clients ≡ none
        → a.ip ≡ some ip
        → ((length name ≤ 4080)
            × (add_client a datagram later m
                ≡ ok (
                  some (name, some (length m.heap)),
                  record m {
                    clients = insert (or_empty a.text) (some (length m.heap)) m.clients;
                    heap = m.heap ++ new_client a name 1 later ∷ [];
                  },
                )))
          ⊎ ((4080 < length name)
              × (add_client a datagram later m
                  ≡ ok (none, record m { banned_clients = m.banned_clients ++ ip ∷ [] })))
    add_client-connect_packet ip early short free unknown has_ip =
        elim (Bool-cases (leb (length name) 4080)) [
          | inl few ↦ let fits = leb→le _ _ few in inl (fits, connected early fits free unknown)
          | inr many ↦
              let long = gt→leb _ _ many in
              inr (long, turned_away ip early long short free unknown has_ip)
        ]
