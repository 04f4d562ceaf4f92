-- ===== src/Server/ClientManager/Receiving.antt =====
-- Server/Client/ClientManager.cpp: `receivePacketFromClient`.
use flakkari.Prelude.{
  ℕ, ◌+◌, ◌^◌, ◌≡◌, ◌∙◌, ap, sym, ◌%◌, [], ◌∷◌, ◌++◌, append-nil, List, false, none, some, Bytes,
  lookup, get_elem?, set, ok, ◌>>=◌, ◌==◌, if◌then◌else◌, leb,
}
use flakkari.Network.PacketQueue.{push_back}
use flakkari.Protocol.Commands.{req_disconnect}
use flakkari.Protocol.Packet.{Packet, new_packet, serialize, deserialize}
use flakkari.Protocol.Packet.Codec.{IsValid, deserialize-serialize}
use flakkari.Server.Client.{
  Address, Client, or_empty, increment_warning_count, add_packet_to_receive_queue,
}
use flakkari.Server.ClientManager.{
  ClientManager, deref, write_client, is_banned, handle_received, receive_packet_from_client,
}

deref_lem :
    (p : ℕ) (heap : List Client) {c : Client}
    → get_elem? heap p ≡ some c
    → deref (some p) heap ≡ ok c
unfolding deref
deref_lem p heap e = rw (e, deref)

module _ (a : Address) (now : ℕ) (m : ClientManager) (p : ℕ) (c : Client) where
  -- The address is known and not banned, and `c` is its client.
  abbrev IsKnown : Type 0
  IsKnown =
      (is_banned a m ≡ false)
      × (lookup (or_empty a.text) m.clients ≡ some (some p))
      × (get_elem? m.heap p ≡ some c)

  receive_packet-handle :
      (buffer : Bytes)
      → IsKnown
      → receive_packet_from_client a buffer now m ≡ (
          deserialize (new_packet 0 now) buffer >>= λ r.
          ok (handle_received (or_empty a.ip) (some p) c m r))
  unfolding receive_packet_from_client
  receive_packet-handle buffer (free, known, here) = rw (free, known, deref_lem p m.heap here)

  -- A valid packet of a known client that is not banned: a request to disconnect is answered with the
  -- client's game and changes nothing; any other is put at the end of the client's queue, takes over its
  -- version, and gets no answer.
  pub receive_packet-serialize :
      (packet : Packet)
      → IsValid packet
      → is_banned a m ≡ false
      → lookup (or_empty a.text) m.clients ≡ some (some p)
      → get_elem? m.heap p ≡ some c
      → receive_packet_from_client a (serialize packet) now m
        ≡ ok (
            if packet.command_id == req_disconnect then (some (c.game_name, some p), m) else (
              none,
              record m {
                heap = set m.heap p (record c {
                  api_version = packet.api_version;
                  receive_queue = c.receive_queue ++ packet ∷ [];
                });
              },
            ))
  unfolding handle_received write_client add_packet_to_receive_queue push_back
  receive_packet-serialize packet valid free known here =
      receive_packet-handle (serialize packet) (free, known, here)
      ∙ ap
          (λ b. deserialize (new_packet 0 now) b >>= λ r.
            ok (handle_received (or_empty a.ip) (some p) c m r))
          (sym (append-nil (serialize packet)))
      ∙ ap (λ o. o >>= λ r. ok (handle_received (or_empty a.ip) (some p) c m r))
          (deserialize-serialize packet (new_packet 0 now) [] valid)

  -- A buffer from a known client that is not banned and that is no valid packet adds a warning. The
  -- warning that reaches the client's limit bans its address and is answered with its game.
  pub receive_packet_malformed :
      (buffer : Bytes) (rest : Packet)
      → deserialize (new_packet 0 now) buffer ≡ ok (rest, false)
      → is_banned a m ≡ false
      → lookup (or_empty a.text) m.clients ≡ some (some p)
      → get_elem? m.heap p ≡ some c
      → let warnings = (c.warning_count + 1) % 2 ^ 16 in
        let warned = set m.heap p (record c { warning_count = warnings }) in
        receive_packet_from_client a buffer now m
        ≡ ok (
            if leb c.max_warning_count warnings
            then (
              some (c.game_name, some p),
              record m { heap = warned; banned_clients = m.banned_clients ++ or_empty a.ip ∷ [] },
            )
            else (none, record m { heap = warned }))
  unfolding handle_received write_client increment_warning_count
  receive_packet_malformed buffer rest bad free known here =
      receive_packet-handle buffer (free, known, here)
      ∙ ap (λ o. o >>= λ r. ok (handle_received (or_empty a.ip) (some p) c m r)) bad
