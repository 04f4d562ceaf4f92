-- ===== src/Client/UdpClient/Batches.antt =====
-- Server/Game/Game.cpp: what `updateOutcomingPackets` sends, against `handlePacket` of
-- Client/UDPClient.cpp.
use flakkari.Prelude.{ℕ, suc, ◌≡◌, refl, [], ◌∷◌, ◌++◌, List, Bytes, take, drop, true, some, ok}
use flakkari.Client.UdpClient.{UdpClient, handle_packet, take_responses, add_packet}
use flakkari.Protocol.Packet.{Packet, new_packet, serialize}
use flakkari.Protocol.Packet.Codec.{IsValid, deserialize-serialize}
use flakkari.Server.Client.{Client, is_connected}
use flakkari.Server.ClientManager.{ClientManager}
use flakkari.Server.Game.Outgoing.{update_outcoming_packets}
use flakkari.Server.Game.Outgoing.Datagram.{update_outcoming_packets-datagram}
use flakkari.Server.Game.Outgoing.Draining.{serialize_each}

module _ (now limit later : ℕ) (c : Client) (m : ClientManager) (client : UdpClient) (p : Packet)
    (q : List Packet) where
  -- The only player of a game is connected and has a valid packet and others in its queue. One frame takes
  -- the first packet and up to `limit` others from the queue and sends them in one datagram. A client that
  -- has its socket and receives this datagram is given the first packet alone: the others are in no queue.
  pub handle_packet-first :
      (before : List Bytes)
      → IsValid p
      → m.heap ≡ c ∷ []
      → is_connected now c ≡ true
      → c.send_queue ≡ p ∷ q
      → client.sent ≡ some before
      → let m' = update_outcoming_packets now (suc limit) (0 ∷ []) m in
        let b : Bytes = serialize p ++ serialize_each (take limit q) in
        (m'.heap ≡ record c { send_queue = drop limit q } ∷ [])
        × (m'.sent ≡ m.sent ++ (c.address, b) ∷ [])
        × (handle_packet later (b ∷ []) client ≡ ok (add_packet p client))
  unfolding handle_packet take_responses
  handle_packet-first before v one on e socket =
      let (kept, sent) = update_outcoming_packets-datagram now limit c m p q one on e in
      let rest = serialize_each (take limit q) in
      (kept, sent, rw (socket, deserialize-serialize p (new_packet 0 later) rest v) refl)
