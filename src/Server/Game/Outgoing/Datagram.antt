-- ===== src/Server/Game/Outgoing/Datagram.antt =====
-- Server/Game/Game.cpp: the datagram of one frame.
use flakkari.Prelude.{
  ℕ, suc, ◌≡◌, refl, [], ◌∷◌, ◌++◌, List, Bytes, length, take, drop, arith, ltb, true,
  length-append, lt→ltb,
}
use flakkari.Protocol.Packet.{Packet, serialize}
use flakkari.Protocol.Packet.Codec.{length-serialize}
use flakkari.Server.Client.{Client, is_connected}
use flakkari.Server.ClientManager.{ClientManager, send_packet_to_client}
use flakkari.Server.Game.Outgoing.{send_queued, update_outcoming_packets}
use flakkari.Server.Game.Outgoing.Draining.{drain-eq, one_frame, serialize_each}

module _ (now limit : ℕ) (c : Client) (m : ClientManager) (p : Packet) (q : List Packet) where
  -- A packet and up to `limit` others.
  abbrev pub datagram : Bytes
  datagram = serialize p ++ serialize_each (take limit q)

  datagram_filled : ltb 0 (length datagram) ≡ true
  datagram_filled = lt→ltb _ _ (
      omega
        (arith, length-append (serialize p) (serialize_each (take limit q)), length-serialize p))

  -- The only player of a game is connected and has a packet and others in its queue: one frame takes the
  -- packet and up to `limit` others from the queue and sends them in one datagram.
  pub update_outcoming_packets-datagram :
      m.heap ≡ c ∷ []
      → is_connected now c ≡ true
      → c.send_queue ≡ p ∷ q
      → let m' = update_outcoming_packets now (suc limit) (0 ∷ []) m in
        (m'.heap ≡ record c { send_queue = drop limit q } ∷ [])
        × (m'.sent ≡ m.sent ++ (c.address, datagram) ∷ [])
  unfolding send_queued send_packet_to_client
  update_outcoming_packets-datagram one on e = (
    rw (one_frame now (suc limit) c m one on, e, drain-eq (suc limit) (p ∷ q), datagram_filled, one)
        refl,
    rw (one_frame now (suc limit) c m one on, e, drain-eq (suc limit) (p ∷ q), datagram_filled)
        refl,
  )
