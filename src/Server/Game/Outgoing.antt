-- ===== src/Server/Game/Outgoing.antt =====
-- Server/Game/Game.cpp: `updateOutcomingPackets`, which sends what waits in the players' queues.
pub mod Draining
pub mod Datagram
pub mod Tests
use flakkari.Prelude.{
  ℕ, zero, suc, [], ◌∷◌, ◌++◌, List, Option, none, some, Bytes, get_elem?, set, length, ltb,
  if◌then◌else◌,
}
use flakkari.Protocol.Packet.{Packet, serialize}
use flakkari.Server.Client.{Client, is_connected}
use flakkari.Server.ClientManager.{ClientManager, send_packet_to_client}

-- The inner loop: the buffer that it fills and what is left of the queue.
pub drain : ℕ → List Packet → Bytes × List Packet
drain zero q = ([], q)
drain (suc n) [] = ([], [])
drain (suc n) (p ∷ q) = let (buffer, rest) = drain n q in (serialize p ++ buffer, rest)

-- One round of the outer loop, for a player that is connected.
pub send_queued : ℕ → ℕ → Client → ClientManager → ClientManager
send_queued limit p c m =
    let (buffer, rest) = drain limit c.send_queue in
    let m' = record m { heap = set m.heap p (record c { send_queue = rest }) } in
    if ltb 0 (length buffer) then send_packet_to_client c.address buffer m' else m'

pub update_outcoming_packets : ℕ → ℕ → List ℕ → ClientManager → ClientManager
update_outcoming_packets now limit [] m = m
update_outcoming_packets now limit (p ∷ ps) m =
    update_outcoming_packets now limit ps (elim (get_elem? m.heap p) [
      | none ↦ m
      | some c ↦ if is_connected now c then send_queued limit p c m else m
    ])
