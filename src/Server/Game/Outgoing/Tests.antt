-- ===== src/Server/Game/Outgoing/Tests.antt =====
-- Server/Game/Game.cpp: an example of two frames.
use flakkari.Prelude.{◌≡◌, refl, [], ◌∷◌, arith}
use flakkari.Protocol.Packet.Tests.{request}
use flakkari.Server.Client.{Client, new_client, is_connected}
use flakkari.Server.Client.Tests.{client}
use flakkari.Server.ClientManager.{ClientManager}
use flakkari.Server.Game.Outgoing.Draining.{
  frames, datagrams, all_to, joined, serialize_each, update_outcoming_packets_flushes,
}

abbrev pub waiting : Client
waiting = record client { send_queue = request ∷ request ∷ [] }

abbrev pub manager : ClientManager
manager = record { clients = []; banned_clients = []; heap = waiting ∷ []; sent = [] }

-- Two packets wait, and each frame may send one.
update_outcoming_packets_flushes_example :
    let m = frames (5 ∷ 6 ∷ []) 0 1 manager in
    let bs = datagrams (5 ∷ 6 ∷ []) 1 (request ∷ request ∷ []) in
    (m.heap ≡ record waiting { send_queue = [] } ∷ [])
    × (m.sent ≡ all_to waiting.address bs)
    × (joined bs ≡ serialize_each (request ∷ request ∷ []))
unfolding is_connected new_client
update_outcoming_packets_flushes_example =
    update_outcoming_packets_flushes (5 ∷ 6 ∷ []) 0 1 waiting manager refl (refl, (refl, tt))
      (omega arith)
