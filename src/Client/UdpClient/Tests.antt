-- ===== src/Client/UdpClient/Tests.antt =====
-- Client/UDPClient.cpp: examples.
use flakkari.Prelude.{
  ◌≡◌, refl, [], ◌∷◌, ◌++◌, List, false, true, some, ok, lookup, insert, arith, none, ◌⊎◌, ◌≤◌, ◌<◌,
  ◌>>=◌,
}
use flakkari.Protocol.Commands.{req_user_updates, req_heartbeat}
use flakkari.Protocol.Packet.{Packet, new_packet, serialize, deserialize}
use flakkari.Protocol.Packet.Tests.{request, request-IsValid}
use flakkari.Server.Client.Tests.{address}
use flakkari.Server.ClientManager.{ClientManager, is_banned, contains_text, add_client}
use flakkari.Server.Game.Events.{event_step, axis_step, run_events}
use flakkari.Server.Game.Events.Tests.{numbers, still, any_move}
use flakkari.Client.UdpClient.{UdpClient, updates_packet, handle_packet, add_packet}
use flakkari.Client.UdpClient.Running.{run, disconnect}
use flakkari.Client.UdpClient.Running.Receiving.{
  Event, silence, packets, client, waits, run-received,
}
use flakkari.Client.UdpClient.Batches.{handle_packet-first}
use flakkari.Server.Game.Outgoing.{update_outcoming_packets}
use flakkari.Server.Game.Outgoing.Tests.{waiting, manager}
use flakkari.Server.Client.{is_connected, new_client}
use flakkari.Client.UdpClient.Requests.{run_events-updates_packet}
use flakkari.Client.UdpClient.Connecting.{datagram, add_client-connect_packet}
use flakkari.Client.UdpClient.Queueing.{handle_packet-serialize_each, next_packets}

-- To go forward, and to look up by 1.0.
run_events-updates_packet_example :
    (packet : Packet) × (deserialize
        (new_packet 0 5)
        (serialize (updates_packet 3 ((4, 0) ∷ []) ((8, 0x3F80_0000) ∷ [])))
      ≡ ok (packet, true))
    × (packet.command_id ≡ req_user_updates)
    × (run_events numbers 6 0 [] any_move packet.payload still
        ≡ ok (
            axis_step numbers 6 0 [] any_move
              (8, 0x3F80_0000)
              (event_step numbers 6 0 [] any_move (4, 0) still)))
run_events-updates_packet_example =
    run_events-updates_packet numbers 0 [] any_move 3 6 ((4, 0) ∷ []) ((8, 0x3F80_0000) ∷ [])
      (new_packet 0 5) still (omega arith) (omega arith) (omega arith, tt)

abbrev nobody : ClientManager
nobody = record { clients = []; banned_clients = []; heap = []; sent = [] }

add_client-connect_packet_example :
    ((2 ≤ 4080)
      × (add_client address (datagram 3 (97 ∷ 98 ∷ [])) 5 nobody
          ≡ ok (
            some (97 ∷ 98 ∷ [], some 0),
            record nobody {
              clients = (49 ∷ [], some 0) ∷ [];
              heap = new_client address (97 ∷ 98 ∷ []) 1 5 ∷ [];
            },
          )))
    ⊎ ((4080 < 2)
        × (add_client address (datagram 3 (97 ∷ 98 ∷ [])) 5 nobody
            ≡ ok (none, record nobody { banned_clients = (49 ∷ 46 ∷ []) ∷ [] })))
unfolding is_banned contains_text lookup insert
add_client-connect_packet_example =
    add_client-connect_packet 3 (97 ∷ 98 ∷ []) address 5 nobody (49 ∷ 46 ∷ []) (omega arith)
      (omega arith) refl refl refl

abbrev player : UdpClient
player = record { game_name = 97 ∷ 98 ∷ []; running = true; sent = some []; packet_queue = [] }

two_requests_given_out :
    (handle_packet 5 (serialize request ∷ serialize request ∷ []) player >>= next_packets 2)
    ≡ ok (some request ∷ some request ∷ [], player)
two_requests_given_out =
    handle_packet-serialize_each 5 (request ∷ request ∷ []) player []
      (request-IsValid, (request-IsValid, tt)) refl refl

-- Two packets wait for a player, and both are taken.
abbrev idle : UdpClient
idle = record { game_name = []; running = true; sent = some []; packet_queue = [] }

handle_packet-first_example :
    let m = update_outcoming_packets 5 2 (0 ∷ []) manager in
    (m.heap ≡ record waiting { send_queue = [] } ∷ [])
    × (m.sent ≡ (waiting.address, serialize request ++ (serialize request ++ [])) ∷ [])
    × (handle_packet 9 ((serialize request ++ (serialize request ++ [])) ∷ []) idle
        ≡ ok (add_packet request idle))
unfolding is_connected new_client
handle_packet-first_example =
    handle_packet-first 5 1 9 waiting manager idle request (request ∷ []) [] request-IsValid refl
      refl refl refl

-- A packet, a silence, and two packets in one batch; then another packet, too late.
abbrev events : List Event
events =
    packets 3 0 ((request ∷ []) ∷ []) ∷ silence 4 ∷ packets 5 1 ((request ∷ request ∷ []) ∷ []) ∷ []

run-received_example :
    run (waits events ++ disconnect ∷ waits events) (client [] [] [] true)
    ≡ ok (
        client []
          (serialize (new_packet req_heartbeat 4) ∷ [])
          (request ∷ request ∷ request ∷ [])
          false)
run-received_example =
    run-received [] events (waits events) [] []
      (((request-IsValid, tt), tt), (((request-IsValid, (request-IsValid, tt)), tt), tt))
