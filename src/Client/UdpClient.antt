-- ===== src/Client/UdpClient.antt =====
-- Client/UDPClient.cpp, without the constructor and the destructor; Running has the loop. A client
-- without a socket has none for what it has sent. The clock is an argument.
pub mod Requests
pub mod Connecting
pub mod Queueing
pub mod Batches
pub mod Running
mod Tests
use flakkari.Prelude.{
  ℕ, ◌%◌, ◌^◌, ◌==◌, [], ◌∷◌, ◌++◌, List, Bool, true, false, not, ◌&&◌, Option, none, some, Bytes,
  length, bytes_le, Outcome, ok, ◌>>=◌, if◌then◌else◌,
}
use flakkari.Network.PacketQueue.{push_back, pop_front, empty}
use flakkari.Protocol.Commands.{req_connect, req_heartbeat, req_user_updates}
use flakkari.Protocol.Packet.{Packet, new_packet, put, inject_string, serialize, deserialize}

pub record UdpClient : Type 0 where
  pub game_name : Bytes
  pub running : Bool
  pub sent : Option (List Bytes)
  pub packet_queue : List Packet

-- `sendPacket`
pub send_packet : Bytes → UdpClient → UdpClient
send_packet serialized_packet c = elim c.sent [
  | none ↦ c
  | some sent ↦ record c { sent = some (sent ++ serialized_packet ∷ []) }
]

pub connect_packet : ℕ → Bytes → Packet
connect_packet now game_name = inject_string (new_packet req_connect now) game_name

pub connect_to_server : ℕ → UdpClient → UdpClient
connect_to_server now c =
    send_packet (serialize (connect_packet now c.game_name)) (record c { running = true })

pub disconnect_from_server : UdpClient → UdpClient
disconnect_from_server c = record c { running = false }

-- The loops of `reqUserUpdates`: an event is an id and a state, an axis event an id and a float.
pub put_events : List (ℕ × ℕ) → Packet → Packet
put_events [] p = p
put_events ((id, state) ∷ es) p = put_events es (put p (id ∷ state ∷ []))

pub put_axis_events : List (ℕ × ℕ) → Packet → Packet
put_axis_events [] p = p
put_axis_events ((id, value) ∷ es) p = put_axis_events es (put (put p (id ∷ [])) (bytes_le 4 value))

abbrev high : ℕ
high = 2

pub updates_packet : ℕ → List (ℕ × ℕ) → List (ℕ × ℕ) → Packet
updates_packet now events axis_events =
    let packet = record (new_packet req_user_updates now) {
      header = record ((new_packet req_user_updates now).header) { priority = high };
    } in
    let counted = put packet (bytes_le 2 (length events % 2 ^ 16)) in
    let with_events = put_events events counted in
    put_axis_events axis_events (put with_events (bytes_le 2 (length axis_events % 2 ^ 16)))

pub request_user_updates : ℕ → List (ℕ × ℕ) → List (ℕ × ℕ) → UdpClient → UdpClient
request_user_updates now [] [] c = c
request_user_updates now events axis_events c =
    send_packet (serialize (updates_packet now events axis_events)) c

pub add_packet : Packet → UdpClient → UdpClient
add_packet packet c = record c { packet_queue = push_back packet c.packet_queue }

pub get_next_packet : UdpClient → Outcome (Option Packet × UdpClient)
get_next_packet c =
    if empty c.packet_queue
    then ok (none, c)
    else (pop_front c.packet_queue >>= λ r. ok (some r.0, record c { packet_queue = r.1 }))

-- `handleTimeout`: true where the wait timed out.
pub handle_timeout : ℕ → ℕ → UdpClient → Bool × UdpClient
handle_timeout now event c =
    if not (event == 0)
    then (false, c)
    else (true, send_packet (serialize (new_packet req_heartbeat now)) c)

-- The loop over the datagrams of `handlePacket`.
pub take_responses : ℕ → List Bytes → UdpClient → Outcome UdpClient
take_responses now [] c = ok c
take_responses now (resp ∷ responses) c = deserialize (new_packet 0 now) resp >>= λ r.
    take_responses now responses (if r.1 then add_packet r.0 c else c)

-- `handlePacket`, with what `receiveBatch` returns.
pub handle_packet : ℕ → List Bytes → UdpClient → Outcome UdpClient
handle_packet now responses c = elim c.sent [
  | none ↦ ok c
  | some sent ↦ take_responses now responses c
]
