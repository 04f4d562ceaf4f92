-- ===== src/Client/UdpClient/Queueing.antt =====
-- Client/UDPClient.cpp: the packets that arrive, and those that `getNextPacket` gives out.
use flakkari.Prelude.{
  ℕ, ◌≡◌, refl, sym, ap, zero, suc, ◌>>=◌, Option, ◌∙◌, [], ◌∷◌, ◌++◌, append_assoc, append-nil,
  List, some, Bytes, length, Outcome, ok,
}
use flakkari.Protocol.Packet.{Packet, new_packet, serialize}
use flakkari.Protocol.Packet.Codec.{IsValid, deserialize-serialize}
use flakkari.Client.UdpClient.{
  UdpClient, take_responses, handle_packet, add_packet, get_next_packet,
}
use flakkari.Network.PacketQueue.{push_back, pop_front, empty}

-- Every packet is one that the protocol allows.
abbrev pub AllValid : List Packet → Type 0
AllValid [] = Unit {0}
AllValid (p ∷ ps) = IsValid p × AllValid ps

abbrev pub serialize_each : List Packet → List Bytes
serialize_each [] = []
serialize_each (p ∷ ps) = serialize p ∷ serialize_each ps

-- `getNextPacket`, as often as there are packets to take.
abbrev pub next_packets : ℕ → UdpClient → Outcome (List (Option Packet) × UdpClient)
next_packets zero c = ok ([], c)
next_packets (suc n) c =
    get_next_packet c >>= λ r. next_packets n r.1 >>= λ rest. ok (r.0 ∷ rest.0, rest.1)

abbrev pub found : List Packet → List (Option Packet)
found [] = []
found (p ∷ ps) = some p ∷ found ps

pub take_responses-serialize_each :
    (now : ℕ) (ps : List Packet) (c : UdpClient)
    → AllValid ps
    → take_responses now (serialize_each ps) c
      ≡ ok (record c { packet_queue = c.packet_queue ++ ps })
unfolding take_responses add_packet push_back
take_responses-serialize_each now [] c v =
    ap (λ q. ok (record c { packet_queue = q })) (sym (append-nil c.packet_queue))
take_responses-serialize_each now (p ∷ ps) c (v, vs) =
    rw (← append-nil (serialize p), deserialize-serialize p (new_packet 0 now) [] v)
      (take_responses-serialize_each now ps (add_packet p c) vs
        ∙ ap (λ q. ok (record c { packet_queue = q })) (append_assoc c.packet_queue (p ∷ []) ps))

next_packets-found :
    (ps : List Packet) (c : UdpClient)
    → c.packet_queue ≡ ps
    → next_packets (length ps) c ≡ ok (found ps, record c { packet_queue = [] })
unfolding get_next_packet empty pop_front
next_packets-found [] c e = ap (λ q. ok ([], record c { packet_queue = q })) e
next_packets-found (p ∷ ps) c e =
    rw (e, next_packets-found ps (record c { packet_queue = ps }) refl) refl

pub handle_packet-some :
    (now : ℕ) (responses : List Bytes) (c : UdpClient) (d : List Bytes)
    → c.sent ≡ some d
    → handle_packet now responses c ≡ take_responses now responses c
unfolding handle_packet
handle_packet-some now responses c d socket = rw socket refl

-- Datagrams that are valid packets, received by a client with a socket and an empty queue, are given out by
-- `getNextPacket` in the order in which they came, and leave the queue empty.
pub handle_packet-serialize_each :
    (now : ℕ) (ps : List Packet) (c : UdpClient) (d : List Bytes)
    → AllValid ps
    → c.sent ≡ some d
    → c.packet_queue ≡ []
    → (handle_packet now (serialize_each ps) c >>= next_packets (length ps))
      ≡ ok (found ps, record c { packet_queue = [] })
handle_packet-serialize_each now ps c d v socket e =
    let received = record c { packet_queue = c.packet_queue ++ ps } in
    ap (λ o. o >>= next_packets (length ps))
      (handle_packet-some now (serialize_each ps) c d socket
        ∙ take_responses-serialize_each now ps c v)
    ∙ next_packets-found ps received (ap (λ q. q ++ ps) e)
