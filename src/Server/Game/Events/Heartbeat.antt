-- ===== src/Server/Game/Events/Heartbeat.antt =====
-- Server/Game/Game.cpp: `updateIncomingPackets` on heartbeats.
use flakkari.Prelude.{
  ℕ, zero, suc, ◌≤◌, ◌<◌, ◌≡◌, refl, sym, ap, ◌∙◌, [], ◌∷◌, ◌++◌, append_assoc, append-nil, List,
  true, some, get_elem?, set, length, get_elem?-set_self, set-set, ok, ◌>>=◌, arith,
}
use flakkari.Network.PacketQueue.{push_back}
use flakkari.Protocol.Commands.{req_heartbeat, rep_heartbeat}
use flakkari.Protocol.Packet.{Packet, new_packet}
use flakkari.Server.Client.{Client, is_connected, add_packet_to_send_queue}
use flakkari.Server.Game.Floats.{Floats}
use flakkari.Server.Game.Membership.{Room, modify_client}
use flakkari.Server.Game.Events.{handle_incoming, take_messages, update_incoming_packets}

-- Each packet is a heartbeat.
abbrev pub AllHeartbeats : List Packet → Type 0
AllHeartbeats [] = Unit {0}
AllHeartbeats (packet ∷ ps) = (packet.command_id ≡ req_heartbeat) × AllHeartbeats ps

abbrev pub reply_to : ℕ → Packet → Packet
reply_to now packet = record (new_packet rep_heartbeat now) {
  header = record ((new_packet rep_heartbeat now).header) { api_version = packet.api_version };
}

abbrev pub replies : ℕ → List Packet → List Packet
replies now [] = []
replies now (packet ∷ ps) = reply_to now packet ∷ replies now ps

-- The client whose queue is `c`'s, once its heartbeats have been answered.
abbrev pub answered : ℕ → List Packet → Client → Client
answered now [] c = c
answered now (packet ∷ ps) c = answered now ps (add_packet_to_send_queue (reply_to now packet) c)

set-get_elem? :
    {A : Type 0} (xs : List A) (i : ℕ) (v : A) → get_elem? xs i ≡ some v → set xs i v ≡ xs
set-get_elem? [] i v e = refl
set-get_elem? (x ∷ xs) zero v e = ground arith
set-get_elem? (x ∷ xs) (suc i) v e = ap (λ ys. x ∷ ys) (set-get_elem? xs i v e)

below_length : {A : Type 0} (xs : List A) (i : ℕ) (v : A) → get_elem? xs i ≡ some v → i < length xs
below_length [] i v e = cc
below_length (x ∷ xs) zero v e = omega arith
below_length (x ∷ xs) (suc i) v e = omega (arith, below_length xs i v e)

modify_client-set :
    (p : ℕ) (g : Client → Client) (heap : List Client) (c : Client)
    → p < length heap
    → modify_client p g (set heap p c) ≡ set heap p (g c)
modify_client-set p g heap c h =
    rw (get_elem?-set_self heap p c h, modify_client) (set-set heap p c (g c))

module _ (f : Floats) (now p : ℕ) where
  handle_incoming_heartbeat :
      (packet : Packet) (c : Client) (room : Room)
      → packet.command_id ≡ req_heartbeat
      → p < length room.heap
      → handle_incoming f now p packet (record room { heap = set room.heap p c })
        ≡ ok (record room {
          heap = set room.heap p (add_packet_to_send_queue (reply_to now packet) c);
        })
  unfolding handle_incoming
  handle_incoming_heartbeat packet c room a h = rw a (
      ap (λ hs. ok (record room { heap = hs }))
        (modify_client-set p (add_packet_to_send_queue (reply_to now packet)) room.heap c h))

  take_messages_heartbeats :
      (ps : List Packet) (limit : ℕ) (c : Client) (room : Room)
      → AllHeartbeats ps
      → length ps ≤ limit
      → get_elem? room.heap p ≡ some (record c { receive_queue = ps })
      → take_messages f now p limit room
        ≡ ok (record room {
          heap = set room.heap p (record (answered now ps c) { receive_queue = [] });
        })
  unfolding take_messages add_packet_to_send_queue
  take_messages_heartbeats [] zero c room a h e =
      ap (λ hs. ok (record room { heap = hs }))
        (sym (set-get_elem? room.heap p (record c { receive_queue = [] }) e))
  take_messages_heartbeats [] (suc limit) c room a h e =
      rw (e, take_messages)
        (ap (λ hs. ok (record room { heap = hs }))
          (sym (set-get_elem? room.heap p (record c { receive_queue = [] }) e)))
  take_messages_heartbeats (packet ∷ ps) zero c room a h e = absurd (omega arith)
  take_messages_heartbeats (packet ∷ ps) (suc limit) c room (a, below) h e =
      let heard : Client = record c { receive_queue = ps } in
      let replied = add_packet_to_send_queue (reply_to now packet) heard in
      let room' = record room { heap = set room.heap p replied } in
      rw (e, take_messages)
        (ap (λ o. o >>= take_messages f now p limit)
            (handle_incoming_heartbeat packet heard room a (below_length room.heap p _ e))
          ∙ take_messages_heartbeats ps limit (add_packet_to_send_queue (reply_to now packet) c)
              room' below (omega arith)
              (get_elem?-set_self room.heap p replied (below_length room.heap p _ e))
          ∙ ap (λ hs. ok (record room { heap = hs })) (set-set room.heap p replied _))

  answered_queue :
      (ps : List Packet) (c : Client)
      → (answered now ps c).send_queue ≡ c.send_queue ++ replies now ps
  unfolding add_packet_to_send_queue push_back
  answered_queue [] c = sym (append-nil c.send_queue)
  answered_queue (packet ∷ ps) c =
      answered_queue ps (add_packet_to_send_queue (reply_to now packet) c)
      ∙ append_assoc c.send_queue (reply_to now packet ∷ []) (replies now ps)

  -- A connected player whose receive queue holds heartbeats only, no more of them than a frame may take,
  -- has an empty receive queue after `updateIncomingPackets`, and behind what was in its send queue a
  -- reply to each, in order and with the heartbeat's version.
  pub update_incoming_packets_heartbeats :
      (limit : ℕ) (c : Client) (room : Room)
      → get_elem? room.heap p ≡ some c
      → is_connected now c ≡ true
      → AllHeartbeats c.receive_queue
      → length c.receive_queue ≤ limit
      → (c' : Client) × (update_incoming_packets f now limit (p ∷ []) room
          ≡ ok (record room { heap = set room.heap p c' }))
        × (c'.receive_queue ≡ [])
        × (c'.send_queue ≡ c.send_queue ++ replies now c.receive_queue)
  unfolding update_incoming_packets
  update_incoming_packets_heartbeats limit c room e connected beats few = (
    record (answered now c.receive_queue c) { receive_queue = [] },
    rw (e, connected, take_messages_heartbeats c.receive_queue limit c room beats few e) refl,
    refl,
    answered_queue c.receive_queue c,
  )
