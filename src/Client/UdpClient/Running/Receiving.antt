-- ===== src/Client/UdpClient/Running/Receiving.antt =====
-- Client/UDPClient.cpp: what `run` receives and sends until the client is disconnected.
use flakkari.Prelude.{
  ℕ, suc, ◌≡◌, refl, sym, ap, ◌∙◌, [], ◌∷◌, ◌++◌, append_assoc, append-nil, List, Bool, true, false,
  Bytes, some, ok, ◌>>=◌, ◌==◌, arith,
}
use flakkari.Protocol.Commands.{req_heartbeat}
use flakkari.Protocol.Packet.{Packet, new_packet, serialize}
use flakkari.Client.UdpClient.{UdpClient, handle_timeout, send_packet, disconnect_from_server}
use flakkari.Client.UdpClient.Queueing.{
  AllValid, serialize_each, handle_packet-some, take_responses-serialize_each,
}
use flakkari.Client.UdpClient.Running.{Step, disconnect, wait, woken, handle_each, round, run}

-- What reaches a client: nothing for a while, or batches of packets.
pub data Event : Type 0 where
  silence : ℕ → Event
  packets : ℕ → ℕ → List (List Packet) → Event

abbrev batches : List (List Packet) → List (List Bytes)
batches [] = []
batches (ps ∷ pss) = serialize_each ps ∷ batches pss

abbrev pub joined : List (List Packet) → List Packet
joined [] = []
joined (ps ∷ pss) = ps ++ joined pss

abbrev BatchesValid : List (List Packet) → Type 0
BatchesValid [] = Unit {0}
BatchesValid (ps ∷ pss) = AllValid ps × BatchesValid pss

abbrev pub EventsValid : List Event → Type 0
EventsValid [] = Unit {0}
EventsValid (silence now ∷ es) = EventsValid es
EventsValid (packets now n pss ∷ es) = BatchesValid pss × EventsValid es

-- The wait of an event: its result is 0 where it timed out.
abbrev pub waits : List Event → List Step
waits [] = []
waits (silence now ∷ es) = wait (woken now 0 []) ∷ waits es
waits (packets now n pss ∷ es) = wait (woken now (suc n) (batches pss)) ∷ waits es

abbrev pub received : List Event → List Packet
received [] = []
received (silence now ∷ es) = received es
received (packets now n pss ∷ es) = joined pss ++ received es

abbrev pub heartbeats : List Event → List Bytes
heartbeats [] = []
heartbeats (silence now ∷ es) = serialize (new_packet req_heartbeat now) ∷ heartbeats es
heartbeats (packets now n pss ∷ es) = heartbeats es

-- A client that runs and has a socket.
abbrev pub client : Bytes → List Bytes → List Packet → Bool → UdpClient
client name sent queue running = record {
  game_name = name;
  running = running;
  sent = some sent;
  packet_queue = queue;
}

module _ (name : Bytes) where
  handle_each-batches :
      (now : ℕ) (pss : List (List Packet)) (sent : List Bytes) (queue : List Packet)
      → BatchesValid pss
      → handle_each now (batches pss) (client name sent queue true)
        ≡ ok (client name sent (queue ++ joined pss) true)
  unfolding handle_each
  handle_each-batches now [] sent queue v =
      ap (λ q. ok (client name sent q true)) (sym (append-nil queue))
  handle_each-batches now (ps ∷ pss) sent queue (v, vs) =
      let c = client name sent queue true in
      let taken =
        handle_packet-some now (serialize_each ps) c sent refl
        ∙ take_responses-serialize_each now ps c v in
      ap (λ o. o >>= handle_each now (batches pss)) taken
      ∙ handle_each-batches now pss sent (queue ++ ps) vs
      ∙ ap (λ q. ok (client name sent q true)) (append_assoc queue ps (joined pss))

  round-ready :
      (now n : ℕ) (ready : List (List Bytes)) (c : UdpClient)
      → round (woken now (suc n) ready) c ≡ handle_each now ready c
  unfolding round handle_timeout
  round-ready now n ready c = let e : (suc n == 0) ≡ false = ground arith in rw e refl

  stopped :
      (later : List Step) (sent : List Bytes) (queue : List Packet)
      → run later (client name sent queue false) ≡ ok (client name sent queue false)
  unfolding run disconnect_from_server
  stopped [] sent queue = refl
  stopped (disconnect ∷ later) sent queue = stopped later sent queue
  stopped (wait w ∷ later) sent queue = refl

  -- A client that runs and has a socket, whose waits all time out or return batches of valid packets, and
  -- which is then disconnected: whatever would come later, `run` returns, every packet stands behind the
  -- old ones in the queue in the order in which they came, and one heartbeat was sent for each wait that
  -- timed out.
  pub run-received :
      (es : List Event) (later : List Step) (sent : List Bytes) (queue : List Packet)
      → EventsValid es
      → run (waits es ++ disconnect ∷ later) (client name sent queue true)
        ≡ ok (client name (sent ++ heartbeats es) (queue ++ received es) false)
  unfolding run round handle_timeout send_packet disconnect_from_server
  run-received [] later sent queue v =
      stopped later sent queue
      ∙ ap (λ s. ok (client name s queue false)) (sym (append-nil sent))
      ∙ ap (λ q. ok (client name (sent ++ []) q false)) (sym (append-nil queue))
  run-received (silence now ∷ es) later sent queue v =
      let beat = serialize (new_packet req_heartbeat now) in
      run-received es later (sent ++ beat ∷ []) queue v
      ∙ ap (λ s. ok (client name s (queue ++ received es) false))
          (append_assoc sent (beat ∷ []) (heartbeats es))
  run-received (packets now n pss ∷ es) later sent queue (v, vs) =
      ap (λ o. o >>= run (waits es ++ disconnect ∷ later))
        (round-ready now n (batches pss) (client name sent queue true)
          ∙ handle_each-batches now pss sent queue v)
      ∙ run-received es later sent (queue ++ joined pss) vs
      ∙ ap (λ q. ok (client name (sent ++ heartbeats es) q false))
          (append_assoc queue (joined pss) (received es))
