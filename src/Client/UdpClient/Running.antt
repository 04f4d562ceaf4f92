-- ===== src/Client/UdpClient/Running.antt =====
-- Client/UDPClient.cpp: `run`, with what each wait returned. Another thread may disconnect the client
-- between two rounds of the loop.
pub mod Receiving
use flakkari.Prelude.{
  ℕ, zero, suc, ◌≡◌, refl, sym, ap, ◌∙◌, [], ◌∷◌, ◌++◌, append_assoc, append-nil, List, Bool, true,
  false, not, Bytes, Option, some, none, Outcome, ok, throws, runtime_error, ◌>>=◌, if◌then◌else◌,
  ◌==◌, arith,
}
use flakkari.Protocol.Commands.{req_heartbeat}
use flakkari.Protocol.Packet.{Packet, new_packet, serialize}
use flakkari.Client.UdpClient.{
  UdpClient, handle_timeout, handle_packet, send_packet, take_responses, disconnect_from_server,
}
use flakkari.Client.UdpClient.Queueing.{
  AllValid, serialize_each, handle_packet-some, take_responses-serialize_each,
}

-- A wait that failed, with what `skipableError` says, or its time, its result, and for each descriptor that
-- is ready what `receiveBatch` returned.
pub data Wait : Type 0 where
  failed : Bool → Wait
  woken : ℕ → ℕ → List (List Bytes) → Wait

pub data Step : Type 0 where
  disconnect : Step
  wait : Wait → Step

pub handle_each : ℕ → List (List Bytes) → UdpClient → Outcome UdpClient
handle_each now [] c = ok c
handle_each now (responses ∷ rest) c =
    handle_packet now responses c >>= λ c'. handle_each now rest c'

pub round : Wait → UdpClient → Outcome UdpClient
round (failed skipable) c = if skipable then ok c else throws runtime_error
round (woken now result ready) c =
    let (timed_out, c') = handle_timeout now result c in
    if timed_out then ok c' else handle_each now ready c'

-- `run`, which returns once the client is not running, and the rounds so far where it has not returned.
pub run : List Step → UdpClient → Outcome UdpClient
run [] c = ok c
run (disconnect ∷ steps) c = run steps (disconnect_from_server c)
run (wait w ∷ steps) c = if not c.running then ok c else round w c >>= λ c'. run steps c'
