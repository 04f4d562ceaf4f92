-- ===== src/Server/UdpServer/Running.antt =====
-- Server/UDPServer.cpp: `run`, with what each wait returned. One `now` serves a ready descriptor.
use flakkari.Prelude.{
  ℕ, [], ◌∷◌, List, Bool, Option, none, some, Bytes, Outcome, ok, throws, runtime_error, ◌>>=◌,
  if◌then◌else◌,
}
use flakkari.Server.Client.{Address}
use flakkari.Server.GameManager.{ConfigFile}
use flakkari.Server.CommandManager.{handle_command}
use flakkari.Server.UdpServer.{UdpServer, handle_timeout, handle_packet}

-- The server, and whether its console is unlocked.
pub record Running : Type 0 where
  pub server : UdpServer
  pub unlocked : Bool

-- A descriptor that is ready: the standard input with its next line, or none at its end, and the socket
-- with what `receiveFrom` returned.
pub data Ready : Type 0 where
  input : Option Bytes → Ready
  datagram : Option (Address × Bytes) → Ready

-- A wait that failed, with what `skipableError` says, or the result and the descriptors that are ready,
-- each at its time.
pub data Wait : Type 0 where
  failed : Bool → Wait
  woken : ℕ → ℕ → List (ℕ × Ready) → Wait

module _ (to_float : ℕ → ℕ) (password : Option Bytes) (files : Bytes → ConfigFile) where
  -- `handleInput`: the end of the input is tested for before a line is read.
  unfoldable pub handle_input : Option Bytes → Running → Outcome Running
  handle_input none s = throws runtime_error
  handle_input (some line) s =
      handle_command password files line (record { unlocked = s.unlocked; games = s.server.games })
      >>= λ k. ok (record { server = record (s.server) { games = k.games }; unlocked = k.unlocked })

  unfoldable pub handle_ready : ℕ → Ready → Running → Outcome Running
  handle_ready now (input line) s = handle_input line s
  handle_ready now (datagram none) s = ok s
  handle_ready now (datagram (some (a, buffer))) s =
      handle_packet to_float now a buffer s.server >>= λ server. ok (record s { server = server })

  -- The loop over the descriptors.
  unfoldable pub handle_each : List (ℕ × Ready) → Running → Outcome Running
  handle_each [] s = ok s
  handle_each ((now, r) ∷ rest) s = handle_ready now r s >>= λ s'. handle_each rest s'

  -- A round of the loop of `run`.
  unfoldable pub round : Wait → Running → Outcome Running
  round (failed skipable) s = if skipable then ok s else throws runtime_error
  round (woken now result descriptors) s =
      let (timed_out, server) = handle_timeout now result s.server in
      let s' = record s { server = server } in
      if timed_out then ok s' else handle_each descriptors s'

  -- The rounds so far: the loop itself only ends by an exception.
  unfoldable pub run : List Wait → Running → Outcome Running
  run [] s = ok s
  run (w ∷ ws) s = round w s >>= λ s'. run ws s'
