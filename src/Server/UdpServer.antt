-- ===== src/Server/UdpServer.antt =====
-- Server/UDPServer.cpp: `handlePacket` and `handleTimeout`. What the socket received and the clock are
-- arguments.
pub mod Rejecting
pub mod Running
pub mod Banning
pub mod Unheard
mod Tests
use flakkari.Prelude.{
  ℕ, ◌≡◌, [], ◌∷◌, List, Bool, true, false, Option, none, some, Bytes, Outcome, ok, undefined,
  ◌>>=◌, ◌==◌, if◌then◌else◌,
}
use flakkari.Server.Client.{Address, or_empty}
use flakkari.Server.ClientManager.{
  ClientManager, Reply, add_client, remove_client, check_inactive_clients,
  receive_packet_from_client,
}
use flakkari.Server.ResourceManager.{Templates, delete_game}
use flakkari.Server.Game.{Template}
use flakkari.Server.GameManager.{GameManager, Hall, add_client_to_game, remove_client_from_game}

-- The three singletons. The clients that the games see are the ClientManager's heap.
pub record UdpServer : Type 0 where
  pub clients : ClientManager
  pub games : GameManager
  pub templates : Templates Template

abbrev pub hall_of : UdpServer → Hall
hall_of s = record { manager = s.games; heap = s.clients.heap; templates = s.templates }

abbrev pub with_hall : Hall → UdpServer → UdpServer
with_hall hall s = record {
  clients = record (s.clients) { heap = hall.heap };
  games = hall.manager;
  templates = hall.templates;
}

abbrev pub with_clients : ClientManager → UdpServer → UdpServer
with_clients m s = record s { clients = m }

unfoldable pub handle_timeout : ℕ → ℕ → UdpServer → Bool × UdpServer
handle_timeout now event s =
    if event == 0 then (true, with_clients (check_inactive_clients now s.clients) s) else (false, s)

module _ (to_float : ℕ → ℕ) where
  -- A client that `addClient` made joins the game; a null one, which it never gives with a game's name, is
  -- not modelled further.
  unfoldable pub join : ℕ → Address → Bytes → Option ℕ → UdpServer → Outcome UdpServer
  join now a name none s = undefined
  join now a name (some p) s = add_client_to_game to_float now name p (hall_of s) >>= λ r.
      let s' = with_hall r.1 s in
      ok (if r.0 then s' else with_clients (remove_client (or_empty a.text) s'.clients) s')

  -- A client that has to leave its game.
  unfoldable pub leave : ℕ → Bytes → Option ℕ → UdpServer → Outcome UdpServer
  leave now name none s = undefined
  leave now name (some p) s = remove_client_from_game to_float now name p (hall_of s) >>= λ r.
      let s' = with_hall r.1 s in
      ok (if r.0 then s' else record s' { templates = delete_game name s'.templates })

  unfoldable pub receive : ℕ → Address → Bytes → UdpServer → Outcome UdpServer
  receive now a buffer s = receive_packet_from_client a buffer now s.clients >>= λ r.
      let s' = with_clients r.1 s in
      elim r.0 [ none ↦ ok s' | some (name, p) ↦ leave now name p s' ]

  -- `handlePacket` after `addClient`.
  unfoldable pub dispatch : ℕ → Address → Bytes → UdpServer → Reply → Outcome UdpServer
  dispatch now a buffer s (none, m) = ok (with_clients m s)
  dispatch now a buffer s (some (c ∷ cs, p), m) = join now a (c ∷ cs) p (with_clients m s) >>= λ s'.
      ok (with_clients (check_inactive_clients now s'.clients) s')
  dispatch now a buffer s (some ([], p), m) =
      receive now a buffer (with_clients (check_inactive_clients now m) s)

  unfoldable pub handle_packet : ℕ → Address → Bytes → UdpServer → Outcome UdpServer
  handle_packet now a buffer s =
      add_client a buffer now s.clients >>= λ r. dispatch now a buffer s r
