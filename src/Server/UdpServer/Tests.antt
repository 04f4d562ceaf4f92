-- ===== src/Server/UdpServer/Tests.antt =====
-- Server/UDPServer.cpp: examples.
use flakkari.Prelude.{◌≡◌, refl, [], ◌∷◌, none, ok, lookup, from_le, arith}
use flakkari.Protocol.Packet.{serialize}
use flakkari.Protocol.Packet.Tests.{request, request-IsValid}
use flakkari.Server.Client.Tests.{address}
use flakkari.Server.ClientManager.{is_banned, contains_text}
use flakkari.Server.ClientManager.Tests.{no_clients}
use flakkari.Server.UdpServer.{UdpServer, handle_packet}
use flakkari.Server.UdpServer.Rejecting.{handle_packet_unknown_game}
use flakkari.Prelude.{List, false, some, text_eq}
use flakkari.Server.Client.{or_empty}
use flakkari.Server.ClientManager.Lasting.{LeavesBanned}
use flakkari.Server.GameManager.{not_open}
use flakkari.Server.UdpServer.Running.{Running, Wait, woken, datagram, run}
use flakkari.Server.UdpServer.Unheard.{running_clients, without, run-without}

abbrev server : UdpServer
server = record {
  clients = no_clients;
  games = record {
    waiting_clients = [];
    games_instances = [];
    games_store = [];
    games_remove_request = [];
  };
  templates = [];
}

abbrev banning : UdpServer
banning = record server { clients = record no_clients { banned_clients = (49 ∷ 46 ∷ []) ∷ [] } }

handle_packet_unknown_game_example :
    (s : UdpServer) × (handle_packet (λ d. d) 5 address (serialize request) server ≡ ok s)
    × (lookup (49 ∷ []) s.clients.clients ≡ none)
    × (s.clients.banned_clients ≡ [])
    × (s.games ≡ server.games)
    × (s.templates ≡ [])
unfolding is_banned contains_text lookup from_le
handle_packet_unknown_game_example =
    handle_packet_unknown_game (λ d. d) 5 address request server 97 (98 ∷ []) request-IsValid refl
      refl refl (omega arith) (omega arith) refl refl

-- One datagram of the banned IP, and a timeout.
abbrev waits : List Wait
waits = woken 5 1 ((5, datagram (some (address, serialize request))) ∷ []) ∷ woken 9 0 [] ∷ []

abbrev running : Running
running = record {
  server = record server {
    clients = record no_clients { banned_clients = or_empty address.ip ∷ [] };
  };
  unlocked = false;
}

run-without_example :
    (run (λ d. d) none (λ path. not_open) waits running
      ≡ run (λ d. d) none (λ path. not_open) (without address waits) running)
    × LeavesBanned running_clients address (run (λ d. d) none (λ path. not_open) waits running)
unfolding is_banned contains_text text_eq
run-without_example = run-without address (λ d. d) none (λ path. not_open) waits running refl
