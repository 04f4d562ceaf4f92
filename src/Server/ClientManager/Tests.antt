-- ===== src/Server/ClientManager/Tests.antt =====
-- Server/Client/ClientManager.cpp: examples.
use flakkari.Prelude.{
  arith, ◌+◌, ◌≡◌, ◌≤◌, ◌<◌, ◌^◌, refl, [], ◌∷◌, false, some, none, lookup, ok, throws, undefined,
  runtime_error, ◌⊎◌, text_eq, from_le,
}
use flakkari.Protocol.Packet.{Packet, serialize, deserialize, new_packet}
use flakkari.Protocol.Packet.Tests.{request, request-IsValid}
use flakkari.Server.Client.{new_client}
use flakkari.Server.Client.Tests.{address, client}
use flakkari.Server.ClientManager.{
  ClientManager, is_banned, contains_text, add_client, connect, receive_packet_from_client,
}
use flakkari.Server.ClientManager.Joining.{Admits, add_client-Admits, add_client-serialize}
use flakkari.Server.ClientManager.Receiving.{receive_packet-serialize}

abbrev pub no_clients : ClientManager
no_clients = record { clients = []; banned_clients = []; heap = []; sent = [] }

abbrev pub one_client : ClientManager
one_client = record {
  clients = (49 ∷ [], some 0) ∷ [];
  banned_clients = [];
  heap = client ∷ [];
  sent = [];
}

add_client-Admits_example :
    Admits address (1 ∷ 2 ∷ []) 5 no_clients (add_client address (1 ∷ 2 ∷ []) 5 no_clients)
unfolding is_banned contains_text lookup
add_client-Admits_example =
    add_client-Admits address (1 ∷ 2 ∷ []) 5 no_clients (omega arith, (omega arith, tt)) refl refl

add_client-serialize_example :
    ((6 < 4) × (add_client address (serialize request) 5 no_clients ≡ throws runtime_error))
    ⊎ ((4 ≤ 6)
        × ((2 ^ 31 ≤ 2) ⊎ (6 < 2 + 4))
        × (add_client address (serialize request) 5 no_clients ≡ undefined))
    ⊎ ((2 + 4 ≤ 6)
        × (2 < 2 ^ 31)
        × ((q : Packet) × (q.api_version ≡ 1)
            × (add_client address (serialize request) 5 no_clients
                ≡ ok (connect address 5 no_clients (97 ∷ 98 ∷ [], q)))))
unfolding is_banned contains_text lookup from_le
add_client-serialize_example =
    add_client-serialize address 5 no_clients request request-IsValid refl refl refl

receive_packet-serialize_example :
    receive_packet_from_client address (serialize request) 5 one_client
    ≡ ok (
      none,
      record one_client {
        heap = record client { api_version = 1; receive_queue = request ∷ [] } ∷ [];
      },
    )
unfolding is_banned contains_text lookup new_client text_eq
receive_packet-serialize_example =
    receive_packet-serialize address 5 one_client 0 client request request-IsValid refl refl refl

malformed : deserialize (new_packet 0 5) (1 ∷ []) ≡ ok (new_packet 0 5, false)
unfolding deserialize
malformed = refl
