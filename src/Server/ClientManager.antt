-- ===== src/Server/ClientManager.antt =====
-- Server/Client/ClientManager.cpp. A std::shared_ptr<Client> is none for null, or the index of the client
-- in `heap`, to which the games point too; what the socket sends is logged in `sent`.
pub mod Tests
pub mod Bans
pub mod Lasting
pub mod Joining
pub mod Inactive
pub mod Receiving
use flakkari.Prelude.{
  ℕ, ◌+◌, ◌≡◌, [], ◌∷◌, ◌++◌, List, Bool, true, false, not, ◌&&◌, ◌||◌, Option, none, some, Bytes,
  text_eq, Dict, lookup, insert, erase, get_elem?, set, length, Outcome, ok, throws, undefined,
  bad_optional_access, ◌>>=◌, ◌==◌, if◌then◌else◌,
}
use flakkari.Protocol.Commands.{req_connect, req_disconnect}
use flakkari.Protocol.Packet.{Packet, new_packet, deserialize, extract_string}
use flakkari.Server.Client.{
  Address, Client, or_empty, new_client, is_connected, keep_alive, increment_warning_count,
  add_packet_to_receive_queue,
}

pub record ClientManager : Type 0 where
  pub clients : Dict (Option ℕ)
  pub banned_clients : List Bytes
  pub heap : List Client
  pub sent : List (Address × Bytes)

-- `ptr->…`
pub deref : Option ℕ → List Client → Outcome Client
deref none heap = undefined
deref (some p) heap = elim (get_elem? heap p) [ none ↦ undefined | some c ↦ ok c ]

pub write_client : Option ℕ → Client → ClientManager → ClientManager
write_client none c m = m
write_client (some p) c m = record m { heap = set m.heap p c }

-- `std::find(texts.begin(), texts.end(), s) != texts.end()`
unfoldable pub contains_text : Bytes → List Bytes → Bool
contains_text s [] = false
contains_text s (t ∷ ts) = text_eq t s || contains_text s ts

unfoldable pub is_banned : Address → ClientManager → Bool
is_banned a m = contains_text (or_empty a.ip) m.banned_clients

-- The result of `addClient` and `receivePacketFromClient`: a game's name and a client.
abbrev pub Reply : Type 0
Reply = Option (Bytes × Option ℕ) × ClientManager

-- `_bannedClients.push_back(client->getIp().value())`
pub ban : Address → ClientManager → Outcome Reply
ban a m = elim a.ip [
  | none ↦ throws bad_optional_access
  | some ip ↦ ok (none, record m { banned_clients = m.banned_clients ++ ip ∷ [] })
]

-- A new client, under its address, for the game that its packet names.
unfoldable pub connect : Address → ℕ → ClientManager → Bytes × Packet → Reply
connect a now m (game_name, packet) = (
  some (game_name, some (length m.heap)),
  record m {
    clients = insert (or_empty a.text) (some (length m.heap)) m.clients;
    heap = m.heap ++ new_client a game_name packet.api_version now ∷ [];
  },
)

pub admit : Address → ℕ → ClientManager → Packet × Bool → Outcome Reply
admit a now m (packet, valid) =
    if valid && (packet.command_id == req_connect)
    then (extract_string packet >>= λ r. ok (connect a now m r))
    else ban a m

-- `addClient`. The packet that `deserialize` fills has no command before that; nothing reads it.
pub add_client : Address → Bytes → ℕ → ClientManager → Outcome Reply
add_client a buffer now m =
    if is_banned a m then ok (none, m) else elim (lookup (or_empty a.text) m.clients) [
      | some p ↦ deref p m.heap >>= λ c. ok (some ([], none), write_client p (keep_alive now c) m)
      | none ↦ deserialize (new_packet 0 now) buffer >>= admit a now m
    ]

unfoldable pub remove_client : Bytes → ClientManager → ClientManager
remove_client name m = record m { clients = erase name m.clients }

-- `it->second->isConnected()`. The call on a null client is undefined in C++; the first test of
-- `isConnected`, `!this`, is written for it and is taken as written. No null client is reached by
-- the server's own calls.
pub is_active : ℕ → List Client → Option ℕ → Bool
is_active now heap none = false
is_active now heap (some p) = elim (get_elem? heap p) [ none ↦ false | some c ↦ is_connected now c ]

pub keep_active : ℕ → List Client → Dict (Option ℕ) → Dict (Option ℕ)
keep_active now heap [] = []
keep_active now heap ((k, p) ∷ m) =
    if is_active now heap p then (k, p) ∷ keep_active now heap m else keep_active now heap m

unfoldable pub check_inactive_clients : ℕ → ClientManager → ClientManager
check_inactive_clients now m = record m { clients = keep_active now m.heap m.clients }

unfoldable pub send_packet_to_client : Address → Bytes → ClientManager → ClientManager
send_packet_to_client a packet m = record m { sent = m.sent ++ (a, packet) ∷ [] }

-- The loop of `sendPacketToAllClients`: those clients that are connected.
pub send_to_each : ℕ → Bytes → List Client → Dict (Option ℕ) → List (Address × Bytes)
send_to_each now packet heap [] = []
send_to_each now packet heap ((k, none) ∷ m) = send_to_each now packet heap m
send_to_each now packet heap ((k, some p) ∷ m) =
    let rest = send_to_each now packet heap m in
    elim (get_elem? heap p) [
      | none ↦ rest
      | some c ↦ if is_connected now c then (c.address, packet) ∷ rest else rest
    ]

pub send_packet_to_all_clients : ℕ → Bytes → ClientManager → ClientManager
send_packet_to_all_clients now packet m = record m {
  sent = m.sent ++ send_to_each now packet m.heap m.clients;
}

-- The loop of `sendPacketToAllClientsExcept`, which asks for the name first: of a null client too.
pub send_to_others :
    ℕ → Bytes → Bytes → List Client → Dict (Option ℕ) → Outcome (List (Address × Bytes))
send_to_others now key packet heap [] = ok []
send_to_others now key packet heap ((k, p) ∷ m) = deref p heap >>= λ c.
    send_to_others now key packet heap m >>= λ rest.
    ok (if is_connected now c && not (text_eq c.name key) then (c.address, packet) ∷ rest else rest)

pub send_packet_to_all_clients_except : ℕ → Address → Bytes → ClientManager → Outcome ClientManager
send_packet_to_all_clients_except now a packet m =
    send_to_others now (or_empty a.text) packet m.heap m.clients >>= λ out.
    ok (record m { sent = m.sent ++ out })

-- What `receivePacketFromClient` does with a packet of a known client.
pub handle_received : Bytes → Option ℕ → Client → ClientManager → Packet × Bool → Reply
handle_received ip p c m (packet, true) =
    if packet.command_id == req_disconnect
    then (some (c.game_name, p), m)
    else (none, write_client p (add_packet_to_receive_queue packet c) m)
handle_received ip p c m (packet, false) =
    let (c', too_many) = increment_warning_count c in
    let m' = write_client p c' m in
    if too_many
    then (some (c'.game_name, p), record m' { banned_clients = m.banned_clients ++ ip ∷ [] })
    else (none, m')

pub receive_packet_from_client : Address → Bytes → ℕ → ClientManager → Outcome Reply
receive_packet_from_client a buffer now m =
    if is_banned a m then ok (none, m) else elim (lookup (or_empty a.text) m.clients) [
      | none ↦ ok (none, m)
      | some p ↦ deref p m.heap >>= λ c. deserialize (new_packet 0 now) buffer >>= λ r.
          ok (handle_received (or_empty a.ip) p c m r)
    ]

-- `_clients[id]`, which the getters read: a missing entry is made, with a null client.
pub get_client : Bytes → ClientManager → Option ℕ × ClientManager
get_client id m = elim (lookup id m.clients) [
  | none ↦ (none, record m { clients = insert id none m.clients })
  | some client ↦ (client, m)
]

-- The overload that takes an address.
pub get_client_of : Address → ClientManager → Option ℕ × ClientManager
get_client_of a m = get_client (or_empty a.text) m

-- `getAddress`, which goes through the pointer.
pub get_address : Bytes → ClientManager → Outcome (Address × ClientManager)
get_address id m =
    let (client, m') = get_client id m in
    elim client [
      | none ↦ undefined
      | some p ↦ elim (get_elem? m'.heap p) [ none ↦ undefined | some c ↦ ok (c.address, m') ]
    ]
