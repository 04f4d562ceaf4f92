-- ===== src/Server/UdpServer/Banning.antt =====
-- Server/UDPServer.cpp: a ban lasts through `handlePacket`.
use flakkari.Prelude.{
  ℕ, ◌≡◌, [], ◌∷◌, true, Option, none, some, Bytes, Outcome, Bool-cases, Option-cases, inl, inr,
}
use flakkari.Server.Client.{Address}
use flakkari.Server.ClientManager.{
  ClientManager, Reply, is_banned, add_client, remove_client, check_inactive_clients,
  receive_packet_from_client,
}
use flakkari.Server.ClientManager.Lasting.{
  LeavesBanned, LeavesBanned-then, LeavesBanned-read, add_client-BannedAfter, receive-BannedAfter,
}
use flakkari.Server.UdpServer.{
  UdpServer, handle_packet, join, leave, receive, dispatch, with_clients, hall_of,
}
use flakkari.Server.GameManager.{add_client_to_game, remove_client_from_game}

abbrev pub clients_of : UdpServer → ClientManager
clients_of s = s.clients

module _ (b : Address) (to_float : ℕ → ℕ) where
  abbrev pub ServerAfter : Outcome UdpServer → Type 0
  ServerAfter = LeavesBanned clients_of b

  join-ServerAfter :
      (now : ℕ) (a : Address) (name : Bytes) (p : Option ℕ) (s : UdpServer)
      → is_banned b s.clients ≡ true
      → ServerAfter (join to_float now a name p s)
  unfolding join is_banned remove_client
  join-ServerAfter now a name none s h = tt
  join-ServerAfter now a name (some p) s h =
      LeavesBanned-read b clients_of (add_client_to_game to_float now name p (hall_of s)) _
        λ r. elim (Bool-cases r.0) [ inl e ↦ rw e h | inr e ↦ rw e h ]

  leave-ServerAfter :
      (now : ℕ) (name : Bytes) (p : Option ℕ) (s : UdpServer)
      → is_banned b s.clients ≡ true
      → ServerAfter (leave to_float now name p s)
  unfolding leave is_banned
  leave-ServerAfter now name none s h = tt
  leave-ServerAfter now name (some p) s h =
      LeavesBanned-read b clients_of (remove_client_from_game to_float now name p (hall_of s)) _
        λ r. elim (Bool-cases r.0) [ inl e ↦ rw e h | inr e ↦ rw e h ]

  receive-ServerAfter :
      (now : ℕ) (a : Address) (buffer : Bytes) (s : UdpServer)
      → is_banned b s.clients ≡ true
      → ServerAfter (receive to_float now a buffer s)
  unfolding receive
  receive-ServerAfter now a buffer s h =
      LeavesBanned-then b (λ (r : Reply). r.1) clients_of
        (receive_packet_from_client a buffer now s.clients) _
        (receive-BannedAfter b a buffer now s.clients h)
        λ r k. elim (Option-cases r.0) [
          | inl e ↦ rw e k
          | inr ((name, p), e) ↦ rw e (leave-ServerAfter now name p (with_clients r.1 s) k)
        ]

  dispatch-ServerAfter :
      (now : ℕ) (a : Address) (buffer : Bytes) (s : UdpServer) (r : Reply)
      → is_banned b r.1 ≡ true
      → ServerAfter (dispatch to_float now a buffer s r)
  unfolding dispatch is_banned check_inactive_clients
  dispatch-ServerAfter now a buffer s (none, m) h = h
  dispatch-ServerAfter now a buffer s (some (c ∷ cs, p), m) h =
      LeavesBanned-then b clients_of clients_of (join to_float now a (c ∷ cs) p (with_clients m s))
        _ (join-ServerAfter now a (c ∷ cs) p (with_clients m s) h) (λ s' k. k)
  dispatch-ServerAfter now a buffer s (some ([], p), m) h =
      receive-ServerAfter now a buffer (with_clients (check_inactive_clients now m) s) h

  pub handle_packet-ServerAfter :
      (now : ℕ) (a : Address) (buffer : Bytes) (s : UdpServer)
      → is_banned b s.clients ≡ true
      → ServerAfter (handle_packet to_float now a buffer s)
  unfolding handle_packet
  handle_packet-ServerAfter now a buffer s h =
      LeavesBanned-then b (λ (r : Reply). r.1) clients_of (add_client a buffer now s.clients) _
        (add_client-BannedAfter b a buffer now s.clients h)
        (λ r k. dispatch-ServerAfter now a buffer s r k)
