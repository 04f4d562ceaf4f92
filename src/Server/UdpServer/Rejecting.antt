-- ===== src/Server/UdpServer/Rejecting.antt =====
-- Server/UDPServer.cpp: what is left of a packet that does not lead to a game.
use flakkari.Prelude.{
  ℕ, ◌+◌, ◌^◌, ◌≤◌, ◌<◌, ◌≡◌, refl, ap, ◌∙◌, ◌∷◌, true, false, none, some, Bytes, lookup, erase,
  lookup-erase, text_eq_refl, length, take, drop, from_le, ok, ◌>>=◌, inl, inr, arith,
}
use flakkari.Protocol.Commands.{req_connect}
use flakkari.Protocol.Packet.{Packet, serialize}
use flakkari.Protocol.Packet.Codec.{IsValid}
use flakkari.Server.Client.{Address, or_empty}
use flakkari.Server.ClientManager.{
  ClientManager, is_banned, add_client, connect, remove_client, check_inactive_clients,
}
use flakkari.Server.ClientManager.Bans.{banned_is_ignored}
use flakkari.Server.ClientManager.Joining.{add_client-serialize}
use flakkari.Server.ClientManager.Inactive.{keep_active-none}
use flakkari.Server.GameManager.Store.{add_client_to_game_unknown}
use flakkari.Server.UdpServer.{UdpServer, handle_packet, dispatch, join, with_clients, hall_of}

connects :
    (a : Address) (now : ℕ) (m : ClientManager) (p : Packet)
    → IsValid p
    → p.command_id ≡ req_connect
    → is_banned a m ≡ false
    → lookup (or_empty a.text) m.clients ≡ none
    → from_le (take 4 p.payload) + 4 ≤ length p.payload
    → from_le (take 4 p.payload) < 2 ^ 31
    → (q : Packet) × (add_client a (serialize p) now m
        ≡ ok (connect a now m (take (from_le (take 4 p.payload)) (drop 4 p.payload), q)))
connects a now m p valid request free unknown fits small =
    elim (add_client-serialize a now m p valid request free unknown) [
      | inl (short, _) ↦ absurd (omega arith)
      | inr (inl (_, inl bad, _)) ↦ absurd (omega arith)
      | inr (inl (_, inr bad, _)) ↦ absurd (omega arith)
      | inr (inr (_, _, (q, _, e))) ↦ (q, e)
    ]

module _ (to_float : ℕ → ℕ) where
  dispatch_unknown :
      (now : ℕ) (a : Address) (buffer : Bytes) (s : UdpServer) (c k : ℕ) (cs : Bytes)
      (m : ClientManager)
      → lookup (c ∷ cs) s.games.games_store ≡ none
      → dispatch to_float now a buffer s (some (c ∷ cs, some k), m)
        ≡ ok (with_clients (check_inactive_clients now (remove_client (or_empty a.text) m)) s)
  unfolding dispatch join
  dispatch_unknown now a buffer s c k cs m absent =
      rw (add_client_to_game_unknown to_float now k (c ∷ cs) (hall_of (with_clients m s)) absent)
        refl

  -- A valid request to connect, from an address that is neither banned nor known, to a game that is not in
  -- the store: `handlePacket` returns, and afterwards no client stands under the address, no ban was
  -- added, and the games and their templates are as they were.
  pub handle_packet_unknown_game :
      (now : ℕ) (a : Address) (p : Packet) (s : UdpServer) (c : ℕ) (cs : Bytes)
      → let n = from_le (take 4 p.payload) in
        IsValid p
        → p.command_id ≡ req_connect
        → is_banned a s.clients ≡ false
        → lookup (or_empty a.text) s.clients.clients ≡ none
        → n + 4 ≤ length p.payload
        → n < 2 ^ 31
        → take n (drop 4 p.payload) ≡ c ∷ cs
        → lookup (c ∷ cs) s.games.games_store ≡ none
        → (s' : UdpServer) × (handle_packet to_float now a (serialize p) s ≡ ok s')
          × (lookup (or_empty a.text) s'.clients.clients ≡ none)
          × (s'.clients.banned_clients ≡ s.clients.banned_clients)
          × (s'.games ≡ s.games)
          × (s'.templates ≡ s.templates)
  unfolding handle_packet check_inactive_clients remove_client connect
  handle_packet_unknown_game now a p s c cs valid request free unknown fits small name absent =
      let (q, e) = connects a now s.clients p valid request free unknown fits small in
      let m = (connect a now s.clients (c ∷ cs, q)).1 in
      (
        with_clients (check_inactive_clients now (remove_client (or_empty a.text) m)) s,
        ap (λ o. o >>= λ r. dispatch to_float now a (serialize p) s r) e
            ∙ ap (λ n. dispatch to_float now a (serialize p) s (connect a now s.clients (n, q)))
                name
            ∙ dispatch_unknown now a (serialize p) s c (length s.clients.heap) cs m absent,
        keep_active-none now m.heap (or_empty a.text) (erase (or_empty a.text) m.clients) (
            rw
              (
                lookup-erase (or_empty a.text) (or_empty a.text) m.clients,
                text_eq_refl (or_empty a.text),
              )
              refl),
        refl,
        refl,
        refl,
      )

  -- A packet from a banned address, whatever it holds, leaves the whole server as it was.
  pub handle_packet_banned :
      (now : ℕ) (a : Address) (buffer : Bytes) (s : UdpServer)
      → is_banned a s.clients ≡ true
      → handle_packet to_float now a buffer s ≡ ok s
  unfolding handle_packet dispatch
  handle_packet_banned now a buffer s banned =
      let (ignored, _) = banned_is_ignored a buffer now s.clients banned in rw ignored refl
