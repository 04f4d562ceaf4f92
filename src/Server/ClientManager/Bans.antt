-- ===== src/Server/ClientManager/Bans.antt =====
-- Server/Client/ClientManager.cpp: banned addresses.
use flakkari.Prelude.{ℕ, ◌≡◌, [], ◌∷◌, ◌++◌, List, true, ◌||◌, none, Bytes, text_eq, ok, arith}
use flakkari.Server.Client.{Address, or_empty}
use flakkari.Server.ClientManager.{
  ClientManager, Reply, contains_text, is_banned, ban, add_client, receive_packet_from_client,
}

pub contains_text-snoc :
    (s t : Bytes) (ts : List Bytes)
    → contains_text s (ts ++ t ∷ []) ≡ (contains_text s ts || text_eq t s)
unfolding contains_text
contains_text-snoc s t [] = ground arith
contains_text-snoc s t (u ∷ ts) = ground (arith, contains_text-snoc s t ts)

-- Nothing that comes from a banned address has an effect or gets an answer: neither a request to connect
-- nor any other packet.
pub banned_is_ignored :
    (a : Address) (buffer : Bytes) (now : ℕ) (m : ClientManager)
    → is_banned a m ≡ true
    → (add_client a buffer now m ≡ ok (none, m))
      × (receive_packet_from_client a buffer now m ≡ ok (none, m))
unfolding add_client receive_packet_from_client
banned_is_ignored a buffer now m h = (rw h, rw h)

-- A ban throws for an address with no IP; for any other it bans that IP and keeps the old bans.
pub ban-is_banned :
    (a b : Address) (m : ClientManager) {r : Reply}
    → ban a m ≡ ok r
    → (is_banned b r.1 ≡ (is_banned b m || text_eq (or_empty a.ip) (or_empty b.ip)))
      × (r.0 ≡ none)
      × (r.1.clients ≡ m.clients)
      × (r.1.heap ≡ m.heap)
unfolding ban is_banned
ban-is_banned a b m h =
    ground (arith, contains_text-snoc (or_empty b.ip) (or_empty a.ip) m.banned_clients)
