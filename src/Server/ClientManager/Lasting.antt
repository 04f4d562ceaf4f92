-- ===== src/Server/ClientManager/Lasting.antt =====
-- Server/Client/ClientManager.cpp: a ban lasts.
use flakkari.Prelude.{
  ℕ, ◌≡◌, refl, ap, ◌∙◌, [], ◌∷◌, ◌++◌, Bool, true, false, Option, none, some, Bytes, Outcome, ok,
  throws, undefined, ◌>>=◌, Bool-cases, Option-cases, inl, inr, arith, ◌==◌, ◌&&◌, lookup,
}
use flakkari.Protocol.Commands.{req_connect, req_disconnect}
use flakkari.Protocol.Packet.{Packet, new_packet, deserialize, extract_string}
use flakkari.Server.Client.{
  Address, Client, or_empty, keep_alive, increment_warning_count, add_packet_to_receive_queue,
}
use flakkari.Server.ClientManager.{
  ClientManager, Reply, contains_text, is_banned, ban, admit, connect, add_client, deref,
  write_client, handle_received, receive_packet_from_client,
}
use flakkari.Server.ClientManager.Bans.{contains_text-snoc}

-- A call leaves the address banned, if it returns.
abbrev pub LeavesBanned : {A : Type 0} → (A → ClientManager) → Address → Outcome A → Type 0
LeavesBanned clients_of b (ok s) = is_banned b (clients_of s) ≡ true
LeavesBanned clients_of b (throws e) = Unit {0}
LeavesBanned clients_of b undefined = Unit {0}

-- A call, and what follows it.
pub LeavesBanned-then :
    {A B : Type 0} (b : Address) (f : A → ClientManager) (g : B → ClientManager) (call : Outcome A)
    (rest : A → Outcome B)
    → LeavesBanned f b call
    → ((v : A) → is_banned b (f v) ≡ true → LeavesBanned g b (rest v))
    → LeavesBanned g b (call >>= rest)
LeavesBanned-then b f g (ok v) rest h k = k v h
LeavesBanned-then b f g (throws e) rest h k = tt
LeavesBanned-then b f g undefined rest h k = tt

pub LeavesBanned-read :
    {A B : Type 0} (b : Address) (g : B → ClientManager) (read : Outcome A) (rest : A → Outcome B)
    → ((v : A) → LeavesBanned g b (rest v))
    → LeavesBanned g b (read >>= rest)
LeavesBanned-read b g (ok v) rest k = k v
LeavesBanned-read b g (throws e) rest k = tt
LeavesBanned-read b g undefined rest k = tt

-- Whether an address is banned depends on the list of bans.
is_banned-append :
    (b : Address) (ip : Bytes) (m m' : ClientManager)
    → m'.banned_clients ≡ m.banned_clients ++ ip ∷ []
    → is_banned b m ≡ true
    → is_banned b m' ≡ true
unfolding is_banned
is_banned-append b ip m m' e h =
    ap (contains_text (or_empty b.ip)) e
    ∙ ground (arith, contains_text-snoc (or_empty b.ip) ip m.banned_clients)

is_banned-write_client :
    (b : Address) (p : Option ℕ) (c : Client) (m : ClientManager)
    → is_banned b m ≡ true
    → is_banned b (write_client p c m) ≡ true
unfolding is_banned write_client
is_banned-write_client b none c m h = h
is_banned-write_client b (some p) c m h = h

module _ (b : Address) where
  abbrev pub BannedAfter : Outcome Reply → Type 0
  BannedAfter = LeavesBanned {A = Reply} (λ r. r.1) b

  ban-BannedAfter : (a : Address) (m : ClientManager) → is_banned b m ≡ true → BannedAfter (ban a m)
  unfolding ban
  ban-BannedAfter a m h = elim (Option-cases a.ip) [
    | inl e ↦ rw (e, ban) tt
    | inr (ip, e) ↦
        rw (e, ban)
          (is_banned-append b ip m (record m { banned_clients = m.banned_clients ++ ip ∷ [] }) refl
            h)
  ]

  admit-BannedAfter :
      (a : Address) (now : ℕ) (m : ClientManager) (r : Packet × Bool)
      → is_banned b m ≡ true
      → BannedAfter (admit a now m r)
  unfolding admit connect is_banned
  admit-BannedAfter a now m (packet, valid) h =
      elim (Bool-cases (valid && (packet.command_id == req_connect))) [
        | inl e ↦ rw e (LeavesBanned-read b (λ (r : Reply). r.1) (extract_string packet) _ (λ r. h))
        | inr e ↦ rw e (ban-BannedAfter a m h)
      ]

  pub add_client-BannedAfter :
      (a : Address) (buffer : Bytes) (now : ℕ) (m : ClientManager)
      → is_banned b m ≡ true
      → BannedAfter (add_client a buffer now m)
  unfolding add_client
  add_client-BannedAfter a buffer now m h = elim (Bool-cases (is_banned a m)) [
    | inl e ↦ rw e h
    | inr e ↦ elim (Option-cases (lookup (or_empty a.text) m.clients)) [
      | inl l ↦
          rw (e, l, add_client)
            (LeavesBanned-read b (λ (r : Reply). r.1) (deserialize (new_packet 0 now) buffer) _
              (λ r. admit-BannedAfter a now m r h))
      | inr (p, l) ↦
          rw (e, l, add_client)
            (LeavesBanned-read b (λ (r : Reply). r.1) (deref p m.heap) _
              (λ c. is_banned-write_client b p (keep_alive now c) m h))
    ]
  ]

  handle_received-banned :
      (ip : Bytes) (p : Option ℕ) (c : Client) (m : ClientManager) (r : Packet × Bool)
      → is_banned b m ≡ true
      → is_banned b (handle_received ip p c m r).1 ≡ true
  unfolding handle_received
  handle_received-banned ip p c m (packet, true) h =
      elim (Bool-cases (packet.command_id == req_disconnect)) [
        | inl e ↦ rw e h
        | inr e ↦ rw e (is_banned-write_client b p (add_packet_to_receive_queue packet c) m h)
      ]
  handle_received-banned ip p c m (packet, false) h =
      let (c', too_many) = increment_warning_count c in
      let m' = write_client p c' m in
      elim (Bool-cases too_many) [
        | inl e ↦ rw e (
            is_banned-append b ip m (record m' { banned_clients = m.banned_clients ++ ip ∷ [] })
              refl h)
        | inr e ↦ rw e (is_banned-write_client b p c' m h)
      ]

  pub receive-BannedAfter :
      (a : Address) (buffer : Bytes) (now : ℕ) (m : ClientManager)
      → is_banned b m ≡ true
      → BannedAfter (receive_packet_from_client a buffer now m)
  unfolding receive_packet_from_client
  receive-BannedAfter a buffer now m h = elim (Bool-cases (is_banned a m)) [
    | inl e ↦ rw e h
    | inr e ↦ elim (Option-cases (lookup (or_empty a.text) m.clients)) [
      | inl l ↦ rw (e, l, receive_packet_from_client) h
      | inr (p, l) ↦
          rw (e, l, receive_packet_from_client)
            (LeavesBanned-read b (λ (r : Reply). r.1) (deref p m.heap) _
              λ c.
                LeavesBanned-read b (λ (r : Reply). r.1) (deserialize (new_packet 0 now) buffer) _
                  λ r. handle_received-banned (or_empty a.ip) p c m r h)
    ]
  ]
