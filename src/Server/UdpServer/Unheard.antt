-- ===== src/Server/UdpServer/Unheard.antt =====
-- Server/UDPServer.cpp: a run of the server and the datagrams of a banned address.
use flakkari.Prelude.{
  ℕ, ◌≡◌, refl, ap, ◌∙◌, [], ◌∷◌, List, Bool, true, false, Option, none, some, Bytes, Outcome, ok,
  throws, undefined, ◌>>=◌, if◌then◌else◌, Bool-cases, inl, inr, text_eq, text_eq_iff, ◌==◌,
}
use flakkari.Server.Client.{Address, or_empty}
use flakkari.Server.GameManager.{ConfigFile}
use flakkari.Server.ClientManager.{ClientManager, contains_text, is_banned, check_inactive_clients}
use flakkari.Server.ClientManager.Bans.{banned_is_ignored}
use flakkari.Server.ClientManager.Lasting.{LeavesBanned, LeavesBanned-then, LeavesBanned-read}
use flakkari.Server.UdpServer.{handle_packet, handle_timeout, dispatch}
use flakkari.Server.CommandManager.{handle_command}
use flakkari.Server.UdpServer.Banning.{clients_of, handle_packet-ServerAfter}
use flakkari.Server.UdpServer.Running.{
  Running, Ready, Wait, input, datagram, failed, woken, handle_input, handle_ready, handle_each,
  round, run,
}

-- A datagram from an address with the IP of `b`.
abbrev pub is_from : Address → Ready → Bool
is_from b (datagram (some (a, buffer))) = text_eq (or_empty a.ip) (or_empty b.ip)
is_from b (datagram none) = false
is_from b (input line) = false

-- What a round is left with if no datagram of that IP arrives.
abbrev pub without_each : Address → List (ℕ × Ready) → List (ℕ × Ready)
without_each b [] = []
without_each b ((now, r) ∷ rest) =
    let others = without_each b rest in if is_from b r then others else (now, r) ∷ others

abbrev pub without : Address → List Wait → List Wait
without b [] = []
without b (failed skipable ∷ ws) = failed skipable ∷ without b ws
without b (woken now result descriptors ∷ ws) =
    woken now result (without_each b descriptors) ∷ without b ws

same_ip-is_banned :
    (a b : Address) (m : ClientManager)
    → text_eq (or_empty a.ip) (or_empty b.ip) ≡ true
    → is_banned b m ≡ true
    → is_banned a m ≡ true
unfolding is_banned
same_ip-is_banned a b m e h =
    ap (λ ip. contains_text ip m.banned_clients) ((text_eq_iff (or_empty a.ip) (or_empty b.ip)).0 e)
    ∙ h

-- Two calls that start alike and go on alike where the ban lasts.
LeavesBanned-cong :
    {A B : Type 0} (b : Address) (f : A → ClientManager) (call : Outcome A)
    (rest rest' : A → Outcome B)
    → LeavesBanned f b call
    → ((v : A) → is_banned b (f v) ≡ true → rest v ≡ rest' v)
    → (call >>= rest) ≡ (call >>= rest')
LeavesBanned-cong b f (ok v) rest rest' h k = k v h
LeavesBanned-cong b f (throws e) rest rest' h k = refl
LeavesBanned-cong b f undefined rest rest' h k = refl

abbrev pub running_clients : Running → ClientManager
running_clients s = s.server.clients

module _ (b : Address) (to_float : ℕ → ℕ) (password : Option Bytes)
    (files : Bytes → ConfigFile) where
  abbrev RunningAfter : Outcome Running → Type 0
  RunningAfter = LeavesBanned running_clients b

  handle_ready-RunningAfter :
      (now : ℕ) (r : Ready) (s : Running)
      → is_banned b s.server.clients ≡ true
      → RunningAfter (handle_ready to_float password files now r s)
  unfolding handle_ready handle_input
  handle_ready-RunningAfter now (input none) s h = tt
  handle_ready-RunningAfter now (input (some line)) s h =
      LeavesBanned-read b running_clients
        (handle_command password files line
          (record { unlocked = s.unlocked; games = s.server.games }))
        _ (λ k. h)
  handle_ready-RunningAfter now (datagram none) s h = h
  handle_ready-RunningAfter now (datagram (some (a, buffer))) s h =
      LeavesBanned-then b clients_of running_clients (handle_packet to_float now a buffer s.server)
        _ (handle_packet-ServerAfter b to_float now a buffer s.server h) (λ server k. k)

  handle_each-RunningAfter :
      (ds : List (ℕ × Ready)) (s : Running)
      → is_banned b s.server.clients ≡ true
      → RunningAfter (handle_each to_float password files ds s)
  unfolding handle_each
  handle_each-RunningAfter [] s h = h
  handle_each-RunningAfter ((now, r) ∷ ds) s h =
      LeavesBanned-then b running_clients running_clients
        (handle_ready to_float password files now r s) _ (handle_ready-RunningAfter now r s h)
        (λ s' k. handle_each-RunningAfter ds s' k)

  -- A datagram of that IP leaves everything as it is.
  handle_ready-ignored :
      (now : ℕ) (r : Ready) (s : Running)
      → is_banned b s.server.clients ≡ true
      → is_from b r ≡ true
      → handle_ready to_float password files now r s ≡ ok s
  unfolding handle_ready handle_packet dispatch
  handle_ready-ignored now (datagram (some (a, buffer))) s h e =
      rw
        (banned_is_ignored a buffer now s.server.clients
          (same_ip-is_banned a b s.server.clients e h)).0
        refl
  handle_ready-ignored now (datagram none) s h e = cc
  handle_ready-ignored now (input line) s h e = cc

  handle_each-without :
      (ds : List (ℕ × Ready)) (s : Running)
      → is_banned b s.server.clients ≡ true
      → handle_each to_float password files ds s
        ≡ handle_each to_float password files (without_each b ds) s
  unfolding handle_each
  handle_each-without [] s h = refl
  handle_each-without ((now, r) ∷ ds) s h = elim (Bool-cases (is_from b r)) [
    | inl e ↦ rw (handle_ready-ignored now r s h e, e) (handle_each-without ds s h)
    | inr e ↦ rw e (
        LeavesBanned-cong b running_clients (handle_ready to_float password files now r s) _ _
          (handle_ready-RunningAfter now r s h) (λ s' k. handle_each-without ds s' k))
  ]

  round-RunningAfter :
      (w : Wait) (s : Running)
      → is_banned b s.server.clients ≡ true
      → RunningAfter (round to_float password files w s)
  unfolding round handle_timeout check_inactive_clients is_banned
  round-RunningAfter (failed true) s h = h
  round-RunningAfter (failed false) s h = tt
  round-RunningAfter (woken now result ds) s h = elim (Bool-cases (result == 0)) [
    | inl e ↦ rw e h
    | inr e ↦ rw e (handle_each-RunningAfter ds s h)
  ]

  round-without :
      (now result : ℕ) (ds : List (ℕ × Ready)) (s : Running)
      → is_banned b s.server.clients ≡ true
      → round to_float password files (woken now result ds) s
        ≡ round to_float password files (woken now result (without_each b ds)) s
  unfolding round handle_timeout
  round-without now result ds s h = elim (Bool-cases (result == 0)) [
    | inl e ↦ rw e refl
    | inr e ↦ rw e (handle_each-without ds s h)
  ]

  -- A run of the server in whose beginning an IP is banned, whatever the waits, the lines of the standard
  -- input and the other datagrams are: it goes as if no datagram of that IP had ever arrived, to the same
  -- state, exception or undefined behaviour; and if it returns, the IP is banned still.
  pub run-without :
      (ws : List Wait) (s : Running)
      → is_banned b s.server.clients ≡ true
      → (run to_float password files ws s ≡ run to_float password files (without b ws) s)
        × LeavesBanned running_clients b (run to_float password files ws s)
  unfolding run
  run-without [] s h = (refl, h)
  run-without (failed skipable ∷ ws) s h =
      let after = round-RunningAfter (failed skipable) s h in
      let call = round to_float password files (failed skipable) s in
      (
        LeavesBanned-cong b running_clients call _ _ after (λ s' k. (run-without ws s' k).0),
        LeavesBanned-then b running_clients running_clients call _ after
            (λ s' k. (run-without ws s' k).1),
      )
  run-without (woken now result ds ∷ ws) s h =
      let after = round-RunningAfter (woken now result ds) s h in
      let call = round to_float password files (woken now result ds) s in
      (
        LeavesBanned-cong b running_clients call _ _ after (λ s' k. (run-without ws s' k).0)
            ∙ ap (λ c. c >>= λ s'. run to_float password files (without b ws) s')
                (round-without now result ds s h),
        LeavesBanned-then b running_clients running_clients call _ after
            (λ s' k. (run-without ws s' k).1),
      )
