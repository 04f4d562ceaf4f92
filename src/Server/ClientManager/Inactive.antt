-- ===== src/Server/ClientManager/Inactive.antt =====
-- Server/Client/ClientManager.cpp: `checkInactiveClients` and the packets to all clients.
use flakkari.Prelude.{
  ℕ, ◌≡◌, refl, [], ◌∷◌, List, true, Option, none, some, Bytes, Dict, lookup, arith,
}
use flakkari.Server.Client.{Client}
use flakkari.Server.ClientManager.{ClientManager, is_active, keep_active, check_inactive_clients}

keep_active_sound :
    (now : ℕ) (heap : List Client) (k : Bytes) (p : Option ℕ) (m : Dict (Option ℕ))
    → lookup k (keep_active now heap m) ≡ some p
    → is_active now heap p ≡ true
unfolding keep_active lookup
keep_active_sound now heap k p [] h = cc
keep_active_sound now heap k p ((j, q) ∷ m) h = ground (arith, keep_active_sound now heap k p m)

keep_active_complete :
    (now : ℕ) (heap : List Client) (k : Bytes) (p : Option ℕ) (m : Dict (Option ℕ))
    → lookup k m ≡ some p
    → is_active now heap p ≡ true
    → lookup k (keep_active now heap m) ≡ some p
unfolding keep_active lookup
keep_active_complete now heap k p [] h a = cc
keep_active_complete now heap k p ((j, q) ∷ m) h a =
    ground (arith, keep_active_complete now heap k p m)

pub keep_active-none :
    (now : ℕ) (heap : List Client) (k : Bytes) (m : Dict (Option ℕ))
    → lookup k m ≡ none
    → lookup k (keep_active now heap m) ≡ none
unfolding keep_active lookup
keep_active-none now heap k [] h = refl
keep_active-none now heap k ((j, q) ∷ m) h = ground (arith, keep_active-none now heap k m)

-- After `checkInactiveClients` every client that is found is connected, and every client that was
-- found before and is connected is still found under its name; bans and clients themselves do not change.
pub check_inactive_clients-lookup :
    (now : ℕ) (m : ClientManager) (k j : Bytes) (p q : Option ℕ)
    → let m' = check_inactive_clients now m in
      lookup k m.clients ≡ some p
      → is_active now m.heap p ≡ true
      → lookup j m'.clients ≡ some q
      → (lookup k m'.clients ≡ some p)
        × (is_active now m'.heap q ≡ true)
        × (m'.heap ≡ m.heap)
        × (m'.banned_clients ≡ m.banned_clients)
unfolding check_inactive_clients
check_inactive_clients-lookup now m k j p q found active kept = (
  keep_active_complete now m.heap k p m.clients found active,
  keep_active_sound now m.heap j q m.clients kept,
  refl,
  refl,
)
