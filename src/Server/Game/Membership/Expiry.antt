-- ===== src/Server/Game/Membership/Expiry.antt =====
-- Server/Game/Game.cpp: players whose connections time out.
use flakkari.Prelude.{
  ℕ, ◌≡◌, refl, [], ◌∷◌, List, Bool, true, false, none, some, get_elem?, contains_num, ok,
  undefined, arith, if◌then◌else◌, ◌&&◌,
}
use flakkari.Server.Client.{Client, is_connected}
use flakkari.Server.Game.Membership.{
  Room, remove_player, expire_player, check_each, check_disconnect,
}

-- Whether every player is connected.
abbrev pub all_connected : ℕ → List ℕ → List Client → Bool
all_connected now [] heap = true
all_connected now (p ∷ ps) heap =
    elim (get_elem? heap p) [ none ↦ false | some c ↦ is_connected now c ]
    && all_connected now ps heap

-- Each of some clients is a player.
abbrev all_players : List ℕ → List ℕ → Bool
all_players [] players = true
all_players (p ∷ ps) players = contains_num p players && all_players ps players

all_players_cons :
    (ps players : List ℕ) (p : ℕ)
    → all_players ps players ≡ true
    → all_players ps (p ∷ players) ≡ true
unfolding contains_num
all_players_cons [] players p h = refl
all_players_cons (q ∷ ps) players p h = ground (arith, all_players_cons ps players p)

all_players_self : (ps : List ℕ) → all_players ps ps ≡ true
unfolding contains_num
all_players_self [] = refl
all_players_self (p ∷ ps) = ground (arith, all_players_cons ps ps p (all_players_self ps))

expire_player-erases :
    (now p : ℕ) (room : Room)
    → contains_num p room.game.players ≡ true
    → (expire_player now p room).0 ≡ true
unfolding expire_player remove_player
expire_player-erases now p room h = rw h refl

check_each_lem :
    (now : ℕ) (ps : List ℕ) (room : Room)
    → all_players ps room.game.players ≡ true
    → check_each now ps room ≡ (if all_connected now ps room.heap then ok room else undefined)
unfolding check_each
check_each_lem now [] room h = refl
check_each_lem now (p ∷ ps) room h =
    ground (arith, check_each_lem now ps room, expire_player-erases now p room)

-- `checkDisconnect` changes nothing while every player is connected. As soon as one is not, it is
-- undefined: `removePlayer` finds that player and erases it from the vector that the loop goes through.
pub check_disconnect_lem :
    (now : ℕ) (room : Room)
    → check_disconnect now room
      ≡ (if all_connected now room.game.players room.heap then ok room else undefined)
unfolding check_disconnect
check_disconnect_lem now room =
    check_each_lem now room.game.players room (all_players_self room.game.players)
