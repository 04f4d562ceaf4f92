-- ===== src/Server/GameManager/Departure.antt =====
-- Server/Game/GameManager.cpp: `removeClientFromGame`, when an instance is left empty.
use flakkari.Prelude.{
  ℕ, ◌≡◌, refl, ◌∙◌, [], ◌∷◌, ◌++◌, List, true, some, Bytes, get_default, lookup, remove_one,
  contains_num, ok, ==_refl, arith,
}
use flakkari.Server.Game.{Game, GameConfig}
use flakkari.Server.Game.Membership.{Room, remove_player}
use flakkari.Server.Game.Membership.Players.{remove_player-players}
use flakkari.Server.GameManager.{
  Hall, remove_client_from_game, take_out, pop_back, after_removal, set_instances,
}
use flakkari.Server.GameManager.Admission.{split_last-snoc, get_default-insert}

contains_num-single : (p : ℕ) → contains_num p (p ∷ []) ≡ true
unfolding contains_num
contains_num-single p = ground (arith, ==_refl p)

remove_one-single : (p : ℕ) → remove_one p (p ∷ []) ≡ []
unfolding remove_one
remove_one-single p = ground (arith, ==_refl p)

take_out_first :
    (now p : ℕ) (g : Game) (gs : List Game) (hall : Hall)
    → let (removed, room) =
        remove_player now p (record { heap = hall.heap; game = g; templates = hall.templates }) in
      removed ≡ true → take_out now p [] (g ∷ gs) hall ≡ some ([], room, gs)
unfolding take_out
take_out_first now p g gs hall h = rw h refl

pop_back-snoc :
    (gs : List Game) (last : Game) → last.running ≡ true → pop_back (gs ++ last ∷ []) ≡ ok gs
unfolding pop_back
pop_back-snoc gs last running = ground (arith, split_last-snoc gs last)

after_removal_last :
    (to_float : ℕ → ℕ) (now : ℕ) (name : Bytes) (config : GameConfig) (waiting : List ℕ)
    (room : Room) (others : List Game) (last : Game) (hall : Hall)
    → room.game.players ≡ []
    → last.running ≡ true
    → after_removal to_float now name config waiting ([], room, others ++ last ∷ []) hall
      ≡ ok (
        true,
        set_instances name
            (room.game ∷ others)
            (record hall { heap = room.heap; templates = room.templates }),
      )
unfolding after_removal
after_removal_last to_float now name config waiting room others last hall empty running =
    ground (arith, empty, pop_back-snoc (room.game ∷ others) last running)

module _ (to_float : ℕ → ℕ) where
  -- Where a client is the only player of the first instance, and others follow, `removeClientFromGame`
  -- answers true, and the instance that it destroys is the last one, with the players that it has, if that
  -- one has started: the first instance stays, empty.
  pub remove_client_from_game_last :
      (now p : ℕ) (name : Bytes) (config : GameConfig) (hall : Hall) (g last : Game)
      (others : List Game)
      → lookup name hall.manager.games_store ≡ some config
      → get_default [] name hall.manager.games_instances ≡ g ∷ (others ++ last ∷ [])
      → g.players ≡ p ∷ []
      → last.running ≡ true
      → (hall' : Hall) × (g' : Game) × (remove_client_from_game to_float now name p hall
          ≡ ok (true, hall'))
        × (get_default [] name hall'.manager.games_instances ≡ g' ∷ others)
        × (g'.players ≡ [])
  unfolding remove_client_from_game
  remove_client_from_game_last now p name config hall g last others stored instances alone running =
      let room : Room = record { heap = hall.heap; game = g; templates = hall.templates } in
      let (removed, room') = remove_player now p room in
      let (b, players, _) = remove_player-players now p room in
      let found : removed ≡ true = rw b (rw alone (contains_num-single p)) in
      let empty : room'.game.players ≡ [] = players ∙ rw (found, alone) (remove_one-single p) in
      let here = take_out_first now p g (others ++ last ∷ []) hall found in
      let after =
        after_removal_last to_float now name config
          (get_default [] name hall.manager.waiting_clients) room' others last hall empty running in
      (
        set_instances name (room'.game ∷ others)
            (record hall { heap = room'.heap; templates = room'.templates }),
        room'.game,
        ground (arith, here, after),
        get_default-insert [] _ name hall.manager.games_instances,
        empty,
      )
