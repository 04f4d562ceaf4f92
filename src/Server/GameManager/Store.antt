-- ===== src/Server/GameManager/Store.antt =====
-- Server/Game/GameManager.cpp: the store of games that have been loaded.
use flakkari.Prelude.{
  ℕ, ◌≡◌, refl, true, false, none, some, Bytes, text_eq, text_eq_refl, lookup, insert,
  lookup-insert, contains, ok, arith, if◌then◌else◌,
}
use flakkari.Server.Game.{GameConfig}
use flakkari.Server.GameManager.{
  GameManager, ConfigFile, not_open, not_json, parsed, add_game, remove_game, Hall,
  add_client_to_game,
}

add_game-eq_0 :
    (name : Bytes) (file : ConfigFile) (m m' : GameManager)
    → add_game name file m ≡ ok (0, m')
    → (config : GameConfig) × (file ≡ parsed config)
      × (contains name m.games_store ≡ false)
      × (m' ≡ record m { games_store = insert name config m.games_store })
unfolding add_game
add_game-eq_0 name not_open m m' h = absurd (ground arith)
add_game-eq_0 name not_json m m' h = absurd (ground arith)
add_game-eq_0 name (parsed config) m m' h = (config, refl, ground arith, ground arith)

-- When `addGame` answers 0, the game was not in the store, its file was parsed and is now its entry, and
-- every other game has the entry that it had. Then a second `addGame` answers 1 and changes nothing,
-- whatever the file holds, and `removeGame` answers 0, leaves the store as it is, and marks this game
-- only.
pub add_game-remove_game :
    (name key : Bytes) (file file' : ConfigFile) (m m' : GameManager)
    → add_game name file m ≡ ok (0, m')
    → let (code, m'') = remove_game name m' in
      (config : GameConfig) × (file ≡ parsed config)
      × (contains name m.games_store ≡ false)
      × (lookup key m'.games_store
          ≡ (if text_eq name key then some config else lookup key m.games_store))
      × (add_game name file' m' ≡ ok (1, m'))
      × (code ≡ 0)
      × (m''.games_store ≡ m'.games_store)
      × (lookup key m''.games_remove_request
          ≡ (if text_eq name key then some true else lookup key m.games_remove_request))
unfolding add_game remove_game
add_game-remove_game name key file file' m m' h =
    let (config, read, new, e) = add_game-eq_0 name file m m' h in
    let here : lookup name m'.games_store ≡ some config =
      ground (arith, e, lookup-insert name name config m.games_store, text_eq_refl name) in
    (
      config,
      read,
      new,
      rw e (lookup-insert name key config m.games_store),
      rw here refl,
      rw here refl,
      rw here refl,
      rw (here, e) (lookup-insert name key true m.games_remove_request),
    )

pub add_client_to_game_unknown :
    (to_float : ℕ → ℕ) (now p : ℕ) (name : Bytes) (hall : Hall)
    → lookup name hall.manager.games_store ≡ none
    → add_client_to_game to_float now name p hall ≡ ok (false, hall)
unfolding add_client_to_game
add_client_to_game_unknown to_float now p name hall absent = rw (absent, add_client_to_game) refl
