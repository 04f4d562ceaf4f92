-- ===== src/Server/GameManager/Tests.antt =====
-- Server/Game/GameManager.cpp: examples.
use flakkari.Prelude.{
  ℕ, ◌≡◌, ◌≤◌, refl, [], ◌∷◌, true, false, some, Bytes, ok, text_eq, lookup, insert, count,
  get_default, arith,
}
use flakkari.Server.Game.{Game, GameConfig}
use flakkari.Server.GameManager.{
  GameManager, Hall, parsed, add_game, add_client_to_game, place, needs_instance, split_last,
  remove_client_from_game, get_index_in_waiting_queue, is_client_waiting,
}
use flakkari.Server.GameManager.Admission.{AreSeated, add_client_to_game-AreSeated}
use flakkari.Server.GameManager.Waiting.{add_client_to_game_full}
use flakkari.Server.GameManager.Departure.{remove_client_from_game_last}

abbrev pub name : Bytes
name = 97 ∷ 98 ∷ []

-- One player in each of two instances.
abbrev pub config : GameConfig
config = record {
  title = name;
  start_game = [];
  player_template = [];
  online = true;
  lobby = [];
  min_players = 1;
  max_players = 1;
  max_instances = 2;
  scenes = ([], record { system_names = []; entity_names = []; templates = [] }) ∷ [];
}

abbrev game : ℕ → Game
game p = record { name = name; config = config; running = true; players = p ∷ []; scene_map = [] }

abbrev manager : GameManager
manager = record {
  waiting_clients = (name, 7 ∷ []) ∷ [];
  games_instances = (name, game 3 ∷ game 4 ∷ []) ∷ [];
  games_store = (name, config) ∷ [];
  games_remove_request = [];
}

abbrev hall : Hall
hall = record { manager = manager; heap = []; templates = [] }

abbrev hall' : Hall
hall' = record hall { manager = record manager { waiting_clients = (name, 7 ∷ 5 ∷ []) ∷ [] } }

seated : AreSeated (game 3 ∷ game 4 ∷ [])
unfolding count
seated = ((λ j. ground arith, omega arith), ((λ j. ground arith, omega arith), tt))

queues : add_client_to_game (λ d. d) 0 name 5 hall ≡ ok (true, hall')
unfolding add_client_to_game place needs_instance split_last lookup insert text_eq
queues = refl

add_client_to_game-AreSeated_example :
    AreSeated (game 3 ∷ game 4 ∷ [])
    × (2 ≤ 2)
    × (get_default [] name hall'.manager.waiting_clients ≡ 7 ∷ 5 ∷ [])
    × (hall'.manager.games_store ≡ hall.manager.games_store)
unfolding lookup text_eq needs_instance split_last
add_client_to_game-AreSeated_example =
    add_client_to_game-AreSeated (λ d. d) 0 5 name config hall hall' true refl seated (omega arith)
      queues

add_client_to_game_full_test :
    (h : Hall) × (add_client_to_game (λ d. d) 0 name 5 hall ≡ ok (true, h))
    × (get_index_in_waiting_queue name 5 h.manager ≡ some 1)
    × (is_client_waiting name h.manager ≡ false)
    × (h.heap ≡ [])
unfolding lookup text_eq needs_instance split_last count
add_client_to_game_full_test =
    add_client_to_game_full (λ d. d) 0 5 name config hall refl refl refl (omega arith) refl

remove_client_from_game_last_example :
    (h : Hall) × (g : Game) × (remove_client_from_game (λ d. d) 0 name 3 hall ≡ ok (true, h))
    × (get_default [] name h.manager.games_instances ≡ g ∷ [])
    × (g.players ≡ [])
unfolding lookup text_eq
remove_client_from_game_last_example =
    remove_client_from_game_last (λ d. d) 0 3 name config hall (game 3) (game 4) [] refl refl refl
      refl

abbrev stored : GameManager
stored = record manager { games_store = (name, config) ∷ ([], config) ∷ [] }

adds : add_game [] (parsed config) manager ≡ ok (0, stored)
unfolding add_game lookup insert text_eq
adds = refl
