-- ===== src/Server/Game/Membership/Tests.antt =====
-- Server/Game/Game.cpp: examples of players that join, leave and time out.
use flakkari.Prelude.{
  ℕ, ◌≡◌, refl, [], ◌∷◌, List, true, ok, undefined, text_eq, lookup, contains_num,
}
use flakkari.Ecs.Registry.{spawn_entity, spawn_from}
use flakkari.Server.Client.{new_client, is_connected}
use flakkari.Server.Client.Tests.{client}
use flakkari.Server.Game.{Game, GameConfig, Scene}
use flakkari.Server.Game.Membership.{Room, add_player, may_enter, enter, check_disconnect}
use flakkari.Server.Game.Membership.Expiry.{check_disconnect_lem}

abbrev config : GameConfig
config = record {
  title = [];
  start_game = [];
  player_template = [];
  online = true;
  lobby = [];
  min_players = 1;
  max_players = 2;
  max_instances = 2;
  scenes = [];
}

-- One entity lives.
abbrev scene : Scene
scene = record {
  components = [];
  erase_functions = [];
  systems = [];
  dead_entities = [];
  next_entity = 1;
}

abbrev later : Scene
later = record scene { next_entity = 2 }

abbrev game : List ℕ → Game
game players = record {
  name = [];
  config = config;
  running = true;
  players = players;
  scene_map = ([], scene) ∷ [];
}

abbrev room : List ℕ → Room
room players = record { heap = client ∷ client ∷ []; game = game players; templates = [] }

joins :
    add_player (λ d. d) 5 1 (room (0 ∷ []))
    ≡ ok (true, enter (λ d. d) 5 1 (1, later) (room (0 ∷ [])))
unfolding add_player may_enter contains_num is_connected new_client spawn_entity spawn_from lookup
    text_eq
joins = refl

check_disconnect_lem_example : check_disconnect 5_000_000_000 (room (0 ∷ [])) ≡ undefined
unfolding is_connected new_client
check_disconnect_lem_example = check_disconnect_lem 5_000_000_000 (room (0 ∷ []))
