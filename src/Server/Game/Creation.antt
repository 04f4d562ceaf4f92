-- ===== src/Server/Game/Creation.antt =====
-- Server/Game/Game.cpp: the constructor.
use flakkari.Prelude.{◌≡◌, [], Bytes, ok, arith}
use flakkari.Server.ResourceManager.{Templates}
use flakkari.Server.Game.{Game, GameConfig, Template, new_game}

pub new_game-players :
    (name : Bytes) (config : GameConfig) (ts ts' : Templates Template) (g : Game)
    → new_game name config ts ≡ ok (g, ts')
    → g.players ≡ []
unfolding new_game
new_game-players name config ts ts' g h = ground arith
