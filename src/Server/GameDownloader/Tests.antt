-- ===== src/Server/GameDownloader/Tests.antt =====
-- Server/Internals/GameDownloader.cpp: examples.
use flakkari.Prelude.{
  some, ok, ◌≡◌, [], ◌∷◌, List, true, false, Bytes, codes, text_eq, if◌then◌else◌,
}
use flakkari.Server.GameManager.{GameManager}
use flakkari.Server.GameDownloader.{
  Filesystem, Answers, Held, contains_game, remove_games, clone_or_update_repository,
}
use flakkari.Server.GameDownloader.Removing.{remove_games_keeps}
use flakkari.Server.GameDownloader.Repository.{clone_or_update_repository-held}

abbrev pub without : Bytes → List Bytes → List Bytes
without name [] = []
without name (f ∷ fs) = let rest = without name fs in if text_eq f name then rest else f ∷ rest

-- A file system is the list of its files.
abbrev pub listed : Filesystem (List Bytes)
listed = record {
  exists = λ fs name. contains_game name fs;
  remove = λ fs name. (contains_game name fs, without name fs);
}

abbrev pub no_games : GameManager
no_games = record {
  waiting_clients = [];
  games_instances = [];
  games_store = [];
  games_remove_request = [];
}

remove_games_keeps_test :
    (remove_games listed
      (codes "Games")
      []
      (codes "pong" ∷ [])
      (codes "Games/pong.json" ∷ [], no_games)).1
    ≡ no_games
remove_games_keeps_test =
    remove_games_keeps listed (λ files name e. e) (codes "Games") [] (codes "pong" ∷ [])
      (codes "Games/pong.json" ∷ []) no_games

abbrev pub updated : Answers
updated = record {
  exists = some true;
  opens = true;
  removes_all = true;
  has_origin = true;
  fetches = true;
  clones = false;
}

abbrev pub nothing : Held
nothing = record { libraries = 0; repositories = 0; remotes = 0 }

clone_or_update_repository-held_example :
    clone_or_update_repository updated nothing ≡ (ok true, nothing)
clone_or_update_repository-held_example = clone_or_update_repository-held updated nothing
