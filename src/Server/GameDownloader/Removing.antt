-- ===== src/Server/GameDownloader/Removing.antt =====
-- Server/Internals/GameDownloader.cpp: what removing games does to the game manager.
use flakkari.Prelude.{◌≡◌, refl, ◌∙◌, [], ◌∷◌, ◌++◌, List, true, Bytes, codes, Bool-cases, inl, inr}
use flakkari.Server.GameManager.{GameManager}
use flakkari.Server.GameDownloader.{Filesystem, remove_game, remove_games, contains_game}

module _ {F : Type 0} (fs : Filesystem F)
    (deletes : (files : F) (name : Bytes)
      → fs.exists files name ≡ true
      → (fs.remove files name).0 ≡ true) where
  remove_game_keeps :
      (game_dir game_name : Bytes) (files : F) (m : GameManager)
      → (remove_game fs game_dir game_name (files, m)).1 ≡ m
  unfolding remove_game
  remove_game_keeps game_dir game_name files m =
      let file_name = game_dir ++ (codes "/" ++ (game_name ++ codes ".json")) in
      elim (Bool-cases (fs.exists files file_name)) [
        | inl e ↦ rw (e, deletes files file_name e) refl
        | inr e ↦ rw e refl
      ]

  -- On a file system where `remove` deletes every file that exists, and says so, `removeGames` asks the
  -- game manager to remove no game, whatever is local and whatever is remote: the success is taken for a
  -- failure.
  pub remove_games_keeps :
      (game_dir : Bytes) (remote local_games : List Bytes) (files : F) (m : GameManager)
      → (remove_games fs game_dir remote local_games (files, m)).1 ≡ m
  unfolding remove_games
  remove_games_keeps game_dir remote [] files m = refl
  remove_games_keeps game_dir remote (game ∷ local_games) files m =
      elim (Bool-cases (contains_game game remote)) [
        | inl e ↦ rw (e, remove_games) (remove_games_keeps game_dir remote local_games files m)
        | inr e ↦
            rw (e, remove_games)
              (remove_games_keeps game_dir remote local_games
                  (remove_game fs game_dir game (files, m)).0
                  (remove_game fs game_dir game (files, m)).1
                ∙ remove_game_keeps game_dir game files m)
      ]
