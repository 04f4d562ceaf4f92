-- ===== src/Server/CommandManager/Tests.antt =====
-- Server/Internals/CommandManager.cpp: examples.
use flakkari.Prelude.{◌≡◌, refl, [], ◌∷◌, false, some, codes, ok, text_eq}
use flakkari.Server.GameManager.{not_open}
use flakkari.Server.CommandManager.{
  Console, handle_password_command, handle_commands, is_name, is_word, all_words,
}
use flakkari.Server.CommandManager.Locked.{
  handle_commands-locked, handle_password_command-unlock_line, unlocks_never,
}

abbrev console : Console
console = record {
  unlocked = false;
  games = record {
    waiting_clients = [];
    games_instances = [];
    games_store = [];
    games_remove_request = [];
  };
}

handle_commands-locked_example :
    handle_commands
      (some (codes "pass"))
      (λ name. not_open)
      (codes "unlock word" ∷ codes "addGame chess" ∷ codes "exit" ∷ [])
      console
    ≡ ok console
unfolding unlocks_never text_eq
handle_commands-locked_example =
    handle_commands-locked (some (codes "pass")) (λ name. not_open)
      (codes "unlock word" ∷ codes "addGame chess" ∷ codes "exit" ∷ []) console refl refl

handle_password_command-unlock_line_test :
    handle_password_command (some (codes "p@ss")) (codes "unlock p@ss") false ≡ (false, false)
unfolding is_name is_word all_words
handle_password_command-unlock_line_test = handle_password_command-unlock_line (codes "p@ss")
