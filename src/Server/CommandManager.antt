-- ===== src/Server/CommandManager.antt =====
-- Server/Internals/CommandManager.cpp: the commands that are read from the standard input. The
-- environment's password and the config files are arguments; what is logged is left out.
pub mod Locked
mod Tests
use flakkari.Prelude.{
  ℕ, ◌≡◌, [], ◌∷◌, ◌++◌, List, Bool, true, false, not, ◌&&◌, ◌||◌, Option, none, some, Bytes,
  text_eq, codes, drop, Outcome, ok, throws, runtime_error, ◌>>=◌, ◌==◌, leb, if◌then◌else◌,
  is_some,
}
use flakkari.Server.GameManager.{GameManager, ConfigFile, add_game, update_game, remove_game}

pub record Console : Type 0 where
  pub unlocked : Bool
  pub games : GameManager

-- `[\w-]`
pub is_word : ℕ → Bool
is_word c =
    (leb 48 c && leb c 57)
    || (leb 65 c && leb c 90)
    || (leb 97 c && leb c 122)
    || (c == 95)
    || (c == 45)

pub all_words : Bytes → Bool
all_words [] = true
all_words (c ∷ cs) = is_word c && all_words cs

-- `[\w-]+`
pub is_name : Bytes → Bool
is_name [] = false
is_name (c ∷ cs) = all_words (c ∷ cs)

pub after_prefix : Bytes → Bytes → Option Bytes
after_prefix [] input = some input
after_prefix (c ∷ cs) [] = none
after_prefix (c ∷ cs) (d ∷ input) = if c == d then after_prefix cs input else none

-- `std::regex_match(input, …)` for `^<command> [\w-]+`, with its space in `command`.
pub regex_match : Bytes → Bytes → Bool
regex_match command input = elim (after_prefix command input) [
  | none ↦ false
  | some rest ↦ is_name rest
]

pub handle_open_command : Bytes → Bool
handle_open_command input = text_eq input (codes "version") || text_eq input (codes "help")

-- Whether the command was handled, and `_unlocked` after it.
pub handle_password_command : Option Bytes → Bytes → Bool → Bool × Bool
handle_password_command password input unlocked =
    if not (regex_match (codes "unlock ") input) then (false, unlocked) else elim password [
      | none ↦ (true, unlocked)
      | some pw ↦ elim pw [
        | [] ↦ (true, unlocked)
        | c ∷ cs ↦ if text_eq (drop 7 input) (c ∷ cs) then (true, true) else (true, unlocked)
      ]
    ]

abbrev done : Console → Outcome (ℕ × GameManager) → Outcome (Bool × Console)
done k o = o >>= λ r. ok (true, record k { games = r.1 })

pub handle_admin_command : (Bytes → ConfigFile) → Bytes → Console → Outcome (Bool × Console)
handle_admin_command files input k =
    if not k.unlocked
    then ok (true, k)
    else if regex_match (codes "addGame ") input
    then done k (add_game (drop 8 input) (files (drop 8 input)) k.games)
    else if regex_match (codes "updateGame ") input
    then done k (update_game (drop 11 input) (files (drop 11 input)) k.games)
    else if regex_match (codes "removeGame ") input
    then done k (ok (remove_game (drop 11 input) k.games))
    else if text_eq input (codes "listGames")
    then ok (true, k)
    else if text_eq input (codes "exit")
    then throws runtime_error
    else if text_eq input (codes "lock") && k.unlocked
    then ok (true, record k { unlocked = false })
    else ok (false, k)

pub handle_command : Option Bytes → (Bytes → ConfigFile) → Bytes → Console → Outcome Console
handle_command password files input k =
    if handle_open_command input
    then ok k
    else let (handled, unlocked) = handle_password_command password input k.unlocked in
      if handled
      then ok (record k { unlocked = unlocked })
      else (handle_admin_command files input k >>= λ r. ok r.1)

-- The lines of the standard input, one after the other.
pub handle_commands : Option Bytes → (Bytes → ConfigFile) → List Bytes → Console → Outcome Console
handle_commands password files [] k = ok k
handle_commands password files (input ∷ inputs) k =
    handle_command password files input k >>= λ k'. handle_commands password files inputs k'
