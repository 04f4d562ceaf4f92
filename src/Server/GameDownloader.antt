-- ===== src/Server/GameDownloader.antt =====
-- Server/Internals/GameDownloader.cpp: removing games, and cloning or updating a repository. The file
-- system and libgit2 are parameters; the thread is not modelled.
pub mod Removing
pub mod Repository
pub mod Transfers
pub mod Tests
use flakkari.Prelude.{
  ℕ, ◌+◌, ◌-◌, ◌==◌, [], ◌∷◌, ◌++◌, List, Bool, true, false, not, ◌&&◌, ◌||◌, Bytes, codes, text_eq,
  if◌then◌else◌, Outcome, ok, throws, system_error, undefined, Option, none, some, length, ltb,
  take, drop,
}
use flakkari.Server.GameManager.{GameManager, remove_game as request_removal}

-- What the code calls of std::filesystem, on file systems F: `remove` says whether it deleted the file.
pub record Filesystem (F : Type 0) : Type 0 where
  pub exists : F → Bytes → Bool
  pub remove : F → Bytes → Bool × F

-- `std::find`
abbrev pub contains_game : Bytes → List Bytes → Bool
contains_game game [] = false
contains_game game (g ∷ games) = text_eq g game || contains_game game games

module _ {F : Type 0} (fs : Filesystem F) where
  pub remove_game : Bytes → Bytes → F × GameManager → F × GameManager
  remove_game game_dir game_name (files, m) =
      let file_name = game_dir ++ (codes "/" ++ (game_name ++ codes ".json")) in
      if not (fs.exists files file_name)
      then (files, m)
      else let (removed, left) = fs.remove files file_name in
        if removed then (left, m) else (left, (request_removal game_name m).1)

  pub remove_games : Bytes → List Bytes → List Bytes → F × GameManager → F × GameManager
  remove_games game_dir remote [] s = s
  remove_games game_dir remote (game ∷ local_games) s =
      remove_games game_dir remote local_games
        (if contains_game game remote then s else remove_game game_dir game s)

-- `starts_with` and `ends_with`
abbrev pub starts_with : Bytes → Bytes → Bool
starts_with prefix text = text_eq (take (length prefix) text) prefix

abbrev pub ends_with : Bytes → Bytes → Bool
ends_with suffix text =
    not (ltb (length text) (length suffix))
    && text_eq (drop (length text - length suffix) text) suffix

-- The loop of `listGames`, with what each item of the response gives: none without a path and a type;
-- reading them may throw, and then the games found so far are returned.
pub list_games : List (Outcome (Option (Bytes × Bytes))) → List Bytes
list_games [] = []
list_games (ok (some (path, type)) ∷ items) =
    let filename = drop 6 path in
    let later = list_games items in
    if text_eq type (codes "file")
      && (starts_with (codes "Games/") path && ends_with (codes ".json") filename)
    then filename ∷ later
    else later
list_games (ok none ∷ items) = list_games items
list_games (throws e ∷ items) = []
list_games (undefined ∷ items) = []

-- The name of a game of which the file is downloaded.
pub game_base_name : Bytes → Bytes
game_base_name game = if ends_with (codes ".json") game then take (length game - 5) game else game

-- What libgit2 and the file system answer in one call of `cloneOrUpdateRepository`:
-- `std::filesystem::exists` may throw, which is none, and `remove_all` may, which is caught.
pub record Answers : Type 0 where
  pub exists : Option Bool
  pub opens : Bool
  pub removes_all : Bool
  pub has_origin : Bool
  pub fetches : Bool
  pub clones : Bool

-- How many times the library is initialised, and how many repositories and remotes are held.
pub record Held : Type 0 where
  pub libraries : ℕ
  pub repositories : ℕ
  pub remotes : ℕ

-- `git_libgit2_init` and `git_libgit2_shutdown`; opening, cloning and freeing.
abbrev init : Held → Held
init h = record h { libraries = h.libraries + 1 }

abbrev shutdown : Held → Held
shutdown h = record h { libraries = h.libraries - 1 }

abbrev hold_repository : Held → Held
hold_repository h = record h { repositories = h.repositories + 1 }

abbrev free_repository : Held → Held
free_repository h = record h { repositories = h.repositories - 1 }

abbrev hold_remote : Held → Held
hold_remote h = record h { remotes = h.remotes + 1 }

abbrev free_remote : Held → Held
free_remote h = record h { remotes = h.remotes - 1 }

-- `updateSubModuleRecursivelyFollowingGitSubmoduleFile`, whatever the callback finds.
pub update_submodules : Bool
update_submodules = true

-- The end of `cloneOrUpdateRepository`, from `git_clone`.
pub clone_repository : Answers → Held → Bool × Held
clone_repository a h =
    if not a.clones
    then (false, shutdown h)
    else let h₁ = hold_repository h in
      if not update_submodules
      then (false, shutdown (free_repository h₁))
      else (true, shutdown (free_repository h₁))

-- With a remote that was looked up.
pub fetch_repository : Answers → Held → Bool × Held
fetch_repository a h =
    if not a.fetches
    then (false, shutdown (free_repository (free_remote h)))
    else let h₁ = free_remote h in
      if not update_submodules
      then (false, shutdown (free_repository h₁))
      else (true, shutdown (free_repository h₁))

-- With a repository that was opened.
pub update_repository : Answers → Held → Bool × Held
update_repository a h =
    if a.has_origin
    then fetch_repository a (hold_remote h)
    else clone_repository a (free_repository h)

-- With something at the local path.
pub replace_or_update : Answers → Held → Bool × Held
replace_or_update a h =
    if a.opens
    then update_repository a (hold_repository h)
    else if a.removes_all
    then clone_repository a h
    else (false, shutdown h)

abbrev returns : Bool × Held → Outcome Bool × Held
returns (b, h) = (ok b, h)

pub clone_or_update_repository : Answers → Held → Outcome Bool × Held
clone_or_update_repository a held =
    let h = init held in
    elim a.exists [
      | none ↦ (throws system_error, h)
      | some there ↦ returns (if there then replace_or_update a h else clone_repository a h)
    ]
