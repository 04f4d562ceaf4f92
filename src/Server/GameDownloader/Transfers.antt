-- ===== src/Server/GameDownloader/Transfers.antt =====
-- Server/Internals/GameDownloader.cpp: transfers, the lists of games, and a round of `start`. The world W
-- holds the files, the network and the repositories; curl, the JSON library and what registering a game
-- does are parameters.
pub mod Republishing
pub mod Failing
mod Tests
use flakkari.Prelude.{
  ℕ, ◌-◌, ◌==◌, [], ◌∷◌, ◌++◌, List, Bool, true, false, not, ◌&&◌, ◌||◌, Bytes, codes,
  if◌then◌else◌, Outcome, ok, throws, undefined, Option, none, some, length, take, ◌>>=◌, Exception,
  system_error,
}
use flakkari.Server.GameManager.{GameManager}
use flakkari.Server.GameDownloader.{
  Filesystem, Answers, Held, contains_game, remove_games, list_games, ends_with, game_base_name,
  clone_or_update_repository,
}

-- An entry of a directory.
pub record Entry : Type 0 where
  pub path : Bytes
  pub filename : Bytes
  pub is_directory : Bool

-- `create` is a std::ofstream that empties or makes the file, `write` its write and close. `headers`,
-- `init` and `perform` are curl's, the last with a success and the pieces that the callback is given;
-- `entries` is a directory, none where it cannot be read, and `answers` is what libgit2 says of a URL and
-- a path.
pub record World (W : Type 0) : Type 0 where
  pub files : Filesystem W
  pub create : Bytes → W → Bool × W
  pub write : Bytes → Bytes → W → W
  pub headers : W → Bool × W
  pub init : W → Bool × W
  pub perform : Bytes → W → (Bool × List Bytes) × W
  pub entries : Bytes → W → Option (List Entry)
  pub answers : Bytes → Bytes → W → Answers × W

-- nlohmann::json: the member "url", and the items of a response, as `list_games` reads them.
pub record Json : Type 0 where
  pub url_of : Bytes → Outcome Bytes
  pub items_of : Bytes → Option (List (Outcome (Option (Bytes × Bytes))))

-- `addGame` and `updateGame`, on what `GetInstance` returns.
abbrev pub Registers : Type 0
Registers = Bytes → GameManager → GameManager

-- `_readBuffer`, with what the downloader changes besides.
pub record Downloads (W : Type 0) : Type 0 where
  pub world : W
  pub manager : GameManager
  pub read_buffer : Bytes
  pub held : Held

-- `writeCallback`, for each piece of a transfer.
pub write_pieces : Bytes → List Bytes → Bytes
write_pieces buffer [] = buffer
write_pieces buffer (piece ∷ pieces) = write_pieces (buffer ++ piece) pieces

abbrev pub file_url : Bytes
file_url = codes "https://raw.githubusercontent.com/MasterLaplace/Flakkari/main/Games/"

abbrev pub game_url : Bytes
game_url = codes "https://api.github.com/repos/MasterLaplace/Flakkari/contents/Games"

-- `JSON_FILE_NAME`, of which the point matches all but the ends of lines.
abbrev one_line : Bytes → Bool
one_line [] = true
one_line (c ∷ text) = not (c == 10 || c == 13) && one_line text

pub is_json_file : Bytes → Bool
is_json_file path = ends_with (codes ".json") path && one_line (take (length path - 5) path)

-- The loop of `listLocalGames`.
pub local_from : List Entry → List Bytes
local_from [] = []
local_from (e ∷ es) =
    let rest = local_from es in
    if is_json_file e.path || e.is_directory then e.filename ∷ rest else rest

module _ {W : Type 0} (k : World W) (json : Json) (game_dir : Bytes) where
  -- `downloadFile`: the result, what was received, and the world after it.
  abbrev transferred : Bytes → (Bool × List Bytes) × W → Bool × (Bytes × W)
  transferred path ((success, pieces), w) =
      let buffer = write_pieces [] pieces in
      (true, (buffer, (if success then k.write path buffer w else w)))

  abbrev with_curl : Bytes → Bytes → Bool × W → Bool × (Bytes × W)
  with_curl url path (false, w) = (false, ([], w))
  with_curl url path (true, w) = transferred path (k.perform url w)

  abbrev with_file : Bytes → Bytes → Bool × W → Bool × (Bytes × W)
  with_file url path (false, w) = (false, ([], w))
  with_file url path (true, w) = with_curl url path (k.init w)

  pub download_file : Bytes → Bytes → W → Bool × (Bytes × W)
  download_file url path w = with_file url path (k.create path w)

  -- `sendCommand`
  abbrev answered : (Bool × List Bytes) × W → Bool × (Bytes × W)
  answered ((success, pieces), w) = (true, (write_pieces [] pieces, w))

  abbrev asked : Bytes → Bool × W → Bool × (Bytes × W)
  asked url (false, w) = (true, ([], w))
  asked url (true, w) = answered (k.perform url w)

  abbrev with_headers : Bytes → Bool × W → Bool × (Bytes × W)
  with_headers url (false, w) = (false, ([], w))
  with_headers url (true, w) = asked url (k.init w)

  pub send_command : Bytes → W → Bool × (Bytes × W)
  send_command url w = with_headers url (k.headers w)

  -- `listGames`: a response that cannot be parsed is a list of no games.
  abbrev parsed : Bool × (Bytes × W) → List Bytes × W
  parsed (false, (result, w)) = ([], w)
  parsed (true, (result, w)) =
      (elim (json.items_of result) [ none ↦ [] | some items ↦ list_games items ], w)

  pub list_remote_games : W → List Bytes × W
  list_remote_games w = parsed (send_command game_url w)

  -- `listLocalGames`: a directory that cannot be read is an exception.
  pub list_local_games : W → Outcome (List Bytes)
  list_local_games w = elim (k.entries game_dir w) [
    | none ↦ throws system_error
    | some es ↦ ok (local_from es)
  ]

  -- `downloadGame`
  abbrev cloned : Downloads W → Answers × W → Outcome (Bool × Downloads W)
  cloned s (a, w) =
      let (done, held) = clone_or_update_repository a s.held in
      done >>= λ b. ok (b, record s { world = w; held = held })

  pub download_game : Bytes → Bytes → Downloads W → Outcome (Bool × Downloads W)
  download_game game_name json_buffer s = json.url_of json_buffer >>= λ url.
      (cloned s (k.answers url (game_dir ++ (codes "/" ++ game_name)) s.world))

  module _ (registered : Registers) where
    -- The end of a round of `downloadGames`.
    abbrev register_if : Bytes → Bool × Downloads W → Downloads W
    register_if name (false, s) = s
    register_if name (true, s) = record s { manager = registered name s.manager }

    abbrev with_download : Bytes → Bool × (Bytes × W) → Downloads W → Outcome (Downloads W)
    with_download game (false, (buffer, w)) s = ok (record s { world = w; read_buffer = buffer })
    with_download game (true, (buffer, w)) s =
        download_game (game_base_name game) buffer (record s { world = w; read_buffer = buffer })
        >>= λ r. ok (register_if (game_base_name game) r)

    -- A round of `downloadGames`.
    pub download_one : Bytes → Downloads W → Outcome (Downloads W)
    download_one game s =
        with_download game
          (download_file (file_url ++ game) (game_dir ++ (codes "/" ++ game)) s.world) s

    pub download_games : List Bytes → List Bytes → Downloads W → Outcome (Downloads W)
    download_games [] local s = ok s
    download_games (game ∷ games) local s =
        if contains_game game local
        then download_games games local s
        else download_one game s >>= λ s'. download_games games local s'

    -- `downloadGames` and `removeGames`, one after the other.
    abbrev finish_round : List Bytes → List Bytes → Downloads W → Outcome (Downloads W)
    finish_round remote local s = download_games remote local s >>= λ s'.
        let (w, m) = remove_games k.files game_dir remote local (s'.world, s'.manager) in
        ok (record s' { world = w; manager = m })

    -- A round of `start`, after a wait that timed out.
    pub round : Downloads W → Outcome (Downloads W)
    round s =
        let (remote, w) = list_remote_games s.world in
        list_local_games w >>= λ local. finish_round remote local (record s { world = w })
