-- ===== src/Server/GameDownloader/Transfers/Tests.antt =====
-- Server/Internals/GameDownloader.cpp: examples of transfers and of a round.
use flakkari.Prelude.{
  ◌≡◌, refl, [], ◌∷◌, List, true, false, Bytes, codes, some, ok, throws, json_exception, text_eq,
}
use flakkari.Server.GameDownloader.{list_games}
use flakkari.Server.GameDownloader.Tests.{listed, no_games, updated, nothing}
use flakkari.Server.GameDownloader.Transfers.{
  World, Json, Downloads, Entry, round, download_games, list_remote_games, send_command,
  write_pieces, is_json_file,
}
use flakkari.Server.GameDownloader.Transfers.Republishing.{round-published}
use flakkari.Server.GameDownloader.Transfers.Failing.{download_games-failed}

abbrev pong : Bytes
pong = codes "pong"

abbrev games : Bytes
games = codes "Games"

abbrev repository : Entry
repository = record { path = codes "Games/pong"; filename = pong; is_directory = true }

abbrev config : Entry
config = record {
  path = codes "Games/pong.json";
  filename = codes "pong.json";
  is_directory = false;
}

-- A world is the list of its files; every transfer is one piece that says "pong".
abbrev world : World (List Bytes)
world = record {
  files = listed;
  create = λ path w. (true, path ∷ w);
  write = λ path b w. w;
  headers = λ w. (true, w);
  init = λ w. (true, w);
  perform = λ url w. ((true, pong ∷ []), w);
  entries = λ dir w. some (repository ∷ config ∷ []);
  answers = λ url path w. (updated, w);
}

abbrev json : Json
json = record {
  url_of = λ b. throws json_exception;
  items_of = λ b. some (ok (some (codes "Games/pong.json", codes "file")) ∷ []);
}

abbrev start : Downloads (List Bytes)
start = record {
  world = codes "Games/pong.json" ∷ [];
  manager = no_games;
  read_buffer = [];
  held = nothing;
}

round-published_example :
    round world json games (λ name m. m) start ≡ ok (record start { world = [] })
unfolding list_remote_games send_command write_pieces is_json_file list_games text_eq
round-published_example =
    round-published world json games (λ name m. m) pong start start.world [] repository config refl
      refl refl refl refl refl refl refl

-- A connection that is lost after one piece.
abbrev lost : World (List Bytes)
lost = record world { perform = λ url w. ((false, pong ∷ []), w) }

download_games-failed_example :
    download_games lost json games
      (λ name m. m)
      (codes "chess.json" ∷ codes "go.json" ∷ [])
      []
      start
    ≡ throws json_exception
download_games-failed_example =
    download_games-failed lost json games (λ name m. m) (codes "chess.json") (codes "go.json" ∷ [])
      [] start (codes "Games/chess.json" ∷ start.world) (codes "Games/chess.json" ∷ start.world)
      (codes "Games/chess.json" ∷ start.world) (pong ∷ []) json_exception refl refl refl refl refl
