-- ===== src/Server/GameDownloader/Transfers/Republishing.antt =====
-- Server/Internals/GameDownloader.cpp: a round of `start` with a game that is published and complete.
use flakkari.Prelude.{
  ◌≡◌, refl, ap, [], ◌∷◌, ◌++◌, Bool, true, false, ◌||◌, Bytes, codes, some, ok, text_eq,
  text_eq_refl, text_eq→eq, length, length-append, arith, Bool-cases, inl, inr,
}
use flakkari.Server.GameManager.{GameManager}
use flakkari.Server.GameDownloader.{remove_game, remove_games}
use flakkari.Server.GameDownloader.Transfers.{
  World, Json, Registers, Downloads, Entry, is_json_file, local_from, list_remote_games,
  list_local_games, download_games, round,
}

other_name : (name : Bytes) → text_eq (name ++ codes ".json") name ≡ false
other_name name = elim (Bool-cases (text_eq (name ++ codes ".json") name)) [
  | inl e ↦
      let same = ap length (text_eq→eq _ _ e) in
      absurd (omega (arith, length-append name (codes ".json")))
  | inr e ↦ e
]

or_true : (b : Bool) → (b || true) ≡ true
or_true true = refl
or_true false = refl

local_from-both :
    (repository config : Entry)
    → repository.is_directory ≡ true
    → is_json_file config.path ≡ true
    → local_from (repository ∷ config ∷ []) ≡ repository.filename ∷ config.filename ∷ []
unfolding local_from
local_from-both repository config d j = rw (d, j, or_true (is_json_file repository.path)) refl

module _ {W : Type 0} (k : World W) (json : Json) (game_dir : Bytes) (registered : Registers)
    (name : Bytes) where
  abbrev pub file : Bytes
  file = name ++ codes ".json"

  nothing_new :
      (s : Downloads W)
      → download_games k json game_dir registered (file ∷ []) (name ∷ file ∷ []) s ≡ ok s
  unfolding download_games
  nothing_new s = rw (text_eq_refl file, or_true (text_eq name file)) refl

  remove_games-published :
      (w w₂ : W) (m : GameManager)
      → let path = game_dir ++ (codes "/" ++ file) in
        k.files.exists w path ≡ true
        → k.files.remove w path ≡ (true, w₂)
        → remove_games k.files game_dir (file ∷ []) (name ∷ file ∷ []) (w, m) ≡ (w₂, m)
  unfolding remove_games remove_game
  remove_games-published w w₂ m there gone =
      rw (other_name name, text_eq_refl file, there, gone) refl

  list_local_games-both :
      (w : W) (repository config : Entry)
      → k.entries game_dir w ≡ some (repository ∷ config ∷ [])
      → repository.is_directory ≡ true
      → is_json_file config.path ≡ true
      → list_local_games k json game_dir w ≡ ok (repository.filename ∷ config.filename ∷ [])
  unfolding list_local_games
  list_local_games-both w repository config local d j =
      rw (local, list_local_games, local_from-both repository config d j) refl

  -- The only published game is `name`, of which the directory of games holds the repository and the file,
  -- and nothing else. A round of `start` downloads nothing and deletes the file, since the
  -- repository is taken for a game that is not published; the game manager is not told.
  pub round-published :
      (s : Downloads W) (w w₂ : W) (repository config : Entry)
      → list_remote_games k json game_dir s.world ≡ (file ∷ [], w)
      → k.entries game_dir w ≡ some (repository ∷ config ∷ [])
      → repository.is_directory ≡ true
      → repository.filename ≡ name
      → is_json_file config.path ≡ true
      → config.filename ≡ file
      → k.files.exists w (game_dir ++ (codes "/" ++ file)) ≡ true
      → k.files.remove w (game_dir ++ (codes "/" ++ file)) ≡ (true, w₂)
      → round k json game_dir registered s ≡ ok (record s { world = w₂ })
  unfolding round
  round-published s w w₂ repository config remote local d n j c there gone =
      rw
        (
          remote,
          list_local_games-both w repository config local d j,
          n,
          c,
          nothing_new (record s { world = w }),
          remove_games-published w w₂ s.manager there gone,
        )
        refl
