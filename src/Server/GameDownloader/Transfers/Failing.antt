-- ===== src/Server/GameDownloader/Transfers/Failing.antt =====
-- Server/Internals/GameDownloader.cpp: `downloadGames` where a transfer fails.
use flakkari.Prelude.{
  ◌≡◌, refl, sym, ◌∙◌, [], ◌∷◌, ◌++◌, append_assoc, append-nil, List, true, false, Bytes, codes,
  throws, Exception,
}
use flakkari.Server.GameDownloader.{contains_game}
use flakkari.Server.GameDownloader.Transfers.{
  World, Json, Registers, Downloads, write_pieces, file_url, download_file, download_game,
  download_one, download_games,
}

-- The pieces of a transfer, one behind the other.
abbrev pub joined : List Bytes → Bytes
joined [] = []
joined (piece ∷ pieces) = piece ++ joined pieces

write_pieces-joined :
    (buffer : Bytes) (pieces : List Bytes) → write_pieces buffer pieces ≡ buffer ++ joined pieces
unfolding write_pieces
write_pieces-joined buffer [] = sym (append-nil buffer)
write_pieces-joined buffer (piece ∷ pieces) =
    write_pieces-joined (buffer ++ piece) pieces ∙ append_assoc buffer piece (joined pieces)

module _ {W : Type 0} (k : World W) (json : Json) (game_dir : Bytes) (registered : Registers) where
  download_file-failed :
      (url path : Bytes) (w w₁ w₂ w₃ : W) (pieces : List Bytes)
      → k.create path w ≡ (true, w₁)
      → k.init w₁ ≡ (true, w₂)
      → k.perform url w₂ ≡ ((false, pieces), w₃)
      → download_file k json game_dir url path w ≡ (true, (joined pieces, w₃))
  unfolding download_file
  download_file-failed url path w w₁ w₂ w₃ pieces created started failed =
      rw (created, started, failed, write_pieces-joined [] pieces) refl

  -- A published game that is not in the directory of games, whose file can be made, and a transfer that
  -- fails after some pieces. `downloadFile` still says that it is done, so that what came is parsed: where
  -- that has no "url", which is an exception, `downloadGames` ends with this exception and goes on to
  -- no other game.
  pub download_games-failed :
      (game : Bytes) (games local : List Bytes) (s : Downloads W) (w₁ w₂ w₃ : W)
      → (pieces : List Bytes) (e : Exception) → contains_game game local ≡ false
      → k.create (game_dir ++ (codes "/" ++ game)) s.world ≡ (true, w₁)
      → k.init w₁ ≡ (true, w₂)
      → k.perform (file_url ++ game) w₂ ≡ ((false, pieces), w₃)
      → json.url_of (joined pieces) ≡ throws e
      → download_games k json game_dir registered (game ∷ games) local s ≡ throws e
  unfolding download_games download_one download_game
  download_games-failed game games local s w₁ w₂ w₃ pieces e new created started failed cut =
      rw
        (
          new,
          download_file-failed (file_url ++ game) (game_dir ++ (codes "/" ++ game)) s.world w₁ w₂ w₃
              pieces created started failed,
          cut,
        )
        refl
