-- ===== src/Logger/Tests.antt =====
-- Logger/Logger.cpp: an example.
use flakkari.Prelude.{◌≡◌, [], codes}
use flakkari.Logger.{silent, normal, log, log_at, log_debug}
use flakkari.Logger.Filtering.{placed, log_at-placed}

debug_line_dropped :
    (log_at normal [] [] log_debug (codes "tick") (codes "7") (codes "Game.cpp")
      ≡ log normal [] [] log_debug (placed (codes "tick") (codes "7") (codes "Game.cpp")))
    × (log silent [] [] log_debug (codes "tick") ≡ [])
    × (log normal [] [] log_debug (codes "tick") ≡ [])
debug_line_dropped =
    log_at-placed normal [] [] log_debug (codes "tick") (codes "7") (codes "Game.cpp")
