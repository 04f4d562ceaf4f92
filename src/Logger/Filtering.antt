-- ===== src/Logger/Filtering.antt =====
-- Logger/Logger.cpp: the two overloads of `log`, and what the modes let through.
use flakkari.Prelude.{
  ℕ, ◌≡◌, ◌==◌, refl, [], ◌++◌, append_assoc, ==_iff, Bool, true, false, Bytes, codes,
  if◌then◌else◌, arith,
}
use flakkari.Logger.{Mode, silent, normal, debug, log, log_at, log_debug, log_fatal}

-- What a message with its place in the source is.
abbrev pub placed : Bytes → Bytes → Bytes → Bytes
placed message line file = message ++ (codes " (" ++ (file ++ (codes ":" ++ (line ++ codes ")"))))

fatal_only :
    (time fatal_error_message : Bytes) (level : ℕ) (message : Bytes) (b : Bool)
    → (level == log_fatal) ≡ b
    → log silent time fatal_error_message level message
      ≡ (if b then log debug time fatal_error_message log_fatal message else [])
unfolding log
fatal_only time fatal level message true e = rw ((==_iff level log_fatal).0 e) refl
fatal_only time fatal level message false e = rw e refl

-- For every mode and level: the overload with a line and a file writes what the other writes for the
-- message with its place behind it, and the silent mode writes nothing unless the level is fatal, the
-- normal mode nothing at the debug level.
pub log_at-placed :
    (mode : Mode) (time fatal_error_message : Bytes) (level : ℕ) (message line file : Bytes)
    → (log_at mode time fatal_error_message level message line file
        ≡ log mode time fatal_error_message level (placed message line file))
      × (log silent time fatal_error_message level message ≡ (
          if level == log_fatal then log debug time fatal_error_message log_fatal message else []))
      × (log normal time fatal_error_message level message
          ≡ (if level == log_debug then [] else log debug time fatal_error_message level message))
unfolding log log_at
log_at-placed mode time fatal level message line file =
    (simp append_assoc, fatal_only time fatal level message (level == log_fatal) refl, ground arith)
