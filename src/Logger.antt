-- ===== src/Logger.antt =====
-- Logger/Logger.cpp, as it is built for Linux. A call is what it writes to the output; the time's text,
-- the number of a line as text, and the message behind a fatal error are arguments.
pub mod Filtering
mod Tests
use flakkari.Prelude.{
  ℕ, ◌==◌, [], ◌∷◌, ◌++◌, Bool, true, false, not, ◌&&◌, Bytes, codes, if◌then◌else◌,
}

pub data Mode : Type 0 where
  silent normal debug : Mode

-- LOG_INFO and the others
abbrev pub log_info : ℕ
log_info = 0

abbrev pub log_log : ℕ
log_log = 1

abbrev pub log_debug : ℕ
log_debug = 2

abbrev pub log_warning : ℕ
log_warning = 3

abbrev pub log_error : ℕ
log_error = 4

abbrev pub log_fatal : ℕ
log_fatal = 5

abbrev is_silent : Mode → Bool
is_silent silent = true
is_silent _ = false

abbrev is_normal : Mode → Bool
is_normal normal = true
is_normal _ = false

-- An escape sequence.
abbrev escape : Bytes → Bytes
escape text = 27 ∷ text

abbrev reset : Bytes
reset = escape (codes "[0m")

-- The switch on the level: the colour and the word.
pub style : ℕ → Bytes × Bytes
style level =
    if level == log_info
    then (escape (codes "[36m"), codes "INFO")
    else if level == log_log
    then (escape (codes "[32m"), codes "LOG")
    else if level == log_debug
    then (escape (codes "[35m"), codes "DEBUG")
    else if level == log_warning
    then (escape (codes "[33m"), codes "WARNING")
    else if level == log_error
    then (escape (codes "[38;5;208m"), codes "ERROR")
    else if level == log_fatal
    then (escape (codes "[91m"), codes "FATAL")
    else (reset, codes "INFO")

module _ (mode : Mode) (time fatal_error_message : Bytes) where
  -- The overload with a line and a file.
  pub log_at : ℕ → Bytes → Bytes → Bytes → Bytes
  log_at level message line file =
      if is_silent mode && not (level == log_fatal)
      then []
      else if is_normal mode && (level == log_debug)
      then []
      else let (color, level_str) = style level in
        (time
          ++ (color
              ++ (codes " ["
                  ++ (level_str
                      ++ (codes "] "
                          ++ (message
                              ++ (codes " ("
                                  ++ (file
                                      ++ (codes ":"
                                          ++ (line ++ (codes ")" ++ (reset ++ 10 ∷ []))))))))))))
        ++ (if level == log_fatal then fatal_error_message ++ 10 ∷ [] else [])

  pub log : ℕ → Bytes → Bytes
  log level message =
      if is_silent mode && not (level == log_fatal)
      then []
      else if is_normal mode && (level == log_debug)
      then []
      else let (color, level_str) = style level in
        (time
          ++ (color
              ++ (codes " [" ++ (level_str ++ (codes "] " ++ (message ++ (reset ++ 10 ∷ [])))))))
        ++ (if level == log_fatal then fatal_error_message ++ 10 ∷ [] else [])
