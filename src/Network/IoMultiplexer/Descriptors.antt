-- ===== src/Network/IoMultiplexer/Descriptors.antt =====
-- Network/IOMultiplexer.cpp: a descriptor, none for -1; the other negative numbers are no descriptors.
use flakkari.Prelude.{ℕ, Option, none, some, Outcome, ok, throws, runtime_error}

-- The test `== -1` that each method starts with.
abbrev pub checked : Option ℕ → Outcome ℕ
checked none = throws runtime_error
checked (some fd) = ok fd
