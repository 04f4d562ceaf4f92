-- ===== src/Server/Game/Floats.antt =====
-- What the language computes on float and double, each as the number of its bits: multiplication and
-- negation of floats, the casts, and the arithmetic of doubles.
use flakkari.Prelude.{ℕ}
use flakkari.Math.Arithmetic.{Arithmetic}

pub record Floats : Type 0 where
  pub doubles : Arithmetic ℕ
  pub to_float : ℕ → ℕ
  pub to_double : ℕ → ℕ
  pub multiply : ℕ → ℕ → ℕ
  pub negate : ℕ → ℕ

-- 1.0f and -1.0f
abbrev pub one : ℕ
one = 0x3F80_0000

abbrev pub minus_one : ℕ
minus_one = 0xBF80_0000
