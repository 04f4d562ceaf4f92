-- ===== src/Math/Arithmetic.antt =====
-- The operations that the language gives a numeric type, float or double say, which Engine/Math/Vector.hpp
-- is a template over. `LikeNumbers` are laws of 0 that the exact types keep; finite floats keep them but
-- for the sign of a zero.
use flakkari.Prelude.{◌≡◌, Bool}

pub record Arithmetic (T : Type 0) : Type 0 where
  pub zero : T
  pub one : T
  pub add : T → T → T
  pub sub : T → T → T
  pub mul : T → T → T
  pub div : T → T → T
  pub sqrt : T → T
  pub sin : T → T
  pub cos : T → T
  pub equal : T → T → Bool
  -- `angleDegrees * _pi / 180 / 2.0`
  pub half_radians : T → T

pub record LikeNumbers {T : Type 0} (a : Arithmetic T) : Type 0 where
  pub zero_mul : (x : T) → a.mul a.zero x ≡ a.zero
  pub mul_zero : (x : T) → a.mul x a.zero ≡ a.zero
  pub add_zero : (x : T) → a.add x a.zero ≡ x
  pub sub_zero : (x : T) → a.sub x a.zero ≡ x
