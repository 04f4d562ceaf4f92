-- ===== src/Math/Vector/Tests.antt =====
-- Engine/Math/Vector.hpp: examples, over the natural numbers.
use flakkari.Prelude.{
  Bool, true, false, ◌&&◌, ℕ, ◌+◌, ◌*◌, ◌-◌, ◌/◌, ◌==◌, ◌≡◌, not, refl, if◌then◌else◌,
}
use flakkari.Math.Arithmetic.{Arithmetic, LikeNumbers}
use flakkari.Math.Vector.{
  Vector, plus, minus, times, over, plus_assign, minus_assign, times_assign, over_assign, equals,
  differs, magnitude, normalize, normalized, lerp, lerped, lerp_each, lerped_each, lerp_step,
  lerped_step, lerp_each_step, lerped_each_step, quaternion_rotate, plus_scalar, minus_scalar,
  times_scalar, over_scalar, plus_assign_scalar, minus_assign_scalar, times_assign_scalar,
  over_assign_scalar, assign,
}
use flakkari.Math.Vector.Equivalence.{in_place_operations}
use flakkari.Math.Vector.Quaternion.{product, quaternion_rotate-half_turns}

abbrev whole : Arithmetic ℕ
whole = record {
  zero = 0;
  one = 1;
  add = λ x y. x + y;
  sub = λ x y. x - y;
  mul = λ x y. x * y;
  div = λ x y. x / y;
  sqrt = λ x. x;
  sin = λ x. x;
  cos = λ x. x;
  equal = λ x y. x == y;
  half_radians = λ x. x;
}

-- The field of two elements.
abbrev xor : Bool → Bool → Bool
xor false y = y
xor true y = not y

abbrev bits : Arithmetic Bool
bits = record {
  zero = false;
  one = true;
  add = xor;
  sub = xor;
  mul = λ x y. x && y;
  div = λ x y. x && y;
  sqrt = λ x. x;
  sin = λ x. x;
  cos = λ x. x;
  equal = λ x y. not (xor x y);
  half_radians = λ x. x;
}

and_false : (x : Bool) → (x && false) ≡ false
and_false true = refl
and_false false = refl

xor-false : (x : Bool) → xor x false ≡ x
xor-false true = refl
xor-false false = refl

bits-LikeNumbers : LikeNumbers bits
bits-LikeNumbers = record {
  zero_mul = λ x. refl;
  mul_zero = and_false;
  add_zero = xor-false;
  sub_zero = xor-false;
}

abbrev low : Vector ℕ
low = record { v0 = 1; v1 = 2; v2 = 3; v3 = 4 }

abbrev high : Vector ℕ
high = record { v0 = 5; v1 = 6; v2 = 7; v3 = 8 }

in_place_on_numbers :
    (plus_assign whole low high ≡ plus whole low high)
    × (minus_assign whole low high ≡ minus whole low high)
    × (times_assign whole low high ≡ times whole low high)
    × (over_assign whole low high ≡ over whole low high)
    × (plus_assign_scalar whole low 2 ≡ plus_scalar whole low 2)
    × (minus_assign_scalar whole low 2 ≡ minus_scalar whole low 2)
    × (times_assign_scalar whole low 2 ≡ times_scalar whole low 2)
    × (over_assign_scalar whole low 2 ≡ over_scalar whole low 2)
    × (assign whole low high ≡ high)
    × (lerp whole low high 2 ≡ lerped whole low high 2)
    × (lerp_each whole low high low ≡ lerped_each whole low high low)
    × (lerp_step whole low high 2 3 ≡ lerped_step whole low high 2 3)
    × (lerp_each_step whole low high low 3 ≡ lerped_each_step whole low high low 3)
    × (differs whole low high ≡ not (equals whole low high))
    × (normalized whole low
        ≡ record (normalize whole low) { v3 = if magnitude whole low == 0 then 4 else 1 })
in_place_on_numbers = in_place_operations whole low high low 2 3

half_turns_of_bits :
    (product bits (record { v0 = true; v1 = false; v2 = false; v3 = false }) true false false false
      ≡ record { v0 = false; v1 = false; v2 = false; v3 = true })
    × (quaternion_rotate bits
          (record { v0 = true; v1 = false; v2 = false; v3 = false })
          true
          false
          false
          false
        ≡ record { v0 = false; v1 = false; v2 = false; v3 = false })
half_turns_of_bits = quaternion_rotate-half_turns bits true true bits-LikeNumbers
