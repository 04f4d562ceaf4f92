-- ===== src/Math/Vector/Quaternion.antt =====
-- Engine/Math/Vector.hpp: `quaternionRotate` against the product of quaternions.
use flakkari.Prelude.{◌≡◌}
use flakkari.Math.Arithmetic.{Arithmetic, LikeNumbers}
use flakkari.Math.Vector.{Vector, quaternion_rotate}

module _ {T : Type 0} (a : Arithmetic T) where
  -- The product, each coordinate from the old ones.
  pub product : Vector T → T → T → T → T → Vector T
  product v x y z w = record {
    v0 = a.sub (a.add (a.add (a.mul v.v3 x) (a.mul v.v0 w)) (a.mul v.v1 z)) (a.mul v.v2 y);
    v1 = a.add (a.add (a.sub (a.mul v.v3 y) (a.mul v.v0 z)) (a.mul v.v1 w)) (a.mul v.v2 x);
    v2 = a.add (a.sub (a.add (a.mul v.v3 z) (a.mul v.v0 y)) (a.mul v.v1 x)) (a.mul v.v2 w);
    v3 = a.sub (a.sub (a.sub (a.mul v.v3 w) (a.mul v.v0 x)) (a.mul v.v1 y)) (a.mul v.v2 z);
  }

  -- Two half turns about the first axis, of any magnitudes: their product is a number, the negated product
  -- of the magnitudes, but `quaternionRotate` leaves the zero quaternion, since its last line reads the
  -- first coordinate that its first line has overwritten.
  pub quaternion_rotate-half_turns :
      (p q : T)
      → LikeNumbers a
      → let turn : Vector T = record { v0 = p; v1 = a.zero; v2 = a.zero; v3 = a.zero } in
        (product turn q a.zero a.zero a.zero
          ≡ record { v0 = a.zero; v1 = a.zero; v2 = a.zero; v3 = a.sub a.zero (a.mul p q) })
        × (quaternion_rotate a turn q a.zero a.zero a.zero
            ≡ record { v0 = a.zero; v1 = a.zero; v2 = a.zero; v3 = a.zero })
  unfolding product quaternion_rotate
  quaternion_rotate-half_turns p q n = (
    simp (n.zero_mul, n.mul_zero, n.add_zero, n.sub_zero),
    simp (n.zero_mul, n.mul_zero, n.add_zero, n.sub_zero),
  )
