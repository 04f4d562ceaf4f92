-- ===== src/Math/Vector/Equivalence.antt =====
-- Engine/Math/Vector.hpp: the methods that write against those that make a new vector.
use flakkari.Prelude.{◌≡◌, refl, not, if◌then◌else◌, arith}
use flakkari.Math.Arithmetic.{Arithmetic}
use flakkari.Math.Vector.{
  Vector, plus, minus, times, over, plus_assign, minus_assign, times_assign, over_assign, equals,
  differs, magnitude, normalize, normalized, vector3, lerp, lerped, lerp_each, lerped_each,
  lerp_step, lerped_step, lerp_each_step, lerped_each_step, plus_scalar, minus_scalar, times_scalar,
  over_scalar, plus_assign_scalar, minus_assign_scalar, times_assign_scalar, over_assign_scalar,
  assign,
}

module _ {T : Type 0} (a : Arithmetic T) where
  -- Whatever the arithmetic: each operator that assigns, with a vector or a scalar, leaves what the
  -- operator without `=` gives, assignment leaves the other vector, each `lerp` leaves what `lerped`
  -- gives, and `!=` is the negation of `==`. `normalize` and `normalized` agree but for the fourth
  -- coordinate, which `normalized` sets to 1 unless the length is 0.
  pub in_place_operations :
      (v o t : Vector T) (s dt : T)
      → (plus_assign a v o ≡ plus a v o)
        × (minus_assign a v o ≡ minus a v o)
        × (times_assign a v o ≡ times a v o)
        × (over_assign a v o ≡ over a v o)
        × (plus_assign_scalar a v s ≡ plus_scalar a v s)
        × (minus_assign_scalar a v s ≡ minus_scalar a v s)
        × (times_assign_scalar a v s ≡ times_scalar a v s)
        × (over_assign_scalar a v s ≡ over_scalar a v s)
        × (assign a v o ≡ o)
        × (lerp a v o s ≡ lerped a v o s)
        × (lerp_each a v o t ≡ lerped_each a v o t)
        × (lerp_step a v o s dt ≡ lerped_step a v o s dt)
        × (lerp_each_step a v o t dt ≡ lerped_each_step a v o t dt)
        × (differs a v o ≡ not (equals a v o))
        × (normalized a v ≡ record (normalize a v) {
          v3 = if a.equal (magnitude a v) a.zero then v.v3 else a.one;
        })
  unfolding plus_scalar minus_scalar times_scalar over_scalar plus_assign_scalar minus_assign_scalar
      times_assign_scalar over_assign_scalar assign plus minus times over plus_assign minus_assign
      times_assign over_assign lerp lerped lerp_each lerped_each lerp_step lerped_step
      lerp_each_step lerped_each_step differs equals normalize normalized vector3
  in_place_operations v o t s dt = (
    refl,
    refl,
    refl,
    refl,
    refl,
    refl,
    refl,
    refl,
    refl,
    refl,
    refl,
    refl,
    refl,
    ground arith,
    ground arith,
  )
