-- ===== src/Math/Vector.antt =====
-- Engine/Math/Vector.hpp: `Vector<Type>`. A method that writes to its vector returns the new one.
pub mod Equivalence
pub mod Quaternion
mod Tests
use flakkari.Prelude.{Bool, ◌&&◌, ◌||◌, not, if◌then◌else◌}
use flakkari.Math.Arithmetic.{Arithmetic}

pub record Vector (T : Type 0) : Type 0 where
  pub v0 : T
  pub v1 : T
  pub v2 : T
  pub v3 : T

-- Coordinate by coordinate, as the operators between vectors are written.
abbrev pub zip_with : {T : Type 0} → (T → T → T) → Vector T → Vector T → Vector T
zip_with f v o = record { v0 = f v.v0 o.v0; v1 = f v.v1 o.v1; v2 = f v.v2 o.v2; v3 = f v.v3 o.v3 }

-- The same with a scalar.
abbrev pub map_with : {T : Type 0} → (T → T → T) → Vector T → T → Vector T
map_with f v s = record { v0 = f v.v0 s; v1 = f v.v1 s; v2 = f v.v2 s; v3 = f v.v3 s }

module _ {T : Type 0} (a : Arithmetic T) where
  pub vector3 : T → T → T → Vector T
  vector3 x y z = record { v0 = x; v1 = y; v2 = z; v3 = a.one }

  -- `operator+`, `-`, `*`, `/` between vectors.
  pub plus : Vector T → Vector T → Vector T
  plus v o = zip_with a.add v o

  pub minus : Vector T → Vector T → Vector T
  minus v o = zip_with a.sub v o

  pub times : Vector T → Vector T → Vector T
  times v o = zip_with a.mul v o

  pub over : Vector T → Vector T → Vector T
  over v o = zip_with a.div v o

  -- The same with a scalar.
  pub plus_scalar : Vector T → T → Vector T
  plus_scalar v s = map_with a.add v s

  pub minus_scalar : Vector T → T → Vector T
  minus_scalar v s = map_with a.sub v s

  pub times_scalar : Vector T → T → Vector T
  times_scalar v s = map_with a.mul v s

  pub over_scalar : Vector T → T → Vector T
  over_scalar v s = map_with a.div v s

  -- `operator+=` and the others write the coordinates in turn; nothing reads one that has been written.
  abbrev assign_each : (T → T → T) → Vector T → Vector T → Vector T
  assign_each f v o =
      let s₀ = record v { v0 = f v.v0 o.v0 } in
      let s₁ = record s₀ { v1 = f s₀.v1 o.v1 } in
      let s₂ = record s₁ { v2 = f s₁.v2 o.v2 } in record s₂ { v3 = f s₂.v3 o.v3 }

  pub plus_assign : Vector T → Vector T → Vector T
  plus_assign v o = assign_each a.add v o

  pub minus_assign : Vector T → Vector T → Vector T
  minus_assign v o = assign_each a.sub v o

  pub times_assign : Vector T → Vector T → Vector T
  times_assign v o = assign_each a.mul v o

  pub over_assign : Vector T → Vector T → Vector T
  over_assign v o = assign_each a.div v o

  -- The same with a scalar.
  abbrev assign_each_scalar : (T → T → T) → Vector T → T → Vector T
  assign_each_scalar f v s =
      let s₀ = record v { v0 = f v.v0 s } in
      let s₁ = record s₀ { v1 = f s₀.v1 s } in
      let s₂ = record s₁ { v2 = f s₁.v2 s } in record s₂ { v3 = f s₂.v3 s }

  pub plus_assign_scalar : Vector T → T → Vector T
  plus_assign_scalar v s = assign_each_scalar a.add v s

  pub minus_assign_scalar : Vector T → T → Vector T
  minus_assign_scalar v s = assign_each_scalar a.sub v s

  pub times_assign_scalar : Vector T → T → Vector T
  times_assign_scalar v s = assign_each_scalar a.mul v s

  pub over_assign_scalar : Vector T → T → Vector T
  over_assign_scalar v s = assign_each_scalar a.div v s

  -- `operator=`
  pub assign : Vector T → Vector T → Vector T
  assign v o =
      let s₀ = record v { v0 = o.v0 } in
      let s₁ = record s₀ { v1 = o.v1 } in
      let s₂ = record s₁ { v2 = o.v2 } in record s₂ { v3 = o.v3 }

  pub equals : Vector T → Vector T → Bool
  equals v o = a.equal v.v0 o.v0 && (a.equal v.v1 o.v1 && (a.equal v.v2 o.v2 && a.equal v.v3 o.v3))

  pub differs : Vector T → Vector T → Bool
  differs v o =
      not (a.equal v.v0 o.v0)
      || (not (a.equal v.v1 o.v1) || (not (a.equal v.v2 o.v2) || not (a.equal v.v3 o.v3)))

  -- `length`, without the fourth coordinate.
  pub magnitude : Vector T → T
  magnitude v = a.sqrt (a.add (a.add (a.mul v.v0 v.v0) (a.mul v.v1 v.v1)) (a.mul v.v2 v.v2))

  pub normalize : Vector T → Vector T
  normalize v =
      let len = magnitude v in
      if a.equal len a.zero
      then v
      else record v { v0 = a.div v.v0 len; v1 = a.div v.v1 len; v2 = a.div v.v2 len }

  -- The constructor of three coordinates sets the fourth to 1.
  pub normalized : Vector T → Vector T
  normalized v =
      let len = magnitude v in
      if a.equal len a.zero then v else vector3 (a.div v.v0 len) (a.div v.v1 len) (a.div v.v2 len)

  pub dot : Vector T → Vector T → T
  dot v o =
      a.add (a.add (a.add (a.mul v.v0 o.v0) (a.mul v.v1 o.v1)) (a.mul v.v2 o.v2)) (a.mul v.v3 o.v3)

  pub cross : Vector T → Vector T → Vector T
  cross v o = record {
    v0 = a.sub (a.mul v.v1 o.v2) (a.mul v.v2 o.v1);
    v1 = a.sub (a.mul v.v2 o.v0) (a.mul v.v0 o.v2);
    v2 = a.sub (a.mul v.v0 o.v1) (a.mul v.v1 o.v0);
    v3 = a.zero;
  }

  abbrev blend : (T → T) → T → T → T
  blend scale x y = a.add x (scale (a.sub y x))

  -- The five overloads of `lerp` write in turn.
  abbrev lerp_by : (T → T) → (T → T) → (T → T) → (T → T) → Vector T → Vector T → Vector T
  lerp_by f₀ f₁ f₂ f₃ v o =
      let s₀ = record v { v0 = blend f₀ v.v0 o.v0 } in
      let s₁ = record s₀ { v1 = blend f₁ s₀.v1 o.v1 } in
      let s₂ = record s₁ { v2 = blend f₂ s₁.v2 o.v2 } in record s₂ { v3 = blend f₃ s₂.v3 o.v3 }

  abbrev lerped_by : (T → T) → (T → T) → (T → T) → (T → T) → Vector T → Vector T → Vector T
  lerped_by f₀ f₁ f₂ f₃ v o = record {
    v0 = blend f₀ v.v0 o.v0;
    v1 = blend f₁ v.v1 o.v1;
    v2 = blend f₂ v.v2 o.v2;
    v3 = blend f₃ v.v3 o.v3;
  }

  abbrev by : T → T → T
  by t d = a.mul d t

  abbrev by2 : T → T → T → T
  by2 t dt d = a.mul (a.mul d t) dt

  pub lerp : Vector T → Vector T → T → Vector T
  lerp v o t = lerp_by (by t) (by t) (by t) (by t) v o

  pub lerped : Vector T → Vector T → T → Vector T
  lerped v o t = lerped_by (by t) (by t) (by t) (by t) v o

  pub lerp_each : Vector T → Vector T → Vector T → Vector T
  lerp_each v o t = lerp_by (by t.v0) (by t.v1) (by t.v2) (by t.v3) v o

  pub lerped_each : Vector T → Vector T → Vector T → Vector T
  lerped_each v o t = lerped_by (by t.v0) (by t.v1) (by t.v2) (by t.v3) v o

  pub lerp_step : Vector T → Vector T → T → T → Vector T
  lerp_step v o t dt = lerp_by (by2 t dt) (by2 t dt) (by2 t dt) (by2 t dt) v o

  pub lerped_step : Vector T → Vector T → T → T → Vector T
  lerped_step v o t dt = lerped_by (by2 t dt) (by2 t dt) (by2 t dt) (by2 t dt) v o

  pub lerp_each_step : Vector T → Vector T → Vector T → T → Vector T
  lerp_each_step v o t dt = lerp_by (by2 t.v0 dt) (by2 t.v1 dt) (by2 t.v2 dt) (by2 t.v3 dt) v o

  pub lerped_each_step : Vector T → Vector T → Vector T → T → Vector T
  lerped_each_step v o t dt = lerped_by (by2 t.v0 dt) (by2 t.v1 dt) (by2 t.v2 dt) (by2 t.v3 dt) v o

  -- It has no counterpart that makes a new vector.
  pub lerp_step_each : Vector T → Vector T → T → Vector T → Vector T
  lerp_step_each v o t dt = lerp_by (by2 t dt.v0) (by2 t dt.v1) (by2 t dt.v2) (by2 t dt.v3) v o

  -- `rotate(angle)`, in the plane of the first two coordinates.
  pub rotate_plane : Vector T → T → Vector T
  rotate_plane v angle =
      let c = a.cos angle in
      let s = a.sin angle in
      record v {
        v0 = a.sub (a.mul v.v0 c) (a.mul v.v1 s);
        v1 = a.add (a.mul v.v0 s) (a.mul v.v1 c);
      }

  -- `quaternionRotate`: each line reads what the lines above have written.
  pub quaternion_rotate : Vector T → T → T → T → T → Vector T
  quaternion_rotate v x y z w =
      let s₀ = record v {
        v0 = a.sub (a.add (a.add (a.mul v.v3 x) (a.mul v.v0 w)) (a.mul v.v1 z)) (a.mul v.v2 y);
      } in
      let s₁ = record s₀ {
        v1 = a.add (a.add (a.sub (a.mul s₀.v3 y) (a.mul s₀.v0 z)) (a.mul s₀.v1 w)) (a.mul s₀.v2 x);
      } in
      let s₂ = record s₁ {
        v2 = a.add (a.sub (a.add (a.mul s₁.v3 z) (a.mul s₁.v0 y)) (a.mul s₁.v1 x)) (a.mul s₁.v2 w);
      } in
      record s₂ {
        v3 = a.sub (a.sub (a.sub (a.mul s₂.v3 w) (a.mul s₂.v0 x)) (a.mul s₂.v1 y)) (a.mul s₂.v2 z);
      }

  -- `rotate(axis, angleDegrees)`, with both cast to Type.
  pub rotate : Vector T → Vector T → T → Vector T
  rotate v axis degrees =
      let angle = a.half_radians degrees in
      let sin_half_angle = a.sin angle in
      let n = normalized axis in
      quaternion_rotate v (a.mul n.v0 sin_half_angle) (a.mul n.v1 sin_half_angle)
        (a.mul n.v2 sin_half_angle) (a.cos angle)
