-- ===== src/Ecs/Systems/Colliding.antt =====
-- Engine/EntityComponentSystem/Systems/Systems.cpp: when two entities touch, and what they do then. The
-- fields of a collider's size and of a scale are called width, height and depth in places, for x, y
-- and z.
pub mod Meeting
pub mod Pairs
pub mod Confining
pub mod Killed
mod Tests
use flakkari.Prelude.{ℕ, Bool, true, false, ◌&&◌, ◌||◌, if◌then◌else◌}
use flakkari.Math.Arithmetic.{Arithmetic}
use flakkari.Ecs.Component.{Vector3, Transform}
use flakkari.Ecs.Systems.Elements.{FloatOrder, maximum, minimum}

module _ (a : Arithmetic ℕ) (o : FloatOrder) where
  -- One coordinate of a box: where it ends.
  unfoldable pub far_end : ℕ → ℕ → ℕ → ℕ
  far_end position size scale = a.add position (a.mul size scale)

  unfoldable pub overlap : ℕ → ℕ → ℕ → ℕ → ℕ → ℕ → Bool
  overlap p₁ size₁ scale₁ p₂ size₂ scale₂ =
      o.less p₁ (far_end p₂ size₂ scale₂) && o.less p₂ (far_end p₁ size₁ scale₁)

  unfoldable pub box_collisions : Transform → Vector3 → Transform → Vector3 → Bool
  box_collisions t₁ size₁ t₂ size₂ =
      overlap t₁.position.x size₁.x t₁.scale.x t₂.position.x size₂.x t₂.scale.x
      && overlap t₁.position.y size₁.y t₁.scale.y t₂.position.y size₂.y t₂.scale.y
      && overlap t₁.position.z size₁.z t₁.scale.z t₂.position.z size₂.z t₂.scale.z

  unfoldable pub difference : Vector3 → Vector3 → Vector3
  difference p q = record { x = a.sub p.x q.x; y = a.sub p.y q.y; z = a.sub p.z q.z }

  unfoldable pub norm : Vector3 → ℕ
  norm d = a.sqrt (a.add (a.add (a.mul d.x d.x) (a.mul d.y d.y)) (a.mul d.z d.z))

  unfoldable pub sphere_collisions : Transform → ℕ → Transform → ℕ → Bool
  sphere_collisions t₁ radius₁ t₂ radius₂ =
      o.less (norm (difference t₁.position t₂.position)) (a.add radius₁ radius₂)

  -- The default vector has zeros.
  unfoldable pub resolve_sphere_collisions : Transform → ℕ → Transform → ℕ → Vector3
  resolve_sphere_collisions t₁ radius₁ t₂ radius₂ =
      let d = difference t₁.position t₂.position in
      let distance = norm d in
      if o.less distance (a.add radius₁ radius₂)
      then record { x = a.div d.x distance; y = a.div d.y distance; z = a.div d.z distance }
      else record { x = a.zero; y = a.zero; z = a.zero }

  -- The coordinate of a box that is nearest to another coordinate.
  unfoldable pub nearest : ℕ → ℕ → ℕ → ℕ → ℕ
  nearest p position size scale = maximum o position (minimum o p (far_end position size scale))

  unfoldable pub sphere_box_collisions : Transform → ℕ → Transform → Vector3 → Bool
  sphere_box_collisions t₁ radius t₂ size =
      let closest : Vector3 = record {
        x = nearest t₁.position.x t₂.position.x size.x t₂.scale.x;
        y = nearest t₁.position.y t₂.position.y size.y t₂.scale.y;
        z = nearest t₁.position.z t₂.position.z size.z t₂.scale.z;
      } in
      o.less (norm (difference closest t₁.position)) radius

  unfoldable pub reflect_velocity : Vector3 → Vector3 → Vector3
  reflect_velocity v normal =
      let products = a.add (a.add (a.mul v.x normal.x) (a.mul v.y normal.y)) (a.mul v.z normal.z) in
      let dot = a.mul o.two products in
      record {
        x = a.sub v.x (a.mul dot normal.x);
        y = a.sub v.y (a.mul dot normal.y);
        z = a.sub v.z (a.mul dot normal.z);
      }

  unfoldable pub shift : (ℕ → ℕ → ℕ) → Vector3 → Vector3 → Vector3
  shift op p normal = record { x = op p.x normal.x; y = op p.y normal.y; z = op p.z normal.z }

-- The skybox reaches from `-range` to `range`.
module _ (o : FloatOrder) where
  unfoldable pub beyond : ℕ → ℕ → Bool
  beyond range p = o.less p (o.negate range) || o.less range p

  unfoldable pub out_of_skybox : Vector3 → Vector3 → Bool
  out_of_skybox range p = beyond range.x p.x || beyond range.y p.y || beyond range.z p.z

  unfoldable pub clamp : ℕ → ℕ → ℕ
  clamp range p = maximum o (o.negate range) (minimum o range p)

  unfoldable pub into_skybox : Vector3 → Transform → Transform
  into_skybox range t = record t {
    position = record {
      x = clamp range.x t.position.x;
      y = clamp range.y t.position.y;
      z = clamp range.z t.position.z;
    };
  }
