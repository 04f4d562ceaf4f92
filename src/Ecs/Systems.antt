-- ===== src/Ecs/Systems.antt =====
-- Engine/EntityComponentSystem/Systems/Systems.cpp: the systems that move entities, and counting by tag.
-- The arithmetic of floats is an interface.
pub mod Moving
pub mod Death
pub mod Elements
pub mod Spawning
pub mod Colliding
pub mod Typing
pub mod Tests
use flakkari.Prelude.{
  ℕ, ◌+◌, [], ◌∷◌, List, Bool, true, false, not, ◌||◌, Option, none, some, Bytes, text_eq,
  if◌then◌else◌,
}
use flakkari.Math.Arithmetic.{Arithmetic}
use flakkari.Ecs.Component.{
  Component, Vector2, Transform, Movable, transform, movable, tag, transform_2d, movable_2d,
  transform_type, movable_type, tag_type, transform_2d_type, movable_2d_type,
}
use flakkari.Ecs.Registry.{Registry, array_of, set_array, is_registered}

-- The loops go through two arrays as far as both reach; `f` is what a round makes of the two elements.
pub zip_first :
    (Option Component → Option Component → Option Component)
    → List (Option Component)
    → List (Option Component)
    → List (Option Component)
zip_first f [] ys = []
zip_first f (x ∷ xs) [] = x ∷ xs
zip_first f (x ∷ xs) (y ∷ ys) = f x y ∷ zip_first f xs ys

module _ (a : Arithmetic ℕ) (positive : ℕ → Bool) where
  abbrev moved_by : ℕ → ℕ → ℕ → ℕ → ℕ
  moved_by delta_time p v acceleration = a.add p (a.mul (a.mul v acceleration) delta_time)

  -- `_3D::apply_movable`, one round.
  pub apply_to : ℕ → Option Component → Option Component → Option Component
  apply_to delta_time (some (transform t)) (some (movable m)) = some (
      transform (record t {
        position = record {
          x = moved_by delta_time t.position.x m.velocity.x m.acceleration.x;
          y = moved_by delta_time t.position.y m.velocity.y m.acceleration.y;
          z = moved_by delta_time t.position.z m.velocity.z m.acceleration.z;
        };
      }))
  apply_to delta_time pos vel = pos

  pub apply_movable : {S : Type 0} → ℕ → Registry Component S → Registry Component S
  apply_movable delta_time r =
      if not (is_registered transform_type r) || not (is_registered movable_type r)
      then r
      else set_array transform_type
          (zip_first (apply_to delta_time) (array_of transform_type r) (array_of movable_type r)) r

  -- `_2D::position`: the velocity becomes a unit vector unless its length is not positive.
  pub unit : Vector2 → Vector2
  unit v =
      let magnitude = a.sqrt (a.add (a.mul v.x v.x) (a.mul v.y v.y)) in
      if positive magnitude then record { x = a.div v.x magnitude; y = a.div v.y magnitude } else v

  -- What a round makes of the velocity, and of the position with the new velocity.
  pub normalise : Option Component → Option Component → Option Component
  normalise (some (movable_2d v acceleration)) (some (transform_2d p rotation scale)) =
      some (movable_2d (unit v) acceleration)
  normalise vel pos = vel

  pub position_to : ℕ → Option Component → Option Component → Option Component
  position_to delta_time (some (transform_2d p rotation scale)) (some (movable_2d v acceleration)) =
      some (
        transform_2d
          (record {
            x = moved_by delta_time p.x v.x acceleration.x;
            y = moved_by delta_time p.y v.y acceleration.y;
          })
          rotation scale)
  position_to delta_time pos vel = pos

  pub position : {S : Type 0} → ℕ → Registry Component S → Registry Component S
  position delta_time r =
      if not (is_registered transform_2d_type r) || not (is_registered movable_2d_type r)
      then r
      else let velocities =
          zip_first normalise (array_of movable_2d_type r) (array_of transform_2d_type r) in
        set_array transform_2d_type
          (zip_first (position_to delta_time) (array_of transform_2d_type r) velocities)
          (set_array movable_2d_type velocities r)

-- `count_entities`: a size_t that counts the tags.
pub count_tags : Bytes → List (Option Component) → ℕ
count_tags text [] = 0
count_tags text (some (tag t) ∷ tags) =
    let rest = count_tags text tags in if text_eq t text then rest + 1 else rest
count_tags text (x ∷ tags) = count_tags text tags

pub count_entities : {S : Type 0} → Bytes → Registry Component S → ℕ
count_entities text r =
    if not (is_registered tag_type r) then 0 else count_tags text (array_of tag_type r)
