-- ===== src/Ecs/Systems/Typing.antt =====
-- Engine/EntityComponentSystem/Registry.hpp: the std::any of a type's array holds an array of that type,
-- which the any_cast of `getComponents` goes by.
pub mod Operations
pub mod Collisions
pub mod Rounds
pub mod Kept
use flakkari.Prelude.{ℕ, ◌≡◌, Bool, true, ◌==◌, Option, none, some}
use flakkari.Ecs.Component.{
  Component, child, evolve, health, id, level, parent, tag, template, timer, weapon, transform_2d,
  movable_2d, control_2d, collider, rigid_body_2d, transform, movable, control, box_collider,
  sphere_collider, rigid_body, spawned, child_type, evolve_type, health_type, id_type, level_type,
  parent_type, tag_type, template_type, timer_type, weapon_type, transform_2d_type, movable_2d_type,
  control_2d_type, collider_type, rigid_body_2d_type, transform_type, movable_type, control_type,
  box_collider_type, sphere_collider_type, rigid_body_type, spawned_type,
}
use flakkari.Ecs.Registry.{Registry, component}

abbrev pub type_of : Component → ℕ
type_of (child _) = child_type
type_of (evolve _) = evolve_type
type_of (health _ _ _ _) = health_type
type_of (id _) = id_type
type_of (level _ _ _ _) = level_type
type_of (parent _) = parent_type
type_of (tag _) = tag_type
type_of (template _) = template_type
type_of (timer _ _) = timer_type
type_of (weapon _ _ _ _ _) = weapon_type
type_of (transform_2d _ _ _) = transform_2d_type
type_of (movable_2d _ _) = movable_2d_type
type_of (control_2d _ _ _ _ _) = control_2d_type
type_of (collider _) = collider_type
type_of (rigid_body_2d _ _ _ _ _ _) = rigid_body_2d_type
type_of (transform _) = transform_type
type_of (movable _) = movable_type
type_of (control _) = control_type
type_of (box_collider _ _) = box_collider_type
type_of (sphere_collider _ _) = sphere_collider_type
type_of (rigid_body _ _ _ _ _) = rigid_body_type
type_of (spawned _) = spawned_type

abbrev pub fits : ℕ → Option Component → Bool
fits ti none = true
fits ti (some c) = type_of c == ti

abbrev pub IsTyped : {S : Type 0} → Registry Component S → Type 0
IsTyped r = (ti j : ℕ) → fits ti (component ti j r) ≡ true
