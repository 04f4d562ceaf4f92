-- ===== src/Ecs/Component.antt =====
-- Engine/EntityComponentSystem/Components/: the component types, as the values that a registry's
-- arrays hold. A float, a double or a std::size_t is the number that its bits stand for; a vector is
-- its coordinates. NetworkEvent and NetworkIp are left out; no code makes one.
use flakkari.Prelude.{ℕ, Bool, Bytes}

pub record Vector2 : Type 0 where
  pub x : ℕ
  pub y : ℕ

pub record Vector3 : Type 0 where
  pub x : ℕ
  pub y : ℕ
  pub z : ℕ

pub record Vector4 : Type 0 where
  pub x : ℕ
  pub y : ℕ
  pub z : ℕ
  pub w : ℕ

-- `_3D::Control`
pub record Control : Type 0 where
  pub move_up : Bool
  pub move_down : Bool
  pub move_left : Bool
  pub move_right : Bool
  pub move_front : Bool
  pub move_back : Bool
  pub look_up : Bool
  pub look_down : Bool
  pub look_left : Bool
  pub look_right : Bool
  pub shoot : Bool

-- `_3D::Transform`
pub record Transform : Type 0 where
  pub position : Vector3
  pub scale : Vector3
  pub rotation : Vector4

-- `_3D::Movable`
pub record Movable : Type 0 where
  pub velocity : Vector3
  pub acceleration : Vector3
  pub min_speed : ℕ
  pub max_speed : ℕ

pub data Component : Type 0 where
  child : Bytes → Component
  evolve : Bytes → Component
  -- currentHealth, maxHealth, shield, maxShield
  health : ℕ → ℕ → ℕ → ℕ → Component
  id : ℕ → Component
  -- level, currentWeapon, currentExp, requiredExp
  level : ℕ → Bytes → ℕ → ℕ → Component
  parent : ℕ → Component
  tag : Bytes → Component
  template : Bytes → Component
  -- lastTime, maxTime
  timer : ℕ → ℕ → Component
  -- minDamage, maxDamage, chargeMaxTime, fireRate, level
  weapon : ℕ → ℕ → ℕ → ℕ → ℕ → Component
  -- _position, _rotation, _scale
  transform_2d : Vector2 → ℕ → Vector2 → Component
  -- _velocity, _acceleration
  movable_2d : Vector2 → Vector2 → Component
  -- _up, _down, _left, _right, _shoot
  control_2d : Bool → Bool → Bool → Bool → Bool → Component
  collider : Vector2 → Component
  -- _mass, _restitution, _friction, _gravityScale, _isGravityAffected, _isKinematic
  rigid_body_2d : ℕ → ℕ → ℕ → ℕ → Bool → Bool → Component
  transform : Transform → Component
  movable : Movable → Component
  control : Control → Component
  -- _size, _center
  box_collider : Vector3 → Vector3 → Component
  -- _center, _radius
  sphere_collider : Vector3 → ℕ → Component
  -- _mass, _drag, _angularDrag, _useGravity, _isKinematic
  rigid_body : ℕ → ℕ → ℕ → Bool → Bool → Component
  spawned : Bool → Component

-- The std::type_index of each type, as a number of its own.
abbrev pub child_type : ℕ
child_type = 0

abbrev pub evolve_type : ℕ
evolve_type = 1

abbrev pub health_type : ℕ
health_type = 2

abbrev pub id_type : ℕ
id_type = 3

abbrev pub level_type : ℕ
level_type = 4

abbrev pub parent_type : ℕ
parent_type = 5

abbrev pub tag_type : ℕ
tag_type = 6

abbrev pub template_type : ℕ
template_type = 7

abbrev pub timer_type : ℕ
timer_type = 8

abbrev pub weapon_type : ℕ
weapon_type = 9

abbrev pub transform_2d_type : ℕ
transform_2d_type = 10

abbrev pub movable_2d_type : ℕ
movable_2d_type = 11

abbrev pub control_2d_type : ℕ
control_2d_type = 12

abbrev pub collider_type : ℕ
collider_type = 13

abbrev pub rigid_body_2d_type : ℕ
rigid_body_2d_type = 14

abbrev pub transform_type : ℕ
transform_type = 15

abbrev pub movable_type : ℕ
movable_type = 16

abbrev pub control_type : ℕ
control_type = 17

abbrev pub box_collider_type : ℕ
box_collider_type = 18

abbrev pub sphere_collider_type : ℕ
sphere_collider_type = 19

abbrev pub rigid_body_type : ℕ
rigid_body_type = 20

abbrev pub spawned_type : ℕ
spawned_type = 21
