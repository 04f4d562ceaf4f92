-- ===== src/Protocol/PacketFactory.antt =====
-- Protocol/Engine/PacketFactory.hpp: an entity's components, written into a packet. Each section of the
-- source reads one type and writes its component, if there is one; the sections stand in the lists
-- below in their order. `to_float` is the language's conversion of a double to a float.
mod Tests
pub mod Layout
pub mod Payload
use flakkari.Prelude.{
  ℕ, ◌+◌, ◌*◌, [], ◌∷◌, List, Bool, true, false, Option, none, some, Bytes, bytes_le, if◌then◌else◌,
}
use flakkari.Ecs.Component.{
  Component, Control, child, evolve, health, id, level, parent, tag, template, timer, weapon,
  transform_2d, movable_2d, control_2d, collider, rigid_body_2d, transform, movable, control,
  box_collider, sphere_collider, rigid_body, spawned, child_type, evolve_type, health_type, id_type,
  level_type, parent_type, tag_type, template_type, timer_type, weapon_type, transform_2d_type,
  movable_2d_type, control_2d_type, collider_type, rigid_body_2d_type, transform_type, movable_type,
  control_type, box_collider_type, sphere_collider_type, rigid_body_type, Vector2, Vector3,
}
use flakkari.Ecs.Registry.{Registry, touch, component}
use flakkari.Protocol.Packet.{Packet, put, inject_string}

abbrev pub bit : Bool → ℕ
bit b = if b then 1 else 0

-- `Control::toSerialized`
pub to_serialized : Control → ℕ
to_serialized c =
    bit c.move_up
    + 2 * bit c.move_down
    + 4 * bit c.move_left
    + 8 * bit c.move_right
    + 16 * bit c.move_front
    + 32 * bit c.move_back
    + 64 * bit c.look_up
    + 128 * bit c.look_down
    + 256 * bit c.look_left
    + 512 * bit c.look_right
    + 1024 * bit c.shoot

-- `packet << v` for a value of one, two, four and eight bytes.
abbrev put8 : ℕ → Packet → Packet
put8 v p = put p (bytes_le 1 v)

abbrev put16 : ℕ → Packet → Packet
put16 v p = put p (bytes_le 2 v)

abbrev put32 : ℕ → Packet → Packet
put32 v p = put p (bytes_le 4 v)

abbrev put64 : ℕ → Packet → Packet
put64 v p = put p (bytes_le 8 v)

abbrev put_vector2 : Vector2 → Packet → Packet
put_vector2 v p = put32 v.y (put32 v.x p)

abbrev put_vector3 : Vector3 → Packet → Packet
put_vector3 v p = put32 v.z (put32 v.y (put32 v.x p))

-- The fields of the Transform, then those of the Movable, without a ComponentId.
unfoldable pub add_update_movement_to_packet :
    Packet → ℕ → Vector2 → ℕ → Vector2 → Vector2 → Vector2 → Packet
add_update_movement_to_packet p entity position rotation scale velocity acceleration =
    put_vector2 acceleration (
      put_vector2 velocity
        (put_vector2 scale (put32 rotation (put_vector2 position (put64 entity p)))))

module _ (to_float : ℕ → ℕ) where
  -- What a section writes: the ComponentId, then the fields.
  pub write_component : Packet → Component → Packet
  write_component p (child name) = inject_string (put8 20 p) name
  write_component p (evolve name) = inject_string (put8 21 p) name
  write_component p (health current maximum shield max_shield) =
      put64 max_shield (put64 shield (put64 maximum (put64 current (put8 22 p))))
  write_component p (id n) = put64 n (put8 23 p)
  write_component p (level n current_weapon exp required) =
      put64 required (put64 exp (inject_string (put64 n (put8 24 p)) current_weapon))
  write_component p (parent e) = put64 e (put8 25 p)
  write_component p (tag t) = inject_string (put8 26 p) t
  write_component p (template name) = inject_string (put8 27 p) name
  write_component p (timer last max_time) = put32 max_time (put64 last (put8 28 p))
  write_component p (weapon min_damage max_damage charge_max_time fire_rate n) =
      put64 n
        (put32 fire_rate (put32 charge_max_time (put64 max_damage (put64 min_damage (put8 29 p)))))
  write_component p (transform_2d position rotation scale) =
      put_vector2 scale (put32 rotation (put_vector2 position (put8 2 p)))
  write_component p (movable_2d velocity acceleration) =
      put_vector2 acceleration (put_vector2 velocity (put8 1 p))
  write_component p (control_2d up down left right shoot) =
      put8 (bit shoot)
        (put8 (bit right) (put8 (bit left) (put8 (bit down) (put8 (bit up) (put8 0 p)))))
  write_component p (collider size) = put_vector2 size (put8 3 p)
  write_component p (rigid_body_2d mass restitution friction gravity_scale affected kinematic) =
      put8 (bit kinematic)
        (put32 gravity_scale (put32 friction (put32 restitution (put32 mass (put8 4 p)))))
  write_component p (transform t) = put_vector3 t.scale (
      put32 (to_float t.rotation.w) (
        put32 (to_float t.rotation.z) (
          put32 (to_float t.rotation.y)
            (put32 (to_float t.rotation.x) (put_vector3 t.position (put8 12 p))))))
  write_component p (movable m) =
      put32 m.max_speed
        (put32 m.min_speed (put_vector3 m.acceleration (put_vector3 m.velocity (put8 11 p))))
  write_component p (control c) = put16 (to_serialized c) (put8 10 p)
  write_component p (box_collider size center) = put_vector3 center (put_vector3 size (put8 13 p))
  write_component p (sphere_collider center radius) = put32 radius (put_vector3 center (put8 14 p))
  write_component p (rigid_body mass drag angular_drag use_gravity kinematic) =
      put8 (bit use_gravity) (put32 angular_drag (put32 drag (put32 mass (put8 15 p))))
  -- No section is written for it.
  write_component p (spawned has_spawned) = p

  pub write_if : Packet → Option Component → Packet
  write_if p none = p
  write_if p (some c) = write_component p c

  module _ {S : Type 0} where
    -- The sections for these types, in order. Reading by index may grow the registry.
    pub add_each : List ℕ → Packet × Registry Component S → ℕ → Packet × Registry Component S
    add_each [] (p, r) entity = (p, r)
    add_each (ti ∷ tis) (p, r) entity =
        let r' = touch ti entity r in add_each tis (write_if p (component ti entity r'), r') entity

    abbrev pub add_commons_to_packet_by_entity :
        Packet × Registry Component S → ℕ → Packet × Registry Component S
    add_commons_to_packet_by_entity = add_each (
        child_type ∷ evolve_type ∷ health_type ∷ id_type ∷ level_type ∷ parent_type ∷ tag_type
        ∷ template_type ∷ timer_type ∷ weapon_type ∷ [])

    abbrev pub add2d_to_packet_by_entity :
        Packet × Registry Component S → ℕ → Packet × Registry Component S
    add2d_to_packet_by_entity = add_each (
        transform_2d_type ∷ movable_2d_type ∷ control_2d_type ∷ collider_type ∷ rigid_body_2d_type
        ∷ [])

    abbrev pub add3d_to_packet_by_entity :
        Packet × Registry Component S → ℕ → Packet × Registry Component S
    add3d_to_packet_by_entity = add_each (
        transform_type ∷ movable_type ∷ control_type ∷ box_collider_type ∷ sphere_collider_type
        ∷ rigid_body_type ∷ [])

    pub add_components_to_packet_by_entity :
        Packet × Registry Component S → ℕ → Packet × Registry Component S
    add_components_to_packet_by_entity s entity =
        add3d_to_packet_by_entity
          (add2d_to_packet_by_entity (add_commons_to_packet_by_entity s entity) entity) entity
