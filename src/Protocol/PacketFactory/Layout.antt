-- ===== src/Protocol/PacketFactory/Layout.antt =====
-- Protocol/Engine/PacketFactory.hpp: the layout of each component on the wire.
use flakkari.Prelude.{
  sym, ℕ, ◌%◌, ◌^◌, ◌≡◌, sym, [], ◌∷◌, ◌++◌, append_assoc, append-nil, List, Option, none, some,
  Bytes, bytes_le, length,
}
use flakkari.Ecs.Component.{
  Component, child, evolve, health, id, level, parent, tag, template, timer, weapon, transform_2d,
  movable_2d, control_2d, collider, rigid_body_2d, transform, movable, control, box_collider,
  sphere_collider, rigid_body, spawned, Vector2, Vector3,
}
use flakkari.Protocol.Packet.{Packet}
use flakkari.Protocol.Packet.Counting.{
  IsCounted, put_payload, inject_string_payload, put-IsCounted, inject_string-IsCounted,
}
use flakkari.Protocol.PacketFactory.{to_serialized, write_component, write_if, bit}

-- A field on the wire.
pub data Field : Type 0 where
  byte : ℕ → Field
  short : ℕ → Field
  word : ℕ → Field
  long : ℕ → Field
  text : Bytes → Field

abbrev pub wire : Field → Bytes
wire (byte n) = bytes_le 1 n
wire (short n) = bytes_le 2 n
wire (word n) = bytes_le 4 n
wire (long n) = bytes_le 8 n
wire (text s) = bytes_le 4 (length s % 2 ^ 32) ++ s

abbrev pub wires : List Field → Bytes
wires [] = []
wires (f ∷ fs) = wire f ++ wires fs

abbrev vector2 : Vector2 → List Field
vector2 v = word v.x ∷ word v.y ∷ []

abbrev vector3 : Vector3 → List Field
vector3 v = word v.x ∷ word v.y ∷ word v.z ∷ []

module _ (to_float : ℕ → ℕ) where
  -- The layout of each component: its ComponentId and its fields.
  pub layout : Component → List Field
  layout (child name) = byte 20 ∷ text name ∷ []
  layout (evolve name) = byte 21 ∷ text name ∷ []
  layout (health current maximum shield max_shield) =
      byte 22 ∷ long current ∷ long maximum ∷ long shield ∷ long max_shield ∷ []
  layout (id n) = byte 23 ∷ long n ∷ []
  layout (level n current_weapon exp required) =
      byte 24 ∷ long n ∷ text current_weapon ∷ long exp ∷ long required ∷ []
  layout (parent e) = byte 25 ∷ long e ∷ []
  layout (tag t) = byte 26 ∷ text t ∷ []
  layout (template name) = byte 27 ∷ text name ∷ []
  layout (timer last max_time) = byte 28 ∷ long last ∷ word max_time ∷ []
  layout (weapon min_damage max_damage charge_max_time fire_rate n) =
      byte 29
      ∷ long min_damage
      ∷ long max_damage
      ∷ word charge_max_time
      ∷ word fire_rate
      ∷ long n
      ∷ []
  layout (transform_2d position rotation scale) =
      byte 2 ∷ (vector2 position ++ (word rotation ∷ vector2 scale))
  layout (movable_2d velocity acceleration) = byte 1 ∷ (vector2 velocity ++ vector2 acceleration)
  layout (control_2d up down left right shoot) =
      byte 0
      ∷ byte (bit up)
      ∷ byte (bit down)
      ∷ byte (bit left)
      ∷ byte (bit right)
      ∷ byte (bit shoot)
      ∷ []
  layout (collider size) = byte 3 ∷ vector2 size
  layout (rigid_body_2d mass restitution friction gravity_scale affected kinematic) =
      byte 4
      ∷ word mass
      ∷ word restitution
      ∷ word friction
      ∷ word gravity_scale
      ∷ byte (bit kinematic)
      ∷ []
  layout (transform t) =
      byte 12
      ∷ (vector3 t.position
          ++ (word (to_float t.rotation.x)
              ∷ word (to_float t.rotation.y)
              ∷ word (to_float t.rotation.z)
              ∷ word (to_float t.rotation.w)
              ∷ vector3 t.scale))
  layout (movable m) =
      byte 11
      ∷ (vector3 m.velocity
          ++ (vector3 m.acceleration ++ (word m.min_speed ∷ word m.max_speed ∷ [])))
  layout (control c) = byte 10 ∷ short (to_serialized c) ∷ []
  layout (box_collider size center) = byte 13 ∷ (vector3 size ++ vector3 center)
  layout (sphere_collider center radius) = byte 14 ∷ (vector3 center ++ (word radius ∷ []))
  layout (rigid_body mass drag angular_drag use_gravity kinematic) =
      byte 15 ∷ word mass ∷ word drag ∷ word angular_drag ∷ byte (bit use_gravity) ∷ []
  layout (spawned has_spawned) = []

  ruleset payloads = (put_payload, inject_string_payload, append_assoc, append-nil)

  pub write_component-layout :
      (p : Packet) (c : Component)
      → (write_component to_float p c).payload ≡ p.payload ++ wires (layout c)
  unfolding write_component layout
  write_component-layout p (child name) = simp payloads
  write_component-layout p (health current maximum shield max_shield) = simp payloads
  write_component-layout p (spawned has_spawned) = sym (append-nil p.payload)
  write_component-layout p _ = simp payloads

  write_component-IsCounted :
      (p : Packet) (c : Component) → IsCounted p → IsCounted (write_component to_float p c)
  unfolding write_component
  write_component-IsCounted p (child name) h =
      search (put-IsCounted, inject_string-IsCounted) depth 13
  write_component-IsCounted p (health current maximum shield max_shield) h =
      search (put-IsCounted, inject_string-IsCounted) depth 13
  write_component-IsCounted p (spawned has_spawned) h = h
  write_component-IsCounted p _ h = search (put-IsCounted, inject_string-IsCounted) depth 13

  abbrev pub written : Option Component → Bytes
  written none = []
  written (some c) = wires (layout c)

  pub write_if-written :
      (p : Packet) (c : Option Component) → (write_if to_float p c).payload ≡ p.payload ++ written c
  unfolding write_if
  write_if-written p none = sym (append-nil p.payload)
  write_if-written p (some c) = write_component-layout p c

  pub write_if-IsCounted :
      (p : Packet) (c : Option Component) → IsCounted p → IsCounted (write_if to_float p c)
  unfolding write_if
  write_if-IsCounted p none h = h
  write_if-IsCounted p (some c) h = write_component-IsCounted p c h
