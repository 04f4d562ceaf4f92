-- ===== src/Server/Game/Events.antt =====
-- Server/Game/Game.cpp: what a player's packets do, and Protocol/Events.hpp (V_1), whose structures are
-- packed. The w coordinate of a velocity or an acceleration is never sent, and is left out.
pub mod Reading
pub mod Decoding
pub mod Heartbeat
pub mod Tests
use flakkari.Prelude.{
  ℕ, zero, suc, ◌+◌, ◌*◌, ◌≡◌, [], ◌∷◌, ◌++◌, List, Bool, true, false, ◌&&◌, Option, none, some,
  Bytes, from_le, bytes_le, take, drop, get_elem?, set, length, Outcome, ok, undefined, ◌>>=◌, ◌==◌,
  ltb, if◌then◌else◌,
}
use flakkari.Math.Vector.{Vector, rotate, vector3}
use flakkari.Ecs.Component.{
  Component, Control, Movable, Transform, Vector3, Vector4, control, movable, transform,
  control_type, movable_type, transform_type,
}
use flakkari.Ecs.Registry.{component, touch, add_component}
use flakkari.Protocol.Commands.{req_entity_moved, req_user_updates, req_heartbeat, rep_heartbeat}
use flakkari.Protocol.Packet.{Packet, Header, new_packet, put}
use flakkari.Server.Client.{Client, is_connected, add_packet_to_send_queue}
use flakkari.Server.Game.{Game, Scene, scene_of, set_scene, send_on_same_scene}
use flakkari.Server.Game.Floats.{Floats, one, minus_one}
use flakkari.Server.Game.Membership.{Room, put_entity, modify_client, entity_of, scene_name_of}

-- `EventId`
abbrev pub move_left : ℕ
move_left = 0

abbrev pub move_right : ℕ
move_right = 1

abbrev pub move_up : ℕ
move_up = 2

abbrev pub move_down : ℕ
move_down = 3

abbrev pub move_front : ℕ
move_front = 4

abbrev pub move_back : ℕ
move_back = 5

abbrev pub look_right : ℕ
look_right = 7

abbrev pub look_up : ℕ
look_up = 8

-- `EventState::PRESSED`
abbrev pub pressed : ℕ
pressed = 0

-- What the loop over the events changes: references into the registry, and the clients.
pub record Motion : Type 0 where
  pub vel : Movable
  pub pos : Transform
  pub heap : List Client

abbrev when_pressed : ℕ → Vector3 → Vector3
when_pressed state v = if state == pressed then v else record { x = 0; y = 0; z = 0 }

-- A read of `width` bytes at an offset of the payload's data.
pub read_at : ℕ → ℕ → Bytes → Outcome Bytes
read_at width offset payload =
    if ltb (length payload) (offset + width)
    then undefined
    else ok (take width (drop offset payload))

-- The components of an entity whose types are these.
as_control : Option Component → Option Control
as_control (some (control c)) = some c
as_control _ = none

as_movable : Option Component → Option Movable
as_movable (some (movable m)) = some m
as_movable _ = none

as_transform : Option Component → Option Transform
as_transform (some (transform t)) = some t
as_transform _ = none

pub bodies : ℕ → Scene → Option (Control × Movable × Transform)
bodies e r = elim (as_control (component control_type e r)) [
  | none ↦ none
  | some c ↦ elim (as_movable (component movable_type e r)) [
    | none ↦ none
    | some m ↦ elim (as_transform (component transform_type e r)) [
      | none ↦ none
      | some t ↦ some (c, m, t)
    ]
  ]
]

module _ (f : Floats) where
  -- `multiplyWithFloatVector`, without the last coordinate.
  pub multiply_with_float_vector : Vector4 → Vector3 → Vector3
  multiply_with_float_vector v o = record {
    x = f.multiply (f.to_float v.x) o.x;
    y = f.multiply (f.to_float v.y) o.y;
    z = f.multiply (f.to_float v.z) o.z;
  }

  -- What is left of `vel`, where the event is one of movement.
  pub handle_move_event : ℕ → ℕ → Control → Movable → Transform → Option Movable
  handle_move_event id state ctrl vel pos =
      let set_acceleration : Vector3 → Movable =
        λ v. record vel { acceleration = multiply_with_float_vector pos.rotation v } in
      if id == move_front
      then some (
          if ctrl.move_front
          then set_acceleration (when_pressed state (record { x = 0; y = 0; z = one }))
          else vel)
      else if id == move_back
      then some (
          if ctrl.move_back
          then set_acceleration (when_pressed state (record { x = 0; y = 0; z = minus_one }))
          else vel)
      else if id == move_right
      then some (
          if ctrl.move_right
          then record vel { acceleration = when_pressed state (record { x = one; y = 0; z = 0 }) }
          else vel)
      else if id == move_left
      then some (
          if ctrl.move_left
          then record vel {
            acceleration = when_pressed state (record { x = minus_one; y = 0; z = 0 });
          }
          else vel)
      else if id == move_up
      then some (
          if ctrl.move_up
          then record vel { acceleration = when_pressed state (record { x = 0; y = one; z = 0 }) }
          else vel)
      else if id == move_down
      then some (
          if ctrl.move_down
          then record vel {
            acceleration = when_pressed state (record { x = 0; y = minus_one; z = 0 });
          }
          else vel)
      else none

  abbrev put_float : ℕ → Packet → Packet
  put_float v p = put p (bytes_le 4 v)

  abbrev put_vector3 : Vector3 → Packet → Packet
  put_vector3 v p = put_float v.z (put_float v.y (put_float v.x p))

  abbrev put_rotation : Vector4 → Packet → Packet
  put_rotation v p =
      put_float (f.to_float v.w)
        (put_float (f.to_float v.z) (put_float (f.to_float v.y) (put_float (f.to_float v.x) p)))

  pub moved_packet : ℕ → ℕ → Transform → Movable → Packet
  moved_packet now e pos vel = put_vector3 vel.acceleration (
      put_vector3 vel.velocity (
        put_vector3 pos.scale (
          put_rotation pos.rotation
            (put_vector3 pos.position (put_entity e (new_packet req_entity_moved now))))))

  pub send_update_position : ℕ → ℕ → List ℕ → Motion → Motion
  send_update_position now p players m = record m {
    heap =
        send_on_same_scene now (scene_name_of p m.heap)
          (moved_packet now (entity_of p m.heap) m.pos m.vel) players m.heap;
  }

  -- The body of the first loop. A shot does nothing.
  pub event_step : ℕ → ℕ → List ℕ → Control → ℕ × ℕ → Motion → Motion
  event_step now p players ctrl (id, state) m = elim (handle_move_event id state ctrl m.vel m.pos) [
    | none ↦ m
    | some vel ↦ send_update_position now p players (record m { vel = vel })
  ]

  abbrev turned : ℕ → ℕ → ℕ → ℕ → Transform → Transform
  turned x y z value pos =
      let q : Vector ℕ = record {
        v0 = pos.rotation.x;
        v1 = pos.rotation.y;
        v2 = pos.rotation.z;
        v3 = pos.rotation.w;
      } in
      let q' = rotate f.doubles q (vector3 f.doubles x y z) (f.to_double (f.negate value)) in
      record pos { rotation = record { x = q'.v0; y = q'.v1; z = q'.v2; w = q'.v3 } }

  -- The body of the second loop.
  pub axis_step : ℕ → ℕ → List ℕ → Control → ℕ × ℕ → Motion → Motion
  axis_step now p players ctrl (id, value) m =
      if (id == look_right) && ctrl.look_right
      then send_update_position now p players
          (record m { pos = turned f.doubles.zero f.doubles.zero f.doubles.one value m.pos })
      else if (id == look_up) && ctrl.look_up
      then send_update_position now p players
          (record m { pos = turned f.doubles.one f.doubles.zero f.doubles.zero value m.pos })
      else m

  -- The two loops, from an offset and with the rounds that are left. An event is an id and a state, an
  -- axis event an id and a float.
  pub events_from : ℕ → ℕ → List ℕ → Control → ℕ → ℕ → Bytes → Motion → Outcome Motion
  events_from now p players ctrl zero offset payload m = ok m
  events_from now p players ctrl (suc rounds) offset payload m = read_at 2 offset payload >>= λ b.
      events_from now p players ctrl rounds (offset + 2) payload
        (event_step now p players ctrl (from_le (take 1 b), from_le (drop 1 b)) m)

  pub axes_from : ℕ → ℕ → List ℕ → Control → ℕ → ℕ → Bytes → Motion → Outcome Motion
  axes_from now p players ctrl zero offset payload m = ok m
  axes_from now p players ctrl (suc rounds) offset payload m = read_at 5 offset payload >>= λ b.
      axes_from now p players ctrl rounds (offset + 5) payload
        (axis_step now p players ctrl (from_le (take 1 b), from_le (drop 1 b)) m)

  -- `handleEvents` from where it reads the counts.
  pub run_events : ℕ → ℕ → List ℕ → Control → Bytes → Motion → Outcome Motion
  run_events now p players ctrl payload m = read_at 2 0 payload >>= λ b.
      let count_events = from_le b in
      read_at 2 (2 + count_events * 2) payload >>= λ c.
      events_from now p players ctrl count_events 2 payload m >>= λ m'.
      axes_from now p players ctrl (from_le c) (2 + count_events * 2 + 2) payload m'

  pub handle_events : ℕ → ℕ → Packet → Room → Outcome Room
  handle_events now p packet room =
      let e = entity_of p room.heap in
      let scene = scene_name_of p room.heap in
      let r =
        touch transform_type e
          (touch movable_type e (touch control_type e (scene_of scene room.game))) in
      elim (bodies e r) [
        | none ↦ ok (record room { game = set_scene scene r room.game })
        | some (ctrl, vel, pos) ↦
            run_events now p room.game.players ctrl packet.payload
              (record { vel = vel; pos = pos; heap = room.heap })
            >>= λ m. ok (record room {
              heap = m.heap;
              game =
                  set_scene scene
                    (add_component transform_type e (transform m.pos)
                      (add_component movable_type e (movable m.vel) r))
                    room.game;
            })
      ]

  -- What `updateIncomingPackets` does with a packet that it has taken from the queue.
  pub handle_incoming : ℕ → ℕ → Packet → Room → Outcome Room
  handle_incoming now p packet room =
      if packet.command_id == req_user_updates
      then handle_events now p packet room
      else if packet.command_id == req_heartbeat
      then ok (record room {
        heap =
            modify_client p
              (add_packet_to_send_queue (record (new_packet rep_heartbeat now) {
                header = record ((new_packet rep_heartbeat now).header) {
                  api_version = packet.api_version;
                };
              }))
              room.heap;
      })
      else ok room

  -- The inner loop, with the messages that are left to take.
  pub take_messages : ℕ → ℕ → ℕ → Room → Outcome Room
  take_messages now p zero room = ok room
  take_messages now p (suc count) room = elim (get_elem? room.heap p) [
    | none ↦ ok room
    | some c ↦ elim (c.receive_queue) [
      | [] ↦ ok room
      | packet ∷ rest ↦
          handle_incoming now p packet
            (record room { heap = set room.heap p (record c { receive_queue = rest }) })
          >>= λ room'. take_messages now p count room'
    ]
  ]

  pub update_incoming_packets : ℕ → ℕ → List ℕ → Room → Outcome Room
  update_incoming_packets now limit [] room = ok room
  update_incoming_packets now limit (p ∷ ps) room =
      elim (get_elem? room.heap p) [
        | none ↦ ok room
        | some c ↦ if is_connected now c then take_messages now p limit room else ok room
      ]
      >>= λ room'. update_incoming_packets now limit ps room'
