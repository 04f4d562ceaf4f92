-- ===== src/Server/Game/Updating.antt =====
-- Server/Game/Game.cpp: the systems of `loadSystems`, as `run_systems` calls them, and `update`. The loop
-- over a std::unordered_map takes its entries as they stand in the table.
pub mod Repeating
mod Tests
use flakkari.Prelude.{
  ℕ, zero, [], ◌∷◌, List, Bool, true, false, Option, none, some, Bytes, Outcome, ok, ◌>>=◌, Table,
  Dict, replicate, if◌then◌else◌,
}
use flakkari.Math.Arithmetic.{Arithmetic}
use flakkari.Ecs.Component.{Component}
use flakkari.Ecs.Systems.{position, apply_movable}
use flakkari.Ecs.Systems.Elements.{FloatOrder}
use flakkari.Ecs.Systems.Spawning.{spawn_enemy, spawn_random_within_skybox}
use flakkari.Ecs.Systems.Colliding.Pairs.{handle_collisions}
use flakkari.Protocol.Commands.{req_entity_spawn, req_entity_update, req_entity_destroy}
use flakkari.Protocol.Packet.{Packet, new_packet, inject_string}
use flakkari.Protocol.PacketFactory.{add_components_to_packet_by_entity}
use flakkari.Server.Client.{Client}
use flakkari.Server.ClientManager.{ClientManager}
use flakkari.Server.Game.{Game, Scene, System, Template, scene_of, set_scene, send_on_same_scene}
use flakkari.Server.Game.Membership.{Room, put_entity, check_disconnect}
use flakkari.Server.Game.Floats.{Floats}
use flakkari.Server.Game.Events.{update_incoming_packets}
use flakkari.Server.Game.Outgoing.{update_outcoming_packets}

-- What a system sees of its game: its scene's registry, the clients, and how often rand() was called.
pub record Frame : Type 0 where
  pub scene : Scene
  pub heap : List Client
  pub drawn : ℕ

-- What the systems take from outside: the arithmetic of floats, rand(), the timers, and what templates
-- hold.
pub record Surroundings : Type 0 where
  pub floats : Arithmetic ℕ
  pub order : FloatOrder
  pub positive : ℕ → Bool
  pub to_float : ℕ → ℕ
  pub rand_max : ℕ
  pub draws : ℕ → ℕ
  pub waits : ℕ → ℕ → ℕ → Bool
  pub contents : ℕ → Template

module _ (u : Surroundings) (now : ℕ) (players : List ℕ) where
  -- The components of an entity, after what the packet holds, to every player of the scene.
  pub send_components : Bytes → Packet → ℕ → Frame → Frame
  send_components name packet entity f =
      let (packet', r) = add_components_to_packet_by_entity u.to_float (packet, f.scene) entity in
      record f { scene = r; heap = send_on_same_scene now name packet' players f.heap }

  pub send_update : Bytes → ℕ → Frame → Frame
  send_update name entity =
      send_components name (put_entity entity (new_packet req_entity_update now)) entity

  pub send_updates : Bytes → List ℕ → Frame → Frame
  send_updates name [] f = f
  send_updates name (entity ∷ entities) f = send_updates name entities (send_update name entity f)

  pub send_spawn : Bytes → Option (ℕ × Bytes) → Frame → Frame
  send_spawn name none f = f
  send_spawn name (some (entity, template)) f =
      send_components name
        (inject_string (put_entity entity (new_packet req_entity_spawn now)) template) entity f

  -- Those that moved and those that died.
  pub send_collisions : Bytes → Table Bool → Frame → Frame
  send_collisions name [] f = f
  send_collisions name ((entity, true) ∷ rest) f =
      send_collisions name rest (send_update name entity f)
  send_collisions name ((entity, false) ∷ rest) f = send_collisions name rest (record f {
    heap =
        send_on_same_scene now name (put_entity entity (new_packet req_entity_destroy now)) players
          f.heap;
  })

  pub run_system : ℕ → System → Frame → Outcome Frame
  run_system delta_time System.position f =
      ok (record f { scene = position u.floats u.positive delta_time f.scene })
  run_system delta_time System.apply_movable f =
      ok (record f { scene = apply_movable u.floats u.positive delta_time f.scene })
  run_system delta_time (System.spawn_enemy name) f =
      spawn_enemy u.floats u.order u.rand_max u.draws u.waits u.contents now f.scene f.drawn
      >>= λ s. ok (send_spawn name s.0 (record f { scene = s.1; drawn = s.2 }))
  run_system delta_time (System.spawn_random_within_skybox name) f =
      let (r, entities, n) =
        spawn_random_within_skybox u.floats u.order u.rand_max u.draws
          (f.scene, replicate 10 0, f.drawn) in
      ok (send_updates name entities (record f { scene = r; drawn = n }))
  run_system delta_time (System.handle_collisions name) f =
      handle_collisions u.floats u.order (f.scene, []) >>= λ s.
      ok (send_collisions name s.1 (record f { scene = s.0 }))

  pub run_systems : ℕ → List System → Frame → Outcome Frame
  run_systems delta_time [] f = ok f
  run_systems delta_time (s ∷ ss) f =
      run_system delta_time s f >>= λ f'. run_systems delta_time ss f'

  -- The loop over `_scenes`.
  pub run_scenes : ℕ → List Bytes → Room × ℕ → Outcome (Room × ℕ)
  run_scenes delta_time [] s = ok s
  run_scenes delta_time (name ∷ names) (room, n) =
      let r = scene_of name room.game in
      run_systems delta_time r.systems (record { scene = r; heap = room.heap; drawn = n }) >>= λ f.
      run_scenes delta_time names
        (record room { heap = f.heap; game = set_scene name f.scene room.game }, f.drawn)

abbrev keys : Dict Scene → List Bytes
keys [] = []
keys ((k, r) ∷ m) = k ∷ keys m

-- The default of `maxMessagePerFrame`.
abbrev max_message_per_frame : ℕ
max_message_per_frame = 20

-- `update`, with the time since the last call as a float.
pub update :
    Surroundings → Floats → ℕ → ℕ → ClientManager → Room × ℕ → Outcome (Room × ClientManager × ℕ)
update u floats now delta_time m (room, n) =
    let limit = max_message_per_frame in
    check_disconnect now room >>= λ room₁.
    update_incoming_packets floats now limit room₁.game.players room₁ >>= λ room₂.
    run_scenes u now room₂.game.players delta_time (keys room₂.game.scene_map) (room₂, n) >>= λ s.
    let m' = update_outcoming_packets now limit s.0.game.players (record m { heap = s.0.heap }) in
    ok (record (s.0) { heap = m'.heap }, m', s.1)
