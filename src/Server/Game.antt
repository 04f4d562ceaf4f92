-- ===== src/Server/Game.antt =====
-- Server/Game/Game.hpp and Game.cpp: one instance of a game. Players are the indices of their clients in
-- a heap that the ClientManager shares. The clock is read once a call. A packet that the
-- source makes takes its sequence number from the clock, `now` here.
pub mod Membership
pub mod Sending
mod Tests
pub mod Creation
pub mod Outgoing
pub mod Floats
pub mod Events
pub mod Updating
use flakkari.Prelude.{
  ℕ, zero, suc, ◌+◌, ◌-◌, ◌≡◌, [], ◌∷◌, ◌++◌, List, Bool, true, false, not, ◌&&◌, ◌||◌, Option,
  none, some, Bytes, text_eq, codes, Dict, lookup, insert, get_default, get_elem?, set, length,
  bytes_le, contains_num, remove_one, Outcome, ok, undefined, ◌>>=◌, ◌==◌, ltb, leb, if◌then◌else◌,
}
use flakkari.Ecs.Component.{Component, tag, tag_type, transform_type}
use flakkari.Ecs.Registry.{
  Registry, empty_registry, array_of, component, get_components, touch, spawn_entity, kill_entity,
  add_system,
}
use flakkari.Ecs.Factory.{registry_entity_by_template}
use flakkari.Protocol.Commands.{rep_connect, req_disconnect, req_entity_spawn, req_entity_destroy}
use flakkari.Protocol.Packet.{Packet, Header, new_packet, put, inject_string, serialize}
use flakkari.Protocol.PacketFactory.{add_components_to_packet_by_entity}
use flakkari.Server.Client.{Client, Address, is_connected, add_packet_to_send_queue}
use flakkari.Server.ResourceManager.{Templates, get_template_by_id, add_scene}

-- The systems that a scene may name, with the scene where the lambda captures it.
pub data System : Type 0 where
  position : System
  apply_movable : System
  spawn_enemy : Bytes → System
  spawn_random_within_skybox : Bytes → System
  handle_collisions : Bytes → System

-- A template, with its components as they are read from JSON.
abbrev pub Template : Type 0
Template = List (ℕ × Component)

pub record SceneConfig : Type 0 where
  pub system_names : List Bytes
  pub entity_names : List Bytes
  pub templates : List (Bytes × Template)

-- The fields of config.cfg that the code reads.
pub record GameConfig : Type 0 where
  pub title : Bytes
  pub start_game : Bytes
  pub player_template : Bytes
  pub online : Bool
  pub lobby : Bytes
  pub min_players : ℕ
  pub max_players : ℕ
  pub max_instances : ℕ
  pub scenes : List (Bytes × SceneConfig)

abbrev pub Scene : Type 0
Scene = Registry Component System

pub record Game : Type 0 where
  pub name : Bytes
  pub config : GameConfig
  pub running : Bool
  pub players : List ℕ
  pub scene_map : Dict Scene

-- `loadSystems`: a name that is not known adds nothing.
pub load_systems : Bytes → Bytes → Scene → Scene
load_systems scene sys r =
    if text_eq sys (codes "position")
    then add_system position r
    else if text_eq sys (codes "apply_movable")
    then add_system apply_movable r
    else if text_eq sys (codes "spawn_enemy")
    then add_system (spawn_enemy scene) r
    else if text_eq sys (codes "spawn_random_within_skybox")
    then add_system (spawn_random_within_skybox scene) r
    else if text_eq sys (codes "handle_collisions")
    then add_system (handle_collisions scene) r
    else r

pub load_each_system : Bytes → List Bytes → Scene → Scene
load_each_system scene [] r = r
load_each_system scene (s ∷ ss) r = load_each_system scene ss (load_systems scene s r)

-- The loop of `loadEntityFromTemplate`: every template of the name is applied.
pub apply_templates : Bytes → ℕ → List (Bytes × Template) → Scene → Scene
apply_templates name e [] r = r
apply_templates name e ((key, template) ∷ ts) r =
    apply_templates name e ts
      (if text_eq name key then registry_entity_by_template e template r else r)

pub load_entities : List Bytes → List (Bytes × Template) → Scene → Outcome Scene
load_entities [] ts r = ok r
load_entities (name ∷ names) ts r =
    spawn_entity r >>= λ er. load_entities names ts (apply_templates name er.0 ts er.1)

-- `loadScene`: the first scene of the name, if there is one.
pub load_scene : Bytes → List (Bytes × SceneConfig) → Dict Scene → Outcome (Dict Scene)
load_scene name [] scenes = ok scenes
load_scene name ((key, info) ∷ rest) scenes =
    let later = load_scene name rest scenes in
    if text_eq key name
    then (load_entities info.entity_names info.templates
          (load_each_system name info.system_names (empty_registry {C = Component} {S = System}))
        >>= λ r. ok (insert name r scenes))
    else later

abbrev scene_templates : List (Bytes × SceneConfig) → List (Bytes × List (Bytes × Template))
scene_templates [] = []
scene_templates ((key, info) ∷ rest) = (key, info.templates) ∷ scene_templates rest

-- The constructor: the game and the templates of its first scene.
pub new_game : Bytes → GameConfig → Templates Template → Outcome (Game × Templates Template)
new_game name config ts =
    let game : Game = record {
      name = name;
      config = config;
      running = false;
      players = [];
      scene_map = [];
    } in
    elim config.scenes [
      | [] ↦ ok (game, ts)
      | s ∷ ss ↦ load_scene config.start_game (s ∷ ss) [] >>= λ loaded. ok (
        record game { scene_map = loaded },
        add_scene config.title (scene_templates (s ∷ ss)) config.start_game ts,
      )
    ]

-- `_scenes[name]`
abbrev pub scene_of : Bytes → Game → Scene
scene_of name g = get_default (empty_registry {C = Component} {S = System}) name g.scene_map

abbrev pub set_scene : Bytes → Scene → Game → Game
set_scene name r g = record g { scene_map = insert name r g.scene_map }

-- A packet put into a player's send queue, with the player's version.
pub queue_packet : Packet → ℕ → List Client → List Client
queue_packet packet p heap = elim (get_elem? heap p) [
  | none ↦ heap
  | some c ↦ set heap p (
      add_packet_to_send_queue
        (record packet { header = record (packet.header) { api_version = c.api_version } }) c)
]

-- The tests of `sendOnSameScene`.
pub is_on_scene : ℕ → Bytes → List Client → ℕ → Bool
is_on_scene now scene heap p = elim (get_elem? heap p) [
  | none ↦ false
  | some c ↦ is_connected now c && text_eq c.scene_name scene
]

pub send_on_same_scene : ℕ → Bytes → Packet → List ℕ → List Client → List Client
send_on_same_scene now scene packet [] heap = heap
send_on_same_scene now scene packet (p ∷ ps) heap =
    send_on_same_scene now scene packet ps
      (if is_on_scene now scene heap p then queue_packet packet p heap else heap)

pub send_on_same_scene_except : ℕ → Bytes → Packet → ℕ → List ℕ → List Client → List Client
send_on_same_scene_except now scene packet except [] heap = heap
send_on_same_scene_except now scene packet except (p ∷ ps) heap =
    send_on_same_scene_except now scene packet except ps (
      if is_on_scene now scene heap p && not (p == except)
      then queue_packet packet p heap
      else heap)
