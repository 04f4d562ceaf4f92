-- ===== src/Server/Game/Membership.antt =====
-- Server/Game/Game.cpp: players that join, leave and time out, and the packets that this sends.
pub mod Players
mod Tests
pub mod Expiry
use flakkari.Prelude.{
  ℕ, zero, suc, ◌+◌, ◌≡◌, [], ◌∷◌, ◌++◌, List, Bool, true, false, not, ◌&&◌, ◌||◌, Option, none,
  some, Bytes, text_eq, codes, get_elem?, set, length, bytes_le, contains_num, remove_one, Outcome,
  ok, undefined, ◌>>=◌, ◌==◌, leb, if◌then◌else◌, is_some,
}
use flakkari.Ecs.Component.{Component, tag, tag_type, transform_type}
use flakkari.Ecs.Registry.{array_of, component, get_components, touch, spawn_entity, kill_entity}
use flakkari.Ecs.Factory.{registry_entity_by_template}
use flakkari.Protocol.Commands.{rep_connect, req_disconnect, req_entity_spawn, req_entity_destroy}
use flakkari.Protocol.Packet.{Packet, new_packet, put, inject_string}
use flakkari.Protocol.PacketFactory.{add_components_to_packet_by_entity}
use flakkari.Server.Client.{Client, is_connected, add_packet_to_send_queue}
use flakkari.Server.ResourceManager.{Templates, get_template_by_id}
use flakkari.Server.Game.{
  Game, GameConfig, Scene, System, Template, scene_of, set_scene, queue_packet, send_on_same_scene,
  send_on_same_scene_except,
}

-- What a game's methods see: the clients, the game, and the templates of the ResourceManager.
pub record Room : Type 0 where
  pub heap : List Client
  pub game : Game
  pub templates : Templates Template

-- `packet << entity`: a std::size_t.
abbrev pub put_entity : ℕ → Packet → Packet
put_entity e p = put p (bytes_le 8 e)

-- A write through a std::shared_ptr<Client>; every player's pointer is one.
abbrev pub modify_client : ℕ → (Client → Client) → List Client → List Client
modify_client p f heap = elim (get_elem? heap p) [ none ↦ heap | some c ↦ set heap p (f c) ]

abbrev pub entity_of : ℕ → List Client → ℕ
entity_of p heap = elim (get_elem? heap p) [ none ↦ 0 | some c ↦ c.entity ]

abbrev pub scene_name_of : ℕ → List Client → Bytes
scene_name_of p heap = elim (get_elem? heap p) [ none ↦ [] | some c ↦ c.scene_name ]

-- The tests of `addPlayer`.
pub may_enter : ℕ → ℕ → Room → Bool
may_enter now p room =
    not (contains_num p room.game.players)
    && not (leb room.game.config.max_players (length room.game.players))
    && elim (get_elem? room.heap p) [ none ↦ false | some c ↦ is_connected now c ]

module _ (to_float : ℕ → ℕ) where
  -- One round of `sendAllEntitiesToPlayer`, for an entity with a transform and a tag.
  pub spawn_packet : ℕ → ℕ → Bytes → Scene → Packet × Scene
  spawn_packet now i name r =
      add_components_to_packet_by_entity to_float
        (inject_string (put_entity i (new_packet req_entity_spawn now)) name, r) i

  pub send_tagged : ℕ → ℕ → ℕ → Option Component → Scene × List Client → Scene × List Client
  send_tagged now p i (some (tag name)) (r, heap) =
      if text_eq name (codes "Skybox")
      then (r, heap)
      else let (packet, r') = spawn_packet now i name r in (r', queue_packet packet p heap)
  send_tagged now p i _ s = s

  pub send_entity_to_player : ℕ → ℕ → ℕ → Scene × List Client → Scene × List Client
  send_entity_to_player now p i (r, heap) =
      if not (is_some (component transform_type i r))
      then (r, heap)
      else let r' = touch tag_type i r in
        if i == entity_of p heap
        then (r', heap)
        else send_tagged now p i (component tag_type i r') (r', heap)

  -- The loop, from `i` and with the rounds that are left.
  pub send_entities_from : ℕ → ℕ → ℕ → ℕ → Scene × List Client → Scene × List Client
  send_entities_from now p i zero s = s
  send_entities_from now p i (suc rounds) s =
      send_entities_from now p (i + 1) rounds (send_entity_to_player now p i s)

  pub send_all_entities_to_player : ℕ → ℕ → Bytes → Room → Room
  send_all_entities_to_player now p scene room =
      let r = get_components tag_type (get_components transform_type (scene_of scene room.game)) in
      let (r', heap) =
        send_entities_from now p 0 (length (array_of transform_type r)) (r, room.heap) in
      record room { heap = heap; game = set_scene scene r' room.game }

  -- `addPlayer` once its tests have passed and the entity has been spawned.
  pub enter : ℕ → ℕ → ℕ × Scene → Room → Room
  enter now p (e, r) room =
      let g = room.game in
      let scene = g.config.start_game in
      let template_name = g.config.player_template in
      let (found, templates) = get_template_by_id [] g.name scene template_name room.templates in
      let info : Template = elim found [ none ↦ [] | some t ↦ t ] in
      let heap₁ = modify_client p (λ c. record c { scene_name = scene; entity = e }) room.heap in
      let game₁ = record (set_scene scene (registry_entity_by_template e info r) g) {
        players = g.players ++ p ∷ [];
      } in
      let reply =
        inject_string (inject_string (put_entity e (new_packet rep_connect now)) template_name)
          scene in
      let heap₂ = queue_packet reply p heap₁ in
      let news = inject_string (put_entity e (new_packet req_entity_spawn now)) template_name in
      let heap₃ = send_on_same_scene_except now scene news p game₁.players heap₂ in
      send_all_entities_to_player now p scene
        (record room { heap = heap₃; game = game₁; templates = templates })

  pub add_player : ℕ → ℕ → Room → Outcome (Bool × Room)
  add_player now p room =
      if may_enter now p room
      then (spawn_entity (scene_of room.game.config.start_game room.game) >>= λ er.
          ok (true, enter now p er room))
      else ok (false, room)

-- `removePlayer`
pub remove_player : ℕ → ℕ → Room → Bool × Room
remove_player now p room =
    if contains_num p room.game.players
    then (let scene = scene_name_of p room.heap in
        let e = entity_of p room.heap in
        let packet = put_entity e (new_packet req_entity_destroy now) in
        let left = record (room.game) { players = remove_one p room.game.players } in
        let game = set_scene scene (kill_entity e (scene_of scene room.game)) left in
        (
          true,
          record room {
            heap = send_on_same_scene now scene packet game.players room.heap;
            game = game;
          },
        ))
    else (false, room)

-- The body of the loop of `checkDisconnect`, for a player that is not connected: whether `removePlayer` has
-- erased a player, and what is left.
pub expire_player : ℕ → ℕ → Room → Bool × Room
expire_player now p room =
    let scene = scene_name_of p room.heap in
    let e = entity_of p room.heap in
    let packet = put_entity e (new_packet req_disconnect now) in
    let heap = send_on_same_scene now scene packet room.game.players room.heap in
    let game = set_scene scene (kill_entity e (scene_of scene room.game)) room.game in
    remove_player now p (record room { heap = heap; game = game })

-- The loop over the vector of players as it was: to go on once an element was erased from the vector is
-- undefined.
pub check_each : ℕ → List ℕ → Room → Outcome Room
check_each now [] room = ok room
check_each now (p ∷ ps) room = elim (get_elem? room.heap p) [
  | none ↦ undefined
  | some c ↦
      let (erased, next) = if is_connected now c then (false, room) else expire_player now p room in
      let rest = check_each now ps next in if erased then undefined else rest
]

pub check_disconnect : ℕ → Room → Outcome Room
check_disconnect now room = check_each now room.game.players room
