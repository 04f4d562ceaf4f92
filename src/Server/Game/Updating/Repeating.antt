-- ===== src/Server/Game/Updating/Repeating.antt =====
-- Server/Game/Game.cpp: what the system that places entities sends in every frame.
use flakkari.Prelude.{
  ℕ, ◌+◌, ◌≡◌, ◌≤◌, refl, ap, sym, ◌∙◌, [], ◌∷◌, ◌++◌, List, Bool, true, false, ◌&&◌, Option, none,
  some, Bytes, get_elem?, count, contains_num, length, replicate, arith, ok, Option-cases, inl, inr,
  length-append, text_eq,
}
use flakkari.Protocol.Commands.{req_entity_update}
use flakkari.Protocol.Packet.{Packet, new_packet}
use flakkari.Network.PacketQueue.{push_back}
use flakkari.Protocol.PacketFactory.{add_components_to_packet_by_entity}
use flakkari.Server.Client.{Client, is_connected, add_packet_to_send_queue}
use flakkari.Server.Game.{System, is_on_scene, send_on_same_scene}
use flakkari.Server.Game.Sending.{queued, send_on_same_scene_reaches}
use flakkari.Server.Game.Membership.{put_entity}
use flakkari.Ecs.Systems.Elements.{rounds_of}
use flakkari.Ecs.Systems.Spawning.{spawn_random_within_skybox}
use flakkari.Ecs.Systems.Spawning.Waiting.{waiting_from}
use flakkari.Ecs.Systems.Spawning.Once.{spawn_random-once}
use flakkari.Server.Game.Updating.{
  Surroundings, Frame, send_components, send_update, send_updates, run_system,
}

-- How many packets wait for a client.
abbrev queue_length : Option Client → ℕ
queue_length none = 0
queue_length (some c) = length c.send_queue

abbrev pub waiting_packets : ℕ → List Client → ℕ
waiting_packets q heap = queue_length (get_elem? heap q)

abbrev reached : ℕ → Bytes → Option Client → Bool
reached now scene none = false
reached now scene (some c) = is_connected now c && text_eq c.scene_name scene

queued-reached :
    (now : ℕ) (scene : Bytes) (packet : Packet) (c : Option Client)
    → reached now scene c ≡ true
    → (reached now scene (queued packet c) ≡ true)
      × (queue_length (queued packet c) ≡ queue_length c + 1)
unfolding add_packet_to_send_queue is_connected push_back
queued-reached now scene packet none h = cc
queued-reached now scene packet (some c) h = (h, length-append c.send_queue _)

is_on_scene-reached :
    (now : ℕ) (scene : Bytes) (heap : List Client) (q : ℕ)
    → is_on_scene now scene heap q ≡ reached now scene (get_elem? heap q)
unfolding is_on_scene
is_on_scene-reached now scene heap q = elim (Option-cases (get_elem? heap q)) [
  | inl e ↦ rw (e, is_on_scene) refl
  | inr (c, e) ↦ rw (e, is_on_scene) refl
]

module _ (u : Surroundings) (now : ℕ) (players : List ℕ) (name : Bytes) (q : ℕ)
    (once : count q players ≤ 1) (plays : contains_num q players ≡ true) where
  abbrev Gets : ℕ → List Client → List Client → Type 0
  Gets n heap heap' =
      (is_on_scene now name heap' q ≡ true) × (waiting_packets q heap' ≡ waiting_packets q heap + n)

  send-Gets :
      (packet : Packet) (heap : List Client)
      → is_on_scene now name heap q ≡ true
      → Gets 1 heap (send_on_same_scene now name packet players heap)
  send-Gets packet heap on =
      let heap' = send_on_same_scene now name packet players heap in
      let there : get_elem? heap' q ≡ queued packet (get_elem? heap q) =
        (send_on_same_scene_reaches now name packet 0 players heap q once).0
        ∙ rw (plays, on) refl in
      let (still, more) =
        queued-reached now name packet (get_elem? heap q)
          (sym (is_on_scene-reached now name heap q) ∙ on) in
      (
        is_on_scene-reached now name heap' q ∙ ap (reached now name) there ∙ still,
        ap queue_length there ∙ more,
      )

  send_updates-Gets :
      (entities : List ℕ) (f : Frame)
      → is_on_scene now name f.heap q ≡ true
      → Gets (length entities) f.heap (send_updates u now players name entities f).heap
  unfolding send_updates send_update send_components
  send_updates-Gets [] f on = (on, omega arith)
  send_updates-Gets (e ∷ es) f on =
      let f' = send_update u now players name e f in
      let (still, one) =
        send-Gets
          (add_components_to_packet_by_entity u.to_float
            (put_entity e (new_packet req_entity_update now), f.scene) e).0
          f.heap on in
      let (there, more) = send_updates-Gets es f' still in (there, more ∙ omega (arith, one))

  -- The system `spawn_random_within_skybox` in a frame, for a connected player of the scene that is listed
  -- once: it returns, and puts ten packets more into the player's send queue than there are entities to
  -- spawn, since its list begins with ten times the entity 0. So it does in every frame in which nobody
  -- spawns.
  pub run_system-spawn_random :
      (delta_time : ℕ) (f : Frame)
      → is_on_scene now name f.heap q ≡ true
      → (f' : Frame) × (run_system u now players delta_time
            (System.spawn_random_within_skybox name)
            f
          ≡ ok f')
        × (waiting_packets q f'.heap
            ≡ waiting_packets q f.heap + 10 + length (waiting_from (rounds_of f.scene) 0 f.scene))
  unfolding run_system
  run_system-spawn_random delta_time f on =
      let (r, entities, n) =
        spawn_random_within_skybox u.floats u.order u.rand_max u.draws
          (f.scene, replicate 10 0, f.drawn) in
      let spawned = waiting_from (rounds_of f.scene) 0 f.scene in
      let found : entities ≡ replicate 10 0 ++ spawned =
        (spawn_random-once u.floats u.order u.rand_max u.draws 0 f.scene (replicate 10 0)
          f.drawn).0 in
      let after = record f { scene = r; drawn = n } in
      (
        send_updates u now players name entities after,
        refl,
        (send_updates-Gets entities after on).1
            ∙ omega (arith, ap length found, length-append (replicate 10 0) spawned),
      )
