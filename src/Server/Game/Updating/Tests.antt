-- ===== src/Server/Game/Updating/Tests.antt =====
-- Server/Game/Game.cpp: an example of a frame.
use flakkari.Prelude.{
  ◌+◌, ◌≡◌, refl, [], ◌∷◌, length, some, false, ltb, ok, codes, contains_num, count, text_eq, arith,
}
use flakkari.Ecs.Component.{tag, spawned, transform_type, tag_type, spawned_type}
use flakkari.Ecs.Systems.Elements.{rounds_of}
use flakkari.Ecs.Systems.Spawning.Waiting.{waiting_from}
use flakkari.Ecs.Systems.Tests.{whole, order, here}
use flakkari.Server.Client.{new_client, is_connected}
use flakkari.Server.Client.Tests.{client}
use flakkari.Server.Game.{System, Scene, is_on_scene}
use flakkari.Server.Game.Updating.{Surroundings, Frame, run_system}
use flakkari.Server.Game.Updating.Repeating.{waiting_packets, run_system-spawn_random}

abbrev outside : Surroundings
outside = record {
  floats = whole;
  order = order;
  positive = ltb 0;
  to_float = λ d. d;
  rand_max = 100;
  draws = λ n. n;
  waits = λ last now max_time. false;
  contents = λ i. [];
}

-- A player that has not spawned.
abbrev scene : Scene
scene = record {
  components =
      (transform_type, some here ∷ [])
      ∷ (tag_type, some (tag (codes "Player")) ∷ [])
      ∷ (spawned_type, some (spawned false) ∷ [])
      ∷ [];
  erase_functions = transform_type ∷ tag_type ∷ spawned_type ∷ [];
  systems = [];
  dead_entities = [];
  next_entity = 1;
}

abbrev frame : Frame
frame = record { scene = scene; heap = client ∷ []; drawn = 0 }

run_system-spawn_random_example :
    (f : Frame) × (run_system outside 4 (0 ∷ []) 1 (System.spawn_random_within_skybox []) frame
      ≡ ok f)
    × (waiting_packets 0 f.heap
        ≡ waiting_packets 0 frame.heap + 10 + length (waiting_from (rounds_of scene) 0 scene))
unfolding contains_num count is_on_scene is_connected new_client text_eq
run_system-spawn_random_example =
    run_system-spawn_random outside 4 (0 ∷ []) [] 0 (omega arith) refl 1 frame refl
