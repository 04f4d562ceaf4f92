-- ===== src/Ecs/Registry/Tests.antt =====
-- Engine/EntityComponentSystem/Registry.hpp: examples, with numbers for components.
use flakkari.Prelude.{
  ℕ, ◌≡◌, refl, [], ◌∷◌, none, some, ok, find, count, contains_num, remove_one, arith,
}
use flakkari.Ecs.Registry.{
  Registry, empty_registry, component, add_component, remove_component, touch, spawn_entity,
  spawn_from, kill_entity,
}
use flakkari.Ecs.Registry.{register_component, get_components}
use flakkari.Ecs.Registry.Components.{component_operations}
use flakkari.Ecs.Registry.Killing.{IsErasable, kill_entity-component}
use flakkari.Ecs.Registry.Erasing.{registry_operations-IsErasable}
use flakkari.Ecs.Registry.Lifecycle.{
  IsPartition, spawn_entity-IsPartition, kill_entity-IsPartition, spawn_entity-kill_entity_twice,
}

-- Entities 0 and 2 live and 1 is dead; 0 and 2 have a component of type 5.
abbrev sample : Registry ℕ ℕ
sample = record {
  components = (5, some 8 ∷ none ∷ some 9 ∷ []) ∷ [];
  erase_functions = 5 ∷ [];
  systems = [];
  dead_entities = 1 ∷ [];
  next_entity = 3;
}

abbrev spawned : Registry ℕ ℕ
spawned = record sample { dead_entities = [] }

sample-IsPartition : IsPartition (0 ∷ 2 ∷ []) sample
unfolding count
sample-IsPartition e = ground arith

sample-IsErasable : IsErasable sample
unfolding find contains_num
sample-IsErasable ti = ground arith

spawns : spawn_entity sample ≡ ok (1, spawned)
unfolding spawn_entity spawn_from
spawns = refl

spawn_entity-IsPartition_example : (count 1 (0 ∷ 2 ∷ []) ≡ 0) × IsPartition (1 ∷ 0 ∷ 2 ∷ []) spawned
spawn_entity-IsPartition_example =
    spawn_entity-IsPartition (0 ∷ 2 ∷ []) sample spawned 1 sample-IsPartition spawns

kill_entity-IsPartition_example : IsPartition (0 ∷ []) (kill_entity 2 sample)
unfolding remove_one count
kill_entity-IsPartition_example =
    kill_entity-IsPartition (0 ∷ 2 ∷ []) sample 2 sample-IsPartition refl

kill_entity-component_example : component 5 2 (kill_entity 2 sample) ≡ none
kill_entity-component_example = kill_entity-component 2 5 2 sample sample-IsErasable

registry_operations-IsErasable_example :
    IsErasable {C = ℕ} {S = ℕ} empty_registry
    × IsErasable (register_component 6 sample)
    × IsErasable (get_components 6 sample)
    × IsErasable (touch 6 0 sample)
    × IsErasable (add_component 6 0 4 sample)
    × IsErasable (remove_component 6 0 sample)
    × IsErasable (kill_entity 0 sample)
    × IsErasable spawned
registry_operations-IsErasable_example =
    registry_operations-IsErasable 6 0 1 4 sample spawned sample-IsErasable spawns

component_operations_test :
    (component 5 1 (add_component 5 1 4 sample) ≡ some 4)
    × (component 5 1 (remove_component 5 1 sample) ≡ none)
    × (component 5 1 (touch 5 1 sample) ≡ component 5 1 sample)
component_operations_test = component_operations 5 5 1 1 4 sample

spawn_entity-kill_entity_twice_test :
    (s t : Registry ℕ ℕ) × (spawn_entity (kill_entity 0 (kill_entity 0 spawned)) ≡ ok (0, s))
    × (spawn_entity s ≡ ok (0, t))
spawn_entity-kill_entity_twice_test = spawn_entity-kill_entity_twice spawned 0 refl
