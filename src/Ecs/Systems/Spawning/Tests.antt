-- ===== src/Ecs/Systems/Spawning/Tests.antt =====
-- Engine/EntityComponentSystem/Systems/Systems.cpp: examples of spawning.
use flakkari.Prelude.{
  ℕ, zero, suc, ◌≡◌, refl, false, none, [], ◌∷◌, some, codes, List, Option, ok, find, text_eq,
}
use flakkari.Ecs.Component.{Component, tag, spawned, transform_type, tag_type, spawned_type}
use flakkari.Ecs.Registry.{Registry, component, array_of}
use flakkari.Ecs.Systems.{count_tags}
use flakkari.Ecs.Systems.Spawning.{Spawned, spawn_enemy}
use flakkari.Ecs.Systems.Spawning.Limit.{spawn_enemy-limit, IsFull, count_entities_lem}
use flakkari.Ecs.Systems.Tests.{whole, order, here}

-- A player that has not spawned, and ten enemies.
abbrev enemies : ℕ → List (Option Component)
enemies zero = []
enemies (suc k) = some (tag (codes "Enemy")) ∷ enemies k

abbrev crowd : Registry Component ℕ
crowd = record {
  components =
      (transform_type, some here ∷ [])
      ∷ (tag_type, some (tag (codes "Player")) ∷ enemies 10)
      ∷ (spawned_type, some (spawned false) ∷ [])
      ∷ [];
  erase_functions = transform_type ∷ tag_type ∷ spawned_type ∷ [];
  systems = [];
  dead_entities = [];
  next_entity = 11;
}

crowd-IsFull : IsFull crowd
unfolding count_tags array_of find text_eq
crowd-IsFull = rw (count_entities_lem (codes "Enemy") crowd) refl

spawn_enemy-limit_example :
    (s : Spawned ℕ) × (spawn_enemy whole order 100
        (λ n. n)
        (λ last now max_time. false)
        (λ i. [])
        7
        crowd
        0
      ≡ ok s)
    × (s.0 ≡ none)
    × (component transform_type 0 s.1 ≡ component transform_type 0 crowd)
    × (s.2 ≡ 0)
spawn_enemy-limit_example =
    spawn_enemy-limit whole order 100 (λ n. n) (λ last now max_time. false) (λ i. []) transform_type
      0 refl 7 0 crowd crowd-IsFull
