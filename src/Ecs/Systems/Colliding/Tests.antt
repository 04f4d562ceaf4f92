-- ===== src/Ecs/Systems/Colliding/Tests.antt =====
-- Engine/EntityComponentSystem/Systems/Systems.cpp: examples of collisions.
use flakkari.Prelude.{
  ltb, zero, suc, text_eq, contains_num, ℕ, ◌≡◌, refl, false, some, [], ◌∷◌, arith, codes,
  undefined, Bytes, find,
}
use flakkari.Ecs.Component.{Component, Vector3, Transform, transform, tag, transform_type, tag_type}
use flakkari.Ecs.SparseArray.{at}
use flakkari.Ecs.Registry.{Registry, component, array_of}
use flakkari.Ecs.Registry.Killing.{IsErasable}
use flakkari.Ecs.Systems.Elements.{transform_of, tag_of}
use flakkari.Ecs.Systems.Colliding.{out_of_skybox, beyond}
use flakkari.Ecs.Systems.Colliding.Meeting.{player, transform_at}
use flakkari.Ecs.Systems.Colliding.Pairs.{handle_collisions, confine, firsts_from}
use flakkari.Ecs.Systems.Colliding.Confining.{confine-inside}
use flakkari.Ecs.Systems.Colliding.Killed.{firsts_from-killed}
use flakkari.Ecs.Systems.{apply_movable}
use flakkari.Ecs.Systems.Spawning.{spawn_random_within_skybox}
use flakkari.Ecs.Systems.Typing.{IsTyped}
use flakkari.Ecs.Systems.Typing.Collisions.{Keeps}
use flakkari.Ecs.Systems.Typing.Kept.{systems-IsTyped}
use flakkari.Ecs.Systems.Tests.{whole, order}

-- At the same place on each axis.
abbrev cube : ℕ → Vector3
cube n = record { x = n; y = n; z = n }

abbrev standing : ℕ → Transform
standing n = record {
  position = cube n;
  scale = cube 1;
  rotation = record { x = 0; y = 0; z = 0; w = 1 };
}

-- One entity at 9 and one at 1.
abbrev two_of : Bytes → Registry Component ℕ
two_of name = record {
  components =
      (transform_type, some (transform (standing 9)) ∷ some (transform (standing 1)) ∷ [])
      ∷ (tag_type, some (tag name) ∷ some (tag (codes "Player")) ∷ [])
      ∷ [];
  erase_functions = transform_type ∷ tag_type ∷ [];
  systems = [];
  dead_entities = [];
  next_entity = 2;
}

two_of-IsErasable : (name : Bytes) → IsErasable (two_of name)
unfolding find contains_num
two_of-IsErasable name ti = ground arith

firsts_from-killed_example :
    firsts_from whole order (cube 5) 2 0 (two_of (codes "Bullet"), []) ≡ undefined
unfolding component array_of find at transform_of tag_of out_of_skybox beyond
firsts_from-killed_example =
    firsts_from-killed whole order (cube 5) 0 1 1 (standing 9) (two_of (codes "Bullet")) []
      (two_of-IsErasable (codes "Bullet")) refl refl refl refl (omega arith) (omega arith)

confine-inside_example :
    let (s, killed) =
      confine whole order (cube 5) 0 (standing 9) player (two_of (codes "Player"), []) in
    (t' : Transform) × (transform_at 0 s.0 ≡ some t')
    × (out_of_skybox order (cube 5) t'.position ≡ false)
    × (killed ≡ false)
    × (component tag_type 1 s.0 ≡ component tag_type 1 (two_of (codes "Player")))
unfolding component array_of find at transform_of text_eq
confine-inside_example =
    confine-inside whole order (cube 5) 0 tag_type 1 (standing 9) player (two_of (codes "Player"))
      [] (λ x y. ground arith) refl refl refl refl refl refl

two_of-IsTyped : IsTyped (two_of player)
unfolding component array_of find at
two_of-IsTyped ti zero = ground arith
two_of-IsTyped ti (suc zero) = ground arith
two_of-IsTyped ti (suc (suc j)) = ground arith

systems-IsTyped_test :
    IsTyped (apply_movable whole (ltb 0) 2 (two_of player))
    × IsTyped (spawn_random_within_skybox whole order 100 (λ n. n) (two_of player, [], 0)).0
    × Keeps (handle_collisions whole order (two_of player, []))
systems-IsTyped_test =
    systems-IsTyped whole order (ltb 0) 100 (λ n. n) 2 0 (two_of player) [] [] two_of-IsTyped
