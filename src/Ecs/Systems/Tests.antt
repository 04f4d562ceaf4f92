-- ===== src/Ecs/Systems/Tests.antt =====
-- Engine/EntityComponentSystem/Systems/Systems.cpp: examples.
use flakkari.Prelude.{
  ℕ, ◌+◌, ◌*◌, ◌-◌, ◌/◌, ◌==◌, ◌≡◌, ◌^◌, refl, true, Bool, none, Table, find, contains_num, ok,
  arith, [], ◌∷◌, some, ltb,
}
use flakkari.Math.Arithmetic.{Arithmetic}
use flakkari.Ecs.Component.{
  Component, movable, transform, movable_type, transform_type, health, weapon, health_type,
  weapon_type,
}
use flakkari.Ecs.Registry.{Registry, component, array_of}
use flakkari.Ecs.SparseArray.{at}
use flakkari.Ecs.Registry.Killing.{IsErasable}
use flakkari.Ecs.Systems.Elements.{FloatOrder}
use flakkari.Ecs.Systems.Death.{handle_death}
use flakkari.Ecs.Systems.Death.Overkill.{handle_death-component}
use flakkari.Ecs.Systems.{apply_movable, apply_to}
use flakkari.Ecs.Systems.Moving.{apply_movable-component}

abbrev pub whole : Arithmetic ℕ
whole = record {
  zero = 0;
  one = 1;
  add = λ x y. x + y;
  sub = λ x y. x - y;
  mul = λ x y. x * y;
  div = λ x y. x / y;
  sqrt = λ x. x;
  sin = λ x. x;
  cos = λ x. x;
  equal = λ x y. x == y;
  half_radians = λ x. x;
}

abbrev pub order : FloatOrder
order = record { less = ltb; negate = λ x. 0; two = 2 }

abbrev pub here : Component
here = transform (record {
  position = record { x = 1; y = 2; z = 3 };
  scale = record { x = 1; y = 1; z = 1 };
  rotation = record { x = 0; y = 0; z = 0; w = 1 };
})

abbrev forward : Component
forward = movable (record {
  velocity = record { x = 0; y = 0; z = 2 };
  acceleration = record { x = 1; y = 1; z = 1 };
  min_speed = 0;
  max_speed = 9;
})

abbrev one_moves : Registry Component ℕ
one_moves = record {
  components = (transform_type, some here ∷ []) ∷ (movable_type, some forward ∷ []) ∷ [];
  erase_functions = [];
  systems = [];
  dead_entities = [];
  next_entity = 1;
}

apply_movable-component_test :
    component transform_type 0 (apply_movable whole (ltb 0) 4 one_moves)
    ≡ apply_to whole
        (ltb 0)
        4
        (component transform_type 0 one_moves)
        (component movable_type 0 one_moves)
apply_movable-component_test = apply_movable-component whole (ltb 0) 4 transform_type 0 one_moves

-- An entity with a health of 5, and a bullet with a damage of 7.
abbrev hit : Registry Component ℕ
hit = record {
  components =
      (health_type, some (health 5 10 0 0) ∷ [])
      ∷ (weapon_type, none ∷ some (weapon 7 9 0 0 1) ∷ [])
      ∷ [];
  erase_functions = health_type ∷ weapon_type ∷ [];
  systems = [];
  dead_entities = [];
  next_entity = 2;
}

hit-IsErasable : IsErasable hit
unfolding find contains_num
hit-IsErasable ti = ground arith

handle_death-component_example :
    (s : Registry Component ℕ × Table Bool) × (handle_death 1 0 (hit, []) ≡ ok s)
    × (component health_type 0 s.0 ≡ some (health (2 ^ 64 - 2) 10 0 0))
    × (true ≡ true)
unfolding component array_of find at
handle_death-component_example =
    handle_death-component 1 0 5 10 0 0 7 9 0 0 1 hit [] hit-IsErasable refl refl refl (omega arith)
      (omega arith)
