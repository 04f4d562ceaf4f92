-- ===== src/Ecs/Factory/Registering/Tests.antt =====
-- Engine/EntityComponentSystem/Factory.cpp: examples.
use flakkari.Prelude.{some, lookup, ℕ, ◌≡◌, refl, [], ◌∷◌, true, codes, text_eq, ok}
use flakkari.Ecs.Component.{Component, rigid_body_2d, rigid_body_type, rigid_body_2d_type}
use flakkari.Ecs.Registry.{Registry, add_component, register_component, component}
use flakkari.Ecs.Factory.Reading.{Json, read_rigid_body_2d}
use flakkari.Ecs.Factory.Registering.{
  pick, branches, register_then, register_items, registry_entity_by_json,
}
use flakkari.Ecs.Systems.Typing.{type_of}
use flakkari.Ecs.Factory.Registering.Reaching.{registry_entity_by_json-component}
use flakkari.Ecs.Factory.Registering.Templates.{registry_entity_by_json-rigid_body}

-- A number, which is a template that has a rigid body with this number wherever it is asked for.
abbrev numbers : Json ℕ
numbers = record {
  items = λ n. (codes "RigidBody", n) ∷ [];
  begin_item = λ n. ok (codes "RigidBody", n);
  field = λ n key. ok n;
  to_float = λ n. ok n;
  to_double = λ n. ok n;
  to_size = λ n. ok n;
  to_bool = λ n. ok true;
  to_text = λ n. ok (codes "Player");
  one = 1;
}

abbrev blank : Registry Component ℕ
blank = record {
  components = [];
  erase_functions = [];
  systems = [];
  dead_entities = [];
  next_entity = 1;
}

abbrev with_body : Registry Component ℕ
with_body =
    add_component rigid_body_2d_type 0 (rigid_body_2d 7 7 7 7 true true)
      (register_component rigid_body_2d_type blank)

reads : registry_entity_by_json numbers 5 0 7 7 blank ≡ (ok tt, with_body)
unfolding registry_entity_by_json register_items register_then pick branches text_eq
    read_rigid_body_2d
reads = refl

registry_entity_by_json-rigid_body_example :
    component rigid_body_type 0 (registry_entity_by_json numbers 5 0 7 7 blank).1
    ≡ component rigid_body_type 0 blank
registry_entity_by_json-rigid_body_example =
    registry_entity_by_json-rigid_body numbers 5 0 7 0 7 blank

-- The 2D rigid body of the template.
registry_entity_by_json-component_example :
    (c : Component) × (component rigid_body_2d_type 0 with_body ≡ some c)
    × (type_of c ≡ rigid_body_2d_type)
unfolding lookup text_eq
registry_entity_by_json-component_example =
    registry_entity_by_json-component numbers 5 0 7 rigid_body_2d_type (codes "RigidBody") 7 7 [] []
      blank with_body refl refl reads
