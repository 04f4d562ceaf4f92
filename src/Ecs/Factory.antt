-- ===== src/Ecs/Factory.antt =====
-- Engine/EntityComponentSystem/Factory.cpp. A template is what its JSON object is read as: its components
-- in order, each with its type. The child modules read the object.
pub mod Reading
pub mod Registering
use flakkari.Prelude.{ℕ, List, [], ◌∷◌, Outcome, ok, ◌>>=◌}
use flakkari.Ecs.Registry.{Registry, register_component, add_component, spawn_entity}

module _ {C S : Type 0} where
  -- `RegistryEntityByTemplate`: each branch registers the type and adds the component.
  unfoldable pub registry_entity_by_template : ℕ → List (ℕ × C) → Registry C S → Registry C S
  registry_entity_by_template entity [] r = r
  registry_entity_by_template entity ((ti, c) ∷ template) r =
      registry_entity_by_template entity template
        (add_component ti entity c (register_component ti r))

  pub create_entity_from_template : List (ℕ × C) → Registry C S → Outcome (ℕ × Registry C S)
  create_entity_from_template template r =
      spawn_entity r >>= λ er. ok (er.0, registry_entity_by_template er.0 template er.1)
