-- ===== src/Ecs/Systems/Typing/Operations.antt =====
-- Engine/EntityComponentSystem: what keeps each array to its own type.
use flakkari.Prelude.{ℕ, refl, ap, ◌∙◌, ◌&&◌, ◌==◌, arith, contains_num, Bool-cases, inl, inr}
use flakkari.Ecs.Component.{Component}
use flakkari.Ecs.Registry.{Registry, touch, get_components, add_component, kill_entity, component}
use flakkari.Ecs.SparseArray.{at}
use flakkari.Ecs.Registry.Components.{component_operations, touch_lem, array_of-get_components}
use flakkari.Ecs.Registry.Killing.{kill_entity_lem}
use flakkari.Ecs.Systems.Typing.{type_of, fits, IsTyped}

module _ {S : Type 0} where
  pub touch-IsTyped : (ti e : ℕ) (r : Registry Component S) → IsTyped r → IsTyped (touch ti e r)
  touch-IsTyped ti e r h tj j = ap (fits tj) (touch_lem ti tj e j r) ∙ h tj j

  pub get_components-IsTyped :
      (ti : ℕ) (r : Registry Component S) → IsTyped r → IsTyped (get_components ti r)
  unfolding component
  get_components-IsTyped ti r h tj j =
      ap (λ xs. fits tj (at xs j)) (array_of-get_components ti tj r) ∙ h tj j

  -- A component goes into the array of its own type.
  pub add_component-IsTyped :
      (e : ℕ) (c : Component) (r : Registry Component S)
      → IsTyped r
      → IsTyped (add_component (type_of c) e c r)
  add_component-IsTyped e c r h tj j =
      ap (fits tj) (component_operations (type_of c) tj e j c r).0
      ∙ elim (Bool-cases ((type_of c == tj) && (e == j))) [
        | inl q ↦ rw q (ground arith)
        | inr q ↦ rw q (h tj j)
      ]

  pub kill_entity-IsTyped :
      (e : ℕ) (r : Registry Component S) → IsTyped r → IsTyped (kill_entity e r)
  kill_entity-IsTyped e r h tj j =
      ap (fits tj) (kill_entity_lem e tj j r)
      ∙ elim (Bool-cases (contains_num tj r.erase_functions && (e == j))) [
        | inl q ↦ rw q refl
        | inr q ↦ rw q (h tj j)
      ]
