-- ===== src/Ecs/Factory/Registering.antt =====
-- Engine/EntityComponentSystem/Factory.cpp: `RegistryEntityByTemplate` on a JSON object.
pub mod Templates
pub mod Naming
pub mod Reaching
mod Tests
use flakkari.Prelude.{
  ℕ, ◌≡◌, refl, ap, ◌∙◌, List, [], ◌∷◌, Bytes, codes, text_eq, Outcome, ok, throws, undefined,
  ◌>>=◌, if◌then◌else◌, Option, none, some,
}
use flakkari.Ecs.Component.{
  Component, collider_type, control_2d_type, movable_2d_type, rigid_body_2d_type, transform_2d_type,
  box_collider_type, control_type, movable_type, rigid_body_type, sphere_collider_type,
  transform_type, child_type, evolve_type, health_type, parent_type, level_type, spawned_type,
  tag_type, template_type, timer_type, weapon_type,
}
use flakkari.Ecs.Registry.{Registry, register_component, add_component}
use flakkari.Ecs.Factory.{registry_entity_by_template}
use flakkari.Ecs.Factory.Reading.{
  Json, read_box_collider, read_child, read_collider, read_control, read_control_2d, read_evolve,
  read_health, read_level, read_movable, read_movable_2d, read_parent, read_rigid_body,
  read_rigid_body_2d, read_spawned, read_sphere_collider, read_tag, read_template, read_timer,
  read_transform, read_transform_2d, read_weapon,
}

-- A branch: the name it tests for, the type it registers, and how it reads the component.
abbrev pub Branch : Type 0 → Type 0
Branch J = Bytes × (ℕ × (J → Outcome Component))

-- The first branch whose name is the component's; each ends with `continue`.
pub pick : {J : Type 0} → Bytes → List (Branch J) → Option (ℕ × (J → Outcome Component))
pick name [] = none
pick name ((key, branch) ∷ rest) = if text_eq key name then some branch else pick name rest

module _ {J : Type 0} (j : Json J) where
  -- The branches in the order of the source.
  pub branches : ℕ → J → List (Branch J)
  branches now templates =
      (codes "Collider", (collider_type, read_collider j))
      ∷ (codes "Control", (control_2d_type, read_control_2d j))
      ∷ (codes "Movable", (movable_2d_type, read_movable_2d j))
      ∷ (codes "RigidBody", (rigid_body_2d_type, read_rigid_body_2d j))
      ∷ (codes "Transform", (transform_2d_type, read_transform_2d j))
      ∷ (codes "BoxCollider", (box_collider_type, read_box_collider j))
      ∷ (codes "3D_Control", (control_type, read_control j))
      ∷ (codes "3D_Movable", (movable_type, read_movable j))
      ∷ (codes "RigidBody", (rigid_body_type, read_rigid_body j))
      ∷ (codes "SphereCollider", (sphere_collider_type, read_sphere_collider j))
      ∷ (codes "3D_Transform", (transform_type, read_transform j))
      ∷ (codes "Child", (child_type, read_child j))
      ∷ (codes "Evolve", (evolve_type, read_evolve j))
      ∷ (codes "Health", (health_type, read_health j))
      ∷ (codes "Parent", (parent_type, read_parent j))
      ∷ (codes "Level", (level_type, read_level j))
      ∷ (codes "Spawned", (spawned_type, read_spawned j))
      ∷ (codes "Tag", (tag_type, read_tag j))
      ∷ (codes "Template", (template_type, read_template j templates))
      ∷ (codes "Timer", (timer_type, read_timer j now))
      ∷ (codes "Weapon", (weapon_type, read_weapon j))
      ∷ []

module _ {J S : Type 0} (j : Json J) where
  -- A branch registers its type, reads the component and adds it, before what comes next: a reading that
  -- throws leaves the registry as it is then.
  pub register_then :
      ℕ
      → ℕ
      → Outcome Component
      → (Registry Component S → Outcome (Unit {0}) × Registry Component S)
      → Registry Component S
      → Outcome (Unit {0}) × Registry Component S
  register_then entity ti (ok c) next r = next (add_component ti entity c (register_component ti r))
  register_then entity ti (throws e) next r = (throws e, register_component ti r)
  register_then entity ti undefined next r = (undefined, register_component ti r)

  pub register_items :
      ℕ
      → ℕ
      → J
      → List (Bytes × J)
      → Registry Component S
      → Outcome (Unit {0}) × Registry Component S
  register_items now entity templates [] r = (ok tt, r)
  register_items now entity templates ((name, content) ∷ rest) r =
      elim (pick name (branches j now templates)) [
        | none ↦ register_items now entity templates rest r
        | some (ti, read) ↦
            register_then entity ti (read content) (register_items now entity templates rest) r
      ]

  pub registry_entity_by_json :
      ℕ → ℕ → J → J → Registry Component S → Outcome (Unit {0}) × Registry Component S
  registry_entity_by_json now entity template_json templates r =
      register_items now entity templates (j.items template_json) r
