-- ===== src/Ecs/Factory/Registering/Naming.antt =====
-- Engine/EntityComponentSystem/Factory.cpp: the names of the components of a template.
use mathlib.Core.Option.{some-injective}
use flakkari.Prelude.{
  ℕ, ◌≡◌, refl, subst, ap, List, [], ◌∷◌, Bytes, codes, text_eq, Outcome, ok, some, Bool-cases, inl,
  inr, arith, lookup,
}
use flakkari.Ecs.Component.{
  Component, collider_type, control_2d_type, movable_2d_type, rigid_body_2d_type, transform_2d_type,
  box_collider_type, control_type, movable_type, rigid_body_type, sphere_collider_type,
  transform_type, child_type, evolve_type, health_type, parent_type, level_type, spawned_type,
  tag_type, template_type, timer_type, weapon_type,
}
use flakkari.Ecs.Systems.Typing.{type_of}
use flakkari.Ecs.Factory.Reading.{
  Json, read_box_collider, read_child, read_collider, read_control, read_control_2d, read_evolve,
  read_health, read_level, read_movable, read_movable_2d, read_parent, read_rigid_body,
  read_rigid_body_2d, read_spawned, read_sphere_collider, read_tag, read_template, read_timer,
  read_transform, read_transform_2d, read_weapon,
}
use flakkari.Ecs.Factory.Registering.{Branch, pick, branches}

-- The names of the components of a template, and their types; a name that stands twice has the first.
abbrev pub component_names : List (Bytes × ℕ)
component_names =
    (codes "Collider", collider_type)
    ∷ (codes "Control", control_2d_type)
    ∷ (codes "Movable", movable_2d_type)
    ∷ (codes "RigidBody", rigid_body_2d_type)
    ∷ (codes "Transform", transform_2d_type)
    ∷ (codes "BoxCollider", box_collider_type)
    ∷ (codes "3D_Control", control_type)
    ∷ (codes "3D_Movable", movable_type)
    ∷ (codes "RigidBody", rigid_body_type)
    ∷ (codes "SphereCollider", sphere_collider_type)
    ∷ (codes "3D_Transform", transform_type)
    ∷ (codes "Child", child_type)
    ∷ (codes "Evolve", evolve_type)
    ∷ (codes "Health", health_type)
    ∷ (codes "Parent", parent_type)
    ∷ (codes "Level", level_type)
    ∷ (codes "Spawned", spawned_type)
    ∷ (codes "Tag", tag_type)
    ∷ (codes "Template", template_type)
    ∷ (codes "Timer", timer_type)
    ∷ (codes "Weapon", weapon_type)
    ∷ []

-- Whatever is read successfully is of a type.
abbrev pub Yields : {J : Type 0} → ℕ → (J → Outcome Component) → Type 0
Yields {J} ti read = (content : J) (c : Component) → read content ≡ ok c → type_of c ≡ ti

module _ {J : Type 0} where
  abbrev pub AllYield : List (Branch J) → Type 0
  AllYield [] = Unit {0}
  AllYield ((key, (ti, read)) ∷ bs) = Yields ti read × AllYield bs

  abbrev pub heads : List (Branch J) → List (Bytes × ℕ)
  heads [] = []
  heads ((key, (ti, read)) ∷ bs) = (key, ti) ∷ heads bs

  pub pick-Yields :
      (name : Bytes) (bs : List (Branch J)) (ti : ℕ) (read : J → Outcome Component)
      → AllYield bs
      → pick name bs ≡ some (ti, read)
      → Yields ti read
  unfolding pick
  pick-Yields name [] ti read h e = cc
  pick-Yields name ((key, branch) ∷ bs) ti read (h, hs) e = elim (Bool-cases (text_eq key name)) [
    | inl same ↦
        let b : branch ≡ (ti, read) = some-injective _ _ (rw (same, pick) at e) in
        subst (λ x. Yields x.0 x.1) b h
    | inr other ↦ pick-Yields name bs ti read hs (rw (other, pick) at e)
  ]

  pub pick-lookup :
      (name : Bytes) (bs : List (Branch J)) (ti : ℕ)
      → lookup name (heads bs) ≡ some ti
      → (read : J → Outcome Component) × (pick name bs ≡ some (ti, read))
  unfolding pick lookup
  pick-lookup name [] ti e = cc
  pick-lookup name ((key, (tj, read)) ∷ bs) ti e = elim (Bool-cases (text_eq key name)) [
    | inl same ↦
        let t : tj ≡ ti = some-injective _ _ (rw (same, lookup) at e) in
        (read, rw (same, pick) (ap (λ t. some (t, read)) t))
    | inr other ↦
        let (found, p) = pick-lookup name bs ti (rw (other, lookup) at e) in
        (found, rw (other, pick) p)
  ]

module _ {J : Type 0} (j : Json J) (now : ℕ) (templates : J) where
  pub branches-heads : heads (branches j now templates) ≡ component_names
  unfolding branches
  branches-heads = refl

  read_collider-Yields : Yields collider_type (read_collider j)
  unfolding read_collider
  read_collider-Yields content c e = ground arith

  read_control_2d-Yields : Yields control_2d_type (read_control_2d j)
  unfolding read_control_2d
  read_control_2d-Yields content c e = ground arith

  read_movable_2d-Yields : Yields movable_2d_type (read_movable_2d j)
  unfolding read_movable_2d
  read_movable_2d-Yields content c e = ground arith

  read_rigid_body_2d-Yields : Yields rigid_body_2d_type (read_rigid_body_2d j)
  unfolding read_rigid_body_2d
  read_rigid_body_2d-Yields content c e = ground arith

  read_transform_2d-Yields : Yields transform_2d_type (read_transform_2d j)
  unfolding read_transform_2d
  read_transform_2d-Yields content c e = ground arith

  read_box_collider-Yields : Yields box_collider_type (read_box_collider j)
  unfolding read_box_collider
  read_box_collider-Yields content c e = ground arith

  read_control-Yields : Yields control_type (read_control j)
  unfolding read_control
  read_control-Yields content c e = ground arith

  read_movable-Yields : Yields movable_type (read_movable j)
  unfolding read_movable
  read_movable-Yields content c e = ground arith

  read_rigid_body-Yields : Yields rigid_body_type (read_rigid_body j)
  unfolding read_rigid_body
  read_rigid_body-Yields content c e = ground arith

  read_sphere_collider-Yields : Yields sphere_collider_type (read_sphere_collider j)
  unfolding read_sphere_collider
  read_sphere_collider-Yields content c e = ground arith

  read_transform-Yields : Yields transform_type (read_transform j)
  unfolding read_transform
  read_transform-Yields content c e = ground arith

  read_child-Yields : Yields child_type (read_child j)
  unfolding read_child
  read_child-Yields content c e = ground arith

  read_evolve-Yields : Yields evolve_type (read_evolve j)
  unfolding read_evolve
  read_evolve-Yields content c e = ground arith

  read_health-Yields : Yields health_type (read_health j)
  unfolding read_health
  read_health-Yields content c e = ground arith

  read_parent-Yields : Yields parent_type (read_parent j)
  unfolding read_parent
  read_parent-Yields content c e = ground arith

  read_level-Yields : Yields level_type (read_level j)
  unfolding read_level
  read_level-Yields content c e = ground arith

  read_spawned-Yields : Yields spawned_type (read_spawned j)
  unfolding read_spawned
  read_spawned-Yields content c e = ground arith

  read_tag-Yields : Yields tag_type (read_tag j)
  unfolding read_tag
  read_tag-Yields content c e = ground arith

  read_template-Yields : Yields template_type (read_template j templates)
  unfolding read_template
  read_template-Yields content c e = ground arith

  read_timer-Yields : Yields timer_type (read_timer j now)
  unfolding read_timer
  read_timer-Yields content c e = ground arith

  read_weapon-Yields : Yields weapon_type (read_weapon j)
  unfolding read_weapon
  read_weapon-Yields content c e = ground arith

  pub branches-AllYield : AllYield (branches j now templates)
  unfolding branches
  branches-AllYield = (
    read_collider-Yields,
    (
      read_control_2d-Yields,
      (
        read_movable_2d-Yields,
        (
          read_rigid_body_2d-Yields,
          (
            read_transform_2d-Yields,
            (
              read_box_collider-Yields,
              (
                read_control-Yields,
                (
                  read_movable-Yields,
                  (
                    read_rigid_body-Yields,
                    (
                      read_sphere_collider-Yields,
                      (
                        read_transform-Yields,
                        (
                          read_child-Yields,
                          (
                            read_evolve-Yields,
                            (
                              read_health-Yields,
                              (
                                read_parent-Yields,
                                (
                                  read_level-Yields,
                                  (
                                    read_spawned-Yields,
                                    (
                                      read_tag-Yields,
                                      (
                                        read_template-Yields,
                                        (read_timer-Yields, (read_weapon-Yields, tt)),
                                      ),
                                    ),
                                  ),
                                ),
                              ),
                            ),
                          ),
                        ),
                      ),
                    ),
                  ),
                ),
              ),
            ),
          ),
        ),
      ),
    ),
  )
