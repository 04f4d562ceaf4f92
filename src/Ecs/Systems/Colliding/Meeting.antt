-- ===== src/Ecs/Systems/Colliding/Meeting.antt =====
-- Engine/EntityComponentSystem/Systems/Systems.cpp: what `handle_collisions` does to a pair. An array that
-- grows is taken to move its elements, so that a reference taken before into it must not be read.
use flakkari.Prelude.{
  ℕ, Bool, true, false, not, Option, none, some, Bytes, codes, Table, assign, Outcome, ok,
  undefined, ◌>>=◌, ltb, length, if◌then◌else◌,
}
use flakkari.Math.Arithmetic.{Arithmetic}
use flakkari.Ecs.Component.{
  Component, Vector3, Transform, Movable, transform, movable, transform_type, tag_type,
  box_collider_type, sphere_collider_type, movable_type, health_type,
}
use flakkari.Ecs.Registry.{
  Registry, array_of, is_registered_at, touch, component, add_component, kill_entity,
}
use flakkari.Ecs.Systems.Death.{handle_death}
use flakkari.Ecs.Systems.Elements.{
  FloatOrder, transform_of, movable_of, tag_of, box_of, sphere_of, value_of,
}
use flakkari.Ecs.Systems.Colliding.{
  sphere_collisions, resolve_sphere_collisions, sphere_box_collisions, reflect_velocity, shift,
}

-- The registry, and the entities that moved (true) or died (false).
abbrev pub State : Type 0 → Type 0
State S = Registry Component S × Table Bool

abbrev pub player : Bytes
player = codes "Player"

abbrev pub enemy : Bytes
enemy = codes "Enemy"

abbrev pub bullet : Bytes
bullet = codes "Bullet"

abbrev pub skybox : Bytes
skybox = codes "Skybox"

-- What a reference into an array that was `limit` long holds, after the array was read at `j`.
unfoldable pub held : {A : Type 0} → ℕ → ℕ → Option A → Outcome (Option A)
held limit j v = if ltb j limit then ok v else undefined

-- `second` is read only where the first holds something.
unfoldable pub both :
    {A B : Type 0} → Outcome (Option A) → Outcome (Option B) → Outcome (Option (A × B))
both first second = first >>= λ x. elim x [
  | none ↦ ok none
  | some v ↦ second >>= λ y. elim y [ none ↦ ok none | some w ↦ ok (some (v, w)) ]
]

abbrev pub when : {A : Type 0} → Bool → Outcome (Option A) → Outcome (Option A)
when test read = if test then read else ok none

module _ {S : Type 0} where
  abbrev pub transform_at : ℕ → Registry Component S → Option Transform
  transform_at i r = transform_of (component transform_type i r)

  abbrev pub tag_at : ℕ → Registry Component S → Option Bytes
  tag_at i r = tag_of (component tag_type i r)

  abbrev pub box_at : ℕ → Registry Component S → Option Vector3
  box_at i r = box_of (component box_collider_type i r)

  abbrev pub sphere_at : ℕ → Registry Component S → Option ℕ
  sphere_at i r = sphere_of (component sphere_collider_type i r)

  abbrev pub movable_at : ℕ → Registry Component S → Option Movable
  movable_at i r = movable_of (component movable_type i r)

  unfoldable pub put_transform : ℕ → Transform → Registry Component S → Registry Component S
  put_transform i t r = add_component transform_type i (transform t) r

  unfoldable pub put_velocity : ℕ → Movable → Vector3 → Registry Component S → Registry Component S
  put_velocity i m v r = add_component movable_type i (movable (record m { velocity = v })) r

  unfoldable pub crash : ℕ → ℕ → Bool → State S → State S
  crash i j collided (r, entities) =
      if collided
      then (kill_entity j (kill_entity i r), assign j false (assign i false entities))
      else (r, entities)

module _ (a : Arithmetic ℕ) (o : FloatOrder) {S : Type 0} where
  unfoldable pub reflect_if :
      ℕ
      → ℕ
      → Vector3
      → Option Movable
      → Option Movable
      → Registry Component S
      → Registry Component S
  reflect_if i j normal (some m₁) (some m₂) r =
      put_velocity j m₂ (reflect_velocity a o m₂.velocity normal)
        (put_velocity i m₁ (reflect_velocity a o m₁.velocity normal) r)
  reflect_if i j normal m₁ m₂ r = r

  -- A player and an enemy, with their radii.
  unfoldable pub bounce : ℕ → ℕ → Transform → ℕ → Transform → ℕ → State S → Outcome (State S)
  bounce i j t₁ radius₁ t₂ radius₂ (r, entities) =
      if not (sphere_collisions a o t₁ radius₁ t₂ radius₂)
      then ok (r, entities)
      else let normal = resolve_sphere_collisions a o t₁ radius₁ t₂ radius₂ in
        let moved₁ = record t₁ { position = shift a o a.add t₁.position normal } in
        let moved₂ = record t₂ { position = shift a o a.sub t₂.position normal } in
        let r₁ = touch movable_type i (put_transform j moved₂ (put_transform i moved₁ r)) in
        let r₂ = touch movable_type j r₁ in
        held (length (array_of movable_type r₁)) j (movable_at i r₂) >>= λ m₁.
        ok (reflect_if i j normal m₁ (movable_at j r₂) r₂, assign i true entities)

  -- A bullet and an entity with a sphere.
  unfoldable pub hit :
      ℕ → ℕ → Option Transform → ℕ → Option Transform → Vector3 → State S → Outcome (State S)
  hit shot entity of_entity radius of_shot size (r, entities) =
      if not (is_registered_at health_type entity r)
      then ok (r, entities)
      else (value_of of_entity >>= λ t. value_of of_shot >>= λ u.
          if sphere_box_collisions a o t radius u size
          then handle_death shot entity (r, entities)
          else ok (r, entities))
