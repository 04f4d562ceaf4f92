-- ===== src/Ecs/Systems/Spawning.antt =====
-- Engine/EntityComponentSystem/Systems/Systems.cpp: `spawn_random_within_skybox` and `spawn_enemy`. The
-- arithmetic of floats is an interface; `draws n` is the n-th value of rand() as a float, and
-- `rand_max` RAND_MAX.
pub mod Waiting
pub mod Once
pub mod Limit
mod Tests
use flakkari.Prelude.{
  ℕ, zero, suc, ◌+◌, [], ◌∷◌, ◌++◌, List, Bool, true, false, not, ◌&&◌, ◌||◌, Option, none, some,
  Bytes, codes, text_eq, Outcome, ok, ◌>>=◌, leb, if◌then◌else◌,
}
use flakkari.Math.Arithmetic.{Arithmetic}
use flakkari.Ecs.Component.{
  Component, Vector3, Transform, transform, spawned, timer, transform_type, tag_type,
  box_collider_type, spawned_type, timer_type, template_type,
}
use flakkari.Ecs.Registry.{
  Registry, is_registered, get_components, touch, component, add_component, spawn_entity,
}
use flakkari.Ecs.Factory.{registry_entity_by_template}
use flakkari.Ecs.Systems.{count_entities}
use flakkari.Ecs.Systems.Elements.{
  FloatOrder, transform_of, tag_of, box_of, spawned_of, timer_of, template_of, rounds_of, deref,
}

-- A player or an enemy that has not spawned.
pub spawn_if : Option Transform → Option Bytes → Option Bool → Option Transform
spawn_if (some t) (some name) (some has_spawned) =
    if (text_eq name (codes "Player") || text_eq name (codes "Enemy")) && not has_spawned
    then some t
    else none
spawn_if t name has_spawned = none

pub to_spawn : {S : Type 0} → ℕ → Registry Component S → Option Transform
to_spawn i r =
    spawn_if (transform_of (component transform_type i r)) (tag_of (component tag_type i r))
      (spawned_of (component spawned_type i r))

-- What `spawn_enemy` returns: the entity and the name of its template, if it is true; then the
-- registry and the number of draws.
abbrev pub Spawned : Type 0 → Type 0
Spawned S = Option (ℕ × Bytes) × Registry Component S × ℕ

-- The skybox at an index, with its range, its timer and the name of its template.
pub spawner_if : Option Vector3 → Option (ℕ × ℕ) → Option Bytes → Option (Vector3 × (ℕ × ℕ) × Bytes)
spawner_if (some range) (some times) (some name) = some (range, times, name)
spawner_if range times name = none

module _ (a : Arithmetic ℕ) (o : FloatOrder) where
  -- Half of what a box measures in its transform.
  pub box_range : Transform → Vector3 → Vector3
  box_range t size = record {
    x = a.div (a.mul size.x t.scale.x) o.two;
    y = a.div (a.mul size.y t.scale.y) o.two;
    z = a.div (a.mul size.z t.scale.z) o.two;
  }

  abbrev pub no_range : Vector3
  no_range = record { x = a.zero; y = a.zero; z = a.zero }

  pub range_if : Option Transform → Option Bytes → Option Vector3 → Option Vector3
  range_if (some t) (some name) (some size) =
      if text_eq name (codes "Skybox") then some (box_range t size) else none
  range_if t name size = none

module _ (a : Arithmetic ℕ) (rand_max : ℕ) where
  pub random_range : ℕ → ℕ → ℕ → ℕ
  random_range low high draw = a.add low (a.div draw (a.div rand_max (a.sub high low)))

module _ (a : Arithmetic ℕ) (o : FloatOrder) (rand_max : ℕ) (draws : ℕ → ℕ) where
  -- The three draws from the n-th on.
  pub random_position : Vector3 → ℕ → Vector3
  random_position range n = record {
    x = random_range a rand_max (o.negate range.x) range.x (draws n);
    y = random_range a rand_max (o.negate range.y) range.y (draws (n + 1));
    z = random_range a rand_max (o.negate range.z) range.z (draws (n + 2));
  }

  module _ {S : Type 0} where
    -- The first loop: it ends at the first skybox.
    unfoldable pub find_skybox : ℕ → ℕ → Registry Component S → Vector3 × Registry Component S
    find_skybox zero i r = (no_range a o, r)
    find_skybox (suc k) i r =
        let r' = touch box_collider_type i r in
        elim (range_if a o (transform_of (component transform_type i r'))
          (tag_of (component tag_type i r')) (box_of (component box_collider_type i r'))) [
            | none ↦ find_skybox k (i + 1) r'
            | some range ↦ (range, r')
          ]

    -- A round of the second loop. The state is the registry, the entities and the number of draws.
    unfoldable pub spawn_round :
        Vector3 → ℕ → Registry Component S × List ℕ × ℕ → Registry Component S × List ℕ × ℕ
    spawn_round range i (r, entities, n) =
        let r' = touch spawned_type i r in
        elim (to_spawn i r') [
          | none ↦ (r', entities, n)
          | some t ↦ (
            add_component spawned_type i (spawned true) (
                add_component transform_type i
                  (transform (record t { position = random_position range n })) r'),
            entities ++ i ∷ [],
            n + 3,
          )
        ]

    unfoldable pub spawn_each :
        Vector3 → ℕ → ℕ → Registry Component S × List ℕ × ℕ → Registry Component S × List ℕ × ℕ
    spawn_each range zero i s = s
    spawn_each range (suc k) i s = spawn_each range k (i + 1) (spawn_round range i s)

    unfoldable pub spawn_random_within_skybox :
        Registry Component S × List ℕ × ℕ → Registry Component S × List ℕ × ℕ
    spawn_random_within_skybox (r, entities, n) =
        if not (is_registered transform_type r)
          || not (is_registered tag_type r)
          || not (is_registered spawned_type r)
        then (r, entities, n)
        else let (range, r') = find_skybox (rounds_of r) 0 (get_components box_collider_type r) in
          spawn_each range (rounds_of r) 0 (r', entities, n)

    -- A skybox whose time has come. `contents` is what its template holds.
    pub spawn_from_template :
        ℕ
        → Vector3
        → ℕ × Bytes
        → List (ℕ × Component)
        → ℕ
        → Registry Component S
        → ℕ
        → Outcome (Spawned S)
    spawn_from_template i range (max_time, name) contents now r n =
        let r₁ = add_component timer_type i (timer now max_time) r in
        if leb 10 (count_entities (codes "Enemy") r₁)
        then ok (none, r₁, n)
        else (spawn_entity r₁ >>= λ er.
            let r₂ = touch transform_type er.0 (registry_entity_by_template er.0 contents er.1) in
            deref (transform_of (component transform_type er.0 r₂)) >>= λ t. ok (
              some (er.0, name),
              add_component transform_type er.0
                  (transform (record t { position = random_position range n })) r₂,
              n + 3,
            ))

    -- `waits last now max_time`: no more than maxTime seconds have gone by, in whole milliseconds
    -- compared as floats.
    module _ (waits : ℕ → ℕ → ℕ → Bool) (contents : ℕ → List (ℕ × Component)) where
      pub spawn_enemy_from : ℕ → ℕ → ℕ → Registry Component S → ℕ → Outcome (Spawned S)
      spawn_enemy_from now zero i r n = ok (none, r, n)
      spawn_enemy_from now (suc k) i r n =
          let r' = touch template_type i (touch timer_type i (touch box_collider_type i r)) in
          elim (spawner_if
            (range_if a o (transform_of (component transform_type i r'))
              (tag_of (component tag_type i r')) (box_of (component box_collider_type i r')))
            (timer_of (component timer_type i r')) (template_of (component template_type i r'))) [
              | none ↦ spawn_enemy_from now k (i + 1) r' n
              | some (range, (last, max_time), name) ↦
                  if waits last now max_time
                  then ok (none, r', n)
                  else spawn_from_template i range (max_time, name) (contents i) now r' n
            ]

      pub spawn_enemy : ℕ → Registry Component S → ℕ → Outcome (Spawned S)
      spawn_enemy now r n =
          if not (is_registered transform_type r)
            || not (is_registered tag_type r)
            || not (is_registered spawned_type r)
          then ok (none, r, n)
          else spawn_enemy_from now (rounds_of r) 0
              (get_components template_type
                (get_components timer_type (get_components box_collider_type r)))
              n
