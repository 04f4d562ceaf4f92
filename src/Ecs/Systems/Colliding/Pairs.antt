-- ===== src/Ecs/Systems/Colliding/Pairs.antt =====
-- Engine/EntityComponentSystem/Systems/Systems.cpp: the branches and the loops of `handle_collisions`.
use flakkari.Prelude.{
  ℕ, zero, suc, ◌+◌, Bool, true, false, not, ◌&&◌, ◌||◌, Option, none, some, Bytes, text_eq, assign,
  Outcome, ok, ◌>>=◌, length, if◌then◌else◌,
}
use flakkari.Math.Arithmetic.{Arithmetic}
use flakkari.Ecs.Component.{
  Component, Vector3, Transform, transform_type, tag_type, box_collider_type, sphere_collider_type,
}
use flakkari.Ecs.Registry.{Registry, array_of, get_components, touch, kill_entity}
use flakkari.Ecs.Systems.Elements.{FloatOrder, rounds_of, value_of, deref}
use flakkari.Ecs.Systems.Colliding.{box_collisions, out_of_skybox, into_skybox}
use flakkari.Ecs.Systems.Colliding.Meeting.{
  State, player, enemy, bullet, skybox, held, both, when, transform_at, tag_at, box_at, sphere_at,
  put_transform, bounce, hit, crash,
}

module _ (a : Arithmetic ℕ) (o : FloatOrder) where
  -- The first loop: half the scale of the last skybox.
  unfoldable pub range_of : Vector3 → Option Transform → Option Bytes → Vector3
  range_of range (some t) (some name) =
      if text_eq name skybox
      then record {
        x = a.div t.scale.x o.two;
        y = a.div t.scale.y o.two;
        z = a.div t.scale.z o.two;
      }
      else range
  range_of range t name = range

module _ (a : Arithmetic ℕ) (o : FloatOrder) {S : Type 0} where
  -- The branches for a pair, in their order. The two that ask for a bullet as the second differ in the
  -- first's tag only, and so do the last two. `boxes` and `spheres` are how long the arrays were when
  -- the first one's references were taken.
  -- The last two branches: the first is a bullet.
  unfoldable pub strike : ℕ → ℕ → Transform → Option (ℕ × Vector3) → State S → Outcome (State S)
  strike i j t₂ none s = ok s
  strike i j t₂ (some (radius, size)) (r, entities) =
      hit a o i j (some t₂) radius (transform_at i r) size (r, entities)

  -- Two bullets: both boxes are read without a test.
  unfoldable pub shoot_down : ℕ → ℕ → Transform → Option Vector3 → State S → Outcome (State S)
  shoot_down i j t₂ box₁ (r, entities) = value_of (transform_at i r) >>= λ t₁.
      value_of box₁ >>= λ size₁. value_of (box_at j r) >>= λ size₂.
      ok (crash i j (box_collisions a o t₁ size₁ t₂ size₂) (r, entities))

  unfoldable pub meet_bullet :
      ℕ → Bool → ℕ → ℕ → Bytes → Transform → Bytes → State S → Outcome (State S)
  meet_bullet boxes bullet_killed i j name₁ t₂ name₂ (r, entities) =
      let box₁ = held boxes j (box_at i r) in
      let alive = text_eq name₂ enemy || text_eq name₂ player in
      if bullet_killed
      then ok (r, entities)
      else if text_eq name₁ bullet && text_eq name₂ bullet
      then (box₁ >>= λ b. shoot_down i j t₂ b (r, entities))
      else (when (text_eq name₁ bullet && alive) (both (ok (sphere_at j r)) box₁) >>= λ found.
          strike i j t₂ found (r, entities))

  -- The second is a bullet, or the branches after it.
  unfoldable pub struck :
      ℕ
      → Bool
      → ℕ
      → ℕ
      → Bytes
      → Transform
      → Bytes
      → Option (ℕ × Vector3)
      → State S
      → Outcome (State S)
  struck boxes bullet_killed i j name₁ t₂ name₂ none s =
      meet_bullet boxes bullet_killed i j name₁ t₂ name₂ s
  struck boxes bullet_killed i j name₁ t₂ name₂ (some (radius, size)) (r, entities) =
      hit a o j i (transform_at i r) radius (some t₂) size (r, entities)

  -- A player and an enemy that both have a sphere, or the branches after it.
  unfoldable pub duel :
      ℕ
      → ℕ
      → Bool
      → ℕ
      → ℕ
      → Bytes
      → Transform
      → Bytes
      → Option (ℕ × ℕ)
      → State S
      → Outcome (State S)
  duel boxes spheres bullet_killed i j name₁ t₂ name₂ none (r, entities) =
      let alive = text_eq name₁ enemy || text_eq name₁ player in
      let sphere₁ = held spheres j (sphere_at i r) in
      when (text_eq name₂ bullet && alive) (both sphere₁ (ok (box_at j r))) >>= λ found.
      struck boxes bullet_killed i j name₁ t₂ name₂ found (r, entities)
  duel boxes spheres bullet_killed i j name₁ t₂ name₂ (some (radius₁, radius₂)) (r, entities) =
      value_of (transform_at i r) >>= λ t₁. bounce a o i j t₁ radius₁ t₂ radius₂ (r, entities)

  unfoldable pub meet :
      ℕ → ℕ → Bool → ℕ → ℕ → Bytes → Transform → Bytes → State S → Outcome (State S)
  meet boxes spheres bullet_killed i j name₁ t₂ name₂ (r, entities) =
      let duels =
        (text_eq name₁ player && text_eq name₂ enemy)
        || (text_eq name₂ player && text_eq name₁ enemy) in
      when duels (both (held spheres j (sphere_at i r)) (ok (sphere_at j r))) >>= λ radii.
      duel boxes spheres bullet_killed i j name₁ t₂ name₂ radii (r, entities)

  -- A round of the inner loop.
  unfoldable pub pair_if :
      ℕ → ℕ → Bool → ℕ → ℕ → Option Transform → Option Bytes → State S → Outcome (State S)
  pair_if boxes spheres bullet_killed i j (some t₂) (some name₂) (r, entities) =
      deref (tag_at i r) >>= λ name₁.
      meet boxes spheres bullet_killed i j name₁ t₂ name₂ (r, entities)
  pair_if boxes spheres bullet_killed i j t₂ name₂ s = ok s

  unfoldable pub pair : ℕ → ℕ → Bool → ℕ → ℕ → State S → Outcome (State S)
  pair boxes spheres bullet_killed i j (r, entities) =
      let r' = touch sphere_collider_type j (touch box_collider_type j r) in
      pair_if boxes spheres bullet_killed i j (transform_at j r') (tag_at j r') (r', entities)

  unfoldable pub pairs_from : ℕ → ℕ → Bool → ℕ → ℕ → ℕ → State S → Outcome (State S)
  pairs_from boxes spheres bullet_killed i zero j s = ok s
  pairs_from boxes spheres bullet_killed i (suc k) j s =
      pair boxes spheres bullet_killed i j s >>= λ s'.
      pairs_from boxes spheres bullet_killed i k (j + 1) s'

  -- What a round of the outer loop does first, and whether it killed a bullet.
  unfoldable pub confine : Vector3 → ℕ → Transform → Bytes → State S → State S × Bool
  confine range i t name (r, entities) =
      if not (out_of_skybox o range t.position)
      then ((r, entities), false)
      else if text_eq name player || text_eq name enemy
      then ((put_transform i (into_skybox o range t) r, assign i true entities), false)
      else if text_eq name bullet
      then ((kill_entity i r, assign i false entities), true)
      else ((r, entities), false)

  unfoldable pub first_if :
      Vector3 → ℕ → ℕ → Option Transform → Option Bytes → State S → Outcome (State S)
  first_if range k i (some t) (some name) (r, entities) =
      let (s, bullet_killed) = confine range i t name (r, entities) in
      pairs_from (length (array_of box_collider_type r)) (length (array_of sphere_collider_type r))
        bullet_killed i k (i + 1) s
  first_if range k i t name s = ok s

  -- The outer loop: `k` more entities follow the i-th.
  unfoldable pub firsts_from : Vector3 → ℕ → ℕ → State S → Outcome (State S)
  firsts_from range zero i s = ok s
  firsts_from range (suc k) i (r, entities) =
      let r' = touch sphere_collider_type i (touch box_collider_type i r) in
      first_if range k i (transform_at i r') (tag_at i r') (r', entities) >>= λ s'.
      firsts_from range k (i + 1) s'

  unfoldable pub last_range : ℕ → ℕ → Vector3 → Registry Component S → Vector3
  last_range zero i range r = range
  last_range (suc k) i range r =
      last_range k (i + 1) (range_of a o range (transform_at i r) (tag_at i r)) r

  unfoldable pub handle_collisions : State S → Outcome (State S)
  handle_collisions (r, entities) =
      let r' = get_components tag_type (
        get_components sphere_collider_type
          (get_components box_collider_type (get_components transform_type r))) in
      let range = last_range (rounds_of r') 0 (record { x = a.zero; y = a.zero; z = a.zero }) r' in
      firsts_from range (rounds_of r') 0 (r', entities)
