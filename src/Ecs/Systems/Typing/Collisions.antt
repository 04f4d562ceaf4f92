-- ===== src/Ecs/Systems/Typing/Collisions.antt =====
-- Engine/EntityComponentSystem/Systems/Systems.cpp: `handle_collisions` keeps each array to its type.
use flakkari.Prelude.{
  ℕ, Bool, true, false, not, ◌&&◌, ◌||◌, ◌==◌, Option, none, some, Outcome, ok, throws, undefined,
  ◌>>=◌, if◌then◌else◌, Bool-cases, inl, inr, Bytes, Table, length, text_eq,
}
use flakkari.Math.Arithmetic.{Arithmetic}
use flakkari.Ecs.Component.{
  Component, Vector3, Transform, Movable, health, health_type, weapon_type, transform, movable,
  movable_type,
}
use flakkari.Ecs.Registry.{
  Registry, array_of, is_registered_at, touch, add_component, kill_entity, component,
}
use flakkari.Ecs.Systems.Elements.{FloatOrder, value_of}
use flakkari.Ecs.Systems.Death.{minus64, health_of, min_damage_of, finish_death, handle_death}
use flakkari.Ecs.Systems.Colliding.{
  reflect_velocity, resolve_sphere_collisions, sphere_collisions, sphere_box_collisions,
  box_collisions, shift,
}
use flakkari.Ecs.Systems.Colliding.Meeting.{
  State, player, enemy, bullet, box_at, sphere_at, movable_at, when, held, both, put_transform,
  put_velocity, reflect_if, bounce, hit, crash, transform_at,
}
use flakkari.Ecs.Systems.Colliding.Pairs.{strike, shoot_down, meet_bullet}
use flakkari.Ecs.Systems.Typing.{IsTyped}
use flakkari.Ecs.Systems.Typing.Operations.{
  touch-IsTyped, add_component-IsTyped, kill_entity-IsTyped,
}

-- What a call leaves behind, if it returns.
abbrev pub Keeps : {S : Type 0} → Outcome (State S) → Type 0
Keeps (ok s) = IsTyped s.0
Keeps (throws e) = Unit {0}
Keeps undefined = Unit {0}

module _ {S : Type 0} where
  -- Reading a value first changes nothing.
  pub Keeps-read :
      {A : Type 0} (read : Outcome A) (rest : A → Outcome (State S))
      → ((v : A) → Keeps (rest v))
      → Keeps (read >>= rest)
  Keeps-read (ok v) rest h = h v
  Keeps-read (throws e) rest h = tt
  Keeps-read undefined rest h = tt

  pub Keeps-then :
      (call : Outcome (State S)) (rest : State S → Outcome (State S))
      → Keeps call
      → ((s : State S) → IsTyped s.0 → Keeps (rest s))
      → Keeps (call >>= rest)
  Keeps-then (ok s) rest h k = k s h
  Keeps-then (throws e) rest h k = tt
  Keeps-then undefined rest h k = tt

  pub Keeps-if :
      (test : Bool) (first second : Outcome (State S))
      → Keeps first
      → Keeps second
      → Keeps (if test then first else second)
  Keeps-if true first second h k = h
  Keeps-if false first second h k = k

  finish_death-IsTyped :
      (bullet entity left : ℕ) (r : Registry Component S) (entities : Table Bool)
      → IsTyped r
      → IsTyped (finish_death bullet entity left (r, entities)).0
  unfolding finish_death
  finish_death-IsTyped bullet entity left r entities h = elim (Bool-cases (left == 0)) [
    | inl z ↦
        rw z (kill_entity-IsTyped bullet (kill_entity entity r) (kill_entity-IsTyped entity r h))
    | inr z ↦ rw z (kill_entity-IsTyped bullet r h)
  ]

  handle_death-Keeps :
      (bullet entity : ℕ) (r : Registry Component S) (entities : Table Bool)
      → IsTyped r
      → Keeps (handle_death bullet entity (r, entities))
  unfolding handle_death
  handle_death-Keeps bullet entity r entities h =
      let r₁ = touch weapon_type bullet (touch health_type entity r) in
      let h₁ =
        touch-IsTyped weapon_type bullet (touch health_type entity r)
          (touch-IsTyped health_type entity r h) in
      Keeps-read (health_of (component health_type entity r₁)) _ λ values.
        Keeps-read (min_damage_of (component weapon_type bullet r₁)) _ λ damage.
          let left = minus64 values.0 damage in
          let c = health left values.1 values.2 values.3 in
          finish_death-IsTyped bullet entity left (add_component health_type entity c r₁) entities
            (add_component-IsTyped entity c r₁ h₁)

  crash-IsTyped :
      (i j : ℕ) (collided : Bool) (r : Registry Component S) (entities : Table Bool)
      → IsTyped r
      → IsTyped (crash i j collided (r, entities)).0
  unfolding crash
  crash-IsTyped i j true r entities h =
      kill_entity-IsTyped j (kill_entity i r) (kill_entity-IsTyped i r h)
  crash-IsTyped i j false r entities h = h

  put_velocity-IsTyped :
      (i : ℕ) (m : Movable) (v : Vector3) (r : Registry Component S)
      → IsTyped r
      → IsTyped (put_velocity i m v r)
  unfolding put_velocity
  put_velocity-IsTyped i m v r h = add_component-IsTyped i (movable (record m { velocity = v })) r h

  pub put_transform-IsTyped :
      (i : ℕ) (t : Transform) (r : Registry Component S) → IsTyped r → IsTyped (put_transform i t r)
  unfolding put_transform
  put_transform-IsTyped i t r h = add_component-IsTyped i (transform t) r h

module _ {S : Type 0} (a : Arithmetic ℕ) (o : FloatOrder) where
  reflect_if-IsTyped :
      (i j : ℕ) (normal : Vector3) (m₁ m₂ : Option Movable) (r : Registry Component S)
      → IsTyped r
      → IsTyped (reflect_if a o i j normal m₁ m₂ r)
  unfolding reflect_if
  reflect_if-IsTyped i j normal (some m₁) (some m₂) r h =
      let v₁ = reflect_velocity a o m₁.velocity normal in
      put_velocity-IsTyped j m₂ (reflect_velocity a o m₂.velocity normal) (put_velocity i m₁ v₁ r)
        (put_velocity-IsTyped i m₁ v₁ r h)
  reflect_if-IsTyped i j normal (some m₁) none r h = h
  reflect_if-IsTyped i j normal none m₂ r h = h

  pub bounce-Keeps :
      (i j : ℕ) (t₁ : Transform) (radius₁ : ℕ) (t₂ : Transform) (radius₂ : ℕ)
      (r : Registry Component S) (entities : Table Bool)
      → IsTyped r
      → Keeps (bounce a o i j t₁ radius₁ t₂ radius₂ (r, entities))
  unfolding bounce
  bounce-Keeps i j t₁ radius₁ t₂ radius₂ r entities h =
      let normal = resolve_sphere_collisions a o t₁ radius₁ t₂ radius₂ in
      let moved₁ = record t₁ { position = shift a o a.add t₁.position normal } in
      let moved₂ = record t₂ { position = shift a o a.sub t₂.position normal } in
      let r₀ = put_transform i moved₁ r in
      let r' = put_transform j moved₂ r₀ in
      let r₁ = touch movable_type i r' in
      let r₂ = touch movable_type j r₁ in
      let h₂ : IsTyped r₂ = touch-IsTyped movable_type j r₁ (
        touch-IsTyped movable_type i r'
          (put_transform-IsTyped j moved₂ r₀ (put_transform-IsTyped i moved₁ r h))) in
      Keeps-if (not (sphere_collisions a o t₁ radius₁ t₂ radius₂)) _ _ h (
        Keeps-read (held (length (array_of movable_type r₁)) j (movable_at i r₂)) _
          λ m₁. reflect_if-IsTyped i j normal m₁ (movable_at j r₂) r₂ h₂)

  pub hit-Keeps :
      (shot entity : ℕ) (t : Option Transform) (radius : ℕ) (u : Option Transform) (size : Vector3)
      (r : Registry Component S) (entities : Table Bool)
      → IsTyped r
      → Keeps (hit a o shot entity t radius u size (r, entities))
  unfolding hit
  hit-Keeps shot entity t radius u size r entities h =
      Keeps-if (not (is_registered_at health_type entity r)) _ _ h (
        Keeps-read (value_of t) _ λ t₁. Keeps-read (value_of u) _ λ t₂.
          Keeps-if (sphere_box_collisions a o t₁ radius t₂ size) _ _
            (handle_death-Keeps shot entity r entities h) h)

  strike-Keeps :
      (i j : ℕ) (t : Transform) (found : Option (ℕ × Vector3)) (r : Registry Component S)
      (entities : Table Bool)
      → IsTyped r
      → Keeps (strike a o i j t found (r, entities))
  unfolding strike
  strike-Keeps i j t none r entities h = h
  strike-Keeps i j t (some (radius, size)) r entities h =
      hit-Keeps i j (some t) radius (transform_at i r) size r entities h

  shoot_down-Keeps :
      (i j : ℕ) (t : Transform) (box : Option Vector3) (r : Registry Component S)
      (entities : Table Bool)
      → IsTyped r
      → Keeps (shoot_down a o i j t box (r, entities))
  unfolding shoot_down
  shoot_down-Keeps i j t box r entities h = Keeps-read (value_of (transform_at i r)) _ λ t₁.
      Keeps-read (value_of box) _ λ size₁.
        Keeps-read (value_of (box_at j r)) _
          λ size₂. crash-IsTyped i j (box_collisions a o t₁ size₁ t size₂) r entities h

  pub meet_bullet-Keeps :
      (boxes : ℕ) (killed : Bool) (i j : ℕ) (name₁ : Bytes) (t : Transform) (name₂ : Bytes)
      (r : Registry Component S) (entities : Table Bool)
      → IsTyped r
      → Keeps (meet_bullet a o boxes killed i j name₁ t name₂ (r, entities))
  unfolding meet_bullet
  meet_bullet-Keeps boxes killed i j name₁ t name₂ r entities h =
      let box₁ = held boxes j (box_at i r) in
      let alive = text_eq name₂ enemy || text_eq name₂ player in
      Keeps-if killed _ _ h (
        Keeps-if (text_eq name₁ bullet && text_eq name₂ bullet) _ _
          (Keeps-read box₁ _ λ b. shoot_down-Keeps i j t b r entities h)
          (Keeps-read (when (text_eq name₁ bullet && alive) (both (ok (sphere_at j r)) box₁)) _
            λ found. strike-Keeps i j t found r entities h))
