-- ===== src/Ecs/Systems/Typing/Rounds.antt =====
-- Engine/EntityComponentSystem/Systems/Systems.cpp: the loops keep each array to its type.
use flakkari.Prelude.{
  ℕ, zero, suc, ◌+◌, Bool, ◌&&◌, ◌||◌, Option, none, some, ok, Bool-cases, inl, inr, Bytes, Table,
  length, text_eq,
}
use flakkari.Math.Arithmetic.{Arithmetic}
use flakkari.Ecs.Component.{Component, Vector3, Transform, box_collider_type, sphere_collider_type}
use flakkari.Ecs.Registry.{Registry, array_of, touch}
use flakkari.Ecs.Systems.Elements.{FloatOrder, value_of, deref}
use flakkari.Ecs.Systems.Colliding.{into_skybox, out_of_skybox}
use flakkari.Ecs.Systems.Colliding.Meeting.{
  State, player, enemy, bullet, when, held, both, transform_at, tag_at, box_at, sphere_at,
}
use flakkari.Ecs.Systems.Colliding.Pairs.{
  struck, duel, meet, pair_if, pair, pairs_from, confine, first_if, firsts_from,
}
use flakkari.Ecs.Systems.Typing.{IsTyped}
use flakkari.Ecs.Systems.Typing.Operations.{touch-IsTyped, kill_entity-IsTyped}
use flakkari.Ecs.Systems.Typing.Collisions.{
  Keeps, Keeps-read, Keeps-then, put_transform-IsTyped, bounce-Keeps, hit-Keeps, meet_bullet-Keeps,
}

module _ {S : Type 0} (a : Arithmetic ℕ) (o : FloatOrder) where
  struck-Keeps :
      (boxes : ℕ) (killed : Bool) (i j : ℕ) (name₁ : Bytes) (t : Transform) (name₂ : Bytes)
      (found : Option (ℕ × Vector3)) (r : Registry Component S) (entities : Table Bool)
      → IsTyped r
      → Keeps (struck a o boxes killed i j name₁ t name₂ found (r, entities))
  unfolding struck
  struck-Keeps boxes killed i j name₁ t name₂ none r entities h =
      meet_bullet-Keeps a o boxes killed i j name₁ t name₂ r entities h
  struck-Keeps boxes killed i j name₁ t name₂ (some (radius, size)) r entities h =
      hit-Keeps a o j i (transform_at i r) radius (some t) size r entities h

  duel-Keeps :
      (boxes spheres : ℕ) (killed : Bool) (i j : ℕ) (name₁ : Bytes) (t : Transform) (name₂ : Bytes)
      (radii : Option (ℕ × ℕ)) (r : Registry Component S) (entities : Table Bool)
      → IsTyped r
      → Keeps (duel a o boxes spheres killed i j name₁ t name₂ radii (r, entities))
  unfolding duel
  duel-Keeps boxes spheres killed i j name₁ t name₂ none r entities h =
      let alive = text_eq name₁ enemy || text_eq name₁ player in
      let sphere₁ = held spheres j (sphere_at i r) in
      Keeps-read (when (text_eq name₂ bullet && alive) (both sphere₁ (ok (box_at j r)))) _
        λ found. struck-Keeps boxes killed i j name₁ t name₂ found r entities h
  duel-Keeps boxes spheres killed i j name₁ t name₂ (some (radius₁, radius₂)) r entities h =
      Keeps-read (value_of (transform_at i r)) _
        λ t₁. bounce-Keeps a o i j t₁ radius₁ t radius₂ r entities h

  pair_if-Keeps :
      (boxes spheres : ℕ) (killed : Bool) (i j : ℕ) (t : Option Transform) (name : Option Bytes)
      (r : Registry Component S) (entities : Table Bool)
      → IsTyped r
      → Keeps (pair_if a o boxes spheres killed i j t name (r, entities))
  unfolding pair_if meet
  pair_if-Keeps boxes spheres killed i j none name r entities h = h
  pair_if-Keeps boxes spheres killed i j (some t) none r entities h = h
  pair_if-Keeps boxes spheres killed i j (some t) (some name₂) r entities h =
      Keeps-read (deref (tag_at i r)) _ λ name₁.
        let duels =
          (text_eq name₁ player && text_eq name₂ enemy)
          || (text_eq name₂ player && text_eq name₁ enemy) in
        Keeps-read (when duels (both (held spheres j (sphere_at i r)) (ok (sphere_at j r)))) _
          λ radii. duel-Keeps boxes spheres killed i j name₁ t name₂ radii r entities h

  pairs_from-Keeps :
      (boxes spheres : ℕ) (killed : Bool) (i k j : ℕ) (s : State S)
      → IsTyped s.0
      → Keeps (pairs_from a o boxes spheres killed i k j s)
  unfolding pairs_from pair
  pairs_from-Keeps boxes spheres killed i zero j s h = h
  pairs_from-Keeps boxes spheres killed i (suc k) j (r, entities) h =
      let r₁ = touch box_collider_type j r in
      let r' = touch sphere_collider_type j r₁ in
      let h' : IsTyped r' =
        touch-IsTyped sphere_collider_type j r₁ (touch-IsTyped box_collider_type j r h) in
      Keeps-then
        (pair_if a o boxes spheres killed i j (transform_at j r') (tag_at j r') (r', entities)) _
        (pair_if-Keeps boxes spheres killed i j (transform_at j r') (tag_at j r') r' entities h')
        (λ s' kept. pairs_from-Keeps boxes spheres killed i k (j + 1) s' kept)

  confine-IsTyped :
      (range : Vector3) (i : ℕ) (t : Transform) (name : Bytes) (r : Registry Component S)
      (entities : Table Bool)
      → IsTyped r
      → IsTyped (confine a o range i t name (r, entities)).0.0
  unfolding confine
  confine-IsTyped range i t name r entities h =
      elim (Bool-cases (out_of_skybox o range t.position)) [
        | inr inside ↦ rw inside h
        | inl out ↦ elim (Bool-cases (text_eq name player || text_eq name enemy)) [
          | inl alive ↦ rw (out, alive) (put_transform-IsTyped i (into_skybox o range t) r h)
          | inr other ↦ elim (Bool-cases (text_eq name bullet)) [
            | inl shot ↦ rw (out, other, shot) (kill_entity-IsTyped i r h)
            | inr nothing ↦ rw (out, other, nothing) h
          ]
        ]
      ]

  first_if-Keeps :
      (range : Vector3) (k i : ℕ) (t : Option Transform) (name : Option Bytes)
      (r : Registry Component S) (entities : Table Bool)
      → IsTyped r
      → Keeps (first_if a o range k i t name (r, entities))
  unfolding first_if
  first_if-Keeps range k i none name r entities h = h
  first_if-Keeps range k i (some t) none r entities h = h
  first_if-Keeps range k i (some t) (some name) r entities h =
      let (s, killed) = confine a o range i t name (r, entities) in
      pairs_from-Keeps (length (array_of box_collider_type r))
        (length (array_of sphere_collider_type r)) killed i k (i + 1) s
        (confine-IsTyped range i t name r entities h)

  pub firsts_from-Keeps :
      (range : Vector3) (k i : ℕ) (s : State S) → IsTyped s.0 → Keeps (firsts_from a o range k i s)
  unfolding firsts_from
  firsts_from-Keeps range zero i s h = h
  firsts_from-Keeps range (suc k) i (r, entities) h =
      let r₁ = touch box_collider_type i r in
      let r' = touch sphere_collider_type i r₁ in
      let h' : IsTyped r' =
        touch-IsTyped sphere_collider_type i r₁ (touch-IsTyped box_collider_type i r h) in
      Keeps-then (first_if a o range k i (transform_at i r') (tag_at i r') (r', entities)) _
        (first_if-Keeps range k i (transform_at i r') (tag_at i r') r' entities h')
        (λ s' kept. firsts_from-Keeps range k (i + 1) s' kept)
