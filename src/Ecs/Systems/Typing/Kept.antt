-- ===== src/Ecs/Systems/Typing/Kept.antt =====
-- Engine/EntityComponentSystem/Systems/Systems.cpp: the systems keep each array to its type.
use flakkari.Prelude.{
  ℕ, zero, suc, ◌+◌, ◌≡◌, refl, ap, subst, ◌∙◌, Bool, true, ◌==◌, Option, none, some, Bool-cases,
  Option-cases, inl, inr, Table, List, ==_iff,
}
use flakkari.Math.Arithmetic.{Arithmetic}
use flakkari.Ecs.Component.{
  Component, Vector3, transform, spawned, transform_type, movable_type, tag_type, box_collider_type,
  sphere_collider_type, spawned_type, movable,
}
use flakkari.Ecs.Registry.{Registry, touch, get_components, add_component, component}
use flakkari.Ecs.Systems.{apply_to, apply_movable}
use flakkari.Ecs.Systems.Moving.{apply_movable-component}
use flakkari.Ecs.Systems.Elements.{FloatOrder, rounds_of, transform_of, tag_of, box_of}
use flakkari.Ecs.Systems.Spawning.{
  range_if, to_spawn, random_position, find_skybox, spawn_round, spawn_each,
  spawn_random_within_skybox,
}
use flakkari.Ecs.Systems.Spawning.Waiting.{missing}
use flakkari.Ecs.Systems.Colliding.Pairs.{handle_collisions, last_range}
use flakkari.Ecs.Systems.Typing.{IsTyped, fits}
use flakkari.Ecs.Systems.Typing.Operations.{
  touch-IsTyped, get_components-IsTyped, add_component-IsTyped,
}
use flakkari.Ecs.Systems.Typing.Collisions.{Keeps}
use flakkari.Ecs.Systems.Typing.Rounds.{firsts_from-Keeps}

module _ (a : Arithmetic ℕ) (positive : ℕ → Bool) where
  apply_to-fits :
      (delta_time : ℕ) (x y : Option Component)
      → fits transform_type x ≡ true
      → fits transform_type (apply_to a positive delta_time x y) ≡ true
  unfolding apply_to
  apply_to-fits delta_time none y h = refl
  apply_to-fits delta_time (some (transform t)) none h = h
  apply_to-fits delta_time (some (transform t)) (some (movable m)) h = refl
  apply_to-fits delta_time (some (transform t)) (some _) h = h
  apply_to-fits delta_time (some _) y h = h

module _ {S : Type 0} (a : Arithmetic ℕ) (positive : ℕ → Bool) where
  apply_movable-IsTyped :
      (delta_time : ℕ) (r : Registry Component S)
      → IsTyped r
      → IsTyped (apply_movable a positive delta_time r)
  apply_movable-IsTyped delta_time r h tj j =
      ap (fits tj) (apply_movable-component a positive delta_time tj j r)
      ∙ elim (Bool-cases (transform_type == tj)) [
        | inl q ↦ rw q (
            subst
              (λ ti.
                fits ti (
                  apply_to a positive delta_time (component transform_type j r)
                    (component movable_type j r))
                ≡ true)
              ((==_iff transform_type tj).0 q)
              (apply_to-fits a positive delta_time (component transform_type j r)
                (component movable_type j r) (h transform_type j)))
        | inr q ↦ rw q (h tj j)
      ]

module _ {S : Type 0} (a : Arithmetic ℕ) (o : FloatOrder) (rand_max : ℕ) (draws : ℕ → ℕ) where
  find_skybox-IsTyped :
      (k i : ℕ) (r : Registry Component S)
      → IsTyped r
      → IsTyped (find_skybox a o rand_max draws k i r).1
  unfolding find_skybox
  find_skybox-IsTyped zero i r h = h
  find_skybox-IsTyped (suc k) i r h =
      let r' = touch box_collider_type i r in
      let h' = touch-IsTyped box_collider_type i r h in
      elim (Option-cases (
        range_if a o (transform_of (component transform_type i r'))
          (tag_of (component tag_type i r')) (box_of (component box_collider_type i r')))) [
            | inl e ↦ rw (e, find_skybox) (find_skybox-IsTyped k (i + 1) r' h')
            | inr (range, e) ↦ rw (e, find_skybox) h'
          ]

  spawn_round-IsTyped :
      (range : Vector3) (i : ℕ) (r : Registry Component S) (entities : List ℕ) (n : ℕ)
      → IsTyped r
      → IsTyped (spawn_round a o rand_max draws range i (r, entities, n)).0
  unfolding spawn_round
  spawn_round-IsTyped range i r entities n h =
      let r' = touch spawned_type i r in
      let h' = touch-IsTyped spawned_type i r h in
      elim (Option-cases (to_spawn i r')) [
        | inl e ↦ rw (e, spawn_round) h'
        | inr (t, e) ↦
            let c =
              transform (record t { position = random_position a o rand_max draws range n }) in
            rw (e, spawn_round)
              (add_component-IsTyped i (spawned true) (add_component transform_type i c r')
                (add_component-IsTyped i c r' h'))
      ]

  spawn_each-IsTyped :
      (range : Vector3) (k i : ℕ) (r : Registry Component S) (entities : List ℕ) (n : ℕ)
      → IsTyped r
      → IsTyped (spawn_each a o rand_max draws range k i (r, entities, n)).0
  unfolding spawn_each
  spawn_each-IsTyped range zero i r entities n h = h
  spawn_each-IsTyped range (suc k) i r entities n h =
      let s = spawn_round a o rand_max draws range i (r, entities, n) in
      spawn_each-IsTyped range k (i + 1) s.0 s.1 s.2 (spawn_round-IsTyped range i r entities n h)

  spawn_random-IsTyped :
      (r : Registry Component S) (entities : List ℕ) (n : ℕ)
      → IsTyped r
      → IsTyped (spawn_random_within_skybox a o rand_max draws (r, entities, n)).0
  unfolding spawn_random_within_skybox
  spawn_random-IsTyped r entities n h = elim (Bool-cases (missing r)) [
    | inl e ↦ rw e h
    | inr e ↦
        let r₁ = get_components box_collider_type r in
        let found = find_skybox a o rand_max draws (rounds_of r) 0 r₁ in
        rw e (
          spawn_each-IsTyped found.0 (rounds_of r) 0 found.1 entities n
            (find_skybox-IsTyped (rounds_of r) 0 r₁ (get_components-IsTyped box_collider_type r h)))
  ]

module _ {S : Type 0} (a : Arithmetic ℕ) (o : FloatOrder) where
  handle_collisions-Keeps :
      (r : Registry Component S) (entities : Table Bool)
      → IsTyped r
      → Keeps (handle_collisions a o (r, entities))
  unfolding handle_collisions
  handle_collisions-Keeps r entities h =
      let r₁ = get_components transform_type r in
      let r₂ = get_components box_collider_type r₁ in
      let r₃ = get_components sphere_collider_type r₂ in
      let r' = get_components tag_type r₃ in
      let h' : IsTyped r' = get_components-IsTyped tag_type r₃ (
        get_components-IsTyped sphere_collider_type r₂ (
          get_components-IsTyped box_collider_type r₁
            (get_components-IsTyped transform_type r h))) in
      let origin : Vector3 = record { x = a.zero; y = a.zero; z = a.zero } in
      let range = last_range a o (rounds_of r') 0 origin r' in
      firsts_from-Keeps a o range (rounds_of r') 0 (r', entities) h'

  -- The three systems for three dimensions, on a registry in which each array holds components of its own
  -- type: `apply_movable` and `spawn_random_within_skybox` leave such a registry, and so does
  -- `handle_collisions`, with every kill and every hit on the way, whenever it returns.
  pub systems-IsTyped :
      (positive : ℕ → Bool) (rand_max : ℕ) (draws : ℕ → ℕ) (delta_time n : ℕ)
      (r : Registry Component S) (es : List ℕ) (entities : Table Bool)
      → IsTyped r
      → IsTyped (apply_movable a positive delta_time r)
        × IsTyped (spawn_random_within_skybox a o rand_max draws (r, es, n)).0
        × Keeps (handle_collisions a o (r, entities))
  systems-IsTyped positive rand_max draws delta_time n r es entities h = (
    apply_movable-IsTyped a positive delta_time r h,
    spawn_random-IsTyped a o rand_max draws r es n h,
    handle_collisions-Keeps r entities h,
  )
