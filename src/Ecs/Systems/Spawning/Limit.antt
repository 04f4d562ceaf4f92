-- ===== src/Ecs/Systems/Spawning/Limit.antt =====
-- Engine/EntityComponentSystem/Systems/Systems.cpp: the limit of ten enemies in `spawn_enemy`.
use flakkari.Prelude.{
  ℕ, zero, suc, ◌+◌, ◌≡◌, refl, sym, subst, ap, ◌∙◌, List, Bool, true, false, not, ◌||◌, none, leb,
  ◌==◌, Bool-cases, Option-cases, inl, inr, codes, Bytes, ok,
}
use flakkari.Math.Arithmetic.{Arithmetic}
use flakkari.Ecs.Component.{
  Component, Vector3, timer, transform_type, tag_type, spawned_type, box_collider_type, timer_type,
  template_type,
}
use flakkari.Ecs.SparseArray.{at}
use flakkari.Ecs.Registry.{
  Registry, array_of, is_registered, get_components, touch, component, add_component,
}
use flakkari.Ecs.Registry.Components.{
  component_operations, touch_lem, array_of-get_components, array_of_unregistered, array_of-touch,
  array_of-add_component,
}
use flakkari.Ecs.Systems.{count_tags, count_entities}
use flakkari.Ecs.Systems.Elements.{
  FloatOrder, transform_of, tag_of, box_of, timer_of, template_of, rounds_of,
}
use flakkari.Ecs.Systems.Spawning.{
  Spawned, range_if, spawner_if, spawn_from_template, spawn_enemy_from, spawn_enemy,
}

module _ {S : Type 0} where
  pub count_entities_lem :
      (text : Bytes) (r : Registry Component S)
      → count_entities text r ≡ count_tags text (array_of tag_type r)
  unfolding count_entities count_tags
  count_entities_lem text r = elim (Bool-cases (is_registered tag_type r)) [
    | inl e ↦ rw e refl
    | inr e ↦ rw (e, array_of_unregistered tag_type r e) refl
  ]

  -- There are ten enemies, or more.
  abbrev pub IsFull : Registry Component S → Type 0
  IsFull r = leb 10 (count_entities (codes "Enemy") r) ≡ true

  count-cong :
      (r r' : Registry Component S)
      → array_of tag_type r' ≡ array_of tag_type r
      → IsFull r
      → IsFull r'
  count-cong r r' e h =
      subst (λ k. leb 10 k ≡ true)
        (count_entities_lem (codes "Enemy") r
          ∙ ap (count_tags (codes "Enemy")) (sym e)
          ∙ sym (count_entities_lem (codes "Enemy") r'))
        h

module _ {S : Type 0} (a : Arithmetic ℕ) (o : FloatOrder) (rand_max : ℕ) (draws : ℕ → ℕ)
    (waits : ℕ → ℕ → ℕ → Bool) (contents : ℕ → List (ℕ × Component)) (tj j : ℕ)
    (other : (timer_type == tj) ≡ false) where
  -- What is left to show of a call on `r`: no entity, no draw, and what is no timer stays.
  abbrev Refuses : Registry Component S → ℕ → Spawned S → Type 0
  Refuses r n s = (s.0 ≡ none) × (component tj j s.1 ≡ component tj j r) × (s.2 ≡ n)

  template-Refuses :
      (i max_time now n : ℕ) (range : Vector3) (name : Bytes) (r : Registry Component S)
      → IsFull r
      → (s : Spawned S) × (spawn_from_template a o rand_max draws i range
            (max_time, name)
            (contents i)
            now
            r
            n
          ≡ ok s)
        × Refuses r n s
  unfolding spawn_from_template
  template-Refuses i max_time now n range name r h =
      let c = timer now max_time in
      let r₁ = add_component timer_type i c r in
      (
        (none, r₁, n),
        rw (count-cong r r₁ (array_of-add_component timer_type tag_type i c r refl) h) refl,
        (refl, rw ((component_operations timer_type tj i j c r).0, other) refl, refl),
      )

  search-Refuses :
      (now k i n : ℕ) (r : Registry Component S)
      → IsFull r
      → (s : Spawned S) × (spawn_enemy_from a o rand_max draws waits contents now k i r n ≡ ok s)
        × Refuses r n s
  unfolding spawn_enemy_from
  search-Refuses now zero i n r h = ((none, r, n), refl, (refl, refl, refl))
  search-Refuses now (suc k) i n r h =
      let r₁ = touch box_collider_type i r in
      let r₂ = touch timer_type i r₁ in
      let r' = touch template_type i r₂ in
      let h' : IsFull r' =
        count-cong r r'
          (array_of-touch template_type tag_type i r₂ refl
            ∙ array_of-touch timer_type tag_type i r₁ refl
            ∙ array_of-touch box_collider_type tag_type i r refl)
          h in
      let same : component tj j r' ≡ component tj j r =
        touch_lem template_type tj i j r₂
        ∙ touch_lem timer_type tj i j r₁
        ∙ touch_lem box_collider_type tj i j r in
      elim (Option-cases (
        spawner_if
          (range_if a o (transform_of (component transform_type i r'))
            (tag_of (component tag_type i r')) (box_of (component box_collider_type i r')))
          (timer_of (component timer_type i r')) (template_of (component template_type i r')))) [
            | inl e ↦
                let (s, returned, (refused, stays, draws_none)) =
                  search-Refuses now k (i + 1) n r' h' in
                (s, rw (e, spawn_enemy_from) returned, (refused, stays ∙ same, draws_none))
            | inr ((range, (last, max_time), name), e) ↦
                elim (Bool-cases (waits last now max_time)) [
                  | inl w ↦
                      ((none, r', n), rw (e, spawn_enemy_from) (rw w refl), (refl, same, refl))
                  | inr w ↦
                      let (s, returned, (refused, stays, draws_none)) =
                        template-Refuses i max_time now n range name r' h' in
                      (
                        s,
                        rw (e, spawn_enemy_from) (rw w returned),
                        (refused, stays ∙ same, draws_none),
                      )
                ]
          ]

  -- Where there are ten enemies or more, `spawn_enemy` returns false, whatever the time: it draws no random
  -- number, and every component of every entity stays but for the timers.
  pub spawn_enemy-limit :
      (now n : ℕ) (r : Registry Component S)
      → IsFull r
      → (s : Spawned S) × (spawn_enemy a o rand_max draws waits contents now r n ≡ ok s)
        × (s.0 ≡ none)
        × (component tj j s.1 ≡ component tj j r)
        × (s.2 ≡ n)
  unfolding spawn_enemy component
  spawn_enemy-limit now n r h =
      elim (Bool-cases (
        not (is_registered transform_type r)
        || not (is_registered tag_type r)
        || not (is_registered spawned_type r))) [
          | inl e ↦ ((none, r, n), rw e refl, refl, refl, refl)
          | inr e ↦
              let r₁ = get_components box_collider_type r in
              let r₂ = get_components timer_type r₁ in
              let r' = get_components template_type r₂ in
              let seen : (ti : ℕ) → array_of ti r' ≡ array_of ti r = λ ti.
                array_of-get_components template_type ti r₂
                ∙ array_of-get_components timer_type ti r₁
                ∙ array_of-get_components box_collider_type ti r in
              let (s, returned, (refused, stays, draws_none)) =
                search-Refuses now (rounds_of r) 0 n r' (count-cong r r' (seen tag_type) h) in
              (s, rw e returned, refused, stays ∙ ap (λ xs. at xs j) (seen tj), draws_none)
        ]
