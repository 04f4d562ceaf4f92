-- ===== src/Ecs/Systems/Death/Overkill.antt =====
-- Engine/EntityComponentSystem/Systems/Systems.cpp: when `handleDeath` kills the entity.
use flakkari.Prelude.{
  ℕ, ◌^◌, ◌==◌, ◌≡◌, ◌<◌, refl, ap, ◌∙◌, Bool, true, false, Option, none, some, Table, ok,
  if◌then◌else◌, arith, Bool-cases, inl, inr, not, ==_refl, ◌||◌, ltb,
}
use flakkari.Ecs.Component.{Component, health, weapon, health_type, weapon_type}
use flakkari.Ecs.Registry.{Registry, component, touch, add_component, kill_entity}
use flakkari.Ecs.Registry.Components.{component_operations, touch_lem}
use flakkari.Ecs.Registry.Killing.{IsErasable, kill_entity-component}
use flakkari.Ecs.Registry.Erasing.{
  add_component-IsErasable, touch-IsErasable, kill_entity-IsErasable,
}
use flakkari.Ecs.Systems.Death.{minus64, finish_death, handle_death, health_of, min_damage_of}

module _ {S : Type 0} (bullet entity : ℕ) (r : Registry Component S) (entities : Table Bool) where
  finish_death-component :
      (left : ℕ) (h : Option Component)
      → IsErasable r
      → (bullet == entity) ≡ false
      → component health_type entity r ≡ h
      → component health_type entity (finish_death bullet entity left (r, entities)).0
        ≡ (if left == 0 then none else h)
  unfolding finish_death
  finish_death-component left h ok_r other e = elim (Bool-cases (left == 0)) [
    | inl z ↦
        rw
          (
            z,
            kill_entity-component bullet health_type entity (kill_entity entity r)
                (kill_entity-IsErasable entity r ok_r),
            other,
            kill_entity-component entity health_type entity r ok_r,
          )
          (ground arith)
    | inr z ↦ rw (z, kill_entity-component bullet health_type entity r ok_r, other) e
  ]

left_zero : (n d : ℕ) → n < 2 ^ 64 → d < 2 ^ 64 → (minus64 n d == 0) ≡ (n == d)
left_zero n d h k = ground arith

module _ {S : Type 0}
    (bullet entity current maximum shield max_shield min_damage max_damage charge fire_rate
      level : ℕ)
    (r : Registry Component S) (entities : Table Bool) where
  -- A bullet that hits another entity, which has health, and less than 2^64 of it, in a registry that can
  -- erase its types: the call returns, and the entity is dead if the damage is exactly its health.
  -- Otherwise it lives with the difference modulo 2^64: damage above its health leaves it more health than
  -- it had.
  pub handle_death-component :
      IsErasable r
      → (bullet == entity) ≡ false
      → component health_type entity r ≡ some (health current maximum shield max_shield)
      → component weapon_type bullet r ≡ some (weapon min_damage max_damage charge fire_rate level)
      → current < 2 ^ 64
      → min_damage < 2 ^ 64
      → (s : Registry Component S × Table Bool) × (handle_death bullet entity (r, entities) ≡ ok s)
        × (component health_type entity s.0 ≡ (
            if current == min_damage
            then none
            else some (health (minus64 current min_damage) maximum shield max_shield)))
        × ((not (ltb current min_damage) || ltb current (minus64 current min_damage)) ≡ true)
  unfolding handle_death health_of min_damage_of
  handle_death-component h other has_health has_weapon small_health small_damage =
      let r₁ = touch weapon_type bullet (touch health_type entity r) in
      let left = minus64 current min_damage in
      let c : Component = health left maximum shield max_shield in
      let r₂ = add_component health_type entity c r₁ in
      let seen : (ti j : ℕ) → component ti j r₁ ≡ component ti j r = λ ti j.
        touch_lem weapon_type ti bullet j (touch health_type entity r)
        ∙ touch_lem health_type ti entity j r in
      (
        finish_death bullet entity left (r₂, entities),
        rw (seen health_type entity, has_health, seen weapon_type bullet, has_weapon) refl,
        finish_death-component bullet entity r₂ entities left (some c)
              (add_component-IsErasable health_type entity c r₁ (
                touch-IsErasable weapon_type bullet (touch health_type entity r)
                  (touch-IsErasable health_type entity r h)))
              other
              (rw
                (
                  (component_operations health_type health_type entity entity c r₁).0,
                  ==_refl entity,
                )
                refl)
            ∙ ap (λ b. if b then none else some c)
                (left_zero current min_damage small_health small_damage),
        ground arith,
      )
