-- ===== src/Ecs/Systems/Death.antt =====
-- Engine/EntityComponentSystem/Systems/Systems.cpp: `handleDeath`, a bullet that hits an entity. Health
-- and damage are size_t.
pub mod Overkill
use flakkari.Prelude.{
  ℕ, ◌+◌, ◌-◌, ◌%◌, ◌^◌, ◌==◌, Bool, true, false, Option, none, some, Table, assign, Outcome, ok,
  undefined, ◌>>=◌, if◌then◌else◌,
}
use flakkari.Ecs.Component.{Component, health, weapon, health_type, weapon_type}
use flakkari.Ecs.Registry.{Registry, component, touch, add_component, kill_entity}

-- `operator->` of an optional component, which an empty one does not allow.
unfoldable pub health_of : Option Component → Outcome (ℕ × ℕ × ℕ × ℕ)
health_of (some (health current maximum shield max_shield)) =
    ok (current, maximum, shield, max_shield)
health_of c = undefined

unfoldable pub min_damage_of : Option Component → Outcome ℕ
min_damage_of (some (weapon min_damage max_damage charge_max_time fire_rate level)) = ok min_damage
min_damage_of c = undefined

-- What is left of a size_t.
abbrev pub minus64 : ℕ → ℕ → ℕ
minus64 n d = (n + 2 ^ 64 - d) % 2 ^ 64

module _ {S : Type 0} where
  -- Behind the subtraction: `entities[entity]` is written two or three times.
  unfoldable pub finish_death :
      ℕ → ℕ → ℕ → Registry Component S × Table Bool → Registry Component S × Table Bool
  finish_death bullet entity left (r, entities) =
      let hit = assign entity true entities in
      if left == 0
      then (
        kill_entity bullet (kill_entity entity r),
        assign entity false (assign entity false hit),
      )
      else (kill_entity bullet r, assign entity false hit)

  unfoldable pub handle_death :
      ℕ → ℕ → Registry Component S × Table Bool → Outcome (Registry Component S × Table Bool)
  handle_death bullet entity (r, entities) =
      let r₁ = touch weapon_type bullet (touch health_type entity r) in
      health_of (component health_type entity r₁) >>= λ h.
      let (current, maximum, shield, max_shield) = h in
      min_damage_of (component weapon_type bullet r₁) >>= λ min_damage.
      let left = minus64 current min_damage in
      ok (
        finish_death bullet entity left
          (add_component health_type entity (health left maximum shield max_shield) r₁, entities))
