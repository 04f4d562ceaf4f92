-- ===== src/Ecs/Systems/Elements.antt =====
-- Engine/EntityComponentSystem/Systems/Systems.cpp: what the systems read of an entity, and the
-- comparisons of floats. An array holds the components of its own type only (Ecs/Systems/Typing), so
-- that any other element counts as none.
use flakkari.Prelude.{
  ℕ, Bool, Bytes, Option, none, some, Outcome, ok, throws, undefined, bad_optional_access, leb,
  length, if◌then◌else◌,
}
use flakkari.Ecs.Component.{
  Component, Vector3, Transform, Movable, transform, movable, tag, box_collider, sphere_collider,
  spawned, timer, template, transform_type, tag_type,
}
use flakkari.Ecs.Registry.{Registry, array_of}

-- `a < b`, `-a`, and the literal 2.
pub record FloatOrder : Type 0 where
  pub less : ℕ → ℕ → Bool
  pub negate : ℕ → ℕ
  pub two : ℕ

-- std::max and std::min
unfoldable pub maximum : FloatOrder → ℕ → ℕ → ℕ
maximum o m n = if o.less m n then n else m

unfoldable pub minimum : FloatOrder → ℕ → ℕ → ℕ
minimum o m n = if o.less n m then n else m

unfoldable pub transform_of : Option Component → Option Transform
transform_of (some (transform t)) = some t
transform_of c = none

unfoldable pub movable_of : Option Component → Option Movable
movable_of (some (movable m)) = some m
movable_of c = none

unfoldable pub tag_of : Option Component → Option Bytes
tag_of (some (tag t)) = some t
tag_of c = none

-- The size of a box.
unfoldable pub box_of : Option Component → Option Vector3
box_of (some (box_collider size center)) = some size
box_of c = none

-- The radius of a sphere.
unfoldable pub sphere_of : Option Component → Option ℕ
sphere_of (some (sphere_collider center radius)) = some radius
sphere_of c = none

unfoldable pub spawned_of : Option Component → Option Bool
spawned_of (some (spawned has_spawned)) = some has_spawned
spawned_of c = none

-- lastTime and maxTime
unfoldable pub timer_of : Option Component → Option (ℕ × ℕ)
timer_of (some (timer last max_time)) = some (last, max_time)
timer_of c = none

unfoldable pub template_of : Option Component → Option Bytes
template_of (some (template name)) = some name
template_of c = none

-- `value()` and `operator->` of an optional.
abbrev pub value_of : {A : Type 0} → Option A → Outcome A
value_of (some v) = ok v
value_of none = throws bad_optional_access

abbrev pub deref : {A : Type 0} → Option A → Outcome A
deref (some v) = ok v
deref none = undefined

-- How often the loops over `transforms` and `tags` go round: nothing in them changes the two sizes.
unfoldable pub rounds_of : {S : Type 0} → Registry Component S → ℕ
rounds_of r =
    let transforms = length (array_of transform_type r) in
    let tags = length (array_of tag_type r) in if leb transforms tags then transforms else tags
