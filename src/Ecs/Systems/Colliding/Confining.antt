-- ===== src/Ecs/Systems/Colliding/Confining.antt =====
-- Engine/EntityComponentSystem/Systems/Systems.cpp: who leaves the skybox, in `handle_collisions`.
use flakkari.Prelude.{
  ℕ, ◌≡◌, refl, Bool, true, false, ◌||◌, ◌&&◌, some, arith, Bool-cases, inl, inr, Table, Bytes,
  ==_refl, ◌==◌, text_eq,
}
use flakkari.Math.Arithmetic.{Arithmetic}
use flakkari.Ecs.Component.{Component, Vector3, Transform, transform, transform_type}
use flakkari.Ecs.Registry.{Registry, component}
use flakkari.Ecs.Registry.Components.{component_operations}
use flakkari.Ecs.Systems.Elements.{FloatOrder, transform_of, maximum, minimum}
use flakkari.Ecs.Systems.Colliding.{beyond, out_of_skybox, clamp, into_skybox}
use flakkari.Ecs.Systems.Colliding.Meeting.{player, enemy, transform_at, put_transform}
use flakkari.Ecs.Systems.Colliding.Pairs.{confine}

-- Of two floats at most one is less than the other.
abbrev pub IsAsymmetric : FloatOrder → Type 0
IsAsymmetric o = (x y : ℕ) → (o.less x y && o.less y x) ≡ false

-- The range is not negative.
abbrev pub IsRange : FloatOrder → ℕ → Type 0
IsRange o range = o.less range (o.negate range) ≡ false

clamp-beyond :
    (o : FloatOrder) (range p : ℕ)
    → IsAsymmetric o
    → IsRange o range
    → beyond o range (clamp o range p) ≡ false
unfolding beyond clamp maximum minimum
clamp-beyond o range p h nonneg =
    let low = o.negate range in
    ground (arith, h p range, h low p, h range range, h low low, h low range)

into_skybox-inside :
    (o : FloatOrder) (range : Vector3) (t : Transform)
    → IsAsymmetric o
    → IsRange o range.x
    → IsRange o range.y
    → IsRange o range.z
    → out_of_skybox o range (into_skybox o range t).position ≡ false
unfolding out_of_skybox into_skybox
into_skybox-inside o range t h hx hy hz =
    rw
      (
        clamp-beyond o range.x t.position.x h hx,
        clamp-beyond o range.y t.position.y h hy,
        clamp-beyond o range.z t.position.z h hz,
      )
      refl

module _ (a : Arithmetic ℕ) (o : FloatOrder) {S : Type 0} where
  -- A player or an enemy that the outer loop reaches, with an order of floats in which of two at most one
  -- is less, and a skybox whose range is not negative: it is inside the skybox when its pairs are looked
  -- at, it is not taken for a killed bullet, and nothing changes but its transform.
  pub confine-inside :
      (range : Vector3) (i tj j : ℕ) (t : Transform) (name : Bytes) (r : Registry Component S)
      (entities : Table Bool)
      → IsAsymmetric o
      → IsRange o range.x
      → IsRange o range.y
      → IsRange o range.z
      → transform_at i r ≡ some t
      → (text_eq name player || text_eq name enemy) ≡ true
      → ((transform_type == tj) && (i == j)) ≡ false
      → let (s, killed) = confine a o range i t name (r, entities) in
        (t' : Transform) × (transform_at i s.0 ≡ some t')
        × (out_of_skybox o range t'.position ≡ false)
        × (killed ≡ false)
        × (component tj j s.0 ≡ component tj j r)
  unfolding confine put_transform transform_of
  confine-inside range i tj j t name r entities h hx hy hz has_t fits other =
      elim (Bool-cases (out_of_skybox o range t.position)) [
        | inl out ↦
            let t' = into_skybox o range t in
            let c = transform t' in
            rw (out, fits)
              (
                t',
                rw ((component_operations transform_type transform_type i i c r).0, ==_refl i) refl,
                into_skybox-inside o range t h hx hy hz,
                refl,
                rw ((component_operations transform_type tj i j c r).0, other) refl,
              )
        | inr inside ↦ rw inside (t, has_t, inside, refl, refl)
      ]
