-- ===== src/Ecs/Systems/Colliding/Killed.antt =====
-- Engine/EntityComponentSystem/Systems/Systems.cpp: `handle_collisions` after it has killed a bullet.
use flakkari.Prelude.{
  ℕ, zero, suc, ◌+◌, ◌≡◌, ◌≤◌, ◌<◌, refl, ap, ◌∙◌, Bool, true, false, Option, none, some, is_some,
  ◌==◌, if◌then◌else◌, arith, inl, inr, undefined, length, text_eq, assign, Table, ◌&&◌, Bytes, ok,
  Bool-cases, ==_iff, ==_refl,
}
use flakkari.Math.Arithmetic.{Arithmetic}
use flakkari.Ecs.Component.{
  Component, Vector3, Transform, transform_type, tag_type, box_collider_type, sphere_collider_type,
}
use flakkari.Ecs.Registry.{Registry, array_of, touch, component, kill_entity}
use flakkari.Ecs.Registry.Components.{touch_lem}
use flakkari.Ecs.Registry.Killing.{IsErasable, kill_entity-component}
use flakkari.Ecs.Registry.Erasing.{touch-IsErasable}
use flakkari.Ecs.Systems.Elements.{FloatOrder, transform_of, tag_of}
use flakkari.Ecs.Systems.Colliding.{out_of_skybox}
use flakkari.Ecs.Systems.Colliding.Meeting.{bullet, transform_at, tag_at}
use flakkari.Ecs.Systems.Colliding.Pairs.{pair, pair_if, pairs_from, confine, first_if, firsts_from}

-- A search that fails at one index and holds at a later one goes on.
goes_on : (j m : ℕ) (test : ℕ → Bool) → test j ≡ false → test m ≡ true → j ≤ m → j + 1 ≤ m
goes_on j m test fails holds h = elim (Bool-cases (j == m)) [
  | inl q ↦ let e = ap test ((==_iff j m).0 q) in cc
  | inr q ↦ ground arith
]

ne : (i m : ℕ) → i < m → (i == m) ≡ false
ne i m h = ground arith

module _ (a : Arithmetic ℕ) (o : FloatOrder) {S : Type 0} where
  -- The array reads at the start of a round.
  abbrev read_at : ℕ → Registry Component S → Registry Component S
  read_at j r = touch sphere_collider_type j (touch box_collider_type j r)

  component-read_at :
      (ti m j : ℕ) (r : Registry Component S) → component ti m (read_at j r) ≡ component ti m r
  component-read_at ti m j r =
      touch_lem sphere_collider_type ti j m (touch box_collider_type j r)
      ∙ touch_lem box_collider_type ti j m r

  -- An entity that the loops go into: it has a transform and a tag.
  abbrev pub IsSeen : ℕ → Registry Component S → Type 0
  IsSeen m r = (is_some (transform_at m r) && is_some (tag_at m r)) ≡ true

  IsSeen-cong :
      (m : ℕ) (r r' : Registry Component S)
      → ((ti : ℕ) → component ti m r' ≡ component ti m r)
      → IsSeen m r
      → IsSeen m r'
  IsSeen-cong m r r' e h = rw (e transform_type, e tag_type) h

  -- The next round either does nothing or reads the first one's tag.
  pair-untagged :
      (boxes spheres : ℕ) (killed : Bool) (i j : ℕ) (t : Option Transform) (name : Option Bytes)
      (r : Registry Component S) (entities : Table Bool)
      → tag_at i r ≡ none
      → pair_if a o boxes spheres killed i j t name (r, entities)
        ≡ (if is_some t && is_some name then undefined else ok (r, entities))
  unfolding pair_if
  pair-untagged boxes spheres killed i j none name r entities e = refl
  pair-untagged boxes spheres killed i j (some t) none r entities e = refl
  pair-untagged boxes spheres killed i j (some t) (some name) r entities e = rw e refl

  -- The loop meets an entity that it goes into, while the first one has no tag.
  pairs_from-untagged :
      (boxes spheres : ℕ) (killed : Bool) (i m k j : ℕ) (r : Registry Component S)
      (entities : Table Bool)
      → tag_at i r ≡ none
      → IsSeen m r
      → j ≤ m
      → m < j + k
      → pairs_from a o boxes spheres killed i k j (r, entities) ≡ undefined
  unfolding pairs_from pair
  pairs_from-untagged boxes spheres killed i m zero j r entities e seen h l = absurd (omega arith)
  pairs_from-untagged boxes spheres killed i m (suc k) j r entities e seen h l =
      let r' = read_at j r in
      let e' : tag_at i r' ≡ none = ap tag_of (component-read_at tag_type i j r) ∙ e in
      let seen' : IsSeen m r' = IsSeen-cong m r r' (λ ti. component-read_at ti m j r) seen in
      rw (pair-untagged boxes spheres killed i j (transform_at j r') (tag_at j r') r' entities e')
        (elim (Bool-cases (is_some (transform_at j r') && is_some (tag_at j r'))) [
          | inl both_some ↦ rw both_some refl
          | inr missing ↦ rw missing (
              pairs_from-untagged boxes spheres killed i m k (j + 1) r' entities e' seen'
                (goes_on j m (λ n. is_some (transform_at n r') && is_some (tag_at n r')) missing
                  seen' h)
                (omega arith))
        ])

  -- A bullet outside of the skybox, in a registry that can erase its types: once the outer loop has reached
  -- it, and a later entity has a transform and a tag, what `handle_collisions` does is undefined. The
  -- bullet's tag is read after `kill_entity` has taken it away.
  pub firsts_from-killed :
      (range : Vector3) (i m k : ℕ) (t : Transform) (r : Registry Component S)
      (entities : Table Bool)
      → IsErasable r
      → transform_at i r ≡ some t
      → tag_at i r ≡ some bullet
      → out_of_skybox o range t.position ≡ true
      → IsSeen m r
      → i < m
      → m < i + 1 + k
      → firsts_from a o range (suc k) i (r, entities) ≡ undefined
  unfolding firsts_from first_if confine tag_of pairs_from text_eq
  firsts_from-killed range i m k t r entities ok_r has_t has_tag out seen above below =
      let r' = read_at i r in
      let ok_r' =
        touch-IsErasable sphere_collider_type i (touch box_collider_type i r)
          (touch-IsErasable box_collider_type i r ok_r) in
      let has_t' : transform_at i r' ≡ some t =
        ap transform_of (component-read_at transform_type i i r) ∙ has_t in
      let has_tag' : tag_at i r' ≡ some bullet =
        ap tag_of (component-read_at tag_type i i r) ∙ has_tag in
      let gone : tag_at i (kill_entity i r') ≡ none =
        rw (kill_entity-component i tag_type i r' ok_r', ==_refl i) refl in
      let others : (ti : ℕ) → component ti m (kill_entity i r') ≡ component ti m r = λ ti.
        kill_entity-component i ti m r' ok_r' ∙ rw (ne i m above) (component-read_at ti m i r) in
      rw (has_t', has_tag', out)
        (rw
          (pairs_from-untagged (length (array_of box_collider_type r'))
            (length (array_of sphere_collider_type r')) true i m k (i + 1) (kill_entity i r')
            (assign i false entities) gone (IsSeen-cong m r (kill_entity i r') others seen)
            (omega arith) (omega arith))
          refl)
