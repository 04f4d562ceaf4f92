-- ===== src/Ecs/Systems/Moving.antt =====
-- Engine/EntityComponentSystem/Systems/Systems.cpp: what the systems do to each entity.
use flakkari.Prelude.{
  ℕ, zero, suc, ◌≡◌, refl, sym, ap, ◌∙◌, [], ◌∷◌, List, Bool, false, ◌==◌, Option, none, some,
  get_or, if◌then◌else◌, ==_iff, Bool-cases, inl, inr,
}
use flakkari.Math.Arithmetic.{Arithmetic}
use flakkari.Ecs.Component.{Component, transform, transform_type, movable_type}
use flakkari.Ecs.SparseArray.{at}
use flakkari.Ecs.Registry.{Registry, array_of, set_array, is_registered, component}
use flakkari.Ecs.Registry.Components.{array_of-set_array, array_of_unregistered}
use flakkari.Ecs.Systems.{zip_first, apply_to, apply_movable}

-- A round that leaves the first element as it is where one of the two is missing.
record IsIdle (f : Option Component → Option Component → Option Component) : Type 0 where
  first : (x : Option Component) → f x none ≡ x
  second : (y : Option Component) → f none y ≡ none

zip_first-at :
    (f : Option Component → Option Component → Option Component) (xs ys : List (Option Component))
    (i : ℕ)
    → IsIdle f
    → at (zip_first f xs ys) i ≡ f (at xs i) (at ys i)
unfolding zip_first at
zip_first-at f [] ys i h = sym (h.second (at ys i))
zip_first-at f (x ∷ xs) [] zero h = sym (h.first x)
zip_first-at f (x ∷ xs) [] (suc i) h = sym (h.first (get_or xs i none))
zip_first-at f (x ∷ xs) (y ∷ ys) zero h = refl
zip_first-at f (x ∷ xs) (y ∷ ys) (suc i) h = zip_first-at f xs ys i h

pub component_unregistered :
    {S : Type 0} (ti j : ℕ) (r : Registry Component S)
    → is_registered ti r ≡ false
    → component ti j r ≡ none
unfolding component at
component_unregistered ti j r h = rw (array_of_unregistered ti r h) refl

-- A component that stays, at its own type and at any other.
stays :
    {S : Type 0} (ti tj j : ℕ) (r : Registry Component S) (x : Option Component)
    → component ti j r ≡ x
    → component tj j r ≡ (if ti == tj then x else component tj j r)
stays ti tj j r x h = elim (Bool-cases (ti == tj)) [
  | inl q ↦ rw q (ap (λ k. component k j r) (sym ((==_iff ti tj).0 q)) ∙ h)
  | inr q ↦ rw q refl
]

module _ (a : Arithmetic ℕ) (positive : ℕ → Bool) where
  apply_to-none :
      (delta_time : ℕ) (x : Option Component) → apply_to a positive delta_time x none ≡ x
  unfolding apply_to
  apply_to-none delta_time none = refl
  apply_to-none delta_time (some (transform t)) = refl
  apply_to-none delta_time (some _) = refl

  apply_to-IsIdle : (delta_time : ℕ) → IsIdle (apply_to a positive delta_time)
  unfolding apply_to
  apply_to-IsIdle delta_time = record { first = apply_to-none delta_time; second = λ y. refl }

  stored :
      {S : Type 0} (delta_time tj j : ℕ) (r : Registry Component S)
      → component tj j (
          set_array transform_type
            (zip_first
              (apply_to a positive delta_time)
              (array_of transform_type r)
              (array_of movable_type r))
            r)
        ≡ (if transform_type == tj
            then apply_to a positive delta_time
                (component transform_type j r)
                (component movable_type j r)
            else component tj j r)
  unfolding component
  stored delta_time tj j r =
      let moved =
        zip_first (apply_to a positive delta_time) (array_of transform_type r)
          (array_of movable_type r) in
      elim (Bool-cases (transform_type == tj)) [
        | inl q ↦
            rw (array_of-set_array transform_type tj moved r, q)
              (zip_first-at (apply_to a positive delta_time) (array_of transform_type r)
                (array_of movable_type r) j (apply_to-IsIdle delta_time))
        | inr q ↦ rw (array_of-set_array transform_type tj moved r, q) refl
      ]

  -- `apply_movable`, for every type and every entity: an entity with a 3D transform and a 3D movable gets
  -- its position moved by its velocity times its acceleration times the elapsed time; every other
  -- component of every entity stays.
  pub apply_movable-component :
      {S : Type 0} (delta_time tj j : ℕ) (r : Registry Component S)
      → component tj j (apply_movable a positive delta_time r) ≡ (
          if transform_type == tj
          then apply_to a positive delta_time
              (component transform_type j r)
              (component movable_type j r)
          else component tj j r)
  unfolding apply_movable component apply_to
  apply_movable-component delta_time tj j r = elim (Bool-cases (is_registered transform_type r)) [
    | inl e ↦ elim (Bool-cases (is_registered movable_type r)) [
      | inl m ↦ rw (e, m) (stored delta_time tj j r)
      | inr m ↦
          rw (e, m)
            (stays transform_type tj j r _ (
              sym (
                ap (apply_to a positive delta_time (component transform_type j r))
                  (component_unregistered movable_type j r m)
                ∙ apply_to-none delta_time (component transform_type j r))))
    ]
    | inr e ↦ rw e (
        stays transform_type tj j r _ (
          component_unregistered transform_type j r e
          ∙ sym (
              ap (λ x. apply_to a positive delta_time x (component movable_type j r))
                (component_unregistered transform_type j r e))))
  ]
