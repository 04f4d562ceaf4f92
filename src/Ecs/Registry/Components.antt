-- ===== src/Ecs/Registry/Components.antt =====
-- Engine/EntityComponentSystem/Registry.hpp: what the component operations do to what entities have.
use flakkari.Prelude.{
  ℕ, ◌≡◌, refl, List, [], ◌∷◌, false, Option, none, some, arith, length, find, find-assign, ◌&&◌,
  ltb, ◌==◌, if◌then◌else◌, Option-cases, inl, inr,
}
use flakkari.Ecs.SparseArray
use flakkari.Ecs.SparseArray.{insert_at, at-insert_at, at-erase, at-grow}
use flakkari.Ecs.Registry.{
  Registry, array_of, is_registered, register_component, get_components, set_array, add_component,
  remove_component, touch, component,
}

empty_array : {C : Type 0} (xs : List (Option C)) → ltb 0 (length xs) ≡ false → xs ≡ []
empty_array [] h = refl
empty_array (x ∷ xs) h = ground arith

module _ {C S : Type 0} where
  -- A type that is not registered has an empty array or none, and gets an empty one.
  pub array_of-get_components :
      (ti tj : ℕ) (r : Registry C S) → array_of tj (get_components ti r) ≡ array_of tj r
  unfolding array_of get_components register_component is_registered
  array_of-get_components ti tj r = elim (Option-cases (find ti r.components)) [
    | inl e ↦ ground (arith, find-assign ti tj [] r.components)
    | inr (xs, e) ↦ ground (arith, find-assign ti tj [] r.components, empty_array xs)
  ]

  pub array_of-set_array :
      (ti tj : ℕ) (xs : List (Option C)) (r : Registry C S)
      → array_of tj (set_array ti xs r) ≡ (if ti == tj then xs else array_of tj r)
  unfolding array_of set_array
  array_of-set_array ti tj xs r = ground (arith, find-assign ti tj xs r.components)

  -- A type that is not registered has no components.
  pub array_of_unregistered :
      (ti : ℕ) (r : Registry C S) → is_registered ti r ≡ false → array_of ti r ≡ []
  unfolding array_of is_registered
  array_of_unregistered ti r h = elim (Option-cases (find ti r.components)) [
    | inl e ↦ ground arith
    | inr (xs, e) ↦ ground (arith, empty_array xs)
  ]

  add_component_lem :
      (ti tj e j : ℕ) (c : C) (r : Registry C S)
      → component tj j (add_component ti e c r)
        ≡ (if (ti == tj) && (e == j) then some c else component tj j r)
  unfolding component add_component
  add_component_lem ti tj e j c r =
      let r' = get_components ti r in
      ground (
        arith,
        array_of-get_components ti tj r,
        array_of-set_array ti tj (insert_at (array_of ti r') e c) r',
        at-insert_at (array_of tj r) e j c,
      )

  pub remove_component_lem :
      (ti tj e j : ℕ) (r : Registry C S)
      → component tj j (remove_component ti e r)
        ≡ (if (ti == tj) && (e == j) then none else component tj j r)
  unfolding component remove_component
  remove_component_lem ti tj e j r =
      let r' = get_components ti r in
      ground (
        arith,
        array_of-get_components ti tj r,
        array_of-set_array ti tj (SparseArray.erase (array_of ti r') e) r',
        at-erase (array_of tj r) e j,
      )

  pub register_component_lem :
      (ti tj j : ℕ) (r : Registry C S) → component tj j (register_component ti r) ≡ component tj j r
  unfolding component register_component get_components
  register_component_lem ti tj j r = ground (arith, array_of-get_components ti tj r)

  pub touch_lem :
      (ti tj e j : ℕ) (r : Registry C S) → component tj j (touch ti e r) ≡ component tj j r
  unfolding component touch
  touch_lem ti tj e j r =
      let r' = get_components ti r in
      ground (
        arith,
        array_of-get_components ti tj r,
        array_of-set_array ti tj (SparseArray.grow (array_of ti r') e) r',
        at-grow (array_of tj r) e j,
      )

  -- An array of another type stays as it is, also in length.
  pub array_of-touch :
      (ti tj e : ℕ) (r : Registry C S)
      → (ti == tj) ≡ false
      → array_of tj (touch ti e r) ≡ array_of tj r
  unfolding touch
  array_of-touch ti tj e r other =
      let r' = get_components ti r in
      rw (array_of-set_array ti tj (SparseArray.grow (array_of ti r') e) r', other)
        (array_of-get_components ti tj r)

  pub array_of-add_component :
      (ti tj e : ℕ) (c : C) (r : Registry C S)
      → (ti == tj) ≡ false
      → array_of tj (add_component ti e c r) ≡ array_of tj r
  unfolding add_component
  array_of-add_component ti tj e c r other =
      let r' = get_components ti r in
      rw (array_of-set_array ti tj (insert_at (array_of ti r') e c) r', other)
        (array_of-get_components ti tj r)

  -- The three component operations, at every type and every entity: adding gives the component to
  -- the entity and nobody else, removing takes the entity's component of the type away and nothing
  -- else, and reading by index, which may grow an array, changes what no entity has.
  pub component_operations :
      (ti tj e j : ℕ) (c : C) (r : Registry C S)
      → (component tj j (add_component ti e c r)
          ≡ (if (ti == tj) && (e == j) then some c else component tj j r))
        × (component tj j (remove_component ti e r)
            ≡ (if (ti == tj) && (e == j) then none else component tj j r))
        × (component tj j (touch ti e r) ≡ component tj j r)
  component_operations ti tj e j c r =
      (add_component_lem ti tj e j c r, remove_component_lem ti tj e j r, touch_lem ti tj e j r)
