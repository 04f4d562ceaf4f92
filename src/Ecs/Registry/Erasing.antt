-- ===== src/Ecs/Registry/Erasing.antt =====
-- Engine/EntityComponentSystem/Registry.hpp: arrays and their erase functions.
use flakkari.Prelude.{
  ℕ, ◌≡◌, refl, List, [], ◌∷◌, true, Option, arith, find, find-assign, contains_num, ok,
}
use flakkari.Ecs.Registry.{
  Registry, array_of, is_registered, register_component, get_components, set_array, add_component,
  remove_component, touch, erase_all, kill_entity, spawn_entity, spawn_from, empty_registry,
}
use flakkari.Ecs.SparseArray
use flakkari.Ecs.SparseArray.{insert_at}
use flakkari.Ecs.Registry.Killing.{IsErasable}

empty_registry-IsErasable : (C S : Type 0) → IsErasable {C = C} {S = S} empty_registry
unfolding empty_registry find
empty_registry-IsErasable C S ti = refl

module _ {C S : Type 0} where
  get_components-IsErasable :
      (ti : ℕ) (r : Registry C S)
      → IsErasable r
      → IsErasable (get_components ti r)
        × (contains_num ti (get_components ti r).erase_functions ≡ true)
  unfolding get_components register_component is_registered contains_num
  get_components-IsErasable ti r h =
      (λ tj. ground (arith, h tj, find-assign ti tj [] r.components), ground (arith, h ti))

  set_array-IsErasable :
      (ti : ℕ) (xs : List (Option C)) (r : Registry C S)
      → IsErasable r
      → contains_num ti r.erase_functions ≡ true
      → IsErasable (set_array ti xs r)
  unfolding set_array
  set_array-IsErasable ti xs r h known tj = ground (arith, h tj, find-assign ti tj xs r.components)

  remove_component-IsErasable :
      (ti e : ℕ) (r : Registry C S) → IsErasable r → IsErasable (remove_component ti e r)
  unfolding remove_component
  remove_component-IsErasable ti e r h =
      let (k, known) = get_components-IsErasable ti r h in
      set_array-IsErasable ti (SparseArray.erase (array_of ti (get_components ti r)) e)
        (get_components ti r) k known

  erase_all-IsErasable :
      (e : ℕ) (tis : List ℕ) (r : Registry C S) → IsErasable r → IsErasable (erase_all e tis r)
  unfolding erase_all
  erase_all-IsErasable e [] r h = h
  erase_all-IsErasable e (ti ∷ tis) r h =
      erase_all-IsErasable e tis (remove_component ti e r) (remove_component-IsErasable ti e r h)

  spawn_from-IsErasable :
      (ds : List ℕ) (r r' : Registry C S) (e : ℕ)
      → IsErasable r
      → spawn_from ds r ≡ ok (e, r')
      → IsErasable r'
  unfolding spawn_from
  spawn_from-IsErasable [] r r' e h q ti = ground (arith, h ti)
  spawn_from-IsErasable (d ∷ ds) r r' e h q ti = ground (arith, h ti)

  pub add_component-IsErasable :
      (ti e : ℕ) (c : C) (r : Registry C S) → IsErasable r → IsErasable (add_component ti e c r)
  unfolding add_component
  add_component-IsErasable ti e c r h =
      let (k, known) = get_components-IsErasable ti r h in
      set_array-IsErasable ti (insert_at (array_of ti (get_components ti r)) e c)
        (get_components ti r) k known

  pub touch-IsErasable : (ti e : ℕ) (r : Registry C S) → IsErasable r → IsErasable (touch ti e r)
  unfolding touch
  touch-IsErasable ti e r h =
      let (k, known) = get_components-IsErasable ti r h in
      set_array-IsErasable ti (SparseArray.grow (array_of ti (get_components ti r)) e)
        (get_components ti r) k known

  pub kill_entity-IsErasable :
      (e : ℕ) (r : Registry C S) → IsErasable r → IsErasable (kill_entity e r)
  unfolding kill_entity
  kill_entity-IsErasable e r h = erase_all-IsErasable e r.erase_functions r h

  register_component-IsErasable :
      (ti : ℕ) (r : Registry C S) → IsErasable r → IsErasable (register_component ti r)
  unfolding register_component is_registered contains_num
  register_component-IsErasable ti r h tj = ground (arith, h tj, find-assign ti tj [] r.components)

  -- In the empty registry, and after each of `registerComponent`, `getComponents`, access by an index,
  -- `add_component`, `remove_component`, `spawn_entity` and `kill_entity` on a registry where it is so,
  -- each type that has an array has an erase function, which is what `kill_entity` goes by.
  pub registry_operations-IsErasable :
      (ti e d : ℕ) (c : C) (r r' : Registry C S)
      → IsErasable r
      → spawn_entity r ≡ ok (d, r')
      → IsErasable {C = C} {S = S} empty_registry
        × IsErasable (register_component ti r)
        × IsErasable (get_components ti r)
        × IsErasable (touch ti e r)
        × IsErasable (add_component ti e c r)
        × IsErasable (remove_component ti e r)
        × IsErasable (kill_entity e r)
        × IsErasable r'
  unfolding spawn_entity
  registry_operations-IsErasable ti e d c r r' h spawned = (
    empty_registry-IsErasable C S,
    register_component-IsErasable ti r h,
    (get_components-IsErasable ti r h).0,
    touch-IsErasable ti e r h,
    add_component-IsErasable ti e c r h,
    remove_component-IsErasable ti e r h,
    kill_entity-IsErasable e r h,
    spawn_from-IsErasable r.dead_entities r r' d h spawned,
  )
