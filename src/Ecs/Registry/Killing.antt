-- ===== src/Ecs/Registry/Killing.antt =====
-- Engine/EntityComponentSystem/Registry.cpp: `kill_entity` and the components.
use flakkari.Prelude.{
  not, ◌||◌, ℕ, ◌≡◌, refl, ◌∙◌, List, [], ◌∷◌, ◌++◌, true, none, arith, find, contains_num, ◌==◌,
  if◌then◌else◌, Option-cases, inl, inr, ◌||◌, ◌&&◌, is_some,
}
use flakkari.Ecs.SparseArray.{at_empty}
use flakkari.Ecs.Registry.{Registry, array_of, remove_component, component, erase_all, kill_entity}
use flakkari.Ecs.Registry.Components.{remove_component_lem}

module _ {C S : Type 0} where
  -- Every type that has an array has an erase function.
  abbrev pub IsErasable : Registry C S → Type 0
  IsErasable r =
      (ti : ℕ) → (not (is_some (find ti r.components)) || contains_num ti r.erase_functions) ≡ true

  erase_all_lem :
      (e tj j : ℕ) (tis : List ℕ) (r : Registry C S)
      → component tj j (erase_all e tis r)
        ≡ (if contains_num tj tis && (e == j) then none else component tj j r)
  unfolding erase_all contains_num
  erase_all_lem e tj j [] r = refl
  erase_all_lem e tj j (ti ∷ tis) r =
      ground (
        arith,
        erase_all_lem e tj j tis (remove_component ti e r),
        remove_component_lem ti tj e j r,
      )

  -- The queue of the dead is no component.
  component-dead :
      (tj j : ℕ) (ds : List ℕ) (r : Registry C S)
      → component tj j (record r { dead_entities = ds }) ≡ component tj j r
  unfolding component array_of
  component-dead tj j ds r = refl

  pub kill_entity_lem :
      (e tj j : ℕ) (r : Registry C S)
      → component tj j (kill_entity e r)
        ≡ (if contains_num tj r.erase_functions && (e == j) then none else component tj j r)
  unfolding kill_entity
  kill_entity_lem e tj j r =
      let r' = erase_all e r.erase_functions r in
      component-dead tj j (r'.dead_entities ++ e ∷ []) r' ∙ erase_all_lem e tj j r.erase_functions r

  missing : (tj j : ℕ) (r : Registry C S) → find tj r.components ≡ none → component tj j r ≡ none
  unfolding component array_of
  missing tj j r e = ground (arith, at_empty {C = C} j)

  -- In a registry in which every type with an array has an erase function, a killed entity has no
  -- component of any type left, and every other entity has what it had.
  pub kill_entity-component :
      (e tj j : ℕ) (r : Registry C S)
      → IsErasable r
      → component tj j (kill_entity e r) ≡ (if e == j then none else component tj j r)
  kill_entity-component e tj j r h = elim (Option-cases (find tj r.components)) [
    | inl gone ↦ ground (arith, kill_entity_lem e tj j r, missing tj j r)
    | inr (xs, found) ↦ ground (arith, kill_entity_lem e tj j r, h tj)
  ]
