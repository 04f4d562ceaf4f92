-- ===== src/Ecs/Registry.antt =====
-- Engine/EntityComponentSystem/Registry.hpp and Registry.cpp. `C` stands for what the std::any of a
-- type's array may hold and `S` for the systems; a type is the number of its std::type_index. An entry
-- of `_eraseFunctions` is determined by its key, so the keys are kept.
mod Tests
pub mod Components
pub mod Killing
pub mod Erasing
pub mod Lifecycle
use flakkari.Prelude.{
  ℕ, ◌+◌, ◌-◌, ◌^◌, ◌<◌, ◌≡◌, List, [], ◌∷◌, ◌++◌, Bool, true, false, Option, none, some, length,
  Table, find, assign, contains_num, Outcome, ok, throws, runtime_error, ltb, if◌then◌else◌,
}
use flakkari.Ecs.SparseArray
use flakkari.Ecs.SparseArray.{insert_at}

pub record Registry (C S : Type 0) : Type 0 where
  pub components : Table (List (Option C))
  pub erase_functions : List ℕ
  pub systems : List S
  pub dead_entities : List ℕ
  pub next_entity : ℕ

-- SIZE_MAX
abbrev pub size_max : ℕ
size_max = 2 ^ 64 - 1

module _ {C S : Type 0} where
  -- The array that `_components` has for a type, if any.
  unfoldable pub array_of : ℕ → Registry C S → List (Option C)
  array_of ti r = elim (find ti r.components) [ none ↦ [] | some xs ↦ xs ]

  pub empty_registry : Registry C S
  empty_registry = record {
    components = [];
    erase_functions = [];
    systems = [];
    dead_entities = [];
    next_entity = 0;
  }

  -- `Registry::clear`
  pub clear : Registry C S → Registry C S
  clear r = empty_registry

  -- `isRegistered<Component>()`: an empty array counts as not registered.
  unfoldable pub is_registered : ℕ → Registry C S → Bool
  is_registered ti r = elim (find ti r.components) [ none ↦ false | some xs ↦ ltb 0 (length xs) ]

  -- `isRegistered<Component>(entity)`
  unfoldable pub is_registered_at : ℕ → ℕ → Registry C S → Bool
  is_registered_at ti entity r = elim (find ti r.components) [
    | none ↦ false
    | some xs ↦ elim (SparseArray.at xs entity) [ none ↦ false | some c ↦ true ]
  ]

  unfoldable pub register_component : ℕ → Registry C S → Registry C S
  register_component ti r = if is_registered ti r then r else record r {
    components = assign ti [] r.components;
    erase_functions =
        if contains_num ti r.erase_functions then r.erase_functions else ti ∷ r.erase_functions;
  }

  -- `getComponents<Component>()`: the registry after the call; the array is `array_of` it.
  unfoldable pub get_components : ℕ → Registry C S → Registry C S
  get_components ti r = if is_registered ti r then r else register_component ti r

  -- An assignment through the reference that `getComponents` returns.
  unfoldable pub set_array : ℕ → List (Option C) → Registry C S → Registry C S
  set_array ti xs r = record r { components = assign ti xs r.components }

  -- `add_component` and `emplace_component`
  unfoldable pub add_component : ℕ → ℕ → C → Registry C S → Registry C S
  add_component ti entity c r =
      let r' = get_components ti r in set_array ti (insert_at (array_of ti r') entity c) r'

  unfoldable pub remove_component : ℕ → ℕ → Registry C S → Registry C S
  remove_component ti entity r =
      let r' = get_components ti r in set_array ti (SparseArray.erase (array_of ti r') entity) r'

  -- `getComponents<Component>()[i]`, which grows the array: the registry after the call.
  unfoldable pub touch : ℕ → ℕ → Registry C S → Registry C S
  touch ti i r =
      let r' = get_components ti r in set_array ti (SparseArray.grow (array_of ti r') i) r'

  -- What an entity has of a type.
  unfoldable pub component : ℕ → ℕ → Registry C S → Option C
  component ti entity r = SparseArray.at (array_of ti r) entity

  unfoldable pub spawn_from : List ℕ → Registry C S → Outcome (ℕ × Registry C S)
  spawn_from (e ∷ rest) r = ok (e, record r { dead_entities = rest })
  spawn_from [] r =
      if ltb r.next_entity size_max
      then ok (r.next_entity, record r { next_entity = r.next_entity + 1 })
      else throws runtime_error

  -- `spawn_entity`: the identifier that died first, or a new one.
  unfoldable pub spawn_entity : Registry C S → Outcome (ℕ × Registry C S)
  unfolding spawn_from
  spawn_entity r = spawn_from r.dead_entities r

  -- The loop of `kill_entity` over the erase functions.
  unfoldable pub erase_all : ℕ → List ℕ → Registry C S → Registry C S
  erase_all e [] r = r
  erase_all e (ti ∷ tis) r = erase_all e tis (remove_component ti e r)

  unfoldable pub kill_entity : ℕ → Registry C S → Registry C S
  kill_entity e r =
      let r' = erase_all e r.erase_functions r in
      record r' { dead_entities = r'.dead_entities ++ e ∷ [] }

  pub add_system : S → Registry C S → Registry C S
  add_system f r = record r { systems = r.systems ++ f ∷ [] }

  -- The loop of `run_systems`, over what the systems do.
  pub run_systems : (S → Registry C S → Registry C S) → List S → Registry C S → Registry C S
  run_systems run [] r = r
  run_systems run (s ∷ ss) r = run_systems run ss (run s r)
