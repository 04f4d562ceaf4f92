-- ===== src/Ecs/Registry/Lifecycle.antt =====
-- Engine/EntityComponentSystem/Registry.cpp: which identifiers `spawn_entity` gives out.
use flakkari.Prelude.{
  ℕ, ◌+◌, ◌≡◌, refl, List, [], ◌∷◌, ◌++◌, arith, count, remove_one, count-append, count-remove_one,
  ok, ltb, if◌then◌else◌,
}
use flakkari.Ecs.Registry.{
  Registry, remove_component, erase_all, kill_entity, spawn_entity, spawn_from, get_components,
  set_array, register_component,
}

module _ {C S : Type 0} where
  -- Each identifier below `_nextEntity` is either alive or waits to be used again, and once only;
  -- none is at or above it.
  abbrev pub IsPartition : List ℕ → Registry C S → Type 0
  IsPartition live r =
      (e : ℕ) → count e r.dead_entities + count e live ≡ (if ltb e r.next_entity then 1 else 0)

  spawn_from-IsPartition :
      (live ds : List ℕ) (r r' : Registry C S) (e : ℕ)
      → r.dead_entities ≡ ds
      → IsPartition live r
      → spawn_from ds r ≡ ok (e, r')
      → (count e live ≡ 0) × IsPartition (e ∷ live) r'
  unfolding spawn_from count
  spawn_from-IsPartition live [] r r' e p h q = (ground (arith, h e), λ j. ground (arith, h j))
  spawn_from-IsPartition live (d ∷ ds) r r' e p h q =
      (ground (arith, h e), λ j. ground (arith, h j))

  -- If no identifier is both alive and free, free twice or unused, then a spawned entity was not
  -- alive before, and with it alive the same holds again.
  pub spawn_entity-IsPartition :
      (live : List ℕ) (r r' : Registry C S) (e : ℕ)
      → IsPartition live r
      → spawn_entity r ≡ ok (e, r')
      → (count e live ≡ 0) × IsPartition (e ∷ live) r'
  unfolding spawn_entity
  spawn_entity-IsPartition live r r' e h q =
      spawn_from-IsPartition live r.dead_entities r r' e refl h q

  remove_component-queue :
      (ti e : ℕ) (r : Registry C S)
      → ((remove_component ti e r).dead_entities ≡ r.dead_entities)
        × ((remove_component ti e r).next_entity ≡ r.next_entity)
  unfolding remove_component get_components set_array register_component
  remove_component-queue ti e r = ground arith

  erase_all-queue :
      (e : ℕ) (tis : List ℕ) (r : Registry C S)
      → ((erase_all e tis r).dead_entities ≡ r.dead_entities)
        × ((erase_all e tis r).next_entity ≡ r.next_entity)
  unfolding erase_all
  erase_all-queue e [] r = (refl, refl)
  erase_all-queue e (ti ∷ tis) r =
      ground (arith, erase_all-queue e tis (remove_component ti e r), remove_component-queue ti e r)

  pub kill_entity-queue :
      (e : ℕ) (r : Registry C S)
      → ((kill_entity e r).dead_entities ≡ r.dead_entities ++ e ∷ [])
        × ((kill_entity e r).next_entity ≡ r.next_entity)
  unfolding kill_entity
  kill_entity-queue e r = ground (arith, erase_all-queue e r.erase_functions r)

  -- Killing an entity that is alive keeps the identifiers apart: its own becomes free.
  pub kill_entity-IsPartition :
      (live : List ℕ) (r : Registry C S) (e : ℕ)
      → IsPartition live r
      → count e live ≡ 1
      → IsPartition (remove_one e live) (kill_entity e r)
  unfolding count
  kill_entity-IsPartition live r e h alive j = ground (
    arith,
    h j,
    kill_entity-queue e r,
    count-append j r.dead_entities (e ∷ []),
    count-remove_one e j live alive,
  )

  -- An entity that is killed twice while no identifier is free is given out twice: the next two
  -- calls of `spawn_entity` both return it.
  pub spawn_entity-kill_entity_twice :
      (r : Registry C S) (e : ℕ)
      → r.dead_entities ≡ []
      → (s t : Registry C S) × (spawn_entity (kill_entity e (kill_entity e r)) ≡ ok (e, s))
        × (spawn_entity s ≡ ok (e, t))
  unfolding spawn_entity spawn_from
  spawn_entity-kill_entity_twice r e h =
      let twice = kill_entity e (kill_entity e r) in
      let queue : twice.dead_entities ≡ e ∷ e ∷ [] =
        ground (arith, kill_entity-queue e r, kill_entity-queue e (kill_entity e r)) in
      (
        record twice { dead_entities = e ∷ [] },
        record twice { dead_entities = [] },
        rw (queue, spawn_from) refl,
        refl,
      )
