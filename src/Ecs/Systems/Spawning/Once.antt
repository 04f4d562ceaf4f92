-- ===== src/Ecs/Systems/Spawning/Once.antt =====
-- Engine/EntityComponentSystem/Systems/Systems.cpp: `spawn_random_within_skybox` places each one once.
use flakkari.Prelude.{
  ℕ, zero, suc, ◌+◌, ◌≡◌, refl, sym, ap, ◌∙◌, [], ◌∷◌, ◌++◌, List, true, ◌&&◌, none, some, is_some,
  ltb, leb, ◌==◌, if◌then◌else◌, arith, Bool-cases, Option-cases, inl, inr, append_assoc,
  append-nil,
}
use flakkari.Math.Arithmetic.{Arithmetic}
use flakkari.Ecs.Component.{
  Component, Vector3, Transform, transform, spawned, transform_type, spawned_type,
  box_collider_type,
}
use flakkari.Ecs.Registry.{Registry, get_components, touch, add_component}
use flakkari.Ecs.Systems.Elements.{FloatOrder, rounds_of}
use flakkari.Ecs.Systems.Spawning.{
  to_spawn, spawn_round, spawn_each, find_skybox, random_position, spawn_random_within_skybox,
}
use flakkari.Ecs.Systems.Spawning.Waiting.{
  waiting, waiting_from, waiting-touch, waiting_placed, stays_none, find_skybox-waiting,
  waiting-get_components, waiting_beyond, missing, waiting_unregistered, waiting_from-none,
  waiting_from-cong,
}

module _ {S : Type 0} (a : Arithmetic ℕ) (o : FloatOrder) (rand_max : ℕ) (draws : ℕ → ℕ) where
  module _ (range : Vector3) where
    abbrev placed : ℕ → ℕ → Transform → Registry Component S → Registry Component S
    placed i n t r' = add_component spawned_type i (spawned true) (
        add_component transform_type i
          (transform (record t { position = random_position a o rand_max draws range n })) r')

    round_none :
        (i : ℕ) (r : Registry Component S) (entities : List ℕ) (n : ℕ)
        → waiting i r ≡ none
        → spawn_round a o rand_max draws range i (r, entities, n)
          ≡ (touch spawned_type i r, entities, n)
    unfolding spawn_round
    round_none i r entities n e = rw (waiting-touch spawned_type i i r ∙ e, spawn_round) refl

    round_some :
        (i : ℕ) (t : Transform) (r : Registry Component S) (entities : List ℕ) (n : ℕ)
        → waiting i r ≡ some t
        → spawn_round a o rand_max draws range i (r, entities, n)
          ≡ (placed i n t (touch spawned_type i r), entities ++ i ∷ [], n + 3)
    unfolding spawn_round random_position
    round_some i t r entities n e = rw (waiting-touch spawned_type i i r ∙ e, spawn_round) refl

    round_lem :
        (i j : ℕ) (r : Registry Component S) (entities : List ℕ) (n : ℕ)
        → let s = spawn_round a o rand_max draws range i (r, entities, n) in
          (waiting j s.0 ≡ (if i == j then none else waiting j r))
          × (s.1 ≡ entities ++ (if is_some (waiting i r) then i ∷ [] else []))
    round_lem i j r entities n =
        let r' = touch spawned_type i r in
        elim (Option-cases (waiting i r)) [
          | inl e ↦
              rw (round_none i r entities n e, e)
                (waiting-touch spawned_type i j r ∙ stays_none i j r e, sym (append-nil entities))
          | inr (t, e) ↦
              rw (round_some i t r entities n e, e)
                (
                  waiting_placed i j
                        (transform
                          (record t { position = random_position a o rand_max draws range n }))
                        r'
                      ∙ ap (λ w. if i == j then none else w) (waiting-touch spawned_type i j r),
                  refl,
                )
        ]

    -- The loop from the i-th on.
    spawn_each_lem :
        (k i j : ℕ) (r : Registry Component S) (entities : List ℕ) (n : ℕ)
        → let s = spawn_each a o rand_max draws range k i (r, entities, n) in
          (waiting j s.0 ≡ (if leb i j && ltb j (i + k) then none else waiting j r))
          × (s.1 ≡ entities ++ waiting_from k i r)
    unfolding spawn_each
    spawn_each_lem zero i j r entities n = (ground arith, sym (append-nil entities))
    spawn_each_lem (suc k) i j r entities n =
        let s = spawn_round a o rand_max draws range i (r, entities, n) in
        let (seen, found) = spawn_each_lem k (i + 1) j s.0 s.1 s.2 in
        (
          seen ∙ ground (arith, (round_lem i j r entities n).0),
          found
              ∙ rw
                  (
                    (round_lem i 0 r entities n).1,
                    waiting_from-cong k (i + 1) s.0 r
                        (λ m l. (round_lem i m r entities n).0 ∙ ground arith),
                  )
                  (elim (Bool-cases (is_some (waiting i r))) [
                    | inl e ↦ rw e (append_assoc entities (i ∷ []) (waiting_from k (i + 1) r))
                    | inr e ↦ rw e (ap (λ xs. xs ++ waiting_from k (i + 1) r) (append-nil entities))
                  ]),
        )

  abbrev placing : Registry Component S × List ℕ × ℕ → Registry Component S × List ℕ × ℕ
  placing = spawn_random_within_skybox a o rand_max draws

  place_lem :
      (j : ℕ) (r : Registry Component S) (entities : List ℕ) (n : ℕ)
      → let s = placing (r, entities, n) in
        (waiting j s.0 ≡ none) × (s.1 ≡ entities ++ waiting_from (rounds_of r) 0 r)
  unfolding spawn_random_within_skybox
  place_lem j r entities n = elim (Bool-cases (missing r)) [
    | inl e ↦
        rw (e, waiting_from-none (rounds_of r) 0 r (λ i. waiting_unregistered i r e))
          (waiting_unregistered j r e, sym (append-nil entities))
    | inr e ↦
        let k = rounds_of r in
        let (range, r') = find_skybox a o rand_max draws k 0 (get_components box_collider_type r) in
        let seen : (i : ℕ) → waiting i r' ≡ waiting i r = λ i.
          find_skybox-waiting a o rand_max draws k 0 i (get_components box_collider_type r)
          ∙ waiting-get_components box_collider_type i r in
        let (later, found) = spawn_each_lem range k 0 j r' entities n in
        rw e (
          later ∙ ground (arith, seen j, waiting_beyond j r),
          found ∙ ap (λ xs. entities ++ xs) (waiting_from-cong k 0 r' r (λ i _. seen i)),
        )
  ]

  pub spawn_random-once :
      (j : ℕ) (r : Registry Component S) (entities : List ℕ) (n : ℕ)
      → let s = spawn_random_within_skybox a o rand_max draws (r, entities, n) in
        (s.1 ≡ entities ++ waiting_from (rounds_of r) 0 r)
        × (to_spawn j s.0 ≡ none)
        × ((spawn_random_within_skybox a o rand_max draws s).1 ≡ s.1)
  spawn_random-once j r entities n =
      let s = placing (r, entities, n) in
      (
        (place_lem j r entities n).1,
        (place_lem j r entities n).0,
        (place_lem j s.0 s.1 s.2).1
            ∙ ap (λ xs. s.1 ++ xs)
                (waiting_from-none (rounds_of s.0) 0 s.0 (λ i. (place_lem i r entities n).0))
            ∙ append-nil s.1,
      )
