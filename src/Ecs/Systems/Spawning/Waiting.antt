-- ===== src/Ecs/Systems/Spawning/Waiting.antt =====
-- Engine/EntityComponentSystem/Systems/Systems.cpp: whom `spawn_random_within_skybox` has to place.
use flakkari.Prelude.{
  ℕ, zero, suc, ◌+◌, ◌≡◌, ◌≤◌, refl, sym, ap, ◌∙◌, [], ◌∷◌, List, Bool, true, false, not, ◌&&◌,
  ◌||◌, Option, none, some, is_some, leb, length, ◌==◌, if◌then◌else◌, arith, Bool-cases,
  Option-cases, inl, inr, Bytes, ==_iff,
}
use flakkari.Math.Arithmetic.{Arithmetic}
use flakkari.Ecs.Component.{
  Component, Transform, spawned, transform_type, tag_type, spawned_type, box_collider_type,
}
use flakkari.Ecs.SparseArray.{at, get_or_above}
use flakkari.Ecs.Registry.{
  Registry, array_of, is_registered, get_components, touch, component, add_component,
}
use flakkari.Ecs.Registry.Components.{component_operations, touch_lem, array_of-get_components}
use flakkari.Ecs.Systems.Moving.{component_unregistered}
use flakkari.Ecs.Systems.Elements.{FloatOrder, transform_of, tag_of, box_of, spawned_of, rounds_of}
use flakkari.Ecs.Systems.Spawning.{spawn_if, to_spawn, find_skybox, range_if}

-- One that has spawned does not spawn.
spawn_if_done : (t : Option Transform) (name : Option Bytes) → spawn_if t name (some true) ≡ none
unfolding spawn_if
spawn_if_done none name = refl
spawn_if_done (some t) none = refl
spawn_if_done (some t) (some name) = ground arith

spawn_if_gone :
    (t : Option Transform) (name : Option Bytes) (h : Option Bool)
    → (is_some t && is_some name && is_some h) ≡ false
    → spawn_if t name h ≡ none
unfolding spawn_if
spawn_if_gone none name h e = refl
spawn_if_gone (some t) none h e = refl
spawn_if_gone (some t) (some name) none e = refl
spawn_if_gone (some t) (some name) (some d) e = cc

abbrev pub missing : {S : Type 0} → Registry Component S → Bool
missing r =
    not (is_registered transform_type r)
    || not (is_registered tag_type r)
    || not (is_registered spawned_type r)

module _ {S : Type 0} where
  abbrev pub waiting : ℕ → Registry Component S → Option Transform
  waiting = to_spawn

  -- Those from the i-th on that are to spawn.
  abbrev pub waiting_from : ℕ → ℕ → Registry Component S → List ℕ
  waiting_from zero i r = []
  waiting_from (suc k) i r =
      let rest = waiting_from k (i + 1) r in if is_some (waiting i r) then i ∷ rest else rest

  -- Whether one is to spawn depends on three of its components.
  waiting-cong :
      (i : ℕ) (r r' : Registry Component S)
      → component transform_type i r ≡ component transform_type i r'
      → component tag_type i r ≡ component tag_type i r'
      → component spawned_type i r ≡ component spawned_type i r'
      → waiting i r ≡ waiting i r'
  unfolding to_spawn
  waiting-cong i r r' p q s = rw (p, q, s) refl

  pub waiting-touch :
      (ti j i : ℕ) (r : Registry Component S) → waiting i (touch ti j r) ≡ waiting i r
  waiting-touch ti j i r =
      waiting-cong i (touch ti j r) r (touch_lem ti transform_type j i r)
        (touch_lem ti tag_type j i r) (touch_lem ti spawned_type j i r)

  -- One that is placed is done, and no other is concerned.
  pub waiting_placed :
      (i j : ℕ) (c : Component) (r : Registry Component S)
      → waiting j (add_component spawned_type i (spawned true) (add_component transform_type i c r))
        ≡ (if i == j then none else waiting j r)
  unfolding to_spawn spawned_of
  waiting_placed i j c r =
      let r₁ = add_component transform_type i c r in
      let mark = spawned true in
      let other : (tj : ℕ) → component tj j (add_component spawned_type i mark r₁) ≡ _ =
        λ tj. (component_operations spawned_type tj i j mark r₁).0 in
      let moved : (tj : ℕ) → component tj j r₁ ≡ _ =
        λ tj. (component_operations transform_type tj i j c r).0 in
      elim (Bool-cases (i == j)) [
        | inl e ↦
            rw (e, other spawned_type, e)
              (spawn_if_done (transform_of (component transform_type j _))
                (tag_of (component tag_type j _)))
        | inr e ↦
            rw
              (
                e,
                other spawned_type,
                other transform_type,
                other tag_type,
                moved spawned_type,
                moved transform_type,
                moved tag_type,
                e,
              )
              refl
      ]

  pub stays_none :
      (i j : ℕ) (r : Registry Component S)
      → waiting i r ≡ none
      → waiting j r ≡ (if i == j then none else waiting j r)
  stays_none i j r e = elim (Bool-cases (i == j)) [
    | inl q ↦ rw q (ap (λ m. waiting m r) (sym ((==_iff i j).0 q)) ∙ e)
    | inr q ↦ rw q refl
  ]

  pub waiting-get_components :
      (ti j : ℕ) (r : Registry Component S) → waiting j (get_components ti r) ≡ waiting j r
  unfolding component
  waiting-get_components ti j r =
      waiting-cong j (get_components ti r) r
        (ap (λ xs. at xs j) (array_of-get_components ti transform_type r))
        (ap (λ xs. at xs j) (array_of-get_components ti tag_type r))
        (ap (λ xs. at xs j) (array_of-get_components ti spawned_type r))

  no_transform :
      (j : ℕ) (r : Registry Component S) → component transform_type j r ≡ none → waiting j r ≡ none
  unfolding to_spawn transform_of
  no_transform j r e =
      let name = tag_of (component tag_type j r) in
      let mark = spawned_of (component spawned_type j r) in
      ap (λ c. spawn_if (transform_of c) name mark) e ∙ spawn_if_gone none name mark refl

  no_tag : (j : ℕ) (r : Registry Component S) → component tag_type j r ≡ none → waiting j r ≡ none
  unfolding to_spawn tag_of
  no_tag j r e =
      let t = transform_of (component transform_type j r) in
      let mark = spawned_of (component spawned_type j r) in
      ap (λ c. spawn_if t (tag_of c) mark) e ∙ spawn_if_gone t none mark (ground arith)

  no_mark :
      (j : ℕ) (r : Registry Component S) → component spawned_type j r ≡ none → waiting j r ≡ none
  unfolding to_spawn spawned_of
  no_mark j r e =
      let t = transform_of (component transform_type j r) in
      let name = tag_of (component tag_type j r) in
      ap (λ c. spawn_if t name (spawned_of c)) e ∙ spawn_if_gone t name none (ground arith)

  pub waiting_beyond : (j : ℕ) (r : Registry Component S) → rounds_of r ≤ j → waiting j r ≡ none
  unfolding rounds_of component at
  waiting_beyond j r h =
      let transforms = array_of transform_type r in
      let tags = array_of tag_type r in
      elim (Bool-cases (leb (length transforms) (length tags))) [
        | inl e ↦ no_transform j r (get_or_above transforms j (ground arith))
        | inr e ↦ no_tag j r (get_or_above tags j (ground arith))
      ]

  pub waiting_unregistered :
      (j : ℕ) (r : Registry Component S) → missing r ≡ true → waiting j r ≡ none
  waiting_unregistered j r h = elim (Bool-cases (is_registered transform_type r)) [
    | inl e ↦ elim (Bool-cases (is_registered tag_type r)) [
      | inl f ↦ no_mark j r (component_unregistered spawned_type j r (ground arith))
      | inr f ↦ no_tag j r (component_unregistered tag_type j r f)
    ]
    | inr e ↦ no_transform j r (component_unregistered transform_type j r e)
  ]

  pub waiting_from-none :
      (k i : ℕ) (r : Registry Component S)
      → ((j : ℕ) → waiting j r ≡ none)
      → waiting_from k i r ≡ []
  waiting_from-none zero i r h = refl
  waiting_from-none (suc k) i r h = rw (h i, waiting_from-none k (i + 1) r h) refl

  pub waiting_from-cong :
      (k i : ℕ) (r r' : Registry Component S)
      → ((j : ℕ) → i ≤ j → waiting j r ≡ waiting j r')
      → waiting_from k i r ≡ waiting_from k i r'
  waiting_from-cong zero i r r' h = refl
  waiting_from-cong (suc k) i r r' h =
      rw (h i (omega arith), waiting_from-cong k (i + 1) r r' (λ j l. h j (omega arith))) refl

module _ {S : Type 0} (a : Arithmetic ℕ) (o : FloatOrder) (rand_max : ℕ) (draws : ℕ → ℕ) where
  pub find_skybox-waiting :
      (k i j : ℕ) (r : Registry Component S)
      → waiting j (find_skybox a o rand_max draws k i r).1 ≡ waiting j r
  unfolding find_skybox
  find_skybox-waiting zero i j r = refl
  find_skybox-waiting (suc k) i j r =
      let r' = touch box_collider_type i r in
      elim (Option-cases (
        range_if a o (transform_of (component transform_type i r'))
          (tag_of (component tag_type i r')) (box_of (component box_collider_type i r')))) [
            | inl e ↦
                rw (e, find_skybox)
                  (find_skybox-waiting k (i + 1) j r' ∙ waiting-touch box_collider_type i j r)
            | inr (range, e) ↦ rw (e, find_skybox) (waiting-touch box_collider_type i j r)
          ]
