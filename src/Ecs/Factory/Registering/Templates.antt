-- ===== src/Ecs/Factory/Registering/Templates.antt =====
-- Engine/EntityComponentSystem/Factory.cpp: what `RegistryEntityByTemplate` makes of a template as a whole.
use flakkari.Prelude.{
  ℕ, ◌≡◌, refl, subst, ◌∙◌, List, [], ◌∷◌, Bool, true, false, ◌||◌, ◌==◌, Bytes, text_eq,
  text_eq→eq, Outcome, ok, throws, undefined, if◌then◌else◌, Option, none, some, contains_num,
  Bool-cases, Option-cases, inl, inr, arith,
}
use flakkari.Ecs.Component.{Component, rigid_body_type}
use flakkari.Ecs.Registry.{Registry, register_component, add_component, component}
use flakkari.Ecs.Registry.Components.{component_operations, register_component_lem}
use flakkari.Ecs.Factory.Reading.{Json}
use flakkari.Ecs.Factory.Registering.{
  Branch, pick, branches, register_then, register_items, registry_entity_by_json,
}

-- The types of the branches whose names no earlier branch has.
abbrev seen_in : Bytes → List Bytes → Bool
seen_in key [] = false
seen_in key (k ∷ ks) = text_eq k key || seen_in key ks

first_types : {J : Type 0} → List Bytes → List (Branch J) → List ℕ
first_types seen [] = []
first_types seen ((key, (ti, read)) ∷ rest) =
    let later = first_types (key ∷ seen) rest in if seen_in key seen then later else ti ∷ later

-- The type of a branch, if there is one, is in a list.
abbrev type_in : {J : Type 0} → Option (ℕ × (J → Outcome Component)) → List ℕ → Bool
type_in none ts = true
type_in (some (ti, read)) ts = contains_num ti ts

type_in-weaken :
    {J : Type 0} (o : Option (ℕ × (J → Outcome Component))) (b : Bool) (tj : ℕ) (ts : List ℕ)
    → type_in o ts ≡ true
    → type_in o (if b then ts else tj ∷ ts) ≡ true
unfolding contains_num
type_in-weaken none b tj ts h = refl
type_in-weaken (some (ti, read)) true tj ts h = h
type_in-weaken (some (ti, read)) false tj ts h = ground arith

pick-first_types :
    {J : Type 0} (name : Bytes) (seen : List Bytes) (bs : List (Branch J))
    → seen_in name seen ≡ false
    → type_in (pick name bs) (first_types seen bs) ≡ true
unfolding pick first_types contains_num
pick-first_types name seen [] new = refl
pick-first_types name seen ((key, (tj, r)) ∷ rest) new = elim (Bool-cases (text_eq key name)) [
  | inl e ↦
      let fresh : seen_in key seen ≡ false = rw (text_eq→eq key name e) new in
      rw (e, fresh) (ground arith)
  | inr e ↦ rw e (
      type_in-weaken (pick name rest) (seen_in key seen) tj (first_types (key ∷ seen) rest)
        (pick-first_types name (key ∷ seen) rest (ground arith)))
]

module _ {J : Type 0} (j : Json J) (now : ℕ) (templates : J) where
  not_picked :
      (name : Bytes) (ti : ℕ) (read : J → Outcome Component)
      → pick name (branches j now templates) ≡ some (ti, read)
      → (ti == rigid_body_type) ≡ false
  unfolding branches first_types contains_num text_eq
  not_picked name ti read e =
      let known : contains_num ti (first_types [] (branches j now templates)) ≡ true =
        subst (λ o. type_in o (first_types [] (branches j now templates)) ≡ true) e
          (pick-first_types name [] (branches j now templates) refl) in
      ground (arith, known)

module _ {J S : Type 0} (j : Json J) (now entity : ℕ) (templates : J) (i : ℕ) where
  register_then-rigid_body :
      (ti : ℕ) (oc : Outcome Component) (r : Registry Component S)
      (next : Registry Component S → Outcome (Unit {0}) × Registry Component S)
      → (ti == rigid_body_type) ≡ false
      → ((r' : Registry Component S)
          → component rigid_body_type i (next r').1 ≡ component rigid_body_type i r')
      → component rigid_body_type i (register_then j entity ti oc next r).1
        ≡ component rigid_body_type i r
  unfolding register_then
  register_then-rigid_body ti (ok c) r next other keeps =
      let r₁ = register_component ti r in
      keeps (add_component ti entity c r₁)
      ∙ rw ((component_operations ti rigid_body_type entity i c r₁).0, other)
          (register_component_lem ti rigid_body_type i r)
  register_then-rigid_body ti (throws e) r next other keeps =
      register_component_lem ti rigid_body_type i r
  register_then-rigid_body ti undefined r next other keeps =
      register_component_lem ti rigid_body_type i r

  register_items-rigid_body :
      (items : List (Bytes × J)) (r : Registry Component S)
      → component rigid_body_type i (register_items j now entity templates items r).1
        ≡ component rigid_body_type i r
  unfolding register_items
  register_items-rigid_body [] r = refl
  register_items-rigid_body ((name, content) ∷ rest) r =
      elim (Option-cases (pick name (branches j now templates))) [
        | inl e ↦ rw (e, register_items) (register_items-rigid_body rest r)
        | inr ((ti, read), e) ↦
            rw (e, register_items)
              (register_then-rigid_body ti (read content) r
                (register_items j now entity templates rest)
                (not_picked j now templates name ti read e) (register_items-rigid_body rest))
      ]

  -- No template gives any entity a 3D rigid body, or takes one away, whether the call returns or throws:
  -- the branch for it tests for "RigidBody", as the earlier one for the 2D rigid body does.
  pub registry_entity_by_json-rigid_body :
      (template_json : J) (r : Registry Component S)
      → component rigid_body_type i
          (registry_entity_by_json j now entity template_json templates r).1
        ≡ component rigid_body_type i r
  unfolding registry_entity_by_json
  registry_entity_by_json-rigid_body template_json r =
      register_items-rigid_body (j.items template_json) r
