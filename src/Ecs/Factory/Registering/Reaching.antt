-- ===== src/Ecs/Factory/Registering/Reaching.antt =====
-- Engine/EntityComponentSystem/Factory.cpp: what a component of a template becomes.
use flakkari.Prelude.{
  ℕ, ◌≡◌, refl, sym, subst, ap, ◌∙◌, List, [], ◌∷◌, ◌++◌, ◌==◌, Bytes, Outcome, ok, throws,
  undefined, none, some, Option-cases, Bool-cases, inl, inr, arith, lookup,
}
use flakkari.Ecs.Component.{Component}
use flakkari.Ecs.Registry.{Registry, register_component, add_component, component}
use flakkari.Ecs.Registry.Components.{component_operations, register_component_lem}
use flakkari.Ecs.Systems.Typing.{type_of}
use flakkari.Ecs.Factory.Reading.{Json}
use flakkari.Ecs.Factory.Registering.{
  pick, branches, register_then, register_items, registry_entity_by_json,
}
use flakkari.Ecs.Factory.Registering.Naming.{
  component_names, pick-Yields, pick-lookup, branches-heads, branches-AllYield,
}

module _ {J S : Type 0} (j : Json J) (now entity : ℕ) (templates : J) where
  -- The entity has a component in the array of a type, and it is of that type.
  abbrev pub HasOwn : ℕ → Registry Component S → Type 0
  HasOwn ti r = (c : Component) × (component ti entity r ≡ some c) × (type_of c ≡ ti)

  add_component-HasOwn :
      (ti tj : ℕ) (c : Component) (r : Registry Component S)
      → type_of c ≡ tj
      → HasOwn ti r
      → HasOwn ti (add_component tj entity c (register_component tj r))
  add_component-HasOwn ti tj c r own (d, there, typed) =
      let r₁ = register_component tj r in
      let added = (component_operations tj ti entity entity c r₁).0 in
      let kept = register_component_lem tj ti entity r in
      elim (Bool-cases (tj == ti)) [
        | inl same ↦ (c, added ∙ ground arith, own ∙ ground arith)
        | inr other ↦ (d, added ∙ rw other (kept ∙ there), typed)
      ]

  add_component_own :
      (ti : ℕ) (c : Component) (r : Registry Component S)
      → type_of c ≡ ti
      → HasOwn ti (add_component ti entity c (register_component ti r))
  add_component_own ti c r own =
      let added = (component_operations ti ti entity entity c (register_component ti r)).0 in
      (c, added ∙ ground arith, own)

  register_then_ok :
      (ti : ℕ) (oc : Outcome Component)
      (next : Registry Component S → Outcome (Unit {0}) × Registry Component S)
      (r r' : Registry Component S)
      → register_then j entity ti oc next r ≡ (ok tt, r')
      → (c : Component) × (oc ≡ ok c)
        × (next (add_component ti entity c (register_component ti r)) ≡ (ok tt, r'))
  unfolding register_then
  register_then_ok ti (ok c) next r r' e = (c, refl, e)
  register_then_ok ti (throws x) next r r' e = absurd (ground (arith, ap (λ o. o.0) e))
  register_then_ok ti undefined next r r' e = absurd (ground (arith, ap (λ o. o.0) e))

  -- An item that is picked: what it adds, and what the items behind it then do.
  register_items_picked :
      (name : Bytes) (content : J) (rest : List (Bytes × J)) (tj : ℕ) (read : J → Outcome Component)
      (r r' : Registry Component S)
      → pick name (branches j now templates) ≡ some (tj, read)
      → register_items j now entity templates ((name, content) ∷ rest) r ≡ (ok tt, r')
      → (c : Component) × (type_of c ≡ tj)
        × (register_items j now entity templates rest
              (add_component tj entity c (register_component tj r))
            ≡ (ok tt, r'))
  unfolding register_items
  register_items_picked name content rest tj read r r' picked e =
      let (c, was_read, later) =
        register_then_ok tj (read content) (register_items j now entity templates rest) r r'
          (rw (picked, register_items) at e) in
      let yields =
        pick-Yields name (branches j now templates) tj read (branches-AllYield j now templates)
          picked in
      (c, yields content c was_read, later)

  register_items_unpicked :
      (name : Bytes) (content : J) (rest : List (Bytes × J)) (r r' : Registry Component S)
      → pick name (branches j now templates) ≡ none
      → register_items j now entity templates ((name, content) ∷ rest) r ≡ (ok tt, r')
      → register_items j now entity templates rest r ≡ (ok tt, r')
  unfolding register_items
  register_items_unpicked name content rest r r' e done = rw (e, register_items) at done

  register_items-HasOwn :
      (ti : ℕ) (items : List (Bytes × J)) (r r' : Registry Component S)
      → HasOwn ti r
      → register_items j now entity templates items r ≡ (ok tt, r')
      → HasOwn ti r'
  unfolding register_items
  register_items-HasOwn ti [] r r' has e = subst (HasOwn ti) (ap (λ o. o.1) e) has
  register_items-HasOwn ti ((name, content) ∷ rest) r r' has e =
      elim (Option-cases (pick name (branches j now templates))) [
        | inl p ↦
            register_items-HasOwn ti rest r r' has
              (register_items_unpicked name content rest r r' p e)
        | inr ((tj, read), p) ↦
            let (c, own, later) = register_items_picked name content rest tj read r r' p e in
            register_items-HasOwn ti rest (add_component tj entity c (register_component tj r)) r'
              (add_component-HasOwn ti tj c r own has) later
      ]

  register_items_reaches :
      (ti : ℕ) (name : Bytes) (content : J) (before after : List (Bytes × J))
      (r r' : Registry Component S)
      → lookup name component_names ≡ some ti
      → register_items j now entity templates (before ++ (name, content) ∷ after) r ≡ (ok tt, r')
      → HasOwn ti r'
  register_items_reaches ti name content [] after r r' known e =
      let (read, p) =
        pick-lookup name (branches j now templates) ti
          (ap (lookup name) (branches-heads j now templates) ∙ known) in
      let (c, own, later) = register_items_picked name content after ti read r r' p e in
      register_items-HasOwn ti after (add_component ti entity c (register_component ti r)) r'
        (add_component_own ti c r own) later
  register_items_reaches ti name content ((other, value) ∷ before) after r r' known e =
      let items = before ++ (name, content) ∷ after in
      elim (Option-cases (pick other (branches j now templates))) [
        | inl p ↦
            register_items_reaches ti name content before after r r' known
              (register_items_unpicked other value items r r' p e)
        | inr ((tj, read), p) ↦
            let (c, own, later) = register_items_picked other value items tj read r r' p e in
            register_items_reaches ti name content before after
              (add_component tj entity c (register_component tj r)) r' known later
      ]

  -- Where `RegistryEntityByTemplate` returns: each component of the template whose name is one of those in
  -- `component_names`, wherever it stands in the template, has given the entity a component in the array
  -- of the type of that name, and the component is of that type.
  pub registry_entity_by_json-component :
      (ti : ℕ) (name : Bytes) (content template_json : J) (before after : List (Bytes × J))
      (r r' : Registry Component S)
      → lookup name component_names ≡ some ti
      → j.items template_json ≡ before ++ (name, content) ∷ after
      → registry_entity_by_json j now entity template_json templates r ≡ (ok tt, r')
      → (c : Component) × (component ti entity r' ≡ some c) × (type_of c ≡ ti)
  unfolding registry_entity_by_json
  registry_entity_by_json-component ti name content template_json before after r r' known items e =
      register_items_reaches ti name content before after r r' known
        (ap (λ is. register_items j now entity templates is r) (sym items) ∙ e)
