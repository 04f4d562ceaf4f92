-- ===== src/Server/ResourceManager.antt =====
-- Server/Game/ResourceManager.cpp: the templates of each scene of each game. `T` is a template (a JSON
-- value), and `null` the JSON value that a missing key makes.
use flakkari.Prelude.{
  ◌≡◌, refl, List, [], ◌∷◌, Option, none, some, Bytes, text_eq, text_eq_refl, text_eq_iff, Dict,
  lookup, insert, erase, lookup-insert, get_default, if◌then◌else◌, arith,
}

abbrev pub Templates : Type 0 → Type 0
Templates T = Dict (Dict (Dict T))

module _ {T : Type 0} where
  -- `_templates[game][scene][id] = value`
  pub put_template : Bytes → Bytes → Bytes → T → Templates T → Templates T
  put_template game scene id value ts =
      let scenes = get_default [] game ts in
      let ids = get_default [] scene scenes in
      insert game (insert scene (insert id value ids) scenes) ts

  -- The inner loops of `addScene`: the templates of a scene with the name, under the config's title.
  pub add_templates : Bytes → Bytes → List (Bytes × T) → Templates T → Templates T
  add_templates title scene [] ts = ts
  add_templates title scene ((id, value) ∷ rest) ts =
      add_templates title scene rest (put_template title scene id value ts)

  -- `addScene`, over the scenes of the config and their templates.
  pub add_scene : Bytes → List (Bytes × List (Bytes × T)) → Bytes → Templates T → Templates T
  add_scene title [] scene ts = ts
  add_scene title ((key, templates) ∷ rest) scene ts =
      add_scene title rest scene
        (if text_eq key scene then add_templates title key templates ts else ts)

  -- `getTemplateById`: each `operator[]` makes what is missing.
  pub get_template_by_id : T → Bytes → Bytes → Bytes → Templates T → Option T × Templates T
  get_template_by_id null game scene id ts =
      let value = get_default null id (get_default [] scene (get_default [] game ts)) in
      (some value, put_template game scene id value ts)

  pub delete_scene : Bytes → Bytes → Templates T → Templates T
  delete_scene game scene ts = insert game (erase scene (get_default [] game ts)) ts

  pub delete_game : Bytes → Templates T → Templates T
  delete_game game ts = erase game ts

  -- The template that is stored, if any.
  unfoldable pub stored : Bytes → Bytes → Bytes → Templates T → Option T
  stored game scene id ts = lookup id (get_default [] scene (get_default [] game ts))

  pub stored-put_template :
      (game scene id game' scene' id' : Bytes) (value : T) (ts : Templates T)
      → stored game' scene' id' (put_template game scene id value ts) ≡ (
          if text_eq game game'
          then if text_eq scene scene'
            then if text_eq id id' then some value else stored game scene id' ts
            else stored game scene' id' ts
          else stored game' scene' id' ts)
  unfolding stored put_template
  stored-put_template game scene id game' scene' id' value ts =
      let scenes = get_default [] game ts in
      let ids = get_default [] scene scenes in
      ground (
        arith,
        text_eq_iff game game',
        text_eq_iff scene scene',
        lookup-insert game game' (insert scene (insert id value ids) scenes) ts,
        lookup-insert scene scene' (insert id value ids) scenes,
        lookup-insert id id' value ids,
      )

  -- `getTemplateById` never comes back without a template: for one that is not stored it returns the null
  -- value, which is from then on stored there; for a stored one it returns that one, which stays stored.
  pub get_template_by_id-stored :
      (null : T) (game scene id : Bytes) (ts : Templates T)
      → let (found, ts') = get_template_by_id null game scene id ts in
        let kept : T = elim (stored game scene id ts) [ none ↦ null | some v ↦ v ] in
        (found ≡ some kept) × (stored game scene id ts' ≡ some kept)
  unfolding get_template_by_id stored
  get_template_by_id-stored null game scene id ts =
      let value = get_default null id (get_default [] scene (get_default [] game ts)) in
      (
        refl,
        ground (
          arith,
          stored-put_template game scene id game scene id value ts,
          text_eq_refl game,
          text_eq_refl scene,
          text_eq_refl id,
        ),
      )
