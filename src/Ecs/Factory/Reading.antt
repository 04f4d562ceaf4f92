-- ===== src/Ecs/Factory/Reading.antt =====
-- Engine/EntityComponentSystem/Factory.cpp: reading a template. The JSON values are those of the nlohmann
-- library; what the code calls of it is an interface.
use flakkari.Prelude.{
  ℕ, List, [], ◌∷◌, Bool, Bytes, codes, text_eq, Outcome, ok, throws, runtime_error, ◌>>=◌,
  if◌then◌else◌,
}
use flakkari.Ecs.Component.{
  Component, Vector2, Vector3, Vector4, child, evolve, health, level, parent, tag, template, timer,
  weapon, transform_2d, movable_2d, control_2d, collider, rigid_body_2d, transform, movable,
  control, box_collider, sphere_collider, rigid_body, spawned,
}

-- `items` gives the keys and values of an object, `operator[]` the value of a key; the conversions throw
-- where the value has another type. `one` is 1.0 as a double.
pub record Json (J : Type 0) : Type 0 where
  pub items : J → List (Bytes × J)
  pub begin_item : J → Outcome (Bytes × J)
  pub field : J → Bytes → Outcome J
  pub to_float : J → Outcome ℕ
  pub to_double : J → Outcome ℕ
  pub to_size : J → Outcome ℕ
  pub to_bool : J → Outcome Bool
  pub to_text : J → Outcome Bytes
  pub one : ℕ

module _ {J : Type 0} (j : Json J) where
  abbrev float_at : Bytes → J → Outcome ℕ
  float_at key content = j.field content key >>= j.to_float

  abbrev size_at : Bytes → J → Outcome ℕ
  size_at key content = j.field content key >>= j.to_size

  abbrev bool_at : Bytes → J → Outcome Bool
  bool_at key content = j.field content key >>= j.to_bool

  abbrev text_at : Bytes → J → Outcome Bytes
  text_at key content = j.field content key >>= j.to_text

  -- `Vector2f(content[key]["x"], content[key]["y"])`, and the same with three coordinates.
  abbrev vector2_at : Bytes → J → Outcome Vector2
  vector2_at key content = do
    vx ← j.field content key >>= float_at (codes "x")
    vy ← j.field content key >>= float_at (codes "y")
    ok (record { x = vx; y = vy })

  abbrev vector3_at : Bytes → J → Outcome Vector3
  vector3_at key content = do
    vx ← j.field content key >>= float_at (codes "x")
    vy ← j.field content key >>= float_at (codes "y")
    vz ← j.field content key >>= float_at (codes "z")
    ok (record { x = vx; y = vy; z = vz })

  abbrev double_at : Bytes → J → Outcome ℕ
  double_at key content = j.field content key >>= j.to_double

  abbrev vector3d_at : Bytes → J → Outcome Vector4
  vector3d_at key content = do
    vx ← j.field content key >>= double_at (codes "x")
    vy ← j.field content key >>= double_at (codes "y")
    vz ← j.field content key >>= double_at (codes "z")
    ok (record { x = vx; y = vy; z = vz; w = j.one })

  -- The loop of `getTemplateByName`.
  pub find_template : List (Bytes × J) → Bytes → Outcome J
  find_template [] name = throws runtime_error
  find_template ((index, value) ∷ rest) name =
      let later = find_template rest name in
      j.begin_item value >>= λ item. if text_eq item.0 name then ok item.1 else later

  pub get_template_by_name : J → Bytes → Outcome J
  get_template_by_name templates name = find_template (j.items templates) name

  -- "Collider"
  unfoldable pub read_collider : J → Outcome Component
  read_collider content = do size ← vector2_at (codes "size") content; ok (collider size)

  -- "Control"
  unfoldable pub read_control_2d : J → Outcome Component
  read_control_2d content = do
    up ← bool_at (codes "up") content
    down ← bool_at (codes "down") content
    left ← bool_at (codes "left") content
    right ← bool_at (codes "right") content
    shoot ← bool_at (codes "shoot") content
    ok (control_2d up down left right shoot)

  -- "Movable"
  unfoldable pub read_movable_2d : J → Outcome Component
  read_movable_2d content = do
    velocity ← vector2_at (codes "velocity") content
    acceleration ← vector2_at (codes "acceleration") content
    ok (movable_2d velocity acceleration)

  -- "RigidBody", the first time
  unfoldable pub read_rigid_body_2d : J → Outcome Component
  read_rigid_body_2d content = do
    mass ← float_at (codes "mass") content
    restitution ← float_at (codes "restitution") content
    friction ← float_at (codes "friction") content
    gravity_scale ← float_at (codes "gravityScale") content
    is_gravity_affected ← bool_at (codes "isGravityAffected") content
    is_kinematic ← bool_at (codes "isKinematic") content
    ok (rigid_body_2d mass restitution friction gravity_scale is_gravity_affected is_kinematic)

  -- "Transform"
  unfoldable pub read_transform_2d : J → Outcome Component
  read_transform_2d content = do
    position ← vector2_at (codes "position") content
    rotation ← float_at (codes "rotation") content
    scale ← vector2_at (codes "scale") content
    ok (transform_2d position rotation scale)

  -- "BoxCollider"
  unfoldable pub read_box_collider : J → Outcome Component
  read_box_collider content = do
    size ← vector3_at (codes "size") content
    center ← vector3_at (codes "center") content
    ok (box_collider size center)

  -- "3D_Control"
  unfoldable pub read_control : J → Outcome Component
  read_control content = do
    b_move_up ← bool_at (codes "move_up") content
    b_move_down ← bool_at (codes "move_down") content
    b_move_left ← bool_at (codes "move_left") content
    b_move_right ← bool_at (codes "move_right") content
    b_move_front ← bool_at (codes "move_front") content
    b_move_back ← bool_at (codes "move_back") content
    b_look_up ← bool_at (codes "look_up") content
    b_look_down ← bool_at (codes "look_down") content
    b_look_left ← bool_at (codes "look_left") content
    b_look_right ← bool_at (codes "look_right") content
    b_shoot ← bool_at (codes "shoot") content
    ok (
        control (record {
          move_up = b_move_up;
          move_down = b_move_down;
          move_left = b_move_left;
          move_right = b_move_right;
          move_front = b_move_front;
          move_back = b_move_back;
          look_up = b_look_up;
          look_down = b_look_down;
          look_left = b_look_left;
          look_right = b_look_right;
          shoot = b_shoot;
        }))

  -- "3D_Movable"
  unfoldable pub read_movable : J → Outcome Component
  read_movable content = do
    v ← vector3_at (codes "velocity") content
    a ← vector3_at (codes "acceleration") content
    low ← float_at (codes "minSpeed") content
    high ← float_at (codes "maxSpeed") content
    ok (movable (record { velocity = v; acceleration = a; min_speed = low; max_speed = high }))

  -- "RigidBody", the second time
  unfoldable pub read_rigid_body : J → Outcome Component
  read_rigid_body content = do
    mass ← float_at (codes "mass") content
    drag ← float_at (codes "drag") content
    angular_drag ← float_at (codes "angularDrag") content
    use_gravity ← bool_at (codes "useGravity") content
    is_kinematic ← bool_at (codes "isKinematic") content
    ok (rigid_body mass drag angular_drag use_gravity is_kinematic)

  -- "SphereCollider"
  unfoldable pub read_sphere_collider : J → Outcome Component
  read_sphere_collider content = do
    center ← vector3_at (codes "center") content
    radius ← float_at (codes "radius") content
    ok (sphere_collider center radius)

  -- "3D_Transform". The rotation has doubles, and 1 as its last coordinate.
  unfoldable pub read_transform : J → Outcome Component
  read_transform content = do
    p ← vector3_at (codes "position") content
    q ← vector3d_at (codes "rotation") content
    s ← vector3_at (codes "scale") content
    ok (transform (record { position = p; scale = s; rotation = q }))

  -- "Child"
  unfoldable pub read_child : J → Outcome Component
  read_child content = do name ← j.to_text content; ok (child name)

  -- "Evolve"
  unfoldable pub read_evolve : J → Outcome Component
  read_evolve content = do name ← j.to_text content; ok (evolve name)

  -- "Health"
  unfoldable pub read_health : J → Outcome Component
  read_health content = do
    max_health ← size_at (codes "maxHealth") content
    current_health ← size_at (codes "currentHealth") content
    max_shield ← size_at (codes "maxShield") content
    shield ← size_at (codes "shield") content
    ok (health current_health max_health shield max_shield)

  -- "Parent"
  unfoldable pub read_parent : J → Outcome Component
  read_parent content = do entity ← j.to_size content; ok (parent entity)

  -- "Level"
  unfoldable pub read_level : J → Outcome Component
  read_level content = do
    number ← size_at (codes "level") content
    current_exp ← size_at (codes "currentExp") content
    required_exp ← size_at (codes "requiredExp") content
    weapon_name ← text_at (codes "currentWeapon") content
    ok (level number weapon_name current_exp required_exp)

  -- "Spawned"
  unfoldable pub read_spawned : J → Outcome Component
  read_spawned content = do has_spawned ← j.to_bool content; ok (spawned has_spawned)

  -- "Tag"
  unfoldable pub read_tag : J → Outcome Component
  read_tag content = do name ← j.to_text content; ok (tag name)

  -- "Template", with the name twice read; the content that is found is not kept here.
  unfoldable pub read_template : J → J → Outcome Component
  read_template templates content = do
    name ← j.to_text content
    found ← get_template_by_name templates name
    ok (template name)

  -- "Timer": lastTime is the clock's time.
  unfoldable pub read_timer : ℕ → J → Outcome Component
  read_timer now content = do max_time ← float_at (codes "maxTime") content; ok (timer now max_time)

  -- "Weapon"
  unfoldable pub read_weapon : J → Outcome Component
  read_weapon content = do
    min_damage ← size_at (codes "minDamage") content
    max_damage ← size_at (codes "maxDamage") content
    charge_max_time ← float_at (codes "chargeMaxTime") content
    fire_rate ← float_at (codes "fireRate") content
    number ← size_at (codes "level") content
    ok (weapon min_damage max_damage charge_max_time fire_rate number)
