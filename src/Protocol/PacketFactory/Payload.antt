-- ===== src/Protocol/PacketFactory/Payload.antt =====
-- Protocol/Engine/PacketFactory.hpp: what an entity's components add to a packet.
use flakkari.Prelude.{ℕ, ◌≡◌, refl, sym, ◌∙◌, [], ◌∷◌, ◌++◌, append_assoc, append-nil, List, Bytes}
use flakkari.Ecs.Component.{
  Component, child_type, evolve_type, health_type, id_type, level_type, parent_type, tag_type,
  template_type, timer_type, weapon_type, transform_2d_type, movable_2d_type, control_2d_type,
  collider_type, rigid_body_2d_type, transform_type, movable_type, control_type, box_collider_type,
  sphere_collider_type, rigid_body_type,
}
use flakkari.Ecs.Registry.{Registry, touch, component}
use flakkari.Ecs.Registry.Components.{touch_lem}
use flakkari.Protocol.Packet.{Packet}
use flakkari.Protocol.Packet.Counting.{IsCounted}
use flakkari.Protocol.PacketFactory.{write_if, add_each, add_components_to_packet_by_entity}
use flakkari.Protocol.PacketFactory.Layout.{written, write_if-written, write_if-IsCounted}

-- The types in the order of their sections.
abbrev pub packet_types : List ℕ
packet_types =
    child_type ∷ evolve_type ∷ health_type ∷ id_type ∷ level_type ∷ parent_type ∷ tag_type
    ∷ template_type ∷ timer_type ∷ weapon_type ∷ transform_2d_type ∷ movable_2d_type
    ∷ control_2d_type ∷ collider_type ∷ rigid_body_2d_type ∷ transform_type ∷ movable_type
    ∷ control_type ∷ box_collider_type ∷ sphere_collider_type ∷ rigid_body_type ∷ []

module _ (to_float : ℕ → ℕ) where
  module _ {S : Type 0} where
    -- What an entity's components of these types take on the wire.
    abbrev pub sections : List ℕ → Registry Component S → ℕ → Bytes
    sections [] r entity = []
    sections (ti ∷ tis) r entity = written to_float (component ti entity r) ++ sections tis r entity

    sections-touch :
        (tis : List ℕ) (ti i : ℕ) (r : Registry Component S) (entity : ℕ)
        → sections tis (touch ti i r) entity ≡ sections tis r entity
    sections-touch [] ti i r entity = refl
    sections-touch (tj ∷ tis) ti i r entity =
        rw (touch_lem ti tj i entity r, sections-touch tis ti i r entity)

    add_each-sections :
        (tis : List ℕ) (p : Packet) (r : Registry Component S) (entity : ℕ)
        → (add_each to_float tis (p, r) entity).0.payload ≡ p.payload ++ sections tis r entity
    unfolding add_each
    add_each-sections [] p r entity = sym (append-nil p.payload)
    add_each-sections (ti ∷ tis) p r entity =
        add_each-sections tis (write_if to_float p (component ti entity (touch ti entity r)))
          (touch ti entity r) entity
        ∙ rw
            (
              write_if-written to_float p (component ti entity (touch ti entity r)),
              touch_lem ti ti entity entity r,
              sections-touch tis ti entity r entity,
            )
            (append_assoc p.payload _ _)

    add_each-component :
        (tis : List ℕ) (p : Packet) (r : Registry Component S) (entity tj j : ℕ)
        → component tj j (add_each to_float tis (p, r) entity).1 ≡ component tj j r
    unfolding add_each
    add_each-component [] p r entity tj j = refl
    add_each-component (ti ∷ tis) p r entity tj j =
        add_each-component tis (write_if to_float p (component ti entity (touch ti entity r)))
          (touch ti entity r) entity tj j
        ∙ touch_lem ti tj entity j r

    add_each-IsCounted :
        (tis : List ℕ) (p : Packet) (r : Registry Component S) (entity : ℕ)
        → IsCounted p
        → IsCounted (add_each to_float tis (p, r) entity).0
    unfolding add_each
    add_each-IsCounted [] p r entity h = h
    add_each-IsCounted (ti ∷ tis) p r entity h =
        add_each-IsCounted tis _ (touch ti entity r) entity
          (write_if-IsCounted to_float p (component ti entity (touch ti entity r)) h)

    -- Writing an entity into a packet appends the layouts of the components that it has, in the order of
    -- the sections, keeps the length field right, and changes what no entity has.
    pub add_components-sections :
        (p : Packet) (r : Registry Component S) (entity tj j : ℕ)
        → IsCounted p
        → let (p', r') = add_components_to_packet_by_entity to_float (p, r) entity in
          (p'.payload ≡ p.payload ++ sections packet_types r entity)
          × IsCounted p'
          × (component tj j r' ≡ component tj j r)
    unfolding add_components_to_packet_by_entity add_each
    add_components-sections p r entity tj j h = (
      add_each-sections packet_types p r entity,
      add_each-IsCounted packet_types p r entity h,
      add_each-component packet_types p r entity tj j,
    )
