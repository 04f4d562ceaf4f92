-- ===== src/Protocol/PacketFactory/Tests.antt =====
-- Protocol/Engine/PacketFactory.hpp: an example.
use flakkari.Prelude.{ℕ, ◌≡◌, refl, [], ◌∷◌, ◌++◌, some, bytes_le}
use flakkari.Ecs.Component.{Component, tag, tag_type}
use flakkari.Ecs.Registry.{Registry, component}
use flakkari.Protocol.Packet.{put}
use flakkari.Protocol.Packet.Tests.{request}
use flakkari.Protocol.Packet.Counting.{IsCounted}
use flakkari.Protocol.PacketFactory.{
  add_components_to_packet_by_entity, add_update_movement_to_packet,
}
use flakkari.Protocol.PacketFactory.Payload.{packet_types, sections, add_components-sections}

abbrev registry : Registry Component ℕ
registry = record {
  components = (tag_type, some (tag (97 ∷ [])) ∷ []) ∷ [];
  erase_functions = tag_type ∷ [];
  systems = [];
  dead_entities = [];
  next_entity = 1;
}

add_components-sections_example :
    let (p, r) = add_components_to_packet_by_entity (λ d. d) (request, registry) 0 in
    (p.payload ≡ request.payload ++ sections (λ d. d) packet_types registry 0)
    × IsCounted p
    × (component tag_type 0 r ≡ component tag_type 0 registry)
add_components-sections_example =
    add_components-sections (λ d. d) request registry 0 tag_type 0 refl

-- Eight bytes of the entity, then nine floats of four.
update_movement_test :
    (add_update_movement_to_packet request 3
      (record { x = 1; y = 2 })
      5
      (record { x = 1; y = 1 })
      (record { x = 7; y = 8 })
      (record { x = 0; y = 9 })).payload
    ≡ request.payload
      ++ (3 ∷ 0 ∷ 0 ∷ 0 ∷ 0 ∷ 0 ∷ 0 ∷ 0 ∷ 1 ∷ 0 ∷ 0 ∷ 0 ∷ 2 ∷ 0 ∷ 0 ∷ 0 ∷ 5 ∷ 0 ∷ 0 ∷ 0 ∷ 1 ∷ 0 ∷ 0
          ∷ 0 ∷ 1 ∷ 0 ∷ 0 ∷ 0 ∷ 7 ∷ 0 ∷ 0 ∷ 0 ∷ 8 ∷ 0 ∷ 0 ∷ 0 ∷ 0 ∷ 0 ∷ 0 ∷ 0 ∷ 9 ∷ 0 ∷ 0 ∷ 0 ∷ [])
unfolding add_update_movement_to_packet put bytes_le
update_movement_test = refl
