-- ===== src/Client/UdpClient/Requests.antt =====
-- Client/UDPClient.cpp: what the client sends, against what the server makes of it.
use flakkari.Prelude.{
  ℕ, ◌+◌, ◌*◌, ◌%◌, ◌^◌, ◌<◌, ◌≡◌, refl, sym, ap, ◌∙◌, [], ◌∷◌, ◌++◌, append_assoc, append-nil,
  List, true, Bytes, length, bytes_le, length-bytes_le, length-append, ok, arith,
}
use flakkari.Protocol.Commands.{req_user_updates}
use flakkari.Protocol.Packet.{Packet, new_packet, put, serialize, deserialize}
use flakkari.Protocol.Packet.Codec.{IsValid, deserialize-serialize}
use flakkari.Ecs.Component.{Control}
use flakkari.Server.Game.Floats.{Floats}
use flakkari.Server.Game.Events.{Motion, run_events, event_step, axis_step}
use flakkari.Server.Game.Events.Decoding.{
  event_bytes, axis_bytes, AllBelow, run_each, body_of, length-event_bytes, length-axis_bytes,
  run_events-body_of,
}
use flakkari.Client.UdpClient.{put_events, put_axis_events, updates_packet}

-- A packet with another payload, which it counts.
abbrev with_payload : Packet → Bytes → Packet
with_payload p b = record {
  header = record (p.header) { content_length = length b % 2 ^ 16 };
  payload = b;
}

put-with_payload :
    (p : Packet) (b value : Bytes) → put (with_payload p b) value ≡ with_payload p (b ++ value)
unfolding put
put-with_payload p b value =
    let e : (length b % 2 ^ 16 + length value % 2 ^ 16) % 2 ^ 16 ≡ length (b ++ value) % 2 ^ 16 =
      omega (arith, length-append b value) in
    ap (λ n. record { header = record (p.header) { content_length = n }; payload = b ++ value }) e

put_events-with_payload :
    (es : List (ℕ × ℕ)) (p : Packet) (b : Bytes)
    → put_events es (with_payload p b) ≡ with_payload p (b ++ event_bytes es)
unfolding put_events
put_events-with_payload [] p b = ap (with_payload p) (sym (append-nil b))
put_events-with_payload ((id, state) ∷ es) p b =
    ap (put_events es) (put-with_payload p b (id ∷ state ∷ []))
    ∙ put_events-with_payload es p (b ++ id ∷ state ∷ [])
    ∙ ap (with_payload p) (append_assoc b (id ∷ state ∷ []) (event_bytes es))

put_axis_events-with_payload :
    (es : List (ℕ × ℕ)) (p : Packet) (b : Bytes)
    → put_axis_events es (with_payload p b) ≡ with_payload p (b ++ axis_bytes es)
unfolding put_axis_events
put_axis_events-with_payload [] p b = ap (with_payload p) (sym (append-nil b))
put_axis_events-with_payload ((id, value) ∷ es) p b =
    ap (put_axis_events es) (
      ap (λ q. put q (bytes_le 4 value)) (put-with_payload p b (id ∷ []))
      ∙ put-with_payload p (b ++ id ∷ []) (bytes_le 4 value))
    ∙ put_axis_events-with_payload es p ((b ++ id ∷ []) ++ bytes_le 4 value)
    ∙ ap (with_payload p) (
        append_assoc (b ++ id ∷ []) (bytes_le 4 value) (axis_bytes es)
        ∙ append_assoc b (id ∷ []) (bytes_le 4 value ++ axis_bytes es))

-- The request of the client in one piece.
updates : ℕ → List (ℕ × ℕ) → List (ℕ × ℕ) → Packet
updates now events axes = record {
  header = record {
    priority = 2;
    api_version = 1;
    command_id = req_user_updates;
    content_length = length (body_of events axes) % 2 ^ 16;
    sequence_number = now;
  };
  payload = body_of events axes;
}

updates_packet_lem :
    (now : ℕ) (events axes : List (ℕ × ℕ))
    → length events < 2 ^ 16
    → length axes < 2 ^ 16
    → updates_packet now events axes ≡ updates now events axes
unfolding updates_packet updates new_packet
updates_packet_lem now events axes few_events few_axes =
    let q = record (new_packet req_user_updates now) {
      header = record ((new_packet req_user_updates now).header) { priority = 2 };
    } in
    let c₁ = bytes_le 2 (length events % 2 ^ 16) in
    let c₂ = bytes_le 2 (length axes % 2 ^ 16) in
    let small₁ : length events % 2 ^ 16 ≡ length events = omega arith in
    let small₂ : length axes % 2 ^ 16 ≡ length axes = omega arith in
    ap (λ r. put_axis_events axes (put (put_events events r) c₂)) (put-with_payload q [] c₁)
    ∙ ap (λ r. put_axis_events axes (put r c₂)) (put_events-with_payload events q c₁)
    ∙ ap (put_axis_events axes) (put-with_payload q (c₁ ++ event_bytes events) c₂)
    ∙ put_axis_events-with_payload axes q ((c₁ ++ event_bytes events) ++ c₂)
    ∙ ap (with_payload q) (
        append_assoc (c₁ ++ event_bytes events) c₂ (axis_bytes axes)
        ∙ append_assoc c₁ (event_bytes events) (c₂ ++ axis_bytes axes))
    ∙ ap (λ n. with_payload q (bytes_le 2 n ++ (event_bytes events ++ (c₂ ++ axis_bytes axes))))
        small₁
    ∙ ap
        (λ n.
          with_payload q (
            bytes_le 2 (length events)
            ++ (event_bytes events ++ (bytes_le 2 n ++ axis_bytes axes))))
        small₂

length-body_of :
    (events axes : List (ℕ × ℕ))
    → length (body_of events axes) ≡ 4 + length events * 2 + length axes * 5
length-body_of events axes = omega (
  arith,
  length-append (bytes_le 2 (length events))
      (event_bytes events ++ (bytes_le 2 (length axes) ++ axis_bytes axes)),
  length-append (event_bytes events) (bytes_le 2 (length axes) ++ axis_bytes axes),
  length-append (bytes_le 2 (length axes)) (axis_bytes axes),
  length-bytes_le 2 (length events),
  length-bytes_le 2 (length axes),
  length-event_bytes events,
  length-axis_bytes axes,
)

updates-IsValid :
    (now : ℕ) (events axes : List (ℕ × ℕ))
    → now < 2 ^ 64
    → 4 + length events * 2 + length axes * 5 < 2 ^ 16
    → IsValid (updates now events axes)
unfolding updates
updates-IsValid now events axes early short =
    let e = length-body_of events axes in
    record {
      priority_lt = omega arith;
      version_lt = omega arith;
      command_lt = omega arith;
      counted = omega (arith, e);
      length_lt = omega arith;
      sequence_lt = early;
    }

module _ (f : Floats) (p : ℕ) (players : List ℕ) (ctrl : Control) where
  -- The packet that `reqUserUpdates` sends, if its body fits the length field and its values 32 bits, is
  -- read back by the server whatever packet it is read into, as a request with the same updates; and the
  -- server then does what each event asks for, in the order they have, and after them what each axis event
  -- asks for.
  pub run_events-updates_packet :
      (now later : ℕ) (events axes : List (ℕ × ℕ)) (old : Packet) (m : Motion)
      → now < 2 ^ 64
      → 4 + length events * 2 + length axes * 5 < 2 ^ 16
      → AllBelow (2 ^ 32) axes
      → (packet : Packet) × (deserialize old (serialize (updates_packet now events axes))
          ≡ ok (packet, true))
        × (packet.command_id ≡ req_user_updates)
        × (run_events f later p players ctrl packet.payload m
            ≡ ok (
                run_each
                  (axis_step f later p players ctrl)
                  axes
                  (run_each (event_step f later p players ctrl) events m)))
  unfolding updates
  run_events-updates_packet now later events axes old m early short below = (
    updates now events axes,
    ap (λ u. deserialize old (serialize u))
          (updates_packet_lem now events axes (omega arith) (omega arith))
        ∙ ap (deserialize old) (sym (append-nil (serialize (updates now events axes))))
        ∙ deserialize-serialize (updates now events axes) old []
            (updates-IsValid now events axes early short),
    refl,
    run_events-body_of f later p players ctrl events axes m (omega arith) (omega arith) below,
  )
