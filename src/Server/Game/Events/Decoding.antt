-- ===== src/Server/Game/Events/Decoding.antt =====
-- Server/Game/Game.cpp: `handleEvents` on the payloads that a client makes (Client/UDPClient.cpp).
use flakkari.Prelude.{
  ℕ, ◌+◌, ◌*◌, ◌^◌, ◌≤◌, ◌<◌, ◌≡◌, refl, sym, ap, ◌∙◌, [], ◌∷◌, ◌++◌, List, Bytes, length, take,
  drop, bytes_le, from_le, length-bytes_le, from_le-bytes_le, length-append, length-drop,
  take-append_of, drop-append_of, append-nil, ok, arith,
}
use native.Mathlib.Nat.{suc-mul}
use flakkari.Ecs.Component.{Control}
use flakkari.Server.Game.Floats.{Floats}
use flakkari.Server.Game.Events.{
  Motion, read_at, event_step, axis_step, events_from, axes_from, run_events,
}
use flakkari.Server.Game.Events.Reading.{drop-drop, read_at_within}

-- The bytes of the events and of the axis events.
abbrev pub event_bytes : List (ℕ × ℕ) → Bytes
event_bytes [] = []
event_bytes ((id, state) ∷ es) = (id ∷ state ∷ []) ++ event_bytes es

abbrev pub axis_bytes : List (ℕ × ℕ) → Bytes
axis_bytes [] = []
axis_bytes ((id, value) ∷ es) = (id ∷ []) ++ (bytes_le 4 value ++ axis_bytes es)

-- Each state of an event, and each value of an axis event, fits its width.
abbrev pub AllBelow : ℕ → List (ℕ × ℕ) → Type 0
AllBelow n [] = Unit {0}
AllBelow n ((id, value) ∷ es) = (value < n) × AllBelow n es

-- What one after the other does.
abbrev pub run_each : (ℕ × ℕ → Motion → Motion) → List (ℕ × ℕ) → Motion → Motion
run_each step [] m = m
run_each step (e ∷ es) m = run_each step es (step e m)

abbrev pub body_of : List (ℕ × ℕ) → List (ℕ × ℕ) → Bytes
body_of events axes =
    bytes_le 2 (length events)
    ++ (event_bytes events ++ (bytes_le 2 (length axes) ++ axis_bytes axes))

pub length-event_bytes : (es : List (ℕ × ℕ)) → length (event_bytes es) ≡ length es * 2
length-event_bytes [] = omega arith
length-event_bytes ((id, state) ∷ es) = omega (arith, length-event_bytes es, suc-mul (length es) 2)

pub length-axis_bytes : (es : List (ℕ × ℕ)) → length (axis_bytes es) ≡ length es * 5
length-axis_bytes [] = omega arith
length-axis_bytes ((id, value) ∷ es) = omega (
  arith,
  length-axis_bytes es,
  suc-mul (length es) 5,
  length-append (bytes_le 4 value) (axis_bytes es),
  length-bytes_le 4 value,
)

-- A payload that goes on with `xs ++ rest` from an offset: what is read, and how it goes on.
read_at_front :
    (i : ℕ) (b xs rest : Bytes)
    → i ≤ length b
    → drop i b ≡ xs ++ rest
    → (read_at (length xs) i b ≡ ok xs)
      × (drop (i + length xs) b ≡ rest)
      × (i + length xs ≤ length b)
read_at_front i b xs rest h e =
    let fits : i + length xs ≤ length b =
      omega (arith, length-drop i b, ap length e, length-append xs rest) in
    (
      read_at_within (length xs) i b fits
          ∙ ap ok (ap (take (length xs)) e ∙ take-append_of (length xs) xs rest refl),
      drop-drop i (length xs) b ∙ ap (drop (length xs)) e ∙ drop-append_of (length xs) xs rest refl,
      fits,
    )

module _ (f : Floats) (now p : ℕ) (players : List ℕ) (ctrl : Control) where
  events_from-event_bytes :
      (es : List (ℕ × ℕ)) (i : ℕ) (b rest : Bytes) (m : Motion)
      → i ≤ length b
      → drop i b ≡ event_bytes es ++ rest
      → events_from f now p players ctrl (length es) i b m
        ≡ ok (run_each (event_step f now p players ctrl) es m)
  unfolding events_from from_le
  events_from-event_bytes [] i b rest m h e = refl
  events_from-event_bytes ((id, state) ∷ es) i b rest m h e =
      let (r, d, l) = read_at_front i b (id ∷ state ∷ []) (event_bytes es ++ rest) h e in
      let z : (n : ℕ) → n + 0 ≡ n = λ n. omega arith in
      rw (r, z id, z state)
        (events_from-event_bytes es (i + 2) b rest (event_step f now p players ctrl (id, state) m) l
          d)

  axes_from-axis_bytes :
      (es : List (ℕ × ℕ)) (i : ℕ) (b rest : Bytes) (m : Motion)
      → AllBelow (2 ^ 32) es
      → i ≤ length b
      → drop i b ≡ axis_bytes es ++ rest
      → axes_from f now p players ctrl (length es) i b m
        ≡ ok (run_each (axis_step f now p players ctrl) es m)
  unfolding axes_from from_le bytes_le
  axes_from-axis_bytes [] i b rest m a h e = refl
  axes_from-axis_bytes ((id, value) ∷ es) i b rest m (a, below) h e =
      let (r, d, l) = read_at_front i b (id ∷ bytes_le 4 value) (axis_bytes es ++ rest) h e in
      let z : (n : ℕ) → n + 0 ≡ n = λ n. omega arith in
      rw (r, z id)
        (ap
            (λ v.
              axes_from f now p players ctrl (length es) (i + 5) b
                (axis_step f now p players ctrl (id, v) m))
            (from_le-bytes_le 4 value a)
          ∙ axes_from-axis_bytes es (i + 5) b rest (axis_step f now p players ctrl (id, value) m)
              below l d)

  -- On the body made from events and axis events, whose counts fit 16 bits and whose values 32,
  -- `handleEvents` does what each event asks for in turn, and then what each axis event asks for.
  pub run_events-body_of :
      (events axes : List (ℕ × ℕ)) (m : Motion)
      → length events < 2 ^ 16
      → length axes < 2 ^ 16
      → AllBelow (2 ^ 32) axes
      → run_events f now p players ctrl (body_of events axes) m
        ≡ ok (
            run_each
              (axis_step f now p players ctrl)
              axes
              (run_each (event_step f now p players ctrl) events m))
  unfolding run_events bytes_le
  run_events-body_of events axes m few_events few_axes below =
      let b = body_of events axes in
      let counts = bytes_le 2 (length axes) in
      let tail = event_bytes events ++ (counts ++ axis_bytes axes) in
      let (r₁, d₁, l₁) = read_at_front 0 b (bytes_le 2 (length events)) tail (omega arith) refl in
      let o : 2 + length (event_bytes events) ≡ 2 + length events * 2 =
        omega (arith, length-event_bytes events) in
      let (_, d₂, l₂) = read_at_front 2 b (event_bytes events) (counts ++ axis_bytes axes) l₁ d₁ in
      let (r₃, d₃, l₃) =
        read_at_front (2 + length events * 2) b counts (axis_bytes axes) (omega arith)
          (ap (λ k. drop k b) (sym o) ∙ d₂) in
      rw
        (
          r₁,
          from_le-bytes_le 2 (length events) few_events,
          r₃,
          events_from-event_bytes events 2 b _ m l₁ d₁,
          from_le-bytes_le 2 (length axes) few_axes,
        )
        (axes_from-axis_bytes axes (2 + length events * 2 + 2) b [] _ below l₃
          (d₃ ∙ sym (append-nil (axis_bytes axes))))
