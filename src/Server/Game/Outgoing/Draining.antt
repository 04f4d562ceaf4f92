-- ===== src/Server/Game/Outgoing/Draining.antt =====
-- Server/Game/Game.cpp: what a player is sent over several frames.
use flakkari.Prelude.{
  some, set, set-set, set_there, get_elem?, get_elem?-set_there, lt→ltb, if◌then◌else◌, ℕ, zero,
  suc, ◌*◌, ◌≤◌, ◌≡◌, refl, sym, ap, ◌∙◌, [], ◌∷◌, ◌++◌, append_assoc, append-nil, List, Bytes,
  length, take, drop, arith, ltb, true, length-drop,
}
use flakkari.Protocol.Packet.{Packet, serialize}
use flakkari.Server.Client.{Client, Address, is_connected}
use flakkari.Server.ClientManager.{ClientManager, send_packet_to_client}
use flakkari.Server.Game.Outgoing.{drain, send_queued, update_outcoming_packets}

-- Packets one behind the other.
abbrev pub serialize_each : List Packet → Bytes
serialize_each [] = []
serialize_each (p ∷ q) = serialize p ++ serialize_each q

pub drain-eq : (n : ℕ) (q : List Packet) → drain n q ≡ (serialize_each (take n q), drop n q)
unfolding drain
drain-eq zero q = refl
drain-eq (suc n) [] = refl
drain-eq (suc n) (p ∷ q) = ap (λ d. (serialize p ++ d.0, d.1)) (drain-eq n q)

-- Frames of a game with one player, each at its own time.
abbrev pub frames : List ℕ → ℕ → ℕ → ClientManager → ClientManager
frames [] p limit m = m
frames (now ∷ nows) p limit m = frames nows p limit (update_outcoming_packets now limit (p ∷ []) m)

-- The player is connected in each frame.
abbrev pub StaysConnected : List ℕ → Client → Type 0
StaysConnected [] c = Unit {0}
StaysConnected (now ∷ nows) c = (is_connected now c ≡ true) × StaysConnected nows c

abbrev unless_empty : Bytes → List Bytes → List Bytes
unless_empty [] bs = bs
unless_empty (x ∷ b) bs = (x ∷ b) ∷ bs

-- A queue cut into datagrams of up to `limit` packets, one for each frame until nothing is left.
abbrev pub datagrams : List ℕ → ℕ → List Packet → List Bytes
datagrams [] limit q = []
datagrams (now ∷ nows) limit q =
    unless_empty (serialize_each (take limit q)) (datagrams nows limit (drop limit q))

abbrev pub all_to : Address → List Bytes → List (Address × Bytes)
all_to a [] = []
all_to a (b ∷ bs) = (a, b) ∷ all_to a bs

abbrev pub joined : List Bytes → Bytes
joined [] = []
joined (b ∷ bs) = b ++ joined bs

no_packets : (q : List Packet) → length q ≤ 0 → q ≡ []
no_packets [] h = refl
no_packets (p ∷ q) h = absurd (omega arith)

serialize_each-split :
    (n : ℕ) (q : List Packet)
    → serialize_each (take n q) ++ serialize_each (drop n q) ≡ serialize_each q
serialize_each-split zero q = refl
serialize_each-split (suc n) [] = refl
serialize_each-split (suc n) (p ∷ q) =
    append_assoc (serialize p) _ _ ∙ ap (λ b. serialize p ++ b) (serialize_each-split n q)

joined-unless_empty : (b : Bytes) (bs : List Bytes) → joined (unless_empty b bs) ≡ b ++ joined bs
joined-unless_empty [] bs = refl
joined-unless_empty (x ∷ b) bs = refl

joined-datagrams :
    (nows : List ℕ) (limit : ℕ) (q : List Packet)
    → length q ≤ length nows * limit
    → joined (datagrams nows limit q) ≡ serialize_each q
joined-datagrams [] limit q h = ap serialize_each (sym (no_packets q (omega arith)))
joined-datagrams (now ∷ nows) limit q h =
    joined-unless_empty (serialize_each (take limit q)) (datagrams nows limit (drop limit q))
    ∙ ap (λ b. serialize_each (take limit q) ++ b)
        (joined-datagrams nows limit (drop limit q) (ground (arith, length-drop limit q)))
    ∙ serialize_each-split limit q

-- What one frame sends, before what later frames do.
sent_first :
    (a : Address) (b : Bytes) (bs : List Bytes) (m : ClientManager)
    → (if ltb 0 (length b) then send_packet_to_client a b m else m).sent ++ all_to a bs
      ≡ m.sent ++ all_to a (unless_empty b bs)
unfolding send_packet_to_client
sent_first a [] bs m = refl
sent_first a (x ∷ b) bs m =
    let filled : ltb 0 (length (x ∷ b)) ≡ true = lt→ltb _ _ (omega arith) in
    rw filled (append_assoc m.sent ((a, x ∷ b) ∷ []) (all_to a bs))

sent_heap :
    (a : Address) (b : Bytes) (m : ClientManager)
    → (if ltb 0 (length b) then send_packet_to_client a b m else m).heap ≡ m.heap
unfolding send_packet_to_client
sent_heap a b m = ground arith

send_queued_lem :
    (limit p : ℕ) (c : Client) (m : ClientManager) (bs : List Bytes)
    → let m' = send_queued limit p c m in
      (m'.heap ≡ set m.heap p (record c { send_queue = drop limit c.send_queue }))
      × (m'.sent ++ all_to c.address bs
          ≡ m.sent ++ all_to c.address (unless_empty (serialize_each (take limit c.send_queue)) bs))
unfolding send_queued
send_queued_lem limit p c m bs =
    let m₁ : ClientManager = record m {
      heap = set m.heap p (record c { send_queue = drop limit c.send_queue });
    } in
    let b = serialize_each (take limit c.send_queue) in
    rw (drain-eq limit c.send_queue) (sent_heap c.address b m₁, sent_first c.address b bs m₁)

frame_lem :
    (now limit p : ℕ) (c : Client) (m : ClientManager)
    → get_elem? m.heap p ≡ some c
    → is_connected now c ≡ true
    → update_outcoming_packets now limit (p ∷ []) m ≡ send_queued limit p c m
unfolding update_outcoming_packets
frame_lem now limit p c m here on = rw (here, update_outcoming_packets, on) refl

pub one_frame :
    (now limit : ℕ) (c : Client) (m : ClientManager)
    → m.heap ≡ c ∷ []
    → is_connected now c ≡ true
    → update_outcoming_packets now limit (0 ∷ []) m ≡ send_queued limit 0 c m
unfolding update_outcoming_packets
one_frame now limit c m one on = rw (one, on) refl

StaysConnected-queue :
    (nows : List ℕ) (c : Client) (q : List Packet)
    → StaysConnected nows c
    → StaysConnected nows (record c { send_queue = q })
unfolding is_connected
StaysConnected-queue [] c q h = tt
StaysConnected-queue (now ∷ nows) c q (on, h) = (on, StaysConnected-queue nows c q h)

frames-datagrams :
    (nows : List ℕ) (p limit : ℕ) (c : Client) (m : ClientManager)
    → get_elem? m.heap p ≡ some c
    → StaysConnected nows c
    → length c.send_queue ≤ length nows * limit
    → let m' = frames nows p limit m in
      (m'.heap ≡ set m.heap p (record c { send_queue = [] }))
      × (m'.sent ≡ m.sent ++ all_to c.address (datagrams nows limit c.send_queue))
frames-datagrams [] p limit c m here on enough =
    let e : record c { send_queue = [] } ≡ c =
      ap (λ q. record c { send_queue = q }) (sym (no_packets c.send_queue (omega arith))) in
    (sym (ap (set m.heap p) e ∙ set_there m.heap p c here), sym (append-nil m.sent))
frames-datagrams (now ∷ nows) p limit c m here (on, later) enough =
    let rest : Client = record c { send_queue = drop limit c.send_queue } in
    let m' = send_queued limit p c m in
    let (heap, sent) =
      send_queued_lem limit p c m (datagrams nows limit (drop limit c.send_queue)) in
    let there : get_elem? m'.heap p ≡ some rest =
      ap (λ h. get_elem? h p) heap ∙ get_elem?-set_there m.heap p c rest here in
    let (flushed, wired) =
      frames-datagrams nows p limit rest m' there
        (StaysConnected-queue nows c (drop limit c.send_queue) later)
        (ground (arith, length-drop limit c.send_queue)) in
    let empty : Client = record c { send_queue = [] } in
    rw (frames, frame_lem now limit p c m here on)
      (flushed ∙ ap (λ h. set h p empty) heap ∙ set-set m.heap p rest empty, wired ∙ sent)

-- Frames of a game whose only player is connected in each of them, and that together may send as many
-- packets as wait for the player. Behind what was sent before, exactly the waiting packets are sent, all
-- to the player's address, in one datagram a frame of up to `limit` packets until none is left; the
-- datagrams one behind the other are the packets in their order. The queue is left empty, and no other
-- client changes.
pub update_outcoming_packets_flushes :
    (nows : List ℕ) (p limit : ℕ) (c : Client) (m : ClientManager)
    → get_elem? m.heap p ≡ some c
    → StaysConnected nows c
    → length c.send_queue ≤ length nows * limit
    → let m' = frames nows p limit m in
      let bs = datagrams nows limit c.send_queue in
      (m'.heap ≡ set m.heap p (record c { send_queue = [] }))
      × (m'.sent ≡ m.sent ++ all_to c.address bs)
      × (joined bs ≡ serialize_each c.send_queue)
update_outcoming_packets_flushes nows p limit c m here on enough =
    let (heap, sent) = frames-datagrams nows p limit c m here on enough in
    (heap, sent, joined-datagrams nows limit c.send_queue enough)
