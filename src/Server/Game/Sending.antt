-- ===== src/Server/Game/Sending.antt =====
-- Server/Game/Game.cpp: whom `sendOnSameScene` reaches.
use flakkari.Prelude.{
  ℕ, ◌≤◌, ◌≡◌, refl, [], ◌∷◌, List, false, not, ◌&&◌, Option, none, some, Bytes, get_elem?,
  get_elem?-set, count-contains_num, contains_num, count, arith, ◌==◌, if◌then◌else◌, Option-cases,
  inl, inr,
}
use flakkari.Protocol.Packet.{Packet}
use flakkari.Server.Client.{Client, add_packet_to_send_queue}
use flakkari.Server.Game.{queue_packet, is_on_scene, send_on_same_scene, send_on_same_scene_except}

-- A client with the packet at the end of its send queue, in its own version.
abbrev pub queued : Packet → Option Client → Option Client
queued packet none = none
queued packet (some c) = some (
    add_packet_to_send_queue
      (record packet { header = record (packet.header) { api_version = c.api_version } }) c)

pub queue_packet_lem :
    (packet : Packet) (p q : ℕ) (heap : List Client)
    → get_elem? (queue_packet packet p heap) q
      ≡ (if p == q then queued packet (get_elem? heap q) else get_elem? heap q)
unfolding queue_packet
queue_packet_lem packet p q heap = elim (Option-cases (get_elem? heap p)) [
  | inl e ↦ ground arith
  | inr (c, e) ↦ ground (
    arith,
    get_elem?-set heap p q c
        (add_packet_to_send_queue
          (record packet { header = record (packet.header) { api_version = c.api_version } }) c)
        e,
  )
]

is_on_scene-queue_packet :
    (now : ℕ) (scene : Bytes) (packet : Packet) (p q : ℕ) (heap : List Client)
    → (p == q) ≡ false
    → is_on_scene now scene (queue_packet packet p heap) q ≡ is_on_scene now scene heap q
unfolding is_on_scene
is_on_scene-queue_packet now scene packet p q heap h =
    ground (arith, queue_packet_lem packet p q heap)

send_reaches :
    (now : ℕ) (scene : Bytes) (packet : Packet) (q : ℕ) (players : List ℕ) (heap : List Client)
    → count q players ≤ 1
    → get_elem? (send_on_same_scene now scene packet players heap) q ≡ (
        if contains_num q players && is_on_scene now scene heap q
        then queued packet (get_elem? heap q)
        else get_elem? heap q)
unfolding send_on_same_scene contains_num count
send_reaches now scene packet q [] heap h = refl
send_reaches now scene packet q (p ∷ ps) heap h = ground (
  arith,
  send_reaches now scene packet q ps heap,
  send_reaches now scene packet q ps (queue_packet packet p heap),
  count-contains_num q ps,
  queue_packet_lem packet p q heap,
  is_on_scene-queue_packet now scene packet p q heap,
)

send_except_reaches :
    (now : ℕ) (scene : Bytes) (packet : Packet) (except q : ℕ) (players : List ℕ)
    (heap : List Client)
    → count q players ≤ 1
    → get_elem? (send_on_same_scene_except now scene packet except players heap) q ≡ (
        if contains_num q players && (is_on_scene now scene heap q && not (q == except))
        then queued packet (get_elem? heap q)
        else get_elem? heap q)
unfolding send_on_same_scene_except contains_num count
send_except_reaches now scene packet except q [] heap h = refl
send_except_reaches now scene packet except q (p ∷ ps) heap h = ground (
  arith,
  send_except_reaches now scene packet except q ps heap,
  send_except_reaches now scene packet except q ps (queue_packet packet p heap),
  count-contains_num q ps,
  queue_packet_lem packet p q heap,
  is_on_scene-queue_packet now scene packet p q heap,
)

-- The two sending loops, at a client, when no player is listed twice: every player of the scene that is
-- connected (and is not the one excepted) gets the packet once, in its own version, at the end of its
-- queue, and every other client is as it was.
pub send_on_same_scene_reaches :
    (now : ℕ) (scene : Bytes) (packet : Packet) (except : ℕ) (players : List ℕ) (heap : List Client)
    (q : ℕ)
    → count q players ≤ 1
    → (get_elem? (send_on_same_scene now scene packet players heap) q ≡ (
        if contains_num q players && is_on_scene now scene heap q
        then queued packet (get_elem? heap q)
        else get_elem? heap q))
      × (get_elem? (send_on_same_scene_except now scene packet except players heap) q ≡ (
          if contains_num q players && (is_on_scene now scene heap q && not (q == except))
          then queued packet (get_elem? heap q)
          else get_elem? heap q))
send_on_same_scene_reaches now scene packet except players heap q h = (
  send_reaches now scene packet q players heap h,
  send_except_reaches now scene packet except q players heap h,
)
