-- ===== src/Server/Client.antt =====
-- Server/Client/Client.hpp and Client.cpp. Time is an argument, in nanoseconds of the steady clock. An
-- address is what `toString` and `getIp` find for it. The queues are those of Network/PacketQueue.hpp.
pub mod History
pub mod Tests
pub use History.{add_packet_to_history_recent}
use flakkari.Prelude.{
  ℕ, ◌+◌, ◌-◌, ◌*◌, ◌/◌, ◌%◌, ◌^◌, ◌≤◌, ◌<◌, ◌≡◌, [], ◌∷◌, ◌++◌, List, Bool, true, false, Option,
  none, some, Bytes, ltb, leb, if◌then◌else◌, ◌||◌, not, ◌&&◌, arith,
}
use flakkari.Network.PacketQueue.{push_back}
use flakkari.Protocol.Packet.{Packet}
use History.{add_packet_to_history}

pub record Address : Type 0 where
  pub text : Option Bytes
  pub ip : Option Bytes

-- `value_or("")`
abbrev pub or_empty : Option Bytes → Bytes
or_empty none = []
or_empty (some s) = s

pub record Client : Type 0 where
  pub last_activity : ℕ
  pub address : Address
  pub entity : ℕ
  pub scene_name : Bytes
  pub game_name : Bytes
  pub connected : Bool
  pub name : Bytes
  pub api_version : ℕ
  pub warning_count : ℕ
  pub max_warning_count : ℕ
  pub max_packet_history : ℕ
  pub packet_history : List Bytes
  pub send_queue : List Packet
  pub receive_queue : List Packet

-- The constructor.
unfoldable pub new_client : Address → Bytes → ℕ → ℕ → Client
new_client address name api_version now = record {
  last_activity = now;
  address = address;
  entity = 0;
  scene_name = [];
  game_name = name;
  connected = true;
  name = or_empty (address.text);
  api_version = api_version;
  warning_count = 0;
  max_warning_count = 5;
  max_packet_history = 10;
  packet_history = [];
  send_queue = [];
  receive_queue = [];
}

abbrev pub second : ℕ
second = 1_000_000_000

-- `isConnected`, with its default timeout of 5 seconds; the duration is cut to whole seconds.
unfoldable pub is_connected : ℕ → Client → Bool
is_connected now c = c.connected && ltb ((now - c.last_activity) / second) 5

unfoldable pub keep_alive : ℕ → Client → Client
keep_alive now c = record c { last_activity = now }

unfoldable pub add_to_history : Bytes → Client → Client
add_to_history packet c = record c {
  packet_history = add_packet_to_history c.max_packet_history packet c.packet_history;
}

-- `incrementWarningCount`: an unsigned short.
unfoldable pub increment_warning_count : Client → Client × Bool
increment_warning_count c =
    let n = (c.warning_count + 1) % 2 ^ 16 in
    (record c { warning_count = n }, leb c.max_warning_count n)

unfoldable pub add_packet_to_receive_queue : Packet → Client → Client
add_packet_to_receive_queue p c = record c {
  api_version = p.api_version;
  receive_queue = push_back p c.receive_queue;
}

unfoldable pub add_packet_to_send_queue : Packet → Client → Client
add_packet_to_send_queue p c = record c {
  api_version = p.api_version;
  send_queue = push_back p c.send_queue;
}

-- A client whose activity was last noted at a time counts as connected for five seconds and no longer, and
-- not at all once it is marked as disconnected.
pub is_connected-keep_alive :
    (c : Client) (t now : ℕ)
    → is_connected now (keep_alive t c) ≡ (c.connected && ltb now (t + 5 * second))
unfolding is_connected keep_alive
is_connected-keep_alive c t now = ground arith
