-- ===== src/Server/Game/Events/Tests.antt =====
-- Server/Game/Game.cpp: examples of events.
use flakkari.Prelude.{
  refl, arith, ℕ, ◌+◌, ◌*◌, ◌-◌, ◌/◌, ◌≡◌, ◌≤◌, ◌<◌, ◌⊎◌, [], ◌∷◌, true, ◌==◌, ok, undefined,
  from_le, Bytes,
}
use flakkari.Math.Arithmetic.{Arithmetic}
use flakkari.Ecs.Component.{Control, Vector3}
use flakkari.Server.Game.Floats.{Floats}
use flakkari.Protocol.Commands.{req_heartbeat}
use flakkari.Protocol.Packet.{new_packet}
use flakkari.Server.Client.{Client, is_connected, new_client}
use flakkari.Server.Client.Tests.{client}
use flakkari.Server.Game.Membership.{Room}
use flakkari.Server.Game.Events.Heartbeat.{reply_to, update_incoming_packets_heartbeats}
use flakkari.Server.Game.Events.{Motion, run_events, update_incoming_packets}
use flakkari.Server.Game.Events.Reading.{run_events_reads}

-- A way to compute, for the examples.
abbrev pub whole : Arithmetic ℕ
whole = record {
  zero = 0;
  one = 1;
  add = λ x y. x + y;
  sub = λ x y. x - y;
  mul = λ x y. x * y;
  div = λ x y. x / y;
  sqrt = λ x. x;
  sin = λ x. x;
  cos = λ x. x;
  equal = λ x y. x == y;
  half_radians = λ x. x;
}

abbrev pub numbers : Floats
numbers = record {
  doubles = whole;
  to_float = λ x. x;
  to_double = λ x. x;
  multiply = λ x y. x * y;
  negate = λ x. x;
}

abbrev nowhere : Vector3
nowhere = record { x = 0; y = 0; z = 0 }

abbrev pub still : Motion
still = record {
  vel = record { velocity = nowhere; acceleration = nowhere; min_speed = 0; max_speed = 9 };
  pos = record {
    position = nowhere;
    rotation = record { x = 0; y = 0; z = 0; w = 0 };
    scale = nowhere;
  };
  heap = [];
}

abbrev pub any_move : Control
any_move = record {
  move_up = true;
  move_down = true;
  move_left = true;
  move_right = true;
  move_front = true;
  move_back = true;
  look_up = true;
  look_down = true;
  look_left = true;
  look_right = true;
  shoot = true;
}

-- One event, and no axis events.
abbrev pub forward : Bytes
forward = 1 ∷ 0 ∷ 4 ∷ 0 ∷ 0 ∷ 0 ∷ []

run_events_reads_test :
    ((4 + 1 * 2 + 0 * 5 ≤ 6)
      × ((m' : Motion) × (run_events numbers 5 0 [] any_move forward still ≡ ok m')))
    ⊎ ((6 < 4 + 1 * 2 + 0 * 5) × (run_events numbers 5 0 [] any_move forward still ≡ undefined))
unfolding from_le
run_events_reads_test = run_events_reads numbers 5 0 [] any_move forward still

-- A client to whom a heartbeat has come.
abbrev beating : Client
beating = record client { receive_queue = new_packet req_heartbeat 4 ∷ [] }

abbrev beaten : Room
beaten = record {
  heap = beating ∷ [];
  game = record {
    name = [];
    config = record {
      title = [];
      start_game = [];
      player_template = [];
      online = true;
      lobby = [];
      min_players = 1;
      max_players = 2;
      max_instances = 2;
      scenes = [];
    };
    running = true;
    players = 0 ∷ [];
    scene_map = [];
  };
  templates = [];
}

update_incoming_packets_heartbeats_test :
    (c' : Client) × (update_incoming_packets numbers 5 100 (0 ∷ []) beaten
      ≡ ok (record beaten { heap = c' ∷ [] }))
    × (c'.receive_queue ≡ [])
    × (c'.send_queue ≡ reply_to 5 (new_packet req_heartbeat 4) ∷ [])
unfolding is_connected new_client new_packet
update_incoming_packets_heartbeats_test =
    update_incoming_packets_heartbeats numbers 5 0 100 beating beaten refl refl (refl, tt)
      (omega arith)
