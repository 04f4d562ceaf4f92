-- ===== src/Protocol/Packet/Tests.antt =====
-- Protocol/Packet.hpp: examples.
use flakkari.Prelude.{◌≡◌, refl, [], ◌∷◌, ◌++◌, true, ok, arith}
use flakkari.Protocol.Commands.{req_connect, rep_connect}
use flakkari.Protocol.Packet.{
  Packet, new_packet, put, get, inject_string, extract_string, serialize, deserialize,
}
use flakkari.Protocol.Packet.Codec.{IsValid, Reads, deserialize-serialize, deserialize-Reads}
use flakkari.Protocol.Packet.Strings.{read_reply, read_reply-inject_string}
use flakkari.Protocol.Packet.Counting.{IsCounted, LeavesCounted, packet_operations-IsCounted}

-- A request to connect to the game "ab".
abbrev pub request : Packet
request = record {
  header = record {
    priority = 0;
    api_version = 1;
    command_id = req_connect;
    content_length = 6;
    sequence_number = 1_700_000_000_000;
  };
  payload = 2 ∷ 0 ∷ 0 ∷ 0 ∷ 97 ∷ 98 ∷ [];
}

pub request-IsValid : IsValid request
request-IsValid = record {
  priority_lt = omega arith;
  version_lt = omega arith;
  command_lt = omega arith;
  counted = refl;
  length_lt = omega arith;
  sequence_lt = omega arith;
}

deserialize-serialize_example :
    deserialize (new_packet 0 5) (serialize request ++ 9 ∷ 9 ∷ []) ≡ ok (request, true)
deserialize-serialize_example =
    deserialize-serialize request (new_packet 0 5) (9 ∷ 9 ∷ []) request-IsValid

deserialize-Reads_example :
    Reads [] (17 ∷ 3 ∷ 0 ∷ []) (deserialize (new_packet 0 5) (17 ∷ 3 ∷ 0 ∷ []))
unfolding new_packet
deserialize-Reads_example =
    deserialize-Reads (new_packet 0 5) (17 ∷ 3 ∷ 0 ∷ [])
      (omega arith, (omega arith, (omega arith, tt)))

read_reply-inject_string_example :
    read_reply 2 (
      inject_string
        (inject_string (put (new_packet rep_connect 5) (7 ∷ 0 ∷ [])) (97 ∷ []))
        (98 ∷ 99 ∷ []))
    ≡ ok (7 ∷ 0 ∷ [], 97 ∷ [], 98 ∷ 99 ∷ [], new_packet rep_connect 5)
read_reply-inject_string_example =
    read_reply-inject_string rep_connect 5 (7 ∷ 0 ∷ []) (97 ∷ []) (98 ∷ 99 ∷ []) (omega arith)
      (omega arith)

packet_operations-IsCounted_test :
    IsCounted (put request (1 ∷ []))
    × IsCounted (inject_string request (1 ∷ []))
    × LeavesCounted (get request 4)
    × LeavesCounted (extract_string request)
packet_operations-IsCounted_test = packet_operations-IsCounted request (1 ∷ []) 4 refl
