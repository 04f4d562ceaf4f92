-- ===== src/Network/Socket/Tests.antt =====
-- Network/Socket.cpp: examples.
use flakkari.Prelude.{ℕ, ◌≡◌, ◌≤◌, length, refl, [], ◌∷◌, true, false, some, none, ok, Bytes, arith}
use flakkari.Network.Address.{Address, Peer, Resolver, udp, ipv4}
use flakkari.Network.Socket.{
  Kernel, Socket, set_blocking, receive_from, receive_batch, or_nonblock, is_nonblocking,
}
use flakkari.Network.Socket.Blocking.{set_blocking-flags}
use flakkari.Network.Socket.Receiving.{sender, receive-serialize}
use flakkari.Protocol.Packet.{serialize, deserialize, new_packet}
use flakkari.Protocol.Packet.Codec.{length-serialize}
use flakkari.Protocol.Packet.Tests.{request, request-IsValid}

-- A system whose state is the flags of its only descriptor, and to which one packet has come.
abbrev peer : Peer
peer = record { family = 2; ip = []; port = 8081 }

abbrev system : Kernel ℕ
system = record {
  socket = λ family socktype protocol w. (some 3, w);
  reuse = λ fd w. (false, w);
  bind = λ fd a w. (false, w);
  listen = λ fd n w. (false, w);
  connect = λ fd a w. (false, w);
  shutdown = λ fd w. (false, w);
  close = λ fd w. (false, w);
  accept = λ fd w. (none, w);
  send = λ fd b flags w. (false, w);
  sendto = λ fd b flags a w. (false, w);
  recv = λ fd flags w. (none, w);
  recvfrom = λ fd flags w. (some (peer, serialize request), w);
  recvmmsg = λ fd n flags w. (some ((peer, serialize request) ∷ []), w);
  get_flags = λ fd w. (some w, w);
  set_flags = λ fd flags w. (false, flags);
}

abbrev nobody : Resolver
nobody = record {
  getaddrinfo = λ node service hints. none;
  gethostbyname = λ name. none;
  name_and_service = λ a. none;
  numeric_host = λ a. none;
  text_of = λ n. [];
}

abbrev local : Address
local = record { addr_info = none; socket_type = udp; ip_type = ipv4 }

abbrev socket : Socket
socket = record { descriptor = some 3; address = some local }

set_blocking-flags_example :
    (system.get_flags (some 3) (set_blocking system true socket 2)).0 ≡ some 2
    × ((system.get_flags (some 3) (set_blocking system false socket 2)).0 ≡ some (or_nonblock 2))
    × (is_nonblocking (or_nonblock 2) ≡ true)
set_blocking-flags_example =
    set_blocking-flags system socket 2 2 (record { writing = λ old new w e d. refl }) refl

request-fits : length (serialize request) ≤ 4096
request-fits = rw (length-serialize request) (omega arith)

receive-serialize_example :
    (padded cut : Bytes) × (receive_from system nobody 4096 0 socket 7
      ≡ ok (some (sender system nobody socket local 0 7 peer request request, padded), 7))
    × (receive_batch system nobody 32 0 socket 7
        ≡ ((sender system nobody socket local 0 7 peer request request, cut) ∷ [], 7))
    × (deserialize (new_packet 0 7) padded ≡ ok (request, true))
    × (deserialize (new_packet 0 7) cut ≡ ok (request, true))
receive-serialize_example =
    receive-serialize system nobody socket local 0 7 peer request (new_packet 0 7) 32 7 7
      request-IsValid request-fits refl refl refl refl
