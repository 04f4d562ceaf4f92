-- ===== src/Network/Socket.antt =====
-- Network/Socket.cpp: a socket, as built for Linux. The system's calls are an interface over the state
-- of the system; a descriptor is none for INVALID_SOCKET. What is logged is left out.
pub mod Receiving
pub mod Blocking
mod Tests
use flakkari.Prelude.{
  ℕ, ◌-◌, ◌+◌, ◌/◌, ◌%◌, [], ◌∷◌, ◌++◌, List, Bytes, Option, none, some, Bool, true, false, not,
  ◌&&◌, Outcome, ok, throws, runtime_error, undefined, if◌then◌else◌, ◌==◌, length, take, replicate,
  Exception,
}
use flakkari.Network.Address.{
  Address, AddrInfo, Peer, Resolver, SocketType, IpType, no_socket_type, tcp, udp, no_ip_type, ipv4,
  ipv6, af_inet, af_inet6, new_address, new_address_storage,
}

-- The system's calls. A Bool is true for a failure, and none is one.
pub record Kernel (W : Type 0) : Type 0 where
  pub socket : ℕ → ℕ → ℕ → W → Option ℕ × W
  pub reuse : Option ℕ → W → Bool × W
  pub bind : Option ℕ → Bytes → W → Bool × W
  pub listen : Option ℕ → ℕ → W → Bool × W
  pub connect : Option ℕ → Bytes → W → Bool × W
  pub shutdown : Option ℕ → W → Bool × W
  pub close : Option ℕ → W → Bool × W
  pub accept : Option ℕ → W → Option (ℕ × Peer) × W
  pub send : Option ℕ → Bytes → ℕ → W → Bool × W
  pub sendto : Option ℕ → Bytes → ℕ → Bytes → W → Bool × W
  -- The next datagram or bytes, of which a call gives as many as its buffer holds.
  pub recv : Option ℕ → ℕ → W → Option Bytes × W
  pub recvfrom : Option ℕ → ℕ → W → Option (Peer × Bytes) × W
  pub recvmmsg : Option ℕ → ℕ → ℕ → W → Option (List (Peer × Bytes)) × W
  -- fcntl with F_GETFL and F_SETFL
  pub get_flags : Option ℕ → W → Option ℕ × W
  pub set_flags : Option ℕ → ℕ → W → Bool × W

-- `_socket` and `_address`
pub record Socket : Type 0 where
  pub descriptor : Option ℕ
  pub address : Option Address

-- A buffer of zeros that a call has written the bytes into.
pub fill : ℕ → Bytes → Bytes
fill size bytes = let kept = take size bytes in kept ++ replicate (size - length kept) 0

pub get_ip_type_from_family : Peer → IpType
get_ip_type_from_family peer =
    if peer.family == af_inet then ipv4 else if peer.family == af_inet6 then ipv6 else no_ip_type

-- `getSocketType` through the pointer to the address.
abbrev pub socket_type_of : Option Address → Outcome SocketType
socket_type_of none = undefined
socket_type_of (some a) = ok a.socket_type

abbrev pub is_tcp : SocketType → Bool
is_tcp tcp = true
is_tcp s = false

-- Whether O_NONBLOCK, one bit, is set in the flags; and `flags | O_NONBLOCK`.
pub is_nonblocking : ℕ → Bool
is_nonblocking flags = (flags / 0x800) % 2 == 1

pub or_nonblock : ℕ → ℕ
or_nonblock flags = if is_nonblocking flags then flags else flags + 0x800

module _ {W : Type 0} (k : Kernel W) where
  abbrev pub Calls : Type 0 → Type 0
  Calls A = W → Outcome (A × W)

  -- A failure is thrown.
  abbrev pub checked : {A : Type 0} → A → Bool × W → Outcome (A × W)
  checked a (true, w) = throws runtime_error
  checked a (false, w) = ok (a, w)

  -- What `socket` made, before and after it is told to reuse its address.
  pub opened : Address → Option ℕ × W → Outcome (Socket × W)
  opened a (none, w) = throws runtime_error
  opened a (some fd, w) =
      checked (record { descriptor = some fd; address = some a }) (k.reuse (some fd) w)

  -- `create` from an address, which may be shared.
  pub create : Address → Calls Socket
  create a w = elim a.addr_info [
    | none ↦ ok (record { descriptor = none; address = some a }, w)
    | some info ↦ opened a (k.socket info.family info.socktype info.protocol w)
  ]

  -- From a descriptor.
  pub create_from : ℕ → Address → Calls Socket
  create_from fd a w =
      checked (record { descriptor = some fd; address = some a }) (k.reuse (some fd) w)

  -- From a name and a port.
  pub create_at : Resolver → Bytes → ℕ → IpType → SocketType → Calls Socket
  create_at res address port t s w = create (new_address res address port s t) w

  -- `bind` and `connect`: without an answer from the resolver nothing is called.
  abbrev on_address : Option Address → (Bytes → W → Bool × W) → Calls (Unit {0})
  on_address none call w = undefined
  on_address (some a) call w = elim a.addr_info [
    | none ↦ ok (tt, w)
    | some info ↦ checked tt (call info.sockaddr w)
  ]

  pub bind : Socket → Calls (Unit {0})
  bind s w = on_address s.address (k.bind s.descriptor) w

  pub connect : Socket → Calls (Unit {0})
  connect s w = on_address s.address (k.connect s.descriptor) w

  abbrev listens : Option Address → Bool
  listens none = true
  listens (some a) = is_tcp a.socket_type

  pub listen : ℕ → Socket → Calls (Unit {0})
  listen backlog s w =
      if listens s.address then checked tt (k.listen s.descriptor backlog w) else ok (tt, w)

  abbrev closed : Socket → Bool × W → Outcome (Socket × W)
  closed s (true, w) = throws runtime_error
  closed s (false, w) = checked (record s { descriptor = none }) (k.close s.descriptor w)

  pub disconnect : Socket → Calls Socket
  disconnect s w = closed s (k.shutdown s.descriptor w)

  abbrev accepted : Resolver → Socket → Option (ℕ × Peer) × W → Outcome (Socket × W)
  accepted res s (none, w) = throws runtime_error
  accepted res s (some (fd, peer), w) = elim (socket_type_of s.address) [
    | ok t ↦ create_from fd (new_address_storage res peer t (get_ip_type_from_family peer)) w
    | throws e ↦ throws e
    | undefined ↦ undefined
  ]

  pub accept : Resolver → Socket → Calls Socket
  accept res s w = accepted res s (k.accept s.descriptor w)

  pub close : Socket → W → W
  close s w = (k.close s.descriptor w).1

  -- A failure to send is only logged.
  pub send : Bytes → ℕ → Socket → W → W
  send buffer flags s w = (k.send s.descriptor buffer flags w).1

  -- The first `size` bytes; past its end the buffer must not be read.
  pub send_first : Bytes → ℕ → ℕ → Socket → W → Outcome W
  send_first buffer size flags s w =
      if length (take size buffer) == size
      then ok (send (take size buffer) flags s w)
      else undefined

  pub send_to : Address → Bytes → ℕ → Socket → W → W
  send_to a buffer flags s w = elim a.addr_info [
    | none ↦ w
    | some info ↦ (k.sendto s.descriptor buffer flags info.sockaddr w).1
  ]

  -- `receive`: the whole buffer, whatever was received.
  abbrev filled : ℕ → Option Bytes × W → Option Bytes × W
  filled size (none, w) = (none, w)
  filled size (some bytes, w) = (some (fill size bytes), w)

  pub receive : ℕ → ℕ → Socket → W → Option Bytes × W
  receive size flags s w = filled size (k.recv s.descriptor flags w)

  abbrev sent_by :
      Resolver → ℕ → Socket → Option (Peer × Bytes) × W → Outcome (Option (Address × Bytes) × W)
  sent_by res size s (none, w) = ok (none, w)
  sent_by res size s (some (peer, bytes), w) = elim (socket_type_of s.address) [
    | ok t ↦
        ok
          (some (new_address_storage res peer t (get_ip_type_from_family peer), fill size bytes), w)
    | throws e ↦ throws e
    | undefined ↦ undefined
  ]

  -- `receiveFrom`, of a size or of 4096 bytes.
  pub receive_from : Resolver → ℕ → ℕ → Socket → Calls (Option (Address × Bytes))
  receive_from res size flags s w = sent_by res size s (k.recvfrom s.descriptor flags w)

  -- The messages of `receiveBatch`: each buffer is cut to what was received.
  pub each_message : Resolver → SocketType → List (Peer × Bytes) → List (Address × Bytes)
  each_message res t [] = []
  each_message res t ((peer, bytes) ∷ rest) =
      (new_address_storage res peer t (get_ip_type_from_family peer), take 4096 bytes)
      ∷ each_message res t rest

  abbrev batch_type : Option Address → SocketType
  batch_type none = udp
  batch_type (some a) = a.socket_type

  abbrev batched : Resolver → Socket → Option (List (Peer × Bytes)) × W → List (Address × Bytes) × W
  batched res s (none, w) = ([], w)
  batched res s (some messages, w) = (each_message res (batch_type s.address) messages, w)

  pub receive_batch : Resolver → ℕ → ℕ → Socket → W → List (Address × Bytes) × W
  receive_batch res max_messages flags s w =
      if max_messages == 0
      then ([], w)
      else batched res s (k.recvmmsg s.descriptor max_messages flags w)

  -- The flags are read, and written back with O_NONBLOCK, or with 0, put to them by |.
  abbrev with_flags : Socket → Bool → Option ℕ × W → W
  with_flags s blocking (none, w) = w
  with_flags s blocking (some flags, w) =
      (k.set_flags s.descriptor (if blocking then flags else or_nonblock flags) w).1

  pub set_blocking : Bool → Socket → W → W
  set_blocking blocking s w = with_flags s blocking (k.get_flags s.descriptor w)
