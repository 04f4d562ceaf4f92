-- ===== src/Network/Address.antt =====
-- Network/Address.cpp: an address, as built for Linux. What the system finds for a name is an
-- interface; its constants have their values on Linux. A null std::shared_ptr<addrinfo> is none.
use flakkari.Prelude.{ℕ, ◌∷◌, ◌++◌, Bytes, Option, none, some, codes}

pub data SocketType : Type 0 where
  no_socket_type tcp udp : SocketType

pub data IpType : Type 0 where
  no_ip_type ipv4 ipv6 : IpType

-- `addrinfo`: what the hints ask for, and the socket address of an answer.
pub record Hints : Type 0 where
  pub family : ℕ
  pub socktype : ℕ
  pub protocol : ℕ
  pub flags : ℕ

pub record AddrInfo : Type 0 where
  pub family : ℕ
  pub socktype : ℕ
  pub protocol : ℕ
  pub sockaddr : Bytes

-- A sockaddr_storage: its family, its IP as `inet_ntoa` writes it, and its port.
pub record Peer : Type 0 where
  pub family : ℕ
  pub ip : Bytes
  pub port : ℕ

pub record Address : Type 0 where
  pub addr_info : Option AddrInfo
  pub socket_type : SocketType
  pub ip_type : IpType

-- `getaddrinfo`, `gethostbyname` with the IP of its answer, `getnameinfo` with NI_NUMERICSERV for the host
-- and the service, with NI_NUMERICHOST for the host, and `std::to_string`.
pub record Resolver : Type 0 where
  pub getaddrinfo : Option Bytes → Bytes → Hints → Option AddrInfo
  pub gethostbyname : Bytes → Option Bytes
  pub name_and_service : Bytes → Option (Bytes × Bytes)
  pub numeric_host : Bytes → Option Bytes
  pub text_of : ℕ → Bytes

-- AF_INET and AF_INET6
abbrev pub af_inet : ℕ
af_inet = 2

abbrev pub af_inet6 : ℕ
af_inet6 = 10

pub family_of : IpType → ℕ
family_of ipv4 = af_inet
family_of t = af_inet6

-- SOCK_STREAM and IPPROTO_TCP, or SOCK_DGRAM and IPPROTO_UDP.
pub hints_of : SocketType → IpType → ℕ → Hints
hints_of tcp t flags = record { family = family_of t; socktype = 1; protocol = 6; flags = flags }
hints_of s t flags = record { family = family_of t; socktype = 2; protocol = 17; flags = flags }

-- AI_PASSIVE | AI_V4MAPPED | AI_ALL
abbrev default_flags : ℕ
default_flags = 0x19

-- AI_ADDRCONFIG | AI_PASSIVE, with AI_V4MAPPED for IPv4 and AI_ALL otherwise.
pub storage_flags : IpType → ℕ
storage_flags ipv4 = 0x29
storage_flags t = 0x31

module _ (res : Resolver) where
  -- The constructor from a name and a port.
  pub new_address : Bytes → ℕ → SocketType → IpType → Address
  new_address address port s t = record {
    addr_info = elim (res.gethostbyname address) [
      | none ↦ none
      | some ip ↦ res.getaddrinfo (some ip) (res.text_of port) (hints_of s t default_flags)
    ];
    socket_type = s;
    ip_type = t;
  }

  -- From a port alone.
  pub new_any_address : ℕ → SocketType → IpType → Address
  new_any_address port s t = record {
    addr_info = res.getaddrinfo none (res.text_of port) (hints_of s t default_flags);
    socket_type = s;
    ip_type = t;
  }

  -- From a sockaddr_in.
  pub new_address_in : Peer → SocketType → IpType → Address
  new_address_in peer s t = record {
    addr_info = res.getaddrinfo (some peer.ip) (res.text_of peer.port) (hints_of s t default_flags);
    socket_type = s;
    ip_type = t;
  }

  -- From a sockaddr_storage.
  pub new_address_storage : Peer → SocketType → IpType → Address
  new_address_storage peer s t = record {
    addr_info =
        res.getaddrinfo (some peer.ip) (res.text_of peer.port) (hints_of s t (storage_flags t));
    socket_type = s;
    ip_type = t;
  }

  pub to_string : Address → Option Bytes
  to_string a = elim a.addr_info [
    | none ↦ none
    | some info ↦ elim (res.name_and_service info.sockaddr) [
      | none ↦ none
      | some (host, service) ↦ some (host ++ b':' ∷ service)
    ]
  ]

  pub get_ip : Address → Option Bytes
  get_ip a = elim a.addr_info [ none ↦ none | some info ↦ res.numeric_host info.sockaddr ]

pub ip_type_to_string : IpType → Bytes
ip_type_to_string no_ip_type = codes "None"
ip_type_to_string ipv4 = codes "IPv4"
ip_type_to_string ipv6 = codes "IPv6"

pub socket_type_to_string : SocketType → Bytes
socket_type_to_string no_socket_type = codes "None"
socket_type_to_string tcp = codes "TCP"
socket_type_to_string udp = codes "UDP"

-- `operator std::string`
pub as_string : Resolver → Address → Bytes
as_string res a =
    let name : Bytes = elim (to_string res a) [ none ↦ codes "null" | some t ↦ t ] in
    name
    ++ codes " ("
    ++ socket_type_to_string a.socket_type
    ++ codes ", "
    ++ ip_type_to_string a.ip_type
    ++ codes ")"
