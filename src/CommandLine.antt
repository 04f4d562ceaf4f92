-- ===== src/CommandLine.antt =====
-- ParseArgument.cpp, as it is built for Linux. The index is an uint_fast8_t, which has 8 bits; `av[ac]` is
-- null, and a string made from it is undefined. The environment, the interfaces and std::stoi are
-- parameters.
pub mod Looping
pub mod Ports
mod Tests
use flakkari.Prelude.{
  ℕ, zero, suc, ◌+◌, ◌%◌, ◌^◌, ◌==◌, [], ◌∷◌, List, Bool, true, false, not, ◌&&◌, ◌||◌, Option,
  none, some, Bytes, codes, text_eq, length, get_elem?, drop, Outcome, ok, throws, undefined,
  runtime_error, ◌>>=◌, ◌>>◌, throw_if, ltb, if◌then◌else◌,
}

pub record Arguments : Type 0 where
  pub game_dir : Bytes
  pub ip : Bytes
  pub port : ℕ
  pub dry_run : Bool

abbrev pub no_arguments : Arguments
no_arguments = record { game_dir = []; ip = []; port = 0; dry_run = false }

-- The options, as the tests of the loop tell them apart.
pub data Flag : Type 0 where
  default games ip_address port_number dry help version other : Flag

abbrev is : Bytes → Bytes → Bytes → Bool
is short long arg = text_eq arg short || text_eq arg long

pub flag_of : Bytes → Flag
flag_of arg =
    if is (codes "-d") (codes "--default") arg
    then default
    else if is (codes "-g") (codes "--games") arg
    then games
    else if is (codes "-i") (codes "--ip") arg
    then ip_address
    else if is (codes "-p") (codes "--port") arg
    then port_number
    else if is (codes "-dr") (codes "--dry-run") arg
    then dry
    else if is (codes "-h") (codes "--help") arg
    then help
    else if is (codes "-v") (codes "--version") arg
    then version
    else other

-- How a round of the loop ends: with the next index, by `return`, or by `exit(0)`.
pub data Round : Type 0 where
  proceed : ℕ → Arguments → Round
  returned : Arguments → Round
  exited : Round

-- `std::string(av[i])`
abbrev pub argument : List Bytes → ℕ → Outcome Bytes
argument av i = elim (get_elem? av i) [ none ↦ undefined | some arg ↦ ok arg ]

-- `++i`
abbrev pub next : ℕ → ℕ
next i = (i + 1) % 2 ^ 8

-- What follows a round.
abbrev pub go_on : (ℕ → Arguments → Option (Outcome Round)) → Outcome Round → Option (Outcome Round)
go_on later (ok (proceed i args)) = later i args
go_on later result = some result

-- `GetGameDirEnv`, with the path that FLAKKARI_GAME_DIR resolves to.
pub get_game_dir_env : Option Bytes → Arguments → Outcome Arguments
get_game_dir_env none args = throws runtime_error
get_game_dir_env (some dir) args = ok (record args { game_dir = dir })

-- The address, if there is none; `lookup_ip` is what asking for the addresses of the interfaces does to
-- `_ip`.
pub with_ip : (Bytes → Bool × Bytes) → Arguments → Arguments
with_ip lookup_ip a =
    if text_eq a.ip []
    then (let (found, ip) = lookup_ip a.ip in
        record a { ip = if found then ip else codes "localhost" })
    else a

pub with_default_port : Arguments → Arguments
with_default_port a = if a.port == 0 then record a { port = 8081 } else a

-- What is done behind the loop.
pub complete : Option Bytes → (Bytes → Bool × Bytes) → Arguments → Outcome Arguments
complete dir lookup_ip args =
    (if text_eq args.game_dir [] then get_game_dir_env dir args else ok args) >>= λ a.
    ok (with_default_port (with_ip lookup_ip a))

pub finish : Option Bytes → (Bytes → Bool × Bytes) → Round → Outcome (Option Arguments)
finish dir lookup_ip (proceed i args) = complete dir lookup_ip args >>= λ a. ok (some a)
finish dir lookup_ip (returned args) = ok (some args)
finish dir lookup_ip exited = ok none

module _ (stoi : Bytes → Outcome ℕ) (av : List Bytes) where
  -- A port number: the int that std::stoi returns, as a word, cut to 16 bits.
  pub with_port : ℕ → Arguments → Bytes → Outcome Round
  with_port i args value = stoi value >>= λ n.
      let port = n % 2 ^ 16 in
      throw_if (ltb port 1024) runtime_error
      >> ok (proceed (next (next i)) (record args { port = port }))

  pub round_of : Flag → ℕ → Arguments → Outcome Round
  round_of default i args =
      ok (returned (record args { game_dir = codes "Games"; ip = codes "localhost"; port = 8081 }))
  round_of games i args = argument av (i + 1) >>= λ value.
      ok (proceed (next (next i)) (record args { game_dir = value }))
  round_of ip_address i args =
      argument av (i + 1) >>= λ value. ok (proceed (next (next i)) (record args { ip = value }))
  round_of port_number i args = argument av (i + 1) >>= with_port i args
  round_of dry i args = ok (proceed (next i) (record args { dry_run = true }))
  round_of help i args = ok exited
  round_of version i args = ok exited
  round_of other i args = ok (proceed (next i) args)

  -- The loop, with the rounds that it may take: none where they do not suffice.
  pub parse_from : ℕ → ℕ → Arguments → Option (Outcome Round)
  parse_from zero i args = none
  parse_from (suc rounds) i args =
      let later : ℕ → Arguments → Option (Outcome Round) = parse_from rounds in
      if ltb i (length av)
      then go_on later (argument av i >>= λ arg. round_of (flag_of arg) i args)
      else some (ok (proceed i args))

  -- The constructor, with the rounds that its loop may take; none for a call that exits.
  pub parse_argument :
      ℕ → Option Bytes → (Bytes → Bool × Bytes) → Option (Outcome (Option Arguments))
  parse_argument rounds dir lookup_ip = elim (parse_from rounds 0 no_arguments) [
    | none ↦ none
    | some end ↦ some (end >>= finish dir lookup_ip)
  ]

-- The loop over the interfaces of `GetIPv4Addresses` and `GetIPv6Addresses`: a family and the text of the
-- address; the last address of the family that is not the loopback one stays.
pub last_address : ℕ → Bytes → List (ℕ × Bytes) → Bytes → Bytes
last_address family loopback [] ip = ip
last_address family loopback ((f, address) ∷ interfaces) ip =
    last_address family loopback interfaces
      (if (f == family) && not (text_eq address loopback) then address else ip)

-- AF_INET and AF_INET6 of Linux. There are no interfaces where `getifaddrs` fails.
pub get_ipv4_addresses : Option (List (ℕ × Bytes)) → Bytes → Bool × Bytes
get_ipv4_addresses none ip = (false, ip)
get_ipv4_addresses (some interfaces) ip = (true, last_address 2 (codes "127.0.0.1") interfaces ip)

pub get_ipv6_addresses : Option (List (ℕ × Bytes)) → Bytes → Bool × Bytes
get_ipv6_addresses none ip = (false, ip)
get_ipv6_addresses (some interfaces) ip = (true, last_address 10 (codes "::1") interfaces ip)

-- `!GetIPv4Addresses() && !GetIPv6Addresses()`, negated, and the address.
pub lookup_addresses : Option (List (ℕ × Bytes)) → Option (List (ℕ × Bytes)) → Bytes → Bool × Bytes
lookup_addresses first second ip =
    let (found, ip₁) = get_ipv4_addresses first ip in
    if found then (true, ip₁) else get_ipv6_addresses second ip₁
