-- ===== src/CommandLine/Ports.antt =====
-- ParseArgument.cpp: the port.
use flakkari.Prelude.{
  ℕ, zero, suc, ◌+◌, ◌%◌, ◌^◌, ◌≤◌, ◌<◌, ◌≡◌, refl, subst, [], List, Bool, ◌==◌, Option, none, some,
  Bytes, length, text_eq, Outcome, ok, throws, undefined, runtime_error, ◌>>=◌, ◌>>◌, throw_if, ltb,
  arith, Bool-cases, inl, inr, ◌⊎◌,
}
use flakkari.CommandLine.Looping.{parse_from-ends, parse_from_forever}
use flakkari.CommandLine.{
  Arguments, no_arguments, Flag, Round, default, games, ip_address, port_number, dry, help, version,
  other, proceed, returned, exited, flag_of, argument, next, go_on, with_port, round_of, parse_from,
  get_game_dir_env, complete, parse_argument, with_ip, with_default_port, finish,
}

-- A port that is not reserved, or the 0 of no port yet.
abbrev IsPort : ℕ → Type 0
IsPort n = (n ≡ 0) ⊎ ((1024 ≤ n) × (n < 2 ^ 16))

abbrev HasPort : Outcome Round → Type 0
HasPort (ok (proceed i args)) = IsPort args.port
HasPort (ok (returned args)) = (1024 ≤ args.port) × (args.port < 2 ^ 16)
HasPort (ok exited) = Unit {0}
HasPort (throws e) = Unit {0}
HasPort undefined = Unit {0}

abbrev Ends : Option (Outcome Round) → Type 0
Ends none = Unit {0}
Ends (some end) = HasPort end

then_argument :
    (o : Outcome Bytes) (rest : Bytes → Outcome Round)
    → ((value : Bytes) → HasPort (rest value))
    → HasPort (o >>= rest)
then_argument (ok value) rest h = h value
then_argument (throws e) rest h = tt
then_argument undefined rest h = tt

module _ (stoi : Bytes → Outcome ℕ) (av : List Bytes) where
  read_port-HasPort :
      (o : Outcome ℕ) (i : ℕ) (args : Arguments)
      → HasPort (
          o >>= λ n.
          throw_if (ltb (n % 2 ^ 16) 1024) runtime_error
          >> ok (proceed (next (next i)) (record args { port = n % 2 ^ 16 })))
  read_port-HasPort (ok n) i args = elim (Bool-cases (ltb (n % 2 ^ 16) 1024)) [
    | inl e ↦ rw e tt
    | inr e ↦ rw e (inr (ground arith, ground arith))
  ]
  read_port-HasPort (throws x) i args = tt
  read_port-HasPort undefined i args = tt

  round_of-HasPort :
      (flag : Flag) (i : ℕ) (args : Arguments)
      → IsPort args.port
      → HasPort (round_of stoi av flag i args)
  unfolding round_of with_port
  round_of-HasPort default i args h = (omega arith, omega arith)
  round_of-HasPort games i args h = then_argument (argument av (i + 1)) _ (λ value. h)
  round_of-HasPort ip_address i args h = then_argument (argument av (i + 1)) _ (λ value. h)
  round_of-HasPort port_number i args h =
      then_argument (argument av (i + 1)) _ (λ value. read_port-HasPort (stoi value) i args)
  round_of-HasPort dry i args h = h
  round_of-HasPort help i args h = tt
  round_of-HasPort version i args h = tt
  round_of-HasPort other i args h = h

  goes_on :
      (later : ℕ → Arguments → Option (Outcome Round)) (o : Outcome Round)
      → HasPort o
      → ((i : ℕ) (args : Arguments) → IsPort args.port → Ends (later i args))
      → Ends (go_on later o)
  goes_on later (ok (proceed i args)) h ends = ends i args h
  goes_on later (ok (returned args)) h ends = h
  goes_on later (ok exited) h ends = tt
  goes_on later (throws e) h ends = tt
  goes_on later undefined h ends = tt

  parse_from-Ends :
      (rounds i : ℕ) (args : Arguments) → IsPort args.port → Ends (parse_from stoi av rounds i args)
  unfolding parse_from
  parse_from-Ends zero i args h = tt
  parse_from-Ends (suc rounds) i args h = elim (Bool-cases (ltb i (length av))) [
    | inl e ↦
        rw (e, parse_from)
          (goes_on (parse_from stoi av rounds)
            (argument av i >>= λ arg. round_of stoi av (flag_of arg) i args)
            (then_argument (argument av i) _ (λ arg. round_of-HasPort (flag_of arg) i args h))
            (parse_from-Ends rounds))
    | inr e ↦ rw (e, parse_from) h
  ]

abbrev pub InRange : Outcome (Option Arguments) → Type 0
InRange (ok (some args)) = (1024 ≤ args.port) × (args.port < 2 ^ 16)
InRange (ok none) = Unit {0}
InRange (throws e) = Unit {0}
InRange undefined = Unit {0}

with_ip_port :
    (lookup_ip : Bytes → Bool × Bytes) (a : Arguments) → (with_ip lookup_ip a).port ≡ a.port
unfolding with_ip
with_ip_port lookup_ip a = elim (Bool-cases (text_eq a.ip [])) [
  | inl e ↦ rw e refl
  | inr e ↦ rw e refl
]

with_default_port_bounds :
    (a : Arguments) (n : ℕ)
    → a.port ≡ n
    → IsPort n
    → (1024 ≤ (with_default_port a).port) × ((with_default_port a).port < 2 ^ 16)
unfolding with_default_port
with_default_port_bounds a n e h = elim (Bool-cases (a.port == 0)) [
  | inl z ↦ rw z (omega arith, omega arith)
  | inr z ↦ rw z (ground arith)
]

get_game_dir_env-InRange :
    (dir : Option Bytes) (lookup_ip : Bytes → Bool × Bytes) (args : Arguments)
    → IsPort args.port
    → InRange (
        (get_game_dir_env dir args >>= λ a. ok (with_default_port (with_ip lookup_ip a))) >>= λ a'.
        ok (some a'))
unfolding get_game_dir_env
get_game_dir_env-InRange none lookup_ip args h = tt
get_game_dir_env-InRange (some d) lookup_ip args h =
    let a : Arguments = record args { game_dir = d } in
    with_default_port_bounds (with_ip lookup_ip a) args.port (with_ip_port lookup_ip a) h

finish-InRange :
    (dir : Option Bytes) (lookup_ip : Bytes → Bool × Bytes) (o : Outcome Round)
    → HasPort o
    → InRange (o >>= finish dir lookup_ip)
unfolding finish complete
finish-InRange dir lookup_ip (ok (proceed i args)) h =
    elim (Bool-cases (text_eq args.game_dir [])) [
      | inl e ↦ rw e (get_game_dir_env-InRange dir lookup_ip args h)
      | inr e ↦ rw e (
          with_default_port_bounds (with_ip lookup_ip args) args.port (with_ip_port lookup_ip args)
            h)
    ]
finish-InRange dir lookup_ip (ok (returned args)) h = h
finish-InRange dir lookup_ip (ok exited) h = tt
finish-InRange dir lookup_ip (throws e) h = tt
finish-InRange dir lookup_ip undefined h = tt

module _ (stoi : Bytes → Outcome ℕ) (av : List Bytes) where
  -- With at most 255 arguments, and as many rounds and one, the constructor ends, whatever the arguments,
  -- the environment and the interfaces are; and the port that it leaves, if it neither exits nor throws
  -- nor meets a null argument, is at least 1024 and has 16 bits.
  pub parse_argument-ends :
      (dir : Option Bytes) (lookup_ip : Bytes → Bool × Bytes)
      → length av ≤ 255
      → (end : Outcome (Option Arguments)) × (parse_argument stoi av (length av + 1) dir lookup_ip
          ≡ some end)
        × InRange end
  unfolding parse_argument
  parse_argument-ends dir lookup_ip few =
      let (end, e) =
        parse_from-ends stoi av (length av + 1) 0 no_arguments few (omega arith) (omega arith) in
      let h : Ends (some end) =
        subst Ends e (parse_from-Ends stoi av (length av + 1) 0 no_arguments (inl refl)) in
      (
        end >>= finish dir lookup_ip,
        rw (e, parse_argument) refl,
        finish-InRange dir lookup_ip end h,
      )

  -- With more than 255 arguments, none of them an option, the constructor never ends, however many rounds
  -- its loop may take: the 8 bits of the index never reach the number of the arguments.
  pub parse_argument-forever :
      (rounds : ℕ) (dir : Option Bytes) (lookup_ip : Bytes → Bool × Bytes)
      → 255 < length av
      → ((k : ℕ) → k < length av → (arg : Bytes) × (argument av k ≡ ok arg) × (flag_of arg ≡ other))
      → parse_argument stoi av rounds dir lookup_ip ≡ none
  unfolding parse_argument
  parse_argument-forever rounds dir lookup_ip many plain =
      rw (parse_from_forever stoi av rounds 0 no_arguments many plain (omega arith), parse_argument)
        refl
