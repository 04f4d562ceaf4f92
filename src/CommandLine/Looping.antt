-- ===== src/CommandLine/Looping.antt =====
-- ParseArgument.cpp: when the loop over the arguments ends.
use flakkari.Prelude.{
  ℕ, zero, suc, ◌+◌, ◌%◌, ◌^◌, ◌≤◌, ◌<◌, ◌≡◌, refl, List, true, Option, none, some, Bytes, length,
  Outcome, ok, throws, undefined, ◌>>=◌, ltb, arith, throw_if, runtime_error, ◌>>◌, Bool-cases, inl,
  inr, lt→ltb, ltb→lt, get_elem?_above, ◌⊎◌,
}
use flakkari.CommandLine.{
  Arguments, Flag, Round, default, games, ip_address, port_number, dry, help, version, other,
  proceed, returned, exited, flag_of, argument, next, go_on, with_port, round_of, parse_from,
}

-- A round that goes on does so at a later index that is not past the end.
abbrev Advances : ℕ → ℕ → Outcome Round → Type 0
Advances n i (ok (proceed i' args)) = (i < i') × (i' ≤ n)
Advances n i (ok (returned args)) = Unit {0}
Advances n i (ok exited) = Unit {0}
Advances n i (throws e) = Unit {0}
Advances n i undefined = Unit {0}

module _ (stoi : Bytes → Outcome ℕ) (av : List Bytes) where
  read_port-Advances :
      (o : Outcome ℕ) (i : ℕ) (args : Arguments)
      → i + 1 < length av
      → length av ≤ 255
      → Advances (length av) i (
          o >>= λ n.
          throw_if (ltb (n % 2 ^ 16) 1024) runtime_error
          >> ok (proceed (next (next i)) (record args { port = n % 2 ^ 16 })))
  read_port-Advances (ok n) i args h few = elim (Bool-cases (ltb (n % 2 ^ 16) 1024)) [
    | inl e ↦ rw e tt
    | inr e ↦ rw e (omega arith, omega arith)
  ]
  read_port-Advances (throws x) i args h few = tt
  read_port-Advances undefined i args h few = tt

  with_port-Advances :
      (i : ℕ) (args : Arguments) (value : Bytes)
      → i + 1 < length av
      → length av ≤ 255
      → Advances (length av) i (with_port stoi av i args value)
  unfolding with_port
  with_port-Advances i args value h few = read_port-Advances (stoi value) i args h few

  argument-cases :
      (i : ℕ)
      → (argument av i ≡ undefined) ⊎ ((i < length av) × ((arg : Bytes) × (argument av i ≡ ok arg)))
  argument-cases i = ground (arith, get_elem?_above av i)

  round_of-Advances :
      (flag : Flag) (i : ℕ) (args : Arguments)
      → i < length av
      → length av ≤ 255
      → Advances (length av) i (round_of stoi av flag i args)
  unfolding round_of
  round_of-Advances default i args h few = tt
  round_of-Advances games i args h few = elim (argument-cases (i + 1)) [
    | inl e ↦ rw e tt
    | inr (below, (value, e)) ↦ rw e (omega arith, omega arith)
  ]
  round_of-Advances ip_address i args h few = elim (argument-cases (i + 1)) [
    | inl e ↦ rw e tt
    | inr (below, (value, e)) ↦ rw e (omega arith, omega arith)
  ]
  round_of-Advances port_number i args h few = elim (argument-cases (i + 1)) [
    | inl e ↦ rw e tt
    | inr (below, (value, e)) ↦ rw e (with_port-Advances i args value below few)
  ]
  round_of-Advances dry i args h few = (omega arith, omega arith)
  round_of-Advances help i args h few = tt
  round_of-Advances version i args h few = tt
  round_of-Advances other i args h few = (omega arith, omega arith)

  goes_on :
      (later : ℕ → Arguments → Option (Outcome Round)) (i : ℕ) (o : Outcome Round)
      → Advances (length av) i o
      → ((i' : ℕ) (args : Arguments)
          → i < i'
          → i' ≤ length av
          → (end : Outcome Round) × (later i' args ≡ some end))
      → (end : Outcome Round) × (go_on later o ≡ some end)
  goes_on later i (ok (proceed i' args)) a ends = ends i' args a.0 a.1
  goes_on later i (ok (returned args)) a ends = (_, refl)
  goes_on later i (ok exited) a ends = (_, refl)
  goes_on later i (throws e) a ends = (_, refl)
  goes_on later i undefined a ends = (_, refl)

  -- Any argument, or the end of the array.
  argument-Advances :
      (i : ℕ) (args : Arguments)
      → i < length av
      → length av ≤ 255
      → Advances (length av) i (argument av i >>= λ arg. round_of stoi av (flag_of arg) i args)
  argument-Advances i args h few = elim (argument-cases i) [
    | inl e ↦ rw e tt
    | inr (below, (arg, e)) ↦ rw e (round_of-Advances (flag_of arg) i args h few)
  ]

  -- With at most 255 arguments the loop ends, by itself, by `return`, by `exit`, by an exception or on a
  -- null argument, within one round more than there are arguments left.
  pub parse_from-ends :
      (rounds i : ℕ) (args : Arguments)
      → length av ≤ 255
      → i ≤ length av
      → length av < rounds + i
      → (end : Outcome Round) × (parse_from stoi av rounds i args ≡ some end)
  unfolding parse_from
  parse_from-ends zero i args few h enough = absurd (omega arith)
  parse_from-ends (suc rounds) i args few h enough = elim (Bool-cases (ltb i (length av))) [
    | inl e ↦
        rw (e, parse_from)
          (goes_on (parse_from stoi av rounds) i
            (argument av i >>= λ arg. round_of stoi av (flag_of arg) i args)
            (argument-Advances i args (ltb→lt _ _ e) few)
            (λ i' args' later bound. parse_from-ends rounds i' args' few bound (omega arith)))
    | inr e ↦ (ok (proceed i args), rw (e, parse_from) refl)
  ]

  -- The loop alone, from any index.
  pub parse_from_forever :
      (rounds i : ℕ) (args : Arguments)
      → 255 < length av
      → ((k : ℕ) → k < length av → (arg : Bytes) × (argument av k ≡ ok arg) × (flag_of arg ≡ other))
      → i < 256
      → parse_from stoi av rounds i args ≡ none
  unfolding parse_from round_of
  parse_from_forever zero i args many plain h = refl
  parse_from_forever (suc rounds) i args many plain h =
      let (arg, e, f) = plain i (omega arith) in
      let within : ltb i (length av) ≡ true = lt→ltb _ _ (omega arith) in
      rw (within, e, f) (parse_from_forever rounds (next i) args many plain (omega arith))
