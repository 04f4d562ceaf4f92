-- ===== src/Server/ClientManager/Joining.antt =====
-- Server/Client/ClientManager.cpp: `addClient`.
use flakkari.Prelude.{
  ℕ, ◌+◌, ◌^◌, ◌≤◌, ◌<◌, ◌≡◌, refl, sym, ap, subst, bad_optional_access, ◌∙◌, [], ◌∷◌, ◌++◌,
  append-nil, List, Bool, true, false, ◌||◌, ◌⊎◌, inl, inr, none, some, Bytes, text_eq,
  text_eq_refl, Outcome, ok, throws, undefined, runtime_error, arith, get_elem?, lookup,
  lookup-insert, length, take, drop, from_le, ◌>>=◌, ◌==◌, ◌&&◌, Bool-cases, Option-cases, AreBytes,
}
use flakkari.Protocol.Commands.{req_connect}
use flakkari.Protocol.Packet.{
  Packet, new_packet, header_bytes, serialize, deserialize, extract_string,
}
use flakkari.Protocol.Packet.Codec.{
  IsValid, deserialize-serialize, deserialize_short, Reads, deserialize-Reads,
}
use flakkari.Protocol.Packet.Strings.{extract_string_cases}
use flakkari.Server.Client.{Address, Client, or_empty, new_client}
use flakkari.Server.ClientManager.{ClientManager, Reply, is_banned, ban, admit, connect, add_client}
use flakkari.Server.ClientManager.Bans.{contains_text-snoc}

get_elem?-snoc : (xs : List Client) (c : Client) → get_elem? (xs ++ c ∷ []) (length xs) ≡ some c
get_elem?-snoc [] c = refl
get_elem?-snoc (x ∷ xs) c = get_elem?-snoc xs c

-- The packet of a buffer, which asks to connect.
abbrev pub Requests : Bytes → ℕ → Packet → Type 0
Requests buffer now p =
    (deserialize (new_packet 0 now) buffer ≡ ok (p, true)) × (p.command_id ≡ req_connect)

-- How `addClient` may end for an address that is neither banned nor known.
abbrev pub Admits : Address → Bytes → ℕ → ClientManager → Outcome Reply → Type 0
Admits a buffer now m (ok (none, m')) =
    (is_banned a m' ≡ true) × (m'.clients ≡ m.clients) × (m'.heap ≡ m.heap)
Admits a buffer now m (ok (some (game_name, none), m')) = ⊥
Admits a buffer now m (ok (some (game_name, some p), m')) =
    (lookup (or_empty a.text) m'.clients ≡ some (some p))
    × ((version : ℕ) × (get_elem? m'.heap p ≡ some (new_client a game_name version now)))
    × (m'.banned_clients ≡ m.banned_clients)
Admits a buffer now m (throws e) =
    ((a.ip ≡ none) × (e ≡ bad_optional_access))
    ⊎ ((e ≡ runtime_error) × ((p : Packet) × Requests buffer now p × (length p.payload < 4)))
Admits a buffer now m undefined =
    (p : Packet) × Requests buffer now p
    × (4 ≤ length p.payload)
    × ((2 ^ 31 ≤ from_le (take 4 p.payload)) ⊎ (length p.payload < from_le (take 4 p.payload) + 4))

is_banned-append :
    (a : Address) (ip : Bytes) (m : ClientManager)
    → is_banned a (record m { banned_clients = m.banned_clients ++ ip ∷ [] })
      ≡ (is_banned a m || text_eq ip (or_empty a.ip))
unfolding is_banned
is_banned-append a ip m = contains_text-snoc (or_empty a.ip) ip m.banned_clients

ban-Admits :
    (a : Address) (buffer : Bytes) (now : ℕ) (m : ClientManager) → Admits a buffer now m (ban a m)
unfolding ban
ban-Admits a buffer now m = elim (Option-cases a.ip) [
  | inl e ↦ subst (Admits a buffer now m) (sym (fails e)) (inl (e, refl))
  | inr (ip, e) ↦ subst (Admits a buffer now m) (sym (works ip e)) (bans ip e, refl, refl)
]
  where
    fails : a.ip ≡ none → ban a m ≡ throws bad_optional_access
    fails e = ground arith

    works :
        (ip : Bytes)
        → a.ip ≡ some ip
        → ban a m ≡ ok (none, record m { banned_clients = m.banned_clients ++ ip ∷ [] })
    works ip e = ground arith

    bans :
        (ip : Bytes)
        → a.ip ≡ some ip
        → is_banned a (record m { banned_clients = m.banned_clients ++ ip ∷ [] }) ≡ true
    bans ip e = ground (arith, is_banned-append a ip m, text_eq_refl ip)

connect-Admits :
    (a : Address) (buffer : Bytes) (now : ℕ) (m : ClientManager) (r : Bytes × Packet)
    → Admits a buffer now m (ok (connect a now m r))
unfolding connect
connect-Admits a buffer now m r = (
  rw
      (
        lookup-insert (or_empty a.text) (or_empty a.text) (some (length m.heap)) m.clients,
        text_eq_refl (or_empty a.text),
      )
      refl,
  (r.1.api_version, get_elem?-snoc m.heap _),
  refl,
)

module _ (a : Address) (buffer : Bytes) (now : ℕ) (m : ClientManager) where
  then_connect-Admits :
      (p : Packet)
      → Requests buffer now p
      → Admits a buffer now m (extract_string p >>= λ r. ok (connect a now m r))
  then_connect-Admits p asked = elim (extract_string_cases p) [
    | inl (short, e) ↦ rw e (inr (refl, (p, asked, short)))
    | inr (inl (long, bad, e)) ↦ rw e (p, asked, long, bad)
    | inr (inr (_, _, e)) ↦ rw e (connect-Admits a buffer now m _)
  ]

  admit-Admits :
      (o : Outcome (Packet × Bool)) (old : Bytes)
      → deserialize (new_packet 0 now) buffer ≡ o
      → Reads old buffer o
      → Admits a buffer now m (o >>= admit a now m)
  unfolding admit
  admit-Admits (ok (packet, valid)) old d reads =
      elim (Bool-cases (valid && (packet.command_id == req_connect))) [
        | inl e ↦
            let is_valid : valid ≡ true = ground arith in
            let asks : packet.command_id ≡ req_connect = ground arith in
            rw (e, admit) (then_connect-Admits packet (d ∙ ap (λ v. ok (packet, v)) is_valid, asks))
        | inr e ↦ rw (e, admit) (ban-Admits a buffer now m)
      ]
  admit-Admits (throws e) old d reads = absurd reads
  admit-Admits undefined old d reads = absurd reads

  -- An address that is neither banned nor known, and any buffer of bytes. The address ends up banned, with
  -- no client registered or made, or registered, with a new client that was active now, and no ban added;
  -- or there is an exception, since the address has no IP to ban or since a valid request to connect has
  -- fewer than four bytes; or a valid request names a game by a size that is negative or passes its
  -- end, which is undefined.
  pub add_client-Admits :
      AreBytes buffer
      → is_banned a m ≡ false
      → lookup (or_empty a.text) m.clients ≡ none
      → Admits a buffer now m (add_client a buffer now m)
  unfolding add_client
  add_client-Admits bytes free unknown =
      rw (free, unknown)
        (admit-Admits (deserialize (new_packet 0 now) buffer) _ refl
          (deserialize-Reads (new_packet 0 now) buffer bytes))

pub serialized_before :
    (a : Address) (now : ℕ) (m : ClientManager) (p : Packet) (rest : Bytes)
    → IsValid p
    → p.command_id ≡ req_connect
    → is_banned a m ≡ false
    → lookup (or_empty a.text) m.clients ≡ none
    → add_client a (serialize p ++ rest) now m ≡ (extract_string p >>= λ r. ok (connect a now m r))
unfolding add_client admit
serialized_before a now m p rest valid request free unknown =
    rw (free, unknown, deserialize-serialize p (new_packet 0 now) rest valid, request) refl

-- A valid packet of which only the front arrives: its address is banned.
pub refused_before :
    (a : Address) (now : ℕ) (m : ClientManager) (p : Packet) (front ip : Bytes)
    → IsValid p
    → length front < p.content_length
    → is_banned a m ≡ false
    → lookup (or_empty a.text) m.clients ≡ none
    → a.ip ≡ some ip
    → add_client a (header_bytes p.header ++ front) now m
      ≡ ok (none, record m { banned_clients = m.banned_clients ++ ip ∷ [] })
unfolding add_client admit ban
refused_before a now m p front ip valid short free unknown has_ip =
    rw (free, unknown, deserialize_short p (new_packet 0 now) front valid short, has_ip) refl

serialized :
    (a : Address) (now : ℕ) (m : ClientManager) (p : Packet)
    → IsValid p
    → p.command_id ≡ req_connect
    → is_banned a m ≡ false
    → lookup (or_empty a.text) m.clients ≡ none
    → add_client a (serialize p) now m ≡ (extract_string p >>= λ r. ok (connect a now m r))
serialized a now m p valid request free unknown =
    ap (λ b. add_client a b now m) (sym (append-nil (serialize p)))
    ∙ serialized_before a now m p [] valid request free unknown

-- A valid request to connect, from an address that is neither banned nor known, decides by its payload
-- what happens to the server: a payload of fewer than four bytes raises an exception; a size of the game's
-- name that is negative or passes the end reads outside of the payload, which is undefined; any other
-- connects a client to the game that is named.
pub add_client-serialize :
    (a : Address) (now : ℕ) (m : ClientManager) (p : Packet)
    → IsValid p
    → p.command_id ≡ req_connect
    → is_banned a m ≡ false
    → lookup (or_empty a.text) m.clients ≡ none
    → let n = from_le (take 4 p.payload) in
      let name = take n (drop 4 p.payload) in
      ((length p.payload < 4) × (add_client a (serialize p) now m ≡ throws runtime_error))
      ⊎ ((4 ≤ length p.payload)
          × ((2 ^ 31 ≤ n) ⊎ (length p.payload < n + 4))
          × (add_client a (serialize p) now m ≡ undefined))
      ⊎ ((n + 4 ≤ length p.payload)
          × (n < 2 ^ 31)
          × ((q : Packet) × (q.api_version ≡ p.api_version)
              × (add_client a (serialize p) now m ≡ ok (connect a now m (name, q)))))
add_client-serialize a now m p valid request free unknown =
    let s = serialized a now m p valid request free unknown in
    let after : Outcome (Bytes × Packet) → Outcome Reply = λ o. o >>= λ r. ok (connect a now m r) in
    elim (extract_string_cases p) [
      | inl (short, e) ↦ inl (short, s ∙ ap after e)
      | inr (inl (long, bad, e)) ↦ inr (inl (long, bad, s ∙ ap after e))
      | inr (inr (fits, small, e)) ↦ inr (inr (fits, small, (_, refl, s ∙ ap after e)))
    ]
