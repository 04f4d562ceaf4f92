-- ===== src/Network/IoMultiplexer/Wsa.antt =====
-- Network/IOMultiplexer.cpp: WSA, the parallel vectors with free slots that it uses on Windows. The head
-- of `free_space` is the back of the vector.
pub mod Slots
mod Tests
use flakkari.Prelude.{
  ℕ, zero, suc, ◌+◌, ◌*◌, ◌/◌, ◌%◌, [], ◌∷◌, ◌++◌, List, Bool, true, false, not, Option, none, some,
  Outcome, ok, throws, undefined, runtime_error, ◌>>=◌, ◌>>◌, undefined_if, leb, ◌==◌,
  if◌then◌else◌, length, get_elem?, set, is_some,
}
use flakkari.Network.IoMultiplexer.Descriptors.{checked}

pub record WsaPollfd : Type 0 where
  pub fd : ℕ
  pub events : ℕ
  pub revents : ℕ

-- POLLIN of Windows: POLLRDNORM | POLLRDBAND
abbrev pub pollin : ℕ
pollin = 0x0300

pub record Wsa : Type 0 where
  pub sockets : List ℕ
  pub fd_array : List WsaPollfd
  pub free_space : List ℕ
  pub timeout_in_ms : ℕ

abbrev pub watched : ℕ → WsaPollfd
watched s = record { fd = s; events = pollin; revents = 0 }

-- `std::find` with `std::distance`.
pub index_of : ℕ → List ℕ → Option ℕ
index_of s [] = none
index_of s (x ∷ xs) =
    if x == s then some 0 else elim (index_of s xs) [ none ↦ none | some i ↦ some (suc i) ]

-- The constructor; the reserved space is no state.
pub new_wsa : Option ℕ → ℕ → ℕ → Outcome Wsa
new_wsa socket seconds microseconds = checked socket >>= λ s. ok (record {
  sockets = s ∷ [];
  fd_array = watched s ∷ [];
  free_space = [];
  timeout_in_ms = seconds * 1000 + microseconds / 1000;
})

-- `addSocket` for a descriptor that it does not have, into the last slot that became free or a new one.
pub put_socket : ℕ → List ℕ → Wsa → Outcome Wsa
put_socket s [] w =
    ok (record w { fd_array = w.fd_array ++ watched s ∷ []; sockets = w.sockets ++ s ∷ [] })
put_socket s (index ∷ rest) w =
    undefined_if (leb (length w.fd_array) index)
    >> undefined_if (leb (length w.sockets) index)
    >> ok (record w {
      fd_array = set w.fd_array index (watched s);
      sockets = set w.sockets index s;
      free_space = rest;
    })

pub add_socket : Option ℕ → Wsa → Outcome Wsa
add_socket socket w = checked socket >>= λ s.
    if is_some (index_of s w.sockets) then ok w else put_socket s w.free_space w

-- `removeSocket` and `isReady` on a slot of `_fdArray`.
pub clear_slot : ℕ → Wsa → Outcome Wsa
clear_slot index w = elim (get_elem? w.fd_array index) [
  | none ↦ undefined
  | some x ↦ ok (record w {
    fd_array = set w.fd_array index (record x { fd = 0 });
    sockets = set w.sockets index 0;
    free_space = index ∷ w.free_space;
  })
]

-- An iterator that is the end throws.
abbrev pub found : Option ℕ → Outcome ℕ
found none = throws runtime_error
found (some index) = ok index

pub remove_socket : Option ℕ → Wsa → Outcome Wsa
remove_socket socket w =
    checked socket >>= λ s. found (index_of s w.sockets) >>= λ index. clear_slot index w

-- `revents & POLLIN`
abbrev pub has_input : WsaPollfd → Bool
has_input x = not (((x.revents / 256) % 4) == 0)

-- `_fdArray[index]`
abbrev pub slot : ℕ → Wsa → Outcome WsaPollfd
slot index w = elim (get_elem? w.fd_array index) [ none ↦ undefined | some x ↦ ok x ]

pub is_ready : Option ℕ → Wsa → Outcome Bool
is_ready socket w = checked socket >>= λ s.
    found (index_of s w.sockets) >>= λ index. slot index w >>= λ x. ok (has_input x)
