-- ===== src/Network/IoMultiplexer/Ppoll.antt =====
-- Network/IOMultiplexer.cpp: PPOLL, a vector of pollfd that is indexed by descriptors.
pub mod Growing
mod Tests
use flakkari.Prelude.{
  ℕ, zero, suc, ◌+◌, ◌-◌, ◌%◌, [], ◌∷◌, ◌++◌, List, Bool, not, Option, none, some, Outcome, ok,
  throws, undefined, runtime_error, ◌>>=◌, ◌>>◌, throw_if, undefined_if, ltb, leb, ◌==◌,
  if◌then◌else◌, length, get_elem?, set, replicate, take,
}
use flakkari.Network.IoMultiplexer.Descriptors.{checked}

pub record Pollfd : Type 0 where
  pub fd : Option ℕ
  pub events : ℕ
  pub revents : ℕ

-- What `resize` fills with: descriptor 0, no events.
abbrev pub zero_pollfd : Pollfd
zero_pollfd = record { fd = some 0; events = 0; revents = 0 }

pub record Ppoll : Type 0 where
  pub pollfds : List Pollfd
  pub seconds : ℕ
  pub nanoseconds : ℕ

-- POLLIN | POLLPRI
abbrev pub pollin_pollpri : ℕ
pollin_pollpri = 3

-- `v[i] = x` and `v[i]` of a std::vector.
abbrev pub store : ℕ → Pollfd → List Pollfd → Outcome (List Pollfd)
store i x xs = undefined_if (leb (length xs) i) >> ok (set xs i x)

abbrev pub load : ℕ → List Pollfd → Outcome Pollfd
load i xs = elim (get_elem? xs i) [ none ↦ undefined | some x ↦ ok x ]

-- `resize(s + 1)`, where it makes the vector longer.
abbrev pub grow : ℕ → List Pollfd → List Pollfd
grow s xs = if ltb (length xs) s then xs ++ replicate (s + 1 - length xs) zero_pollfd else xs

pub add_socket_events : Option ℕ → ℕ → Ppoll → Outcome Ppoll
add_socket_events socket events p = checked socket >>= λ s.
    store s (record { fd = some s; events = events; revents = 0 }) (grow s p.pollfds) >>= λ pollfds.
    ok (record p { pollfds = pollfds })

-- The overload without events.
pub add_socket : Option ℕ → Ppoll → Outcome Ppoll
add_socket socket p = checked socket >>= λ s.
    store s (record { fd = some s; events = pollin_pollpri; revents = 0 }) (grow s p.pollfds)
    >>= λ pollfds. ok (record p { pollfds = pollfds })

-- The constructors.
pub new_ppoll : ℕ → ℕ → Ppoll
new_ppoll seconds microseconds = record {
  pollfds = [];
  seconds = seconds;
  nanoseconds = microseconds;
}

pub new_ppoll_with : Option ℕ → ℕ → ℕ → ℕ → Outcome Ppoll
new_ppoll_with file_descriptor events seconds microseconds = checked file_descriptor >>= λ s.
    store s (record { fd = some s; events = events; revents = 0 }) (grow s []) >>= λ pollfds.
    ok (record { pollfds = pollfds; seconds = seconds; nanoseconds = microseconds })

-- `pop_back`, which an empty vector does not allow.
pub drop_last : List Pollfd → Outcome (List Pollfd)
drop_last [] = undefined
drop_last (x ∷ xs) = ok (take (length xs) (x ∷ xs))

pub remove_socket : Option ℕ → Ppoll → Outcome Ppoll
remove_socket socket p = checked socket >>= λ s.
    throw_if (ltb (length p.pollfds) s) runtime_error
    >> (if length p.pollfds == s
        then drop_last p.pollfds
        else store s (record { fd = none; events = 0; revents = 0 }) p.pollfds)
    >>= λ pollfds. ok (record p { pollfds = pollfds })

-- `operator[]` on an index, and on a descriptor.
pub at_index : ℕ → Ppoll → Outcome Pollfd
at_index index p = throw_if (ltb (length p.pollfds) index) runtime_error >> load index p.pollfds

pub at_descriptor : Option ℕ → Ppoll → Outcome Pollfd
at_descriptor socket p =
    checked socket >>= λ s. throw_if (ltb (length p.pollfds) s) runtime_error >> load s p.pollfds

-- `revents & (POLLIN | POLLPRI)`
abbrev pub has_input : Pollfd → Bool
has_input x = not ((x.revents % 4) == 0)

-- `isReady` on a pollfd, and on a descriptor.
pub is_ready_pollfd : Pollfd → Outcome Bool
is_ready_pollfd x = checked x.fd >>= λ s. ok (has_input x)

pub is_ready : Option ℕ → Ppoll → Outcome Bool
is_ready socket p = checked socket >>= λ s.
    throw_if (ltb (length p.pollfds) s) runtime_error
    >> (load s p.pollfds >>= λ x. ok (has_input x))
