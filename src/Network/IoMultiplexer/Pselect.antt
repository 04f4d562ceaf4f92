-- ===== src/Network/IoMultiplexer/Pselect.antt =====
-- Network/IOMultiplexer.cpp: PSELECT. The system call is a parameter; its result is any type R. A macro on
-- a descriptor of FD_SETSIZE or more is outside of the set of bits.
pub mod Watching
mod Tests
use flakkari.Prelude.{
  ℕ, ◌+◌, [], ◌∷◌, ◌++◌, List, Bool, true, false, Option, none, some, Outcome, ok, throws,
  undefined, runtime_error, ◌>>=◌, ◌>>◌, throw_if, undefined_if, ltb, leb, ◌==◌, if◌then◌else◌,
}
use flakkari.Network.IoMultiplexer.Descriptors.{checked}

abbrev pub fd_setsize : ℕ
fd_setsize = 1024

pub record Pselect : Type 0 where
  pub fds : ℕ → Bool
  pub sockets : List ℕ
  pub max_fd : ℕ
  pub seconds : ℕ
  pub nanoseconds : ℕ

-- `FD_ZERO`, and `FD_SET` and `FD_CLR` on the bits.
abbrev pub no_bits : ℕ → Bool
no_bits fd = false

abbrev pub put_bit : ℕ → Bool → (ℕ → Bool) → ℕ → Bool
put_bit s b fds fd = if fd == s then b else fds fd

-- `FD_SET`
pub fd_set : ℕ → (ℕ → Bool) → Outcome (ℕ → Bool)
fd_set s fds = undefined_if (leb fd_setsize s) >> ok (put_bit s true fds)

-- The constructors; the first does not test the descriptor against FD_SETSIZE.
pub new_pselect_with : Option ℕ → ℕ → ℕ → Outcome Pselect
new_pselect_with file_descriptor seconds microseconds = checked file_descriptor >>= λ fd.
    ok (record {
      fds = no_bits;
      sockets = fd ∷ [];
      max_fd = fd;
      seconds = seconds;
      nanoseconds = microseconds;
    })

pub new_pselect : ℕ → ℕ → Pselect
new_pselect seconds microseconds = record {
  fds = no_bits;
  sockets = [];
  max_fd = 0;
  seconds = seconds;
  nanoseconds = microseconds;
}

pub add_socket : Option ℕ → Pselect → Outcome Pselect
add_socket socket p = checked socket >>= λ s.
    throw_if (ltb fd_setsize s) runtime_error
    >> (fd_set s p.fds >>= λ fds. ok (record p {
      fds = fds;
      sockets = p.sockets ++ s ∷ [];
      max_fd = if ltb p.max_fd s then s else p.max_fd;
    }))

-- `std::remove` with `erase`.
pub remove_all : ℕ → List ℕ → List ℕ
remove_all s [] = []
remove_all s (x ∷ xs) = if x == s then remove_all s xs else x ∷ remove_all s xs

-- `*std::max_element`: the end of an empty range has no value.
pub max_from : ℕ → List ℕ → ℕ
max_from m [] = m
max_from m (x ∷ xs) = max_from (if ltb m x then x else m) xs

pub max_element : List ℕ → Outcome ℕ
max_element [] = undefined
max_element (x ∷ xs) = ok (max_from x xs)

pub remove_socket : Option ℕ → Pselect → Outcome Pselect
remove_socket socket p = checked socket >>= λ s.
    throw_if (ltb p.max_fd s) runtime_error
    >> undefined_if (leb fd_setsize s)
    >> (max_element (remove_all s p.sockets) >>= λ m.
        ok (record p { fds = put_bit s false p.fds; sockets = remove_all s p.sockets; max_fd = m }))

-- The loop of `wait`.
pub set_each : List ℕ → (ℕ → Bool) → Outcome (ℕ → Bool)
set_each [] fds = ok fds
set_each (fd ∷ sockets) fds = fd_set fd fds >>= set_each sockets

-- `wait`, with what `pselect` makes of the number of descriptors, the bits and the timeout.
pub wait :
    {R : Type 0} → (ℕ → (ℕ → Bool) → ℕ × ℕ → R × (ℕ → Bool)) → Pselect → Outcome (R × Pselect)
wait pselect p = set_each p.sockets no_bits >>= λ fds.
    let (result, ready) = pselect (p.max_fd + 1) fds (p.seconds, p.nanoseconds) in
    ok (result, record p { fds = ready })

pub is_ready : Option ℕ → Pselect → Outcome Bool
is_ready socket p = checked socket >>= λ s.
    throw_if (ltb p.max_fd s) runtime_error >> undefined_if (leb fd_setsize s) >> ok (p.fds s)
