-- ===== src/Network/IoMultiplexer/Ppoll/Growing.antt =====
-- Network/IOMultiplexer.cpp: what PPOLL does with a descriptor that is as large as its vector.
use flakkari.Prelude.{
  ℕ, ◌+◌, ◌-◌, ◌≤◌, ◌<◌, ◌≡◌, ◌≢◌, ◌⊎◌, inl, inr, List, none, some, ok, undefined, length,
  get_elem?, set, replicate, length-append, length-replicate, length-set, get_elem?-set_self,
  get_elem?_above, arith, ltb, ap, ◌>>=◌, Bool-cases, ltb→lt, ltb→le,
}
use flakkari.Network.IoMultiplexer.Ppoll.{
  Pollfd, Ppoll, zero_pollfd, grow, store, add_socket_events, at_descriptor, is_ready,
}

length-grow :
    (s : ℕ) (xs : List Pollfd)
    → ((length xs < s) × (length (grow s xs) ≡ s + 1)) ⊎ ((s ≤ length xs) × (grow s xs ≡ xs))
length-grow s xs = ground (
  arith,
  length-append xs (replicate (s + 1 - length xs) zero_pollfd),
  length-replicate (s + 1 - length xs) zero_pollfd,
)

store_within :
    (s : ℕ) (v : Pollfd) (xs : List Pollfd) → s < length xs → store s v xs ≡ ok (set xs s v)
store_within s v xs h = ground arith

at_descriptor-stored :
    (s : ℕ) (v : Pollfd) (xs : List Pollfd) (p : Ppoll)
    → s < length xs
    → at_descriptor (some s) (record p { pollfds = set xs s v }) ≡ ok v
unfolding at_descriptor
at_descriptor-stored s v xs p h = ground (arith, length-set xs s v, get_elem?-set_self xs s v h)

-- A descriptor that the vector has room for once it has grown.
added :
    (s events : ℕ) (p : Ppoll)
    → s < length (grow s p.pollfds)
    → (p' : Ppoll) × (add_socket_events (some s) events p ≡ ok p')
      × (at_descriptor (some s) p' ≡ ok (record { fd = some s; events = events; revents = 0 }))
unfolding add_socket_events
added s events p h =
    let v : Pollfd = record { fd = some s; events = events; revents = 0 } in
    let xs = grow s p.pollfds in
    (
      record p { pollfds = set xs s v },
      ap (λ o. o >>= λ pollfds. ok (record p { pollfds = pollfds })) (store_within s v xs h),
      at_descriptor-stored s v xs p h,
    )

full :
    (s events : ℕ) (p : Ppoll)
    → s ≡ length p.pollfds
    → (add_socket_events (some s) events p ≡ undefined)
      × (at_descriptor (some s) p ≡ undefined)
      × (is_ready (some s) p ≡ undefined)
unfolding add_socket_events at_descriptor is_ready
full s events p e =
    let out : get_elem? p.pollfds s ≡ none = get_elem?_above p.pollfds s (omega arith) in
    let same : grow s p.pollfds ≡ p.pollfds = ground arith in
    (rw same (ground arith), ground (arith, out), ground (arith, out))

-- Of a descriptor: adding it makes `operator[]` on it find a pollfd with that descriptor and those events,
-- unless the vector has just as many elements as the descriptor says: then the vector is not made longer,
-- and adding it writes past its end, while `operator[]` and `isReady` pass their test and read there.
pub add_socket_events_cases :
    (s events : ℕ) (p : Ppoll)
    → ((s ≢ length p.pollfds)
        × ((p' : Ppoll) × (add_socket_events (some s) events p ≡ ok p')
            × (at_descriptor (some s) p'
                ≡ ok (record { fd = some s; events = events; revents = 0 }))))
      ⊎ ((s ≡ length p.pollfds)
          × (add_socket_events (some s) events p ≡ undefined)
          × (at_descriptor (some s) p ≡ undefined)
          × (is_ready (some s) p ≡ undefined))
add_socket_events_cases s events p = elim (length-grow s p.pollfds) [
  | inl (h, e) ↦ inl ((λ eq. omega arith), added s events p (omega arith))
  | inr (h, e) ↦ elim (Bool-cases (ltb s (length p.pollfds))) [
    | inl below ↦ inl (
      (λ eq. omega (arith, ltb→lt _ _ below)),
      added s events p (omega (arith, ap length e, ltb→lt _ _ below)),
    )
    | inr above ↦
        let eq : s ≡ length p.pollfds = omega (arith, ltb→le _ _ above) in
        let (a, b, c) = full s events p eq in inr (eq, a, b, c)
  ]
]
