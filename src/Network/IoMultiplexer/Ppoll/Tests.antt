-- ===== src/Network/IoMultiplexer/Ppoll/Tests.antt =====
-- Network/IOMultiplexer.cpp: an example with PPOLL.
use flakkari.Prelude.{ℕ, ◌≡◌, ◌≢◌, ◌⊎◌, [], some, ok, undefined}
use flakkari.Network.IoMultiplexer.Ppoll.{Ppoll, add_socket_events, at_descriptor, is_ready}
use flakkari.Network.IoMultiplexer.Ppoll.Growing.{add_socket_events_cases}

abbrev nothing : Ppoll
nothing = record { pollfds = []; seconds = 1; nanoseconds = 0 }

third_of_none :
    ((◌≢◌ {A = ℕ} 3 0)
      × ((p' : Ppoll) × (add_socket_events (some 3) 1 nothing ≡ ok p')
          × (at_descriptor (some 3) p' ≡ ok (record { fd = some 3; events = 1; revents = 0 }))))
    ⊎ ((◌≡◌ {A = ℕ} 3 0)
        × (add_socket_events (some 3) 1 nothing ≡ undefined)
        × (at_descriptor (some 3) nothing ≡ undefined)
        × (is_ready (some 3) nothing ≡ undefined))
third_of_none = add_socket_events_cases 3 1 nothing
