-- ===== src/Network/IoMultiplexer/Wsa/Tests.antt =====
-- Network/IOMultiplexer.cpp: an example with WSA.
use flakkari.Prelude.{
  ◌≡◌, ◌⊎◌, refl, [], ◌∷◌, Bool, true, false, some, ok, throws, runtime_error, is_some, arith,
}
use flakkari.Network.IoMultiplexer.Wsa.{Wsa, watched, index_of, add_socket, remove_socket, is_ready}
use flakkari.Network.IoMultiplexer.Wsa.Slots.{IsAligned, slot_operations-IsAligned}

-- The first slot is free.
abbrev one_left : Wsa
one_left = record {
  sockets = 0 ∷ 9 ∷ [];
  fd_array = watched 0 ∷ watched 9 ∷ [];
  free_space = 0 ∷ [];
  timeout_in_ms = 1000;
}

one_left-IsAligned : IsAligned one_left
one_left-IsAligned = record { same = refl; exist = (omega arith, tt) }

slot_operations-IsAligned_test :
    ((w' : Wsa) × (add_socket (some 9) one_left ≡ ok w') × IsAligned w')
    × (((is_some (index_of 9 (0 ∷ 9 ∷ [])) ≡ true)
          × ((w' : Wsa) × (remove_socket (some 9) one_left ≡ ok w') × IsAligned w')
          × ((b : Bool) × (is_ready (some 9) one_left ≡ ok b)))
        ⊎ ((is_some (index_of 9 (0 ∷ 9 ∷ [])) ≡ false)
            × (remove_socket (some 9) one_left ≡ throws runtime_error)
            × (is_ready (some 9) one_left ≡ throws runtime_error)))
slot_operations-IsAligned_test = slot_operations-IsAligned 9 one_left one_left-IsAligned
