-- ===== src/Network/IoMultiplexer/Pselect/Tests.antt =====
-- Network/IOMultiplexer.cpp: examples with PSELECT.
use flakkari.Prelude.{
  ℕ, ◌≡◌, ◌≤◌, ◌<◌, ◌⊎◌, [], ◌∷◌, Bool, true, false, not, ◌||◌, ◌==◌, ltb, some, ok, throws,
  undefined, runtime_error, arith, contains_num,
}
use flakkari.Network.IoMultiplexer.Pselect.{
  Pselect, add_socket, remove_socket, remove_all, wait, no_bits,
}
use flakkari.Network.IoMultiplexer.Pselect.Watching.{
  Watches, with_fd, without_fd, add_socket_refines, remove_socket_refines, wait-Watches,
}

abbrev only_five : Pselect
only_five = record { fds = no_bits; sockets = 5 ∷ []; max_fd = 5; seconds = 1; nanoseconds = 0 }

abbrev five : ℕ → Bool
five t = t == 5

five-Watches : Watches only_five five
unfolding contains_num
five-Watches = record {
  members = λ t. ground arith;
  bounded = λ t. ground arith;
  has_bit = omega arith;
}

add_socket_refines_example :
    ((7 < 1024)
      × ((p' : Pselect) × (add_socket (some 7) only_five ≡ ok p') × Watches p' (with_fd 7 five)))
    ⊎ ((◌≡◌ {A = ℕ} 7 1024) × (add_socket (some 7) only_five ≡ undefined))
    ⊎ ((1024 < 7) × (add_socket (some 7) only_five ≡ throws runtime_error))
add_socket_refines_example = add_socket_refines 7 only_five five five-Watches

remove_socket_refines_example :
    ((5 < 5) × (five 5 ≡ false) × (remove_socket (some 5) only_five ≡ throws runtime_error))
    ⊎ ((5 ≤ 5) × (remove_all 5 (5 ∷ []) ≡ []) × (remove_socket (some 5) only_five ≡ undefined))
    ⊎ ((5 ≤ 5)
        × ((p' : Pselect) × (remove_socket (some 5) only_five ≡ ok p')
            × Watches p' (without_fd 5 five)))
remove_socket_refines_example = remove_socket_refines 5 only_five five five-Watches

-- A system call that finds each descriptor ready.
wait-Watches_test :
    (wait (λ n fds timeout. (n, fds)) only_five ≡ ok (6, record only_five { fds = five }))
    × ((not (five 5) || ltb 5 6) ≡ true)
wait-Watches_test = wait-Watches (λ n fds timeout. (n, fds)) only_five five 5 five-Watches
