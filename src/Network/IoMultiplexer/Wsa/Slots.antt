-- ===== src/Network/IoMultiplexer/Wsa/Slots.antt =====
-- Network/IOMultiplexer.cpp: the two vectors of WSA stay in step.
use flakkari.Prelude.{
  ℕ, zero, suc, ◌≤◌, ◌<◌, ◌≡◌, refl, sym, ap, subst, ◌∙◌, ◌⊎◌, inl, inr, [], ◌∷◌, ◌++◌, List, Bool,
  true, false, none, some, ok, throws, runtime_error, length, get_elem?, set, length-append,
  length-set, arith, is_some, Option-cases,
}
use flakkari.Network.IoMultiplexer.Wsa.{
  Wsa, WsaPollfd, watched, index_of, put_socket, add_socket, clear_slot, remove_socket, is_ready,
  has_input, slot,
}

-- The descriptors of the pollfds.
abbrev pub fds_of : List WsaPollfd → List ℕ
fds_of [] = []
fds_of (x ∷ xs) = x.fd ∷ fds_of xs

abbrev pub AllBelow : ℕ → List ℕ → Type 0
AllBelow n [] = Unit {0}
AllBelow n (i ∷ is) = (i < n) × AllBelow n is

-- Each slot has one descriptor in both vectors, and each free slot exists.
pub record IsAligned (w : Wsa) : Type 0 where
  pub same : fds_of w.fd_array ≡ w.sockets
  pub exist : AllBelow (length w.sockets) w.free_space

fds_of-append : (xs ys : List WsaPollfd) → fds_of (xs ++ ys) ≡ fds_of xs ++ fds_of ys
fds_of-append [] ys = refl
fds_of-append (x ∷ xs) ys = ap (λ t. x.fd ∷ t) (fds_of-append xs ys)

fds_of-set :
    (xs : List WsaPollfd) (i : ℕ) (v : WsaPollfd) → fds_of (set xs i v) ≡ set (fds_of xs) i v.fd
fds_of-set [] i v = refl
fds_of-set (x ∷ xs) zero v = refl
fds_of-set (x ∷ xs) (suc i) v = ap (λ t. x.fd ∷ t) (fds_of-set xs i v)

length-fds_of : (xs : List WsaPollfd) → length (fds_of xs) ≡ length xs
length-fds_of [] = refl
length-fds_of (x ∷ xs) = ap suc (length-fds_of xs)

AllBelow-le : (m n : ℕ) (is : List ℕ) → m ≤ n → AllBelow m is → AllBelow n is
AllBelow-le m n [] h b = tt
AllBelow-le m n (i ∷ is) h (b, bs) = (omega arith, AllBelow-le m n is h bs)

index_of_below : (s : ℕ) (xs : List ℕ) (i : ℕ) → index_of s xs ≡ some i → i < length xs
unfolding index_of
index_of_below s [] i e = cc
index_of_below s (x ∷ xs) i e = elim (Option-cases (index_of s xs)) [
  | inl n ↦ ground arith
  | inr (j, f) ↦ ground (arith, index_of_below s xs j f)
]

get_elem?_below :
    (xs : List WsaPollfd) (i : ℕ) → i < length xs → (x : WsaPollfd) × (get_elem? xs i ≡ some x)
get_elem?_below [] i h = absurd (omega arith)
get_elem?_below (x ∷ xs) zero h = (x, refl)
get_elem?_below (x ∷ xs) (suc i) h = get_elem?_below xs i (omega arith)

appended-IsAligned :
    (s : ℕ) (w : Wsa)
    → IsAligned w
    → IsAligned
        (record w { fd_array = w.fd_array ++ watched s ∷ []; sockets = w.sockets ++ s ∷ [] })
appended-IsAligned s w a = record {
  same = fds_of-append w.fd_array (watched s ∷ []) ∙ ap (λ t. t ++ s ∷ []) a.same;
  exist =
      AllBelow-le (length w.sockets) (length (w.sockets ++ s ∷ [])) w.free_space
        (omega (arith, length-append w.sockets (s ∷ []))) a.exist;
}

stored-IsAligned :
    (s i : ℕ) (v : WsaPollfd) (free : List ℕ) (w : Wsa)
    → IsAligned w
    → v.fd ≡ s
    → AllBelow (length w.sockets) free
    → IsAligned
        (record w { fd_array = set w.fd_array i v; sockets = set w.sockets i s; free_space = free })
stored-IsAligned s i v free w a e b = record {
  same = fds_of-set w.fd_array i v ∙ ap (λ t. set t i v.fd) a.same ∙ ap (set w.sockets i) e;
  exist = AllBelow-le _ _ free (omega (arith, length-set w.sockets i s)) b;
}

length_same : (w : Wsa) → IsAligned w → length w.fd_array ≡ length w.sockets
length_same w a = sym (length-fds_of w.fd_array) ∙ ap length a.same

put_socket-IsAligned :
    (s : ℕ) (w : Wsa) (free : List ℕ)
    → w.free_space ≡ free
    → IsAligned w
    → (w' : Wsa) × (put_socket s free w ≡ ok w') × IsAligned w'
unfolding put_socket
put_socket-IsAligned s w [] e a = (_, refl, appended-IsAligned s w a)
put_socket-IsAligned s w (i ∷ rest) e a =
    let (b, bs) = subst (AllBelow (length w.sockets)) e a.exist in
    (
      record w {
        fd_array = set w.fd_array i (watched s);
        sockets = set w.sockets i s;
        free_space = rest;
      },
      ground (arith, length_same w a),
      stored-IsAligned s i (watched s) rest w a refl bs,
    )

clear_slot_lem :
    (i : ℕ) (x : WsaPollfd) (w : Wsa)
    → get_elem? w.fd_array i ≡ some x
    → clear_slot i w
      ≡ ok (record w {
        fd_array = set w.fd_array i (record x { fd = 0 });
        sockets = set w.sockets i 0;
        free_space = i ∷ w.free_space;
      })
unfolding clear_slot
clear_slot_lem i x w e = rw (e, clear_slot) refl

is_ready_lem :
    (s i : ℕ) (x : WsaPollfd) (w : Wsa)
    → index_of s w.sockets ≡ some i
    → get_elem? w.fd_array i ≡ some x
    → (b : Bool) × (is_ready (some s) w ≡ ok b)
unfolding is_ready
is_ready_lem s i x w e f = (has_input x, rw (e, f, slot) refl)

clear_slot-IsAligned :
    (i : ℕ) (w : Wsa)
    → i < length w.sockets
    → IsAligned w
    → (w' : Wsa) × (clear_slot i w ≡ ok w') × IsAligned w'
clear_slot-IsAligned i w h a =
    let (x, e) = get_elem?_below w.fd_array i (omega (arith, length_same w a)) in
    (
      record w {
        fd_array = set w.fd_array i (record x { fd = 0 });
        sockets = set w.sockets i 0;
        free_space = i ∷ w.free_space;
      },
      clear_slot_lem i x w e,
      stored-IsAligned 0 i (record x { fd = 0 }) (i ∷ w.free_space) w a refl (h, a.exist),
    )

is_ready_missing :
    (s : ℕ) (w : Wsa) → index_of s w.sockets ≡ none → is_ready (some s) w ≡ throws runtime_error
unfolding is_ready
is_ready_missing s w e = rw e refl

-- While both vectors of a WSA have the same descriptors, slot by slot, and its free slots exist: adding
-- any descriptor returns and keeps that; removing one does too if it is there, and throws if it is not;
-- and `isReady` returns if it is there. None of them goes past an end.
pub slot_operations-IsAligned :
    (s : ℕ) (w : Wsa)
    → IsAligned w
    → ((w' : Wsa) × (add_socket (some s) w ≡ ok w') × IsAligned w')
      × (((is_some (index_of s w.sockets) ≡ true)
            × ((w' : Wsa) × (remove_socket (some s) w ≡ ok w') × IsAligned w')
            × ((b : Bool) × (is_ready (some s) w ≡ ok b)))
          ⊎ ((is_some (index_of s w.sockets) ≡ false)
              × (remove_socket (some s) w ≡ throws runtime_error)
              × (is_ready (some s) w ≡ throws runtime_error)))
unfolding add_socket remove_socket
slot_operations-IsAligned s w a = elim (Option-cases (index_of s w.sockets)) [
  | inl e ↦ (
    rw e (put_socket-IsAligned s w w.free_space refl a),
    inr (rw e refl, rw e refl, is_ready_missing s w e),
  )
  | inr (i, e) ↦
      let below = index_of_below s w.sockets i e in
      let (x, f) = get_elem?_below w.fd_array i (omega (arith, length_same w a)) in
      (
        rw e (w, refl, a),
        inl (rw e refl, rw e (clear_slot-IsAligned i w below a), is_ready_lem s i x w e f),
      )
]
