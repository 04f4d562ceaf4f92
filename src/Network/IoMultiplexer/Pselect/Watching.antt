-- ===== src/Network/IoMultiplexer/Pselect/Watching.antt =====
-- Network/IOMultiplexer.cpp: PSELECT implements a set of descriptors.
use flakkari.Prelude.{
  ℕ, ◌+◌, ◌≤◌, ◌<◌, ◌≡◌, refl, ap, ◌∙◌, ◌⊎◌, inl, inr, [], ◌∷◌, ◌++◌, List, Bool, true, false, not,
  ◌&&◌, ◌||◌, some, ok, throws, undefined, runtime_error, ◌>>=◌, ltb, leb, ◌==◌, if◌then◌else◌,
  arith, contains_num,
}
use flakkari.Network.IoMultiplexer.Pselect.{
  Pselect, fd_setsize, no_bits, put_bit, add_socket, remove_all, max_from, max_element,
  remove_socket, fd_set, set_each, wait,
}

-- The descriptors that it watches are those of a set; each is at most `max_fd`, which has a bit.
pub record Watches (p : Pselect) (set : ℕ → Bool) : Type 0 where
  pub members : (t : ℕ) → contains_num t p.sockets ≡ set t
  pub bounded : (t : ℕ) → (not (contains_num t p.sockets) || leb t p.max_fd) ≡ true
  pub has_bit : p.max_fd < fd_setsize

-- The sets that adding and removing lead to.
abbrev pub with_fd : ℕ → (ℕ → Bool) → ℕ → Bool
with_fd s set t = (t == s) || set t

abbrev pub without_fd : ℕ → (ℕ → Bool) → ℕ → Bool
without_fd s set t = not (t == s) && set t

contains_num-snoc :
    (t s : ℕ) (xs : List ℕ) → contains_num t (xs ++ s ∷ []) ≡ ((t == s) || contains_num t xs)
unfolding contains_num
contains_num-snoc t s [] = ground arith
contains_num-snoc t s (x ∷ xs) = ground (arith, contains_num-snoc t s xs)

contains_num-remove_all :
    (t s : ℕ) (xs : List ℕ) → contains_num t (remove_all s xs) ≡ (not (t == s) && contains_num t xs)
unfolding contains_num remove_all
contains_num-remove_all t s [] = ground arith
contains_num-remove_all t s (x ∷ xs) = ground (arith, contains_num-remove_all t s xs)

le-max_from : (m : ℕ) (xs : List ℕ) → m ≤ max_from m xs
unfolding max_from
le-max_from m [] = omega arith
le-max_from m (x ∷ xs) = ground (arith, le-max_from (if ltb m x then x else m) xs)

max_from_bounds :
    (t m : ℕ) (xs : List ℕ) → (not (contains_num t xs) || leb t (max_from m xs)) ≡ true
unfolding contains_num max_from
max_from_bounds t m [] = refl
max_from_bounds t m (x ∷ xs) = ground (
  arith,
  max_from_bounds t (if ltb m x then x else m) xs,
  le-max_from (if ltb m x then x else m) xs,
)

-- The largest is one of them, and no other is larger.
max_from_member :
    (m : ℕ) (xs : List ℕ) → (contains_num (max_from m xs) xs || (max_from m xs == m)) ≡ true
unfolding contains_num max_from
max_from_member m [] = ground arith
max_from_member m (x ∷ xs) = ground (arith, max_from_member (if ltb m x then x else m) xs)

max_element_member : (x : ℕ) (xs : List ℕ) → contains_num (max_from x xs) (x ∷ xs) ≡ true
unfolding contains_num
max_element_member x xs = ground (arith, max_from_member x xs)

max_element_bounds :
    (t x : ℕ) (xs : List ℕ) → (not (contains_num t (x ∷ xs)) || leb t (max_from x xs)) ≡ true
unfolding contains_num
max_element_bounds t x xs = ground (arith, max_from_bounds t x xs, le-max_from x xs)

List-cases : (xs : List ℕ) → (xs ≡ []) ⊎ ((x : ℕ) × ((ys : List ℕ) × (xs ≡ x ∷ ys)))
List-cases [] = inl refl
List-cases (x ∷ xs) = inr (x, (xs, refl))

module _ (s : ℕ) (p : Pselect) (set : ℕ → Bool) (w : Watches p set) where
  added : Pselect
  added = record p {
    fds = put_bit s true p.fds;
    sockets = p.sockets ++ s ∷ [];
    max_fd = if ltb p.max_fd s then s else p.max_fd;
  }

  added-Watches : s < fd_setsize → Watches added (with_fd s set)
  unfolding added
  added-Watches h = record {
    members = λ t. ground (arith, contains_num-snoc t s p.sockets, w.members t);
    bounded = λ t. ground (arith, contains_num-snoc t s p.sockets, w.bounded t);
    has_bit = ground (arith, w.has_bit);
  }

  removed : ℕ → Pselect
  removed m = record p { fds = put_bit s false p.fds; sockets = remove_all s p.sockets; max_fd = m }

  below : (x : ℕ) (xs : List ℕ) → remove_all s p.sockets ≡ x ∷ xs → max_from x xs < fd_setsize
  below x xs e =
      let m = max_from x xs in
      let held : contains_num m (remove_all s p.sockets) ≡ true = rw e (max_element_member x xs) in
      ground (arith, held, contains_num-remove_all m s p.sockets, w.bounded m, w.has_bit)

  removed-Watches :
      (x : ℕ) (xs : List ℕ)
      → remove_all s p.sockets ≡ x ∷ xs
      → Watches (removed (max_from x xs)) (without_fd s set)
  unfolding removed
  removed-Watches x xs e = record {
    members =
        λ t. contains_num-remove_all t s p.sockets ∙ ap (λ b. not (t == s) && b) (w.members t);
    bounded = λ t. rw e (max_element_bounds t x xs);
    has_bit = below x xs e;
  }

  -- For a PSELECT that watches a set, whose largest descriptor has a bit: adding a descriptor below 1024
  -- makes it watch the set with that descriptor; adding 1024 itself writes outside of the bits, which is
  -- undefined, and adding a larger one throws.
  pub add_socket_refines :
      ((s < fd_setsize)
        × ((p' : Pselect) × (add_socket (some s) p ≡ ok p') × Watches p' (with_fd s set)))
      ⊎ ((s ≡ fd_setsize) × (add_socket (some s) p ≡ undefined))
      ⊎ ((fd_setsize < s) × (add_socket (some s) p ≡ throws runtime_error))
  unfolding add_socket fd_set added
  add_socket_refines = ground (arith, added-Watches)

  -- Removing a descriptor throws above the largest one that is watched; otherwise it makes it watch the
  -- set without that descriptor, unless nothing is left: then it reads the end of the empty list, which is
  -- undefined.
  pub remove_socket_refines :
      ((p.max_fd < s) × (set s ≡ false) × (remove_socket (some s) p ≡ throws runtime_error))
      ⊎ ((s ≤ p.max_fd) × (remove_all s p.sockets ≡ []) × (remove_socket (some s) p ≡ undefined))
      ⊎ ((s ≤ p.max_fd)
          × ((p' : Pselect) × (remove_socket (some s) p ≡ ok p') × Watches p' (without_fd s set)))
  unfolding remove_socket removed max_element
  remove_socket_refines = elim (List-cases (remove_all s p.sockets)) [
    | inl e ↦ ground (arith, w.has_bit, w.members s, w.bounded s)
    | inr (x, (xs, e)) ↦ ground (arith, w.has_bit, w.members s, w.bounded s, removed-Watches x xs e)
  ]

or_false : (b : Bool) → (b || false) ≡ b
or_false true = refl
or_false false = refl

set_each_lem :
    (xs : List ℕ) (fds : ℕ → Bool)
    → ((t : ℕ) → (not (contains_num t xs) || ltb t fd_setsize) ≡ true)
    → set_each xs fds ≡ ok (λ t. contains_num t xs || fds t)
unfolding set_each contains_num fd_set
set_each_lem [] fds h = refl
set_each_lem (x ∷ xs) fds h =
    first
    ∙ set_each_lem xs (put_bit x true fds) (λ t. ground (arith, h t))
    ∙ ap ok (λ i t. same t i)
  where
    first : (fd_set x fds >>= set_each xs) ≡ set_each xs (put_bit x true fds)
    first = ground (arith, h x)

    same :
        (t : ℕ) → (contains_num t xs || put_bit x true fds t) ≡ (contains_num t (x ∷ xs) || fds t)
    same t = ground arith

-- A PSELECT that watches a set, whose largest descriptor has a bit, waits on exactly that set: the system
-- call gets its bits, and a number of descriptors above each of its members, whatever bits the last call
-- left. It keeps what it watches, and takes the bits that the call leaves.
pub wait-Watches :
    {R : Type 0} (pselect : ℕ → (ℕ → Bool) → ℕ × ℕ → R × (ℕ → Bool)) (p : Pselect) (set : ℕ → Bool)
    (t : ℕ)
    → Watches p set
    → (let (result, ready) = pselect (p.max_fd + 1) set (p.seconds, p.nanoseconds) in
        wait pselect p ≡ ok (result, record p { fds = ready }))
      × ((not (set t) || ltb t (p.max_fd + 1)) ≡ true)
unfolding wait
wait-Watches pselect p set t w = (rw bits refl, ground (arith, w.members t, w.bounded t))
  where
    bits : set_each p.sockets no_bits ≡ ok set
    bits =
        set_each_lem p.sockets no_bits (λ t. ground (arith, w.bounded t, w.has_bit))
        ∙ ap ok (λ i t. (or_false (contains_num t p.sockets) ∙ w.members t) i)
