-- ===== src/Network/Socket/Blocking.antt =====
-- Network/Socket.cpp: `setBlocking`.
use flakkari.Prelude.{ℕ, ◌≡◌, refl, true, false, Option, some, arith, inl, inr, ◌⊎◌}
use flakkari.Network.Socket.{Kernel, Socket, is_nonblocking, or_nonblock, with_flags, set_blocking}

-- fcntl: flags that are written to a descriptor are read back, where the write changes no more than
-- O_NONBLOCK, one of the flags that F_SETFL may change.
pub record KeepsFlags {W : Type 0} (k : Kernel W) (fd : Option ℕ) : Type 0 where
  pub writing :
      (old new : ℕ) (w : W)
      → (k.get_flags fd w).0 ≡ some old
      → (new ≡ old) ⊎ (new ≡ or_nonblock old)
      → (k.get_flags fd (k.set_flags fd new (k.get_flags fd w).1).1).0 ≡ some new

is_nonblocking-or : (flags : ℕ) → is_nonblocking (or_nonblock flags) ≡ true
unfolding is_nonblocking or_nonblock
is_nonblocking-or flags = ground arith

module _ {W : Type 0} (k : Kernel W) (s : Socket) (w : W) (flags : ℕ) where
  -- `setBlocking` where the system keeps the flags of the descriptor: asked for a socket that does not
  -- block, it sets O_NONBLOCK; asked for one that blocks, it leaves all flags as they were, so that a
  -- socket that does not block stays so.
  pub set_blocking-flags :
      KeepsFlags k s.descriptor
      → (k.get_flags s.descriptor w).0 ≡ some flags
      → ((k.get_flags s.descriptor (set_blocking k true s w)).0 ≡ some flags)
        × ((k.get_flags s.descriptor (set_blocking k false s w)).0 ≡ some (or_nonblock flags))
        × (is_nonblocking (or_nonblock flags) ≡ true)
  unfolding set_blocking
  set_blocking-flags h e = (
    rw (e, with_flags) (h.writing flags flags w e (inl refl)),
    rw (e, with_flags) (h.writing flags (or_nonblock flags) w e (inr refl)),
    is_nonblocking-or flags,
  )
