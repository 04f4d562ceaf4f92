-- ===== src/Prelude/Words.antt =====
-- Unsigned words as little-endian bytes, which is what a memcpy of one sees on the platforms built for.
use Prim.Native.Nat.{ℕ, zero, suc, ◌+◌, ◌*◌, ◌/◌, ◌%◌, ◌^◌, ◌<◌}
use mathlib.Core.Path.{◌≡◌, refl}
use mathlib.Core.List.{[], ◌∷◌}
use native.Mathlib.Nat.{pow-suc}
use native.Mathlib.Omega.{arith}
use flakkari.Prelude.Tests.{Bytes}
use flakkari.Prelude.Lists.{length, take, drop}

-- The `w` bytes of the word `n`.
unfoldable pub bytes_le : ℕ → ℕ → Bytes
bytes_le zero n = []
bytes_le (suc w) n = (n % 256) ∷ bytes_le w (n / 256)

unfoldable pub from_le : Bytes → ℕ
from_le [] = 0
from_le (b ∷ bs) = b + 256 * from_le bs

pub length-bytes_le : (w n : ℕ) → length (bytes_le w n) ≡ w
unfolding bytes_le
length-bytes_le zero n = refl
length-bytes_le (suc w) n = omega (arith, length-bytes_le w (n / 256))

pub from_le-bytes_le : (w n : ℕ) → n < 256 ^ w → from_le (bytes_le w n) ≡ n
unfolding bytes_le from_le
from_le-bytes_le zero n h = omega arith
from_le-bytes_le (suc w) n h =
    let e : 256 ^ suc w ≡ 256 ^ w * 256 = pow-suc 256 w in
    omega (arith, from_le-bytes_le w (n / 256) (omega arith))

-- Every element is a byte.
abbrev pub AreBytes : Bytes → Type 0
AreBytes [] = Unit {0}
AreBytes (x ∷ xs) = (x < 256) × AreBytes xs

pub take-AreBytes : (n : ℕ) (b : Bytes) → AreBytes b → AreBytes (take n b)
take-AreBytes zero b h = tt
take-AreBytes (suc n) [] h = tt
take-AreBytes (suc n) (x ∷ b) h = (h.0, take-AreBytes n b h.1)

pub drop-AreBytes : (n : ℕ) (b : Bytes) → AreBytes b → AreBytes (drop n b)
drop-AreBytes zero b h = h
drop-AreBytes (suc n) [] h = tt
drop-AreBytes (suc n) (x ∷ b) h = drop-AreBytes n b h.1

pub from_le-take_two : (b : Bytes) → AreBytes b → from_le (take 2 b) < 2 ^ 16
unfolding from_le
from_le-take_two [] h = omega arith
from_le-take_two (x ∷ []) h = omega arith
from_le-take_two (x ∷ y ∷ b) h = omega arith
