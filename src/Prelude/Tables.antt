-- ===== src/Prelude/Tables.antt =====
-- std::unordered_map with keys that are only compared, as numbers; counting in a list of numbers.
use Prim.Native.Nat.{ℕ, zero, suc, ◌+◌, ◌<◌}
use mathlib.Core.Path.{◌≡◌, refl}
use mathlib.Core.Bool.{Bool, false, ◌||◌}
use mathlib.Core.List.{List, [], ◌∷◌, ◌++◌}
use mathlib.Core.Option.{Option, none, some}
use native.Mathlib.Omega.{arith}
use flakkari.Prelude.Lists.{length, get_elem?, set, get_elem?-set_self, get_elem?-set_ne}
use flakkari.Prelude.Tests.{◌==◌, if◌then◌else◌}

abbrev pub Table {ℓ} : Type ℓ → Type ℓ
Table V = List (ℕ × V)

module _ {ℓ} {V : Type ℓ} where
  unfoldable pub find : ℕ → Table V → Option V
  find k [] = none
  find k ((j, v) ∷ m) = if j == k then some v else find k m

  unfoldable pub assign : ℕ → V → Table V → Table V
  assign k v [] = (k, v) ∷ []
  assign k v ((j, w) ∷ m) = if j == k then (k, v) ∷ m else (j, w) ∷ assign k v m

  pub find-assign :
      (k j : ℕ) (v : V) (m : Table V)
      → find j (assign k v m) ≡ (if k == j then some v else find j m)
  unfolding find assign
  find-assign k j v [] = refl
  find-assign k j v ((i, w) ∷ m) = ground (arith, find-assign k j v m)

unfoldable pub contains_num : ℕ → List ℕ → Bool
contains_num k [] = false
contains_num k (x ∷ xs) = (x == k) || contains_num k xs

pub contains_num-append :
    (k : ℕ) (xs ys : List ℕ) → contains_num k (xs ++ ys) ≡ (contains_num k xs || contains_num k ys)
unfolding contains_num
contains_num-append k [] ys = refl
contains_num-append k (x ∷ xs) ys = ground (arith, contains_num-append k xs ys)

-- How often a number is in a list, and the list without its first occurrence.
unfoldable pub count : ℕ → List ℕ → ℕ
count k [] = 0
count k (x ∷ xs) = (if x == k then 1 else 0) + count k xs

unfoldable pub remove_one : ℕ → List ℕ → List ℕ
remove_one k [] = []
remove_one k (x ∷ xs) = if x == k then xs else x ∷ remove_one k xs

pub count-append : (k : ℕ) (xs ys : List ℕ) → count k (xs ++ ys) ≡ count k xs + count k ys
unfolding count
count-append k [] ys = omega arith
count-append k (x ∷ xs) ys = omega (arith, count-append k xs ys)

pub count-remove_one :
    (k j : ℕ) (xs : List ℕ)
    → count k xs ≡ 1
    → count j (remove_one k xs) + (if k == j then 1 else 0) ≡ count j xs
unfolding count remove_one
count-remove_one k j [] h = absurd (omega arith)
count-remove_one k j (x ∷ xs) h = ground (arith, count-remove_one k j xs)

pub lt-get_elem? {ℓ} :
    {A : Type ℓ} (xs : List A) (i : ℕ) {a : A} → get_elem? xs i ≡ some a → i < length xs
lt-get_elem? [] i h = cc
lt-get_elem? (x ∷ xs) zero h = omega arith
lt-get_elem? (x ∷ xs) (suc i) h = omega (arith, lt-get_elem? xs i h)

-- A write at an index that holds something.
pub get_elem?-set :
    {A : Type 0} (xs : List A) (i j : ℕ) (a v : A)
    → get_elem? xs i ≡ some a
    → get_elem? (set xs i v) j ≡ (if i == j then some v else get_elem? xs j)
get_elem?-set xs i j a v h =
    ground (arith, get_elem?-set_self xs i v (lt-get_elem? xs i h), get_elem?-set_ne xs i j v)

pub contains_num-count : (k : ℕ) (xs : List ℕ) → contains_num k xs ≡ false → count k xs ≡ 0
unfolding contains_num count
contains_num-count k [] h = refl
contains_num-count k (x ∷ xs) h = ground (arith, contains_num-count k xs)

pub count-contains_num : (k : ℕ) (xs : List ℕ) → count k xs ≡ 0 → contains_num k xs ≡ false
unfolding contains_num count
count-contains_num k [] h = refl
count-contains_num k (x ∷ xs) h = ground (arith, count-contains_num k xs)
