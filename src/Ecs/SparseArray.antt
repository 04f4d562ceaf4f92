-- ===== src/Ecs/SparseArray.antt =====
-- Engine/EntityComponentSystem/SparseArrays.hpp: a vector of optional components by entity.
use flakkari.Prelude.{
  ℕ, zero, suc, ◌+◌, ◌-◌, ◌<◌, ◌≤◌, ◌≡◌, refl, List, [], ◌∷◌, ◌++◌, Bool, Option, none, some, arith,
  length, get_or, set, length-set, ltb→lt, replicate, ltb, leb, ◌==◌, if◌then◌else◌, Bool-cases,
  inl, inr,
}

module _ {ℓ} {C : Type ℓ} where
  -- What an index holds: nothing past the end, as in `operator[] const`.
  unfoldable pub at : List (Option C) → ℕ → Option C
  at xs idx = get_or xs idx none

  -- `_data.resize(idx + 1, std::nullopt)`, if the index is past the end.
  unfoldable pub grow : List (Option C) → ℕ → List (Option C)
  grow xs idx = if leb (length xs) idx then xs ++ replicate (idx + 1 - length xs) none else xs

  -- `insert_at` (both overloads) and `emplace_at`
  unfoldable pub insert_at : List (Option C) → ℕ → C → List (Option C)
  unfolding grow
  insert_at xs pos component = set (grow xs pos) pos (some component)

  unfoldable pub erase : List (Option C) → ℕ → List (Option C)
  erase xs pos = if ltb pos (length xs) then set xs pos none else xs

  -- `get_index`: the first index that holds an equal component, or the size.
  pub get_index : (C → Bool) → List (Option C) → ℕ
  get_index is_it [] = 0
  get_index is_it (none ∷ xs) = suc (get_index is_it xs)
  get_index is_it (some c ∷ xs) = if is_it c then 0 else suc (get_index is_it xs)

  get_or-grown :
      (xs : List (Option C)) (n j : ℕ) → get_or (xs ++ replicate n none) j none ≡ get_or xs j none
  get_or-grown [] zero j = refl
  get_or-grown [] (suc n) zero = refl
  get_or-grown [] (suc n) (suc j) = get_or-grown [] n j
  get_or-grown (x ∷ xs) n zero = refl
  get_or-grown (x ∷ xs) n (suc j) = get_or-grown xs n j

  length-grown : (xs : List (Option C)) (n : ℕ) → length (xs ++ replicate n none) ≡ length xs + n
  length-grown [] zero = omega arith
  length-grown [] (suc n) = omega (arith, length-grown [] n)
  length-grown (x ∷ xs) n = omega (arith, length-grown xs n)

  get_or-set :
      (xs : List (Option C)) (i j : ℕ) (v : Option C)
      → i < length xs
      → get_or (set xs i v) j none ≡ (if i == j then v else get_or xs j none)
  get_or-set [] i j v h = elim h [ ]
  get_or-set (x ∷ xs) zero zero v h = ground arith
  get_or-set (x ∷ xs) zero (suc j) v h = ground arith
  get_or-set (x ∷ xs) (suc i) zero v h = ground arith
  get_or-set (x ∷ xs) (suc i) (suc j) v h = ground (arith, get_or-set xs i j v)

  pub at-grow : (xs : List (Option C)) (idx j : ℕ) → at (grow xs idx) j ≡ at xs j
  unfolding at grow
  at-grow xs idx j = ground (arith, get_or-grown xs (idx + 1 - length xs) j)

  pub length-grow : (xs : List (Option C)) (idx : ℕ) → idx < length (grow xs idx)
  unfolding grow
  length-grow xs idx = ground (arith, length-grown xs (idx + 1 - length xs))

  pub get_or_above : (xs : List (Option C)) (i : ℕ) → length xs ≤ i → get_or xs i none ≡ none
  get_or_above [] i h = refl
  get_or_above (x ∷ xs) zero h = elim h [ ]
  get_or_above (x ∷ xs) (suc i) h = get_or_above xs i (omega arith)

  -- A component that is put at an index is found there and disturbs no other.
  pub at-insert_at :
      (xs : List (Option C)) (pos j : ℕ) (component : C)
      → at (insert_at xs pos component) j ≡ (if pos == j then some component else at xs j)
  unfolding at insert_at
  at-insert_at xs pos j component = ground (
    arith,
    get_or-set (grow xs pos) pos j (some component) (length-grow xs pos),
    get_or-grown xs (pos + 1 - length xs) j,
  )

  -- An erased index holds nothing, also past the end, and the other ones keep what they hold.
  pub at-erase :
      (xs : List (Option C)) (pos j : ℕ)
      → at (erase xs pos) j ≡ (if pos == j then none else at xs j)
  unfolding at erase
  at-erase xs pos j = elim (Bool-cases (ltb pos (length xs))) [
    | inl e ↦ rw e (get_or-set xs pos j none (ltb→lt _ _ e))
    | inr e ↦ rw e (ground (arith, get_or_above xs j))
  ]

  pub length-erase : (xs : List (Option C)) (pos : ℕ) → length (erase xs pos) ≡ length xs
  unfolding erase
  length-erase xs pos = ground (arith, length-set xs pos none)

  pub at_empty : (j : ℕ) → at [] j ≡ none
  unfolding at
  at_empty j = refl
