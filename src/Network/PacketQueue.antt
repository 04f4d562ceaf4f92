-- ===== src/Network/PacketQueue.antt =====
-- Network/PacketQueue.hpp: a deque behind a mutex, as the list of its elements from the front. Each method
-- holds the lock throughout, so a history of calls is a sequence of these functions.
use flakkari.Prelude.{
  ℕ, zero, suc, ◌≡◌, refl, ◌∙◌, ap, List, [], ◌∷◌, ◌++◌, append_assoc, append-nil, Bool, true,
  false, length, Outcome, ok, undefined, ◌>>=◌,
}

module _ {ℓ} {A : Type ℓ} where
  unfoldable pub push_back : A → List A → List A
  push_back v q = q ++ v ∷ []

  pub push_front : A → List A → List A
  push_front v q = v ∷ q

  pub front : List A → Outcome A
  front [] = undefined
  front (v ∷ q) = ok v

  pub back : List A → Outcome A
  back [] = undefined
  back (v ∷ []) = ok v
  back (v ∷ w ∷ q) = back (w ∷ q)

  unfoldable pub pop_front : List A → Outcome (A × List A)
  pop_front [] = undefined
  pop_front (v ∷ q) = ok (v, q)

  pub pop_back : List A → Outcome (A × List A)
  pop_back [] = undefined
  pop_back (v ∷ []) = ok (v, [])
  pop_back (v ∷ w ∷ q) = do (last, rest) ← pop_back (w ∷ q); drop_last last (v ∷ rest)
    where
      drop_last : A → List A → Outcome (A × List A)
      drop_last last rest = ok (last, rest)

  unfoldable pub empty : List A → Bool
  empty [] = true
  empty (v ∷ q) = false

  unfoldable pub size : List A → ℕ
  size q = length q

  pub clear : List A → List A
  clear q = []

  -- Several elements pushed one after the other, and several popped.
  abbrev pub push_each : List A → List A → List A
  push_each [] q = q
  push_each (v ∷ vs) q = push_each vs (push_back v q)

  abbrev pub pop_each : ℕ → List A → Outcome (List A × List A)
  pop_each zero q = ok ([], q)
  pop_each (suc n) q = pop_front q >>= λ vq. pop_each n vq.1 >>= λ rest. ok (vq.0 ∷ rest.0, rest.1)

  pop_each-append : (xs q : List A) → pop_each (length xs) (xs ++ q) ≡ ok (xs, q)
  unfolding pop_front
  pop_each-append [] q = refl
  pop_each-append (x ∷ xs) q =
      ap (λ r. r >>= λ rest. ok (x ∷ rest.0, rest.1)) (pop_each-append xs q)

  push_each-append : (vs q : List A) → push_each vs q ≡ q ++ vs
  unfolding push_back
  push_each-append [] q = simp append-nil
  push_each-append (v ∷ vs) q = push_each-append vs (q ++ v ∷ []) ∙ append_assoc q (v ∷ []) vs

  -- First in, first out: what is pushed at the back comes off the front behind what was there,
  -- each element once and in order, and as many pops as there are elements are defined.
  pub pop_each-push_each :
      (vs q : List A) → pop_each (length (q ++ vs)) (push_each vs q) ≡ ok (q ++ vs, [])
  pop_each-push_each vs q =
      rw (push_each-append vs q)
        (ap (pop_each (length (q ++ vs))) nil ∙ pop_each-append (q ++ vs) [])
    where
      nil : q ++ vs ≡ (q ++ vs) ++ []
      nil = simp append-nil

  -- What is pushed at the back can also be taken from the back.
  pub pop_back-push_back : (v : A) (q : List A) → pop_back (push_back v q) ≡ ok (v, q)
  unfolding pop_back push_back
  pop_back-push_back v [] = refl
  pop_back-push_back v (w ∷ []) = refl
  pop_back-push_back v (w ∷ u ∷ q) = rw (pop_back-push_back v (u ∷ q))
