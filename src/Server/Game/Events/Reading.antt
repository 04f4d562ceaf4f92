-- ===== src/Server/Game/Events/Reading.antt =====
-- Server/Game/Game.cpp: how `handleEvents` reads a payload.
use flakkari.Prelude.{
  ℕ, zero, suc, ◌+◌, ◌*◌, ◌≤◌, ◌<◌, ◌≡◌, refl, sym, ap, ◌∙◌, ◌⊎◌, inl, inr, [], ◌∷◌, List, Bytes,
  length, take, drop, from_le, ltb→lt, ltb→le, Outcome, ok, undefined, ◌>>=◌, ltb, arith,
  Bool-cases,
}
use native.Mathlib.Nat.{suc-mul}
use flakkari.Ecs.Component.{Control}
use flakkari.Server.Game.Floats.{Floats}
use flakkari.Server.Game.Events.{Motion, read_at, events_from, axes_from, run_events}

drop_nil : (n : ℕ) → drop {A = ℕ} n [] ≡ []
drop_nil zero = refl
drop_nil (suc n) = refl

pub drop-drop : (m n : ℕ) (b : Bytes) → drop (m + n) b ≡ drop n (drop m b)
drop-drop zero n b = ap (λ k. drop k b) (omega arith)
drop-drop (suc m) n [] = drop_nil (suc m + n) ∙ sym (drop_nil n)
drop-drop (suc m) n (x ∷ b) =
    let e : suc m + n ≡ suc (m + n) = omega arith in ap (λ k. drop k (x ∷ b)) e ∙ drop-drop m n b

pub read_at_within :
    (w i : ℕ) (b : Bytes) → i + w ≤ length b → read_at w i b ≡ ok (take w (drop i b))
unfolding read_at
read_at_within w i b h = ground arith

read_at_past : (w i : ℕ) (b : Bytes) → length b < i + w → read_at w i b ≡ undefined
unfolding read_at
read_at_past w i b h = ground arith

-- What a call of one of the loops from an offset may do, with `n` rounds of `w` bytes left.
abbrev ReadsAll : ℕ → ℕ → ℕ → Bytes → Outcome Motion → Type 0
ReadsAll w n i b o =
    ((i + n * w ≤ length b) × ((m : Motion) × (o ≡ ok m)))
    ⊎ ((length b < i + n * w) × (o ≡ undefined))

ReadsAll-more :
    (w n i : ℕ) (b : Bytes) (o : Outcome Motion)
    → ReadsAll w n (i + w) b o
    → ReadsAll w (suc n) i b o
ReadsAll-more w n i b o (inl (h, r)) = inl (omega (arith, suc-mul n w), r)
ReadsAll-more w n i b o (inr (h, r)) = inr (omega (arith, suc-mul n w), r)

module _ (f : Floats) (now p : ℕ) (players : List ℕ) (ctrl : Control) where
  events_from-ReadsAll :
      (n i : ℕ) (b : Bytes) (m : Motion)
      → i ≤ length b
      → ReadsAll 2 n i b (events_from f now p players ctrl n i b m)
  unfolding events_from
  events_from-ReadsAll zero i b m h = inl (omega arith, (m, refl))
  events_from-ReadsAll (suc n) i b m h = elim (Bool-cases (ltb (length b) (i + 2))) [
    | inl e ↦ inr (omega (arith, ltb→lt _ _ e), rw (read_at_past 2 i b (ltb→lt _ _ e)) refl)
    | inr e ↦ ReadsAll-more 2 n i b _ (
        rw (read_at_within 2 i b (ltb→le _ _ e))
          (events_from-ReadsAll n (i + 2) b _ (ltb→le _ _ e)))
  ]

  axes_from-ReadsAll :
      (n i : ℕ) (b : Bytes) (m : Motion)
      → i ≤ length b
      → ReadsAll 5 n i b (axes_from f now p players ctrl n i b m)
  unfolding axes_from
  axes_from-ReadsAll zero i b m h = inl (omega arith, (m, refl))
  axes_from-ReadsAll (suc n) i b m h = elim (Bool-cases (ltb (length b) (i + 5))) [
    | inl e ↦ inr (omega (arith, ltb→lt _ _ e), rw (read_at_past 5 i b (ltb→lt _ _ e)) refl)
    | inr e ↦
        ReadsAll-more 5 n i b _ (
          rw (read_at_within 5 i b (ltb→le _ _ e))
            (axes_from-ReadsAll n (i + 5) b _ (ltb→le _ _ e)))
  ]

  within :
      (n k : ℕ) (b : Bytes) (m : Motion)
      → 4 + n * 2 ≤ length b
      → ReadsAll 5 k (2 + n * 2 + 2) b (
          events_from f now p players ctrl n 2 b m >>= λ m'.
          axes_from f now p players ctrl k (2 + n * 2 + 2) b m')
  within n k b m h = elim (events_from-ReadsAll n 2 b m (omega arith)) [
    | inl (_, (m', e)) ↦ rw e (axes_from-ReadsAll k (2 + n * 2 + 2) b m' (omega arith))
    | inr (short, _) ↦ absurd (omega arith)
  ]

  past_count :
      (n : ℕ) (b : Bytes) (m : Motion)
      → let k = from_le (take 2 (drop (2 + n * 2) b)) in
        let o = read_at 2 (2 + n * 2) b >>= λ c. events_from f now p players ctrl n 2 b m >>= λ m'.
        axes_from f now p players ctrl (from_le c) (2 + n * 2 + 2) b m' in
        ((4 + n * 2 + k * 5 ≤ length b) × ((m' : Motion) × (o ≡ ok m')))
        ⊎ ((length b < 4 + n * 2 + k * 5) × (o ≡ undefined))
  past_count n b m = elim (Bool-cases (ltb (length b) (2 + n * 2 + 2))) [
    | inl e ↦
        inr (omega (arith, ltb→lt _ _ e), rw (read_at_past 2 (2 + n * 2) b (ltb→lt _ _ e)) refl)
    | inr e ↦
        rw (read_at_within 2 (2 + n * 2) b (ltb→le _ _ e))
          (elim (within n (from_le (take 2 (drop (2 + n * 2) b))) b m
            (omega (arith, ltb→le _ _ e))) [
              | inl (h, r) ↦ inl (omega (arith, h), r)
              | inr (h, r) ↦ inr (omega (arith, h), r)
            ])
  ]

  -- For a body of `n` events and `k` axis events, as its two counts name them: it is read whole, and some
  -- motion results, when the payload has the 4 + 2n + 5k bytes that the counts announce, and read past its
  -- end, which is undefined, when it has fewer. No count is tested.
  pub run_events_reads :
      (b : Bytes) (m : Motion)
      → let n = from_le (take 2 b) in
        let k = from_le (take 2 (drop (2 + n * 2) b)) in
        ((4 + n * 2 + k * 5 ≤ length b)
          × ((m' : Motion) × (run_events f now p players ctrl b m ≡ ok m')))
        ⊎ ((length b < 4 + n * 2 + k * 5) × (run_events f now p players ctrl b m ≡ undefined))
  unfolding run_events
  run_events_reads b m = elim (Bool-cases (ltb (length b) 2)) [
    | inl e ↦ inr (omega (arith, ltb→lt _ _ e), rw (read_at_past 2 0 b (ltb→lt _ _ e)) refl)
    | inr e ↦ rw (read_at_within 2 0 b (ltb→le _ _ e)) (past_count (from_le (take 2 b)) b m)
  ]
