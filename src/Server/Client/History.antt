-- ===== src/Server/Client/History.antt =====
-- Server/Client/Client.cpp: `addPacketToHistory`, on the history and its limit.
use flakkari.Prelude.{
  ℕ, zero, suc, ◌-◌, ◌≤◌, ◌<◌, ◌≡◌, refl, [], ◌∷◌, ◌++◌, List, Bytes, length, length-append, drop,
  leb, if◌then◌else◌, arith, Bool-cases, inl, inr, ◌∙◌, sym, ap, append_assoc, append-nil,
  length-drop, leb→le, le→leb, gt→leb,
}

-- The oldest packet goes when the limit is reached. (Erasing the first of none is undefined, for a limit of
-- 0; the limit is 10 and never set.)
pub add_packet_to_history : ℕ → Bytes → List Bytes → List Bytes
add_packet_to_history limit packet history =
    (if leb limit (length history) then drop 1 history else history) ++ packet ∷ []

-- Packets added one after the other.
abbrev pub add_each : ℕ → List Bytes → List Bytes → List Bytes
add_each limit [] history = history
add_each limit (p ∷ ps) history = add_each limit ps (add_packet_to_history limit p history)

drop-snoc :
    (n : ℕ) (xs : List Bytes) (x : Bytes)
    → n ≤ length xs
    → drop n (xs ++ x ∷ []) ≡ drop n xs ++ x ∷ []
drop-snoc zero xs x h = refl
drop-snoc (suc n) [] x h = elim h [ ]
drop-snoc (suc n) (y ∷ xs) x h = drop-snoc n xs x (omega arith)

drop_one : (n : ℕ) (xs : List Bytes) → drop 1 (drop n xs) ≡ drop (suc n) xs
drop_one zero [] = refl
drop_one zero (x ∷ xs) = refl
drop_one (suc n) [] = refl
drop_one (suc n) (x ∷ xs) = drop_one n xs

abbrev recent : ℕ → List Bytes → List Bytes
recent limit ps = drop (length ps - limit) ps

add_packet_to_history-recent :
    (limit : ℕ) (p : Bytes) (qs : List Bytes)
    → 0 < limit
    → add_packet_to_history limit p (recent limit qs) ≡ recent limit (qs ++ p ∷ [])
unfolding add_packet_to_history
add_packet_to_history-recent limit p qs h = elim (Bool-cases (leb limit (length qs))) [
  | inl full ↦
      let k = length qs - limit in
      let e : length (qs ++ p ∷ []) - limit ≡ suc k =
        omega (arith, leb→le limit (length qs) full, length-append qs (p ∷ [])) in
      rw
        (
          e,
          le→leb limit (length (drop k qs))
              (omega (arith, leb→le limit (length qs) full, length-drop k qs)),
        )
        (rw (drop_one k qs)
          (sym (drop-snoc (suc k) qs p (omega (arith, leb→le limit (length qs) full)))))
  | inr room ↦
      let short : length qs < limit = gt→leb limit (length qs) room in
      let e : length (qs ++ p ∷ []) - limit ≡ 0 = omega (arith, length-append qs (p ∷ [])) in
      let d : length qs - limit ≡ 0 = omega arith in rw (e, d, room)
]

add_each-recent :
    (limit : ℕ) (ps qs : List Bytes)
    → 0 < limit
    → add_each limit ps (recent limit qs) ≡ recent limit (qs ++ ps)
add_each-recent limit [] qs h = ap (recent limit) (sym (append-nil qs))
add_each-recent limit (p ∷ ps) qs h =
    ap (add_each limit ps) (add_packet_to_history-recent limit p qs h)
    ∙ add_each-recent limit ps (qs ++ p ∷ []) h
    ∙ ap (recent limit) (append_assoc qs (p ∷ []) ps)

no_length : (limit : ℕ) → 0 - limit ≡ 0
no_length limit = omega arith

-- From an empty history and with a limit above 0, the history is the most recent packets, in order, as
-- many as the limit allows.
pub add_packet_to_history_recent :
    (limit : ℕ) (ps : List Bytes) → 0 < limit → add_each limit ps [] ≡ drop (length ps - limit) ps
add_packet_to_history_recent limit ps h =
    ap (add_each limit ps) nothing ∙ add_each-recent limit ps [] h
  where
    nothing : [] ≡ recent limit []
    nothing = rw no_length refl
