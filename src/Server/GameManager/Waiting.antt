-- ===== src/Server/GameManager/Waiting.antt =====
-- Server/Game/GameManager.cpp: places in the queue of a game.
use flakkari.Prelude.{
  ℕ, suc, ◌+◌, ◌≤◌, ◌≡◌, refl, ap, [], ◌∷◌, ◌++◌, List, true, false, none, some, Bytes, contains,
  get_default, lookup, insert, lookup-insert, length-append, text_eq_refl, ok, get_elem?, length,
  take, count, arith, ◌==◌, ==_iff, ◌⊎◌, inl, inr, Bool-cases,
}
use flakkari.Server.Game.{GameConfig}
use flakkari.Server.GameManager.{
  GameManager, Hall, index_from, get_index_in_waiting_queue, is_client_waiting, add_client_to_game,
  place, needs_instance,
}

index_from_cases :
    (i p : ℕ) (qs : List ℕ)
    → ((index_from i p qs ≡ none) × (count p qs ≡ 0))
      ⊎ ((j : ℕ) × (index_from i p qs ≡ some (i + j))
          × (get_elem? qs j ≡ some p)
          × (count p (take j qs) ≡ 0))
unfolding index_from count
index_from_cases i p [] = inl (refl, refl)
index_from_cases i p (q ∷ qs) = elim (Bool-cases (q == p)) [
  | inl same ↦ inr (0, ground arith, ap some ((==_iff q p).0 same), refl)
  | inr other ↦ elim (index_from_cases (i + 1) p qs) [
    | inl (e, c) ↦ inl (ground arith, ground arith)
    | inr (j, e, here, before) ↦ inr (suc j, ground arith, here, ground arith)
  ]
]

-- Of a game that is in the store: `getIndexInWaitingQueue` gives -1 exactly for a client that does not
-- wait, and else the client's first place: the client stands there, and nowhere before.
pub get_index_in_waiting_queue_cases :
    (name : Bytes) (p : ℕ) (m : GameManager)
    → contains name m.games_store ≡ true
    → let queue = get_default [] name m.waiting_clients in
      let index = get_index_in_waiting_queue name p m in
      ((index ≡ none) × (count p queue ≡ 0))
      ⊎ ((j : ℕ) × (index ≡ some j) × (get_elem? queue j ≡ some p) × (count p (take j queue) ≡ 0))
unfolding get_index_in_waiting_queue
get_index_in_waiting_queue_cases name p m h =
    elim (index_from_cases 0 p (get_default [] name m.waiting_clients)) [
      | inl (e, c) ↦ inl (ground arith, c)
      | inr (j, e, here, before) ↦ inr (j, ground arith, here, before)
    ]

index_from-snoc :
    (i p : ℕ) (qs : List ℕ) → count p qs ≡ 0 → index_from i p (qs ++ p ∷ []) ≡ some (i + length qs)
unfolding index_from count
index_from-snoc i p [] h = ground arith
index_from-snoc i p (q ∷ qs) h = ground (arith, index_from-snoc (i + 1) p qs)

module _ (to_float : ℕ → ℕ) where
  -- Where an online game has as many instances as it may have and the last one has no place left,
  -- `addClientToGame` answers true and the client waits behind everyone who waited before:
  -- `getIndexInWaitingQueue` finds a client that did not wait at their number, and `isClientWaiting`
  -- answers false. No client is written to.
  pub add_client_to_game_full :
      (now p : ℕ) (name : Bytes) (config : GameConfig) (hall : Hall)
      → let gs = get_default [] name hall.manager.games_instances in
        let queue = get_default [] name hall.manager.waiting_clients in
        lookup name hall.manager.games_store ≡ some config
        → config.online ≡ true
        → needs_instance config.max_players gs ≡ true
        → config.max_instances ≤ length gs
        → count p queue ≡ 0
        → (hall' : Hall) × (add_client_to_game to_float now name p hall ≡ ok (true, hall'))
          × (get_index_in_waiting_queue name p hall'.manager ≡ some (length queue))
          × (is_client_waiting name hall'.manager ≡ false)
          × (hall'.heap ≡ hall.heap)
  unfolding add_client_to_game place get_index_in_waiting_queue is_client_waiting
  add_client_to_game_full now p name config hall stored online needed full absent =
      let queue = get_default [] name hall.manager.waiting_clients in
      let hall' : Hall = record hall {
        manager = record (hall.manager) {
          games_instances =
              insert name (get_default [] name hall.manager.games_instances)
                hall.manager.games_instances;
          waiting_clients = insert name (queue ++ p ∷ []) hall.manager.waiting_clients;
        };
      } in
      let queued : lookup name hall'.manager.waiting_clients ≡ some (queue ++ p ∷ []) = ground (
        arith,
        lookup-insert name name (queue ++ p ∷ []) hall.manager.waiting_clients,
        text_eq_refl name,
      ) in
      (
        hall',
        ground arith,
        ground (arith, index_from-snoc 0 p queue),
        ground (arith, length-append queue (p ∷ [])),
        refl,
      )
