-- ===== src/Server/GameManager/Admission.antt =====
-- Server/Game/GameManager.cpp: `addClientToGame` and the instances of a game.
use flakkari.Prelude.{
  ℕ, ◌≤◌, ◌≡◌, refl, ap, subst, [], ◌∷◌, ◌++◌, List, Bool, true, false, none, some, Bytes,
  get_default, Dict, lookup, insert, lookup-insert, text_eq_refl, ok, leb, length, length-append,
  count, arith, if◌then◌else◌, ◌⊎◌, inl, inr, Bool-cases, >>=-eq-ok, ◌&&◌,
}
use flakkari.Server.Game.{Game, GameConfig, new_game, Template}
use flakkari.Server.Game.Creation.{new_game-players}
use flakkari.Server.Game.Membership.{Room, add_player}
use flakkari.Server.Game.Membership.Players.{IsSeated, add_player-IsSeated}
use flakkari.Server.ResourceManager.{Templates}
use flakkari.Server.GameManager.{
  GameManager, Hall, add_client_to_game, place, join_last, needs_instance, split_last,
  start_if_ready, set_instances,
}

-- Each instance has distinct players, and no more than it allows.
abbrev pub AreSeated : List Game → Type 0
AreSeated [] = Unit {0}
AreSeated (g ∷ gs) = IsSeated g × AreSeated gs

AreSeated-append : (gs hs : List Game) → AreSeated gs → AreSeated hs → AreSeated (gs ++ hs)
AreSeated-append [] hs a b = b
AreSeated-append (g ∷ gs) hs (seated, a) b = (seated, AreSeated-append gs hs a b)

AreSeated-of_append : (gs hs : List Game) → AreSeated (gs ++ hs) → AreSeated gs × AreSeated hs
AreSeated-of_append [] hs a = (tt, a)
AreSeated-of_append (g ∷ gs) hs (seated, a) =
    let (b, c) = AreSeated-of_append gs hs a in ((seated, b), c)

split_last-cases :
    (gs : List Game)
    → (split_last gs ≡ none)
      ⊎ ((before : List Game) × (last : Game) × (split_last gs ≡ some (before, last))
          × (gs ≡ before ++ last ∷ []))
unfolding split_last
split_last-cases [] = inl refl
split_last-cases (g ∷ []) = inr ([], g, refl, refl)
split_last-cases (g ∷ k ∷ gs) = elim (split_last-cases (k ∷ gs)) [
  | inl e ↦ inl (rw e refl)
  | inr (before, last, e, q) ↦ inr (g ∷ before, last, rw e refl, ap (λ xs. g ∷ xs) q)
]

pub split_last-snoc : (gs : List Game) (g : Game) → split_last (gs ++ g ∷ []) ≡ some (gs, g)
unfolding split_last
split_last-snoc [] g = refl
split_last-snoc (k ∷ []) g = refl
split_last-snoc (k ∷ l ∷ gs) g = rw (split_last-snoc (l ∷ gs) g) refl

start_if_ready_lem :
    (config : GameConfig) (g : Game)
    → ((start_if_ready config g).players ≡ g.players)
      × ((start_if_ready config g).config ≡ g.config)
unfolding start_if_ready
start_if_ready_lem config g = ground arith

pub get_default-insert {ℓ} :
    {V : Type ℓ} (d v : V) (k : Bytes) (m : Dict V) → get_default d k (insert k v m) ≡ v
get_default-insert d v k m = ground (arith, lookup-insert k k v m, text_eq_refl k)

manager_entries :
    (name : Bytes) (p : ℕ) (hs : List Game) (full : Bool) (m m' : GameManager)
    → let queue = get_default [] name m.waiting_clients in
      m' ≡ record m {
        games_instances = insert name hs m.games_instances;
        waiting_clients =
            if full then insert name (queue ++ p ∷ []) m.waiting_clients else m.waiting_clients;
      }
      → (get_default [] name m'.games_instances ≡ hs)
        × (get_default [] name m'.waiting_clients ≡ (if full then queue ++ p ∷ [] else queue))
        × (m'.games_store ≡ m.games_store)
manager_entries name p hs true m m' e = (
  rw e (get_default-insert [] hs name m.games_instances),
  rw e (get_default-insert [] _ name m.waiting_clients),
  ap (λ x. x.games_store) e,
)
manager_entries name p hs false m m' e = (
  rw e (get_default-insert [] hs name m.games_instances),
  ap (λ x. get_default [] name x.waiting_clients) e,
  ap (λ x. x.games_store) e,
)

IsSeated-start :
    (b : Bool) (config : GameConfig) (g : Game)
    → IsSeated g
    → IsSeated (if b then start_if_ready config g else g)
IsSeated-start true config g (distinct, within) =
    let (players, same) = start_if_ready_lem config g in
    (λ j. rw players (distinct j), rw (players, same) within)
IsSeated-start false config g seated = seated

module _ (to_float : ℕ → ℕ) where
  -- The list of instances after `join_last`.
  join_last-AreSeated :
      (now p : ℕ) (name : Bytes) (config : GameConfig) (gs : List Game) (hall hall' : Hall)
      (b : Bool)
      → AreSeated gs
      → join_last to_float now name config p gs hall ≡ ok (b, hall')
      → (hs : List Game) × (hall'.manager
          ≡ record (hall.manager) { games_instances = insert name hs hall.manager.games_instances })
        × (length hs ≡ length gs)
        × AreSeated hs
  unfolding join_last
  join_last-AreSeated now p name config gs hall hall' b seated h = elim (split_last-cases gs) [
    | inl e ↦ absurd (ground arith)
    | inr (before, last, e, q) ↦
        let room : Room = record { heap = hall.heap; game = last; templates = hall.templates } in
        let (r, added, s) =
          >>=-eq-ok (add_player to_float now p room)
            (λ r.
              let after = if r.0 then start_if_ready config r.1.game else r.1.game in
              ok (
                r.0,
                set_instances name (before ++ after ∷ [])
                    (record hall { heap = r.1.heap; templates = r.1.templates }),
              ))
            (rw (e, join_last) at h) in
        let (same, config_same) = start_if_ready_lem config r.1.game in
        let (before_seated, (last_seated, _)) =
          AreSeated-of_append before (last ∷ []) (subst AreSeated q seated) in
        let after_seated = add_player-IsSeated to_float now p room r.1 r.0 last_seated added in
        (
          before ++ (if r.0 then start_if_ready config r.1.game else r.1.game) ∷ [],
          ground arith,
          ground (
            arith,
            length-append before (last ∷ []),
            length-append before ((if r.0 then start_if_ready config r.1.game else r.1.game) ∷ []),
          ),
          AreSeated-append before _ before_seated (IsSeated-start _ _ _ after_seated, tt),
        )
  ]

  new_game-IsSeated :
      (name : Bytes) (config : GameConfig) (ts ts' : Templates Template) (g : Game)
      → new_game name config ts ≡ ok (g, ts')
      → IsSeated g
  unfolding count
  new_game-IsSeated name config ts ts' g h =
      let e = new_game-players name config ts ts' g h in
      (λ j. rw e (omega arith), rw e (omega arith))

  -- What `place` does to the instances, to the queue and to the store.
  place-AreSeated :
      (now p : ℕ) (name : Bytes) (config : GameConfig) (gs : List Game) (hall hall' : Hall)
      (b : Bool)
      → AreSeated gs
      → length gs ≤ config.max_instances
      → place to_float now name config p gs hall ≡ ok (b, hall')
      → let full = needs_instance config.max_players gs && leb config.max_instances (length gs) in
        let queue = get_default [] name hall.manager.waiting_clients in
        (hs : List Game) × (hall'.manager ≡ record (hall.manager) {
          games_instances = insert name hs hall.manager.games_instances;
          waiting_clients =
              if full
              then insert name (queue ++ p ∷ []) hall.manager.waiting_clients
              else hall.manager.waiting_clients;
        })
        × (length hs ≤ config.max_instances)
        × AreSeated hs
  unfolding place
  place-AreSeated now p name config gs hall hall' b seated bound h =
      elim (Bool-cases (needs_instance config.max_players gs)) [
        | inr not_needed ↦
            let (hs, m, l, a) =
              join_last-AreSeated now p name config gs hall hall' b seated (ground arith) in
            (hs, ground arith, ground arith, a)
        | inl needed ↦ elim (Bool-cases (leb config.max_instances (length gs))) [
          | inl full ↦ (gs, ground arith, bound, seated)
          | inr free ↦
              let (gt, made, s) =
                >>=-eq-ok (new_game name config hall.templates)
                  (λ gt.
                    join_last to_float now name config p (gs ++ gt.0 ∷ [])
                      (record hall { templates = gt.1 }))
                  (rw (needed, free, place) at h) in
              let (hs, m, l, a) =
                join_last-AreSeated now p name config (gs ++ gt.0 ∷ [])
                  (record hall { templates = gt.1 }) hall' b
                  (AreSeated-append gs _ seated
                    (new_game-IsSeated name config hall.templates gt.1 gt.0 made, tt))
                  s in
              (hs, ground arith, ground (arith, length-append gs (gt.0 ∷ [])), a)
        ]
      ]

  -- Of a game whose instances all have distinct players within their limit, with no more instances than
  -- the config allows: when `addClientToGame` returns, the same holds. The client was added to the queue
  -- exactly when the game is online, the last instance is full or missing, and no instance may be made;
  -- the store is as it was.
  pub add_client_to_game-AreSeated :
      (now p : ℕ) (name : Bytes) (config : GameConfig) (hall hall' : Hall) (b : Bool)
      → let gs = get_default [] name hall.manager.games_instances in
        let queue = get_default [] name hall.manager.waiting_clients in
        let gs' = get_default [] name hall'.manager.games_instances in
        let queue' = get_default [] name hall'.manager.waiting_clients in
        let full = needs_instance config.max_players gs && leb config.max_instances (length gs) in
        lookup name hall.manager.games_store ≡ some config
        → AreSeated gs
        → length gs ≤ config.max_instances
        → add_client_to_game to_float now name p hall ≡ ok (b, hall')
        → AreSeated gs'
          × (length gs' ≤ config.max_instances)
          × (queue' ≡ (if config.online && full then queue ++ p ∷ [] else queue))
          × (hall'.manager.games_store ≡ hall.manager.games_store)
  unfolding add_client_to_game
  add_client_to_game-AreSeated now p name config hall hall' b stored seated bound h =
      let gs = get_default [] name hall.manager.games_instances in
      let queue = get_default [] name hall.manager.waiting_clients in
      elim (Bool-cases config.online) [
        | inr offline ↦
            let e : hall' ≡ set_instances name gs hall = ground arith in
            let (instances, queues, store) =
              manager_entries name p gs false hall.manager hall'.manager (ap (λ x. x.manager) e) in
            (rw instances seated, rw instances bound, rw (offline) queues, store)
        | inl online ↦
            let (hs, m, l, a) =
              place-AreSeated now p name config gs hall hall' b seated bound (ground arith) in
            let (instances, queues, store) =
              manager_entries name p hs
                (needs_instance config.max_players gs && leb config.max_instances (length gs))
                hall.manager hall'.manager m in
            (rw instances a, rw instances l, rw (online) queues, store)
      ]
