-- ===== src/Server/Game/Membership/Players.antt =====
-- Server/Game/Game.cpp: the players of a game.
use flakkari.Prelude.{
  ℕ, ◌+◌, ◌≤◌, ◌<◌, ◌≡◌, refl, [], ◌∷◌, ◌++◌, List, Bool, true, false, length, length-append,
  contains_num, count, count-append, contains_num-count, count-contains_num, remove_one, ok, arith,
  ◌==◌, if◌then◌else◌, ◌⊎◌, Bool-cases, Option-cases, subst, inl, inr, some, throws, runtime_error,
  ltb, ltb→le, get_elem?, leb,
}
use flakkari.Ecs.Registry.{spawn_entity, spawn_from, size_max}
use flakkari.Server.Client.{Client, is_connected}
use flakkari.Server.Game.{Game, Scene, scene_of}
use flakkari.Server.Game.Membership.{
  Room, may_enter, enter, add_player, remove_player, send_all_entities_to_player,
}

length-remove_one : (k : ℕ) (xs : List ℕ) → length (remove_one k xs) ≤ length xs
unfolding remove_one
length-remove_one k [] = omega arith
length-remove_one k (x ∷ xs) = ground (arith, length-remove_one k xs)

count-remove_one_le : (k j : ℕ) (xs : List ℕ) → count j (remove_one k xs) ≤ count j xs
unfolding remove_one count
count-remove_one_le k j [] = omega arith
count-remove_one_le k j (x ∷ xs) = ground (arith, count-remove_one_le k j xs)

-- No player is listed twice, and there are no more than the game allows.
abbrev pub IsSeated : Game → Type 0
IsSeated g = ((p : ℕ) → count p g.players ≤ 1) × (length g.players ≤ g.config.max_players)

-- A client that may join: no player yet, with a place free, and connected.
abbrev pub MayJoin : ℕ → ℕ → Room → Type 0
MayJoin now p room =
    (count p room.game.players ≡ 0)
    × (length room.game.players < room.game.config.max_players)
    × ((c : Client) × (get_elem? room.heap p ≡ some c) × (is_connected now c ≡ true))

may_enter-MayJoin : (now p : ℕ) (room : Room) → may_enter now p room ≡ true → MayJoin now p room
unfolding may_enter
may_enter-MayJoin now p room h = elim (Option-cases (get_elem? room.heap p)) [
  | inl e ↦ absurd (ground (arith, h))
  | inr (c, e) ↦
      let counted = contains_num-count p room.game.players in
      (ground (arith, counted), ground arith, (c, e, ground arith))
]

MayJoin-may_enter : (now p : ℕ) (room : Room) → MayJoin now p room → may_enter now p room ≡ true
unfolding may_enter
MayJoin-may_enter now p room (new, free, (c, e, on)) =
    let unlisted : contains_num p room.game.players ≡ false =
      count-contains_num p room.game.players new in
    let place : leb room.game.config.max_players (length room.game.players) ≡ false =
      ground arith in
    rw (unlisted, place, e, on) refl

spawn_from-cases :
    (ds : List ℕ) (r : Scene)
    → ((er : ℕ × Scene) × (spawn_from ds r ≡ ok er))
      ⊎ ((ds ≡ []) × (size_max ≤ r.next_entity) × (spawn_from ds r ≡ throws runtime_error))
unfolding spawn_from
spawn_from-cases (d ∷ ds) r = inl ((d, record r { dead_entities = ds }), refl)
spawn_from-cases [] r = elim (Bool-cases (ltb r.next_entity size_max)) [
  | inl few ↦ inl ((r.next_entity, record r { next_entity = r.next_entity + 1 }), rw few refl)
  | inr many ↦ inr (refl, ltb→le _ _ many, rw many refl)
]

spawn_entity-cases :
    (r : Scene)
    → ((er : ℕ × Scene) × (spawn_entity r ≡ ok er))
      ⊎ ((r.dead_entities ≡ [])
          × (size_max ≤ r.next_entity)
          × (spawn_entity r ≡ throws runtime_error))
unfolding spawn_entity
spawn_entity-cases r = spawn_from-cases r.dead_entities r

count-snoc :
    (p j : ℕ) (xs : List ℕ) → count j (xs ++ p ∷ []) ≡ count j xs + (if p == j then 1 else 0)
unfolding count
count-snoc p j xs = omega (arith, count-append j xs (p ∷ []))

IsSeated-snoc :
    (p : ℕ) (g g' : Game)
    → IsSeated g
    → (count p g.players ≡ 0) × (length g.players < g.config.max_players)
    → g'.players ≡ g.players ++ p ∷ []
    → g'.config ≡ g.config
    → IsSeated g'
IsSeated-snoc p g g' (distinct, within) (new, room) e c = (
  λ j. ground (arith, distinct j, count-snoc p j g.players),
  ground (arith, length-append g.players (p ∷ [])),
)

pub remove_player-players :
    (now p : ℕ) (room : Room)
    → let (b, room') = remove_player now p room in
      (b ≡ contains_num p room.game.players)
      × (room'.game.players ≡ (if b then remove_one p room.game.players else room.game.players))
      × (room'.game.config ≡ room.game.config)
unfolding remove_player
remove_player-players now p room = ground arith

count-remove_one_self : (p : ℕ) (xs : List ℕ) → count p xs ≤ 1 → count p (remove_one p xs) ≡ 0
unfolding count remove_one
count-remove_one_self p [] h = refl
count-remove_one_self p (x ∷ xs) h = ground (arith, count-remove_one_self p xs)

count-remove_one_ne :
    (p j : ℕ) (xs : List ℕ) → (p == j) ≡ false → count j (remove_one p xs) ≡ count j xs
unfolding count remove_one
count-remove_one_ne p j [] h = refl
count-remove_one_ne p j (x ∷ xs) h = ground (arith, count-remove_one_ne p j xs)

-- `removePlayer` succeeds for the players and for no one else. Afterwards the client is no player, the
-- others are players as before, and the players are distinct and within the limit if they were.
pub remove_player-IsSeated :
    (now p q : ℕ) (room : Room)
    → IsSeated room.game
    → let (b, room') = remove_player now p room in
      (b ≡ contains_num p room.game.players)
      × (count q room'.game.players ≡ (if p == q then 0 else count q room.game.players))
      × IsSeated room'.game
remove_player-IsSeated now p q room (distinct, within) =
    let (b, room') = remove_player now p room in
    let (found, players, config) = remove_player-players now p room in
    (
      found,
      ground (
        arith,
        found,
        players,
        distinct p,
        contains_num-count p room.game.players,
        count-remove_one_self p room.game.players,
        count-remove_one_ne p q room.game.players,
      ),
      (
        λ j. ground (arith, players, distinct j, count-remove_one_le p j room.game.players),
        ground (arith, players, config, length-remove_one p room.game.players),
      ),
    )

module _ (to_float : ℕ → ℕ) where
  enter-players :
      (now p : ℕ) (er : ℕ × Scene) (room : Room)
      → ((enter to_float now p er room).game.players ≡ room.game.players ++ p ∷ [])
        × ((enter to_float now p er room).game.config ≡ room.game.config)
  unfolding enter send_all_entities_to_player
  enter-players now p er room = (refl, refl)

  pub membership :
      (now p : ℕ) (room : Room)
      → IsSeated room.game
      → let scene = scene_of room.game.config.start_game room.game in
        (MayJoin now p room
          × ((room' : Room) × (add_player to_float now p room ≡ ok (true, room'))
              × (room'.game.players ≡ room.game.players ++ p ∷ [])
              × IsSeated room'.game))
        ⊎ (MayJoin now p room
            × (scene.dead_entities ≡ [])
            × (size_max ≤ scene.next_entity)
            × (add_player to_float now p room ≡ throws runtime_error))
        ⊎ ((¬ MayJoin now p room) × (add_player to_float now p room ≡ ok (false, room)))
  unfolding add_player
  membership now p room seated = elim (Bool-cases (may_enter now p room)) [
    | inl may ↦
        let (new, free, on) = may_enter-MayJoin now p room may in
        elim (spawn_entity-cases (scene_of room.game.config.start_game room.game)) [
          | inl (er, spawned) ↦
              let (listed, same) = enter-players now p er room in
              inl (
                (new, free, on),
                (
                  enter to_float now p er room,
                  rw (may, spawned) refl,
                  listed,
                  IsSeated-snoc p room.game (enter to_float now p er room).game seated (new, free)
                      listed same,
                ),
              )
          | inr (dead, full, fails) ↦ inr (inl ((new, free, on), dead, full, rw (may, fails) refl))
        ]
    | inr cannot ↦
        inr (inr (λ may. absurd (ground (arith, MayJoin-may_enter now p room may)), rw cannot refl))
  ]

  pub add_player-IsSeated :
      (now p : ℕ) (room room' : Room) (b : Bool)
      → IsSeated room.game
      → add_player to_float now p room ≡ ok (b, room')
      → IsSeated room'.game
  add_player-IsSeated now p room room' b seated e = elim (membership now p room seated) [
    | inl (_, (r, added, _, kept)) ↦
        let same : r ≡ room' = ground (arith, added) in subst (λ x. IsSeated x.game) same kept
    | inr (inl (_, _, _, fails)) ↦ absurd (ground (arith, fails))
    | inr (inr (_, refused)) ↦
        let same : room ≡ room' = ground (arith, refused) in
        subst (λ x. IsSeated x.game) same seated
  ]
