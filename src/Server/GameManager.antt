-- ===== src/Server/GameManager.antt =====
-- Server/Game/GameManager.cpp. The instances of a game are pointed to from here only, so they are held by
-- value; clients are indices into the heap. Reading a config file is an argument.
pub mod Store
pub mod Tests
pub mod Admission
pub mod Departure
pub mod Waiting
use flakkari.Prelude.{
  ℕ, zero, suc, ◌+◌, ◌≡◌, [], ◌∷◌, ◌++◌, List, Bool, true, false, not, ◌&&◌, ◌||◌, Option, none,
  some, Bytes, text_eq, codes, Dict, lookup, insert, erase, contains, get_default, get_elem?,
  length, Outcome, ok, throws, undefined, system_error, json_exception, ◌>>=◌, ◌==◌, leb, ltb,
  if◌then◌else◌,
}
use flakkari.Server.Client.{Client, is_connected}
use flakkari.Server.Game.{Game, GameConfig, Template, new_game}
use flakkari.Server.Game.Membership.{Room, add_player, remove_player}
use flakkari.Server.ResourceManager.{Templates}

pub record GameManager : Type 0 where
  pub waiting_clients : Dict (List ℕ)
  pub games_instances : Dict (List Game)
  pub games_store : Dict GameConfig
  pub games_remove_request : Dict Bool

-- What the manager's methods see.
pub record Hall : Type 0 where
  pub manager : GameManager
  pub heap : List Client
  pub templates : Templates Template

-- What opening and parsing `<game dir>/<name>/config.cfg` gives.
pub data ConfigFile : Type 0 where
  not_open : ConfigFile
  not_json : ConfigFile
  parsed : GameConfig → ConfigFile

-- The result codes: 0, 1 and 3.
pub add_game : Bytes → ConfigFile → GameManager → Outcome (ℕ × GameManager)
add_game name file m = if contains name m.games_store then ok (1, m) else elim file [
  | not_open ↦ ok (3, m)
  | not_json ↦ throws json_exception
  | parsed config ↦ elim config.scenes [
    | [] ↦ ok (3, m)
    | s ∷ ss ↦ ok (0, record m { games_store = insert name config m.games_store })
  ]
]

pub update_game : Bytes → ConfigFile → GameManager → Outcome (ℕ × GameManager)
update_game name file m = if not (contains name m.games_store) then ok (1, m) else elim file [
  | not_open ↦ ok (3, m)
  | not_json ↦ throws json_exception
  | parsed config ↦ ok (0, record m { games_store = insert name config m.games_store })
]

pub remove_game : Bytes → GameManager → ℕ × GameManager
remove_game name m =
    if not (contains name m.games_store)
    then (1, m)
    else (0, record m { games_remove_request = insert name true m.games_remove_request })

-- The last instance, and those before it.
pub split_last : List Game → Option (List Game × Game)
split_last [] = none
split_last (g ∷ []) = some ([], g)
split_last (g ∷ h ∷ gs) = elim (split_last (h ∷ gs)) [
  | none ↦ none
  | some (before, last) ↦ some (g ∷ before, last)
]

-- `gameInstance.empty() || gameInstance.back()->getPlayers().size() >= maxPlayers`
pub needs_instance : ℕ → List Game → Bool
needs_instance max_players gs = elim (split_last gs) [
  | none ↦ true
  | some (before, last) ↦ leb max_players (length last.players)
]

-- The two tests after a player was added; `start` sets `_running`.
pub start_if_ready : GameConfig → Game → Game
start_if_ready config g =
    if text_eq config.lobby (codes "Matchmaking")
      && (leb config.min_players (length g.players) && not g.running)
    then record g { running = true }
    else if text_eq config.lobby (codes "OpenWorld") && not g.running
    then record g { running = true }
    else g

abbrev pub set_instances : Bytes → List Game → Hall → Hall
set_instances name gs hall = record hall {
  manager = record (hall.manager) { games_instances = insert name gs hall.manager.games_instances };
}

-- The first instance that `removePlayer` succeeds on, with those before and after it.
pub take_out : ℕ → ℕ → List Game → List Game → Hall → Option (List Game × Room × List Game)
take_out now p before [] hall = none
take_out now p before (g ∷ gs) hall =
    let later = take_out now p (before ++ g ∷ []) gs hall in
    let (removed, room) =
      remove_player now p (record { heap = hall.heap; game = g; templates = hall.templates }) in
    if removed then some (before, room, gs) else later

-- `pop_back`: the last instance is destroyed, and its destructor joins its thread, which throws where
-- the game was never started.
pub pop_back : List Game → Outcome (List Game)
pop_back gs = elim (split_last gs) [
  | none ↦ undefined
  | some (before, last) ↦ if last.running then ok before else throws system_error
]

-- An instance that is left with more than `minPlayers`, and nobody waits.
pub finish_removal : Bytes → Hall → Bool × Hall
finish_removal name hall =
    if get_default false name hall.manager.games_remove_request
    then (
      false,
      record hall {
        manager = record (hall.manager) {
          games_store = erase name hall.manager.games_store;
          games_remove_request = erase name hall.manager.games_remove_request;
        };
      },
    )
    else (
      true,
      record hall {
        manager = record (hall.manager) {
          games_remove_request = insert name false hall.manager.games_remove_request;
        };
      },
    )

module _ (to_float : ℕ → ℕ) where
  -- `gameInstance.back()->addPlayer(client)` and what follows.
  pub join_last : ℕ → Bytes → GameConfig → ℕ → List Game → Hall → Outcome (Bool × Hall)
  join_last now name config p gs hall = elim (split_last gs) [
    | none ↦ undefined
    | some (before, last) ↦
        add_player to_float now p
          (record { heap = hall.heap; game = last; templates = hall.templates })
        >>= λ r.
            let after = if r.0 then start_if_ready config r.1.game else r.1.game in
            ok (
              r.0,
              set_instances name (before ++ after ∷ [])
                  (record hall { heap = r.1.heap; templates = r.1.templates }),
            )
  ]

  -- The client waits if no instance can be made.
  pub place : ℕ → Bytes → GameConfig → ℕ → List Game → Hall → Outcome (Bool × Hall)
  place now name config p gs hall =
      if needs_instance config.max_players gs
      then (if leb config.max_instances (length gs)
          then ok (
            true,
            record hall {
              manager = record (hall.manager) {
                games_instances = insert name gs hall.manager.games_instances;
                waiting_clients =
                    insert name (get_default [] name hall.manager.waiting_clients ++ p ∷ [])
                      hall.manager.waiting_clients;
              };
            },
          )
          else (new_game name config hall.templates >>= λ gt.
              join_last now name config p (gs ++ gt.0 ∷ []) (record hall { templates = gt.1 })))
      else join_last now name config p gs hall

  pub add_client_to_game : ℕ → Bytes → ℕ → Hall → Outcome (Bool × Hall)
  add_client_to_game now name p hall = elim (lookup name hall.manager.games_store) [
    | none ↦ ok (false, hall)
    | some config ↦
        let gs = get_default [] name hall.manager.games_instances in
        if not config.online
        then ok (false, set_instances name gs hall)
        else place now name config p gs hall
  ]

  -- The same where somebody waits: `q` is first in the queue and `ws` are behind.
  pub admit_waiting :
      ℕ → Bytes → ℕ → List ℕ → List Game → Room → List Game → Hall → Outcome (Bool × Hall)
  admit_waiting now name q ws before room behind hall = add_player to_float now q room >>= λ r.
      let drop_first =
        r.0 || elim (get_elem? r.1.heap q) [ none ↦ false | some c ↦ is_connected now c ] in
      let hall' = record hall { heap = r.1.heap; templates = r.1.templates } in
      ok (
        true,
        set_instances name (before ++ r.1.game ∷ behind) (
            if drop_first
            then record hall' {
              manager = record (hall'.manager) {
                waiting_clients = insert name ws hall'.manager.waiting_clients;
              };
            }
            else hall'),
      )

  -- What follows a `removePlayer` that succeeded.
  pub after_removal :
      ℕ → Bytes → GameConfig → List ℕ → List Game × Room × List Game → Hall → Outcome (Bool × Hall)
  after_removal now name config waiting (before, room, behind) hall =
      let hall' = record hall { heap = room.heap; templates = room.templates } in
      let gs = before ++ room.game ∷ behind in
      if leb (length room.game.players) 0
      then (pop_back gs >>= λ rest. ok (true, set_instances name rest hall'))
      else if ltb config.min_players (length room.game.players)
      then elim waiting [
        | [] ↦ ok (finish_removal name (set_instances name gs hall'))
        | q ∷ ws ↦ admit_waiting now name q ws before room behind hall'
      ]
      else ok (true, set_instances name gs hall')

  pub remove_client_from_game : ℕ → Bytes → ℕ → Hall → Outcome (Bool × Hall)
  remove_client_from_game now name p hall = elim (lookup name hall.manager.games_store) [
    | none ↦ ok (true, hall)
    | some config ↦
        elim (take_out now p [] (get_default [] name hall.manager.games_instances) hall) [
          | none ↦ ok (true, hall)
          | some found ↦
              after_removal now name config (get_default [] name hall.manager.waiting_clients) found
                hall
        ]
  ]

-- `isClientWaiting`
pub is_client_waiting : Bytes → GameManager → Bool
is_client_waiting name m =
    if not (contains name m.games_store)
    then true
    else elim (get_default [] name m.waiting_clients) [ [] ↦ true | p ∷ ps ↦ false ]

-- The loop of `getIndexInWaitingQueue`, from index `i`; none stands for -1.
pub index_from : ℕ → ℕ → List ℕ → Option ℕ
index_from i p [] = none
index_from i p (q ∷ qs) = if q == p then some i else index_from (i + 1) p qs

pub get_index_in_waiting_queue : Bytes → ℕ → GameManager → Option ℕ
get_index_in_waiting_queue name p m =
    if not (contains name m.games_store)
    then none
    else index_from 0 p (get_default [] name m.waiting_clients)
