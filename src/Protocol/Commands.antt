-- ===== src/Protocol/Commands.antt =====
-- Protocol/Commands.hpp (V_1): `enum class CommandId : uint8_t`. A header can hold any byte, so a command
-- is a number here.
use flakkari.Prelude.{ℕ}

abbrev pub req_connect : ℕ
req_connect = 0

abbrev pub rep_connect : ℕ
rep_connect = 1

abbrev pub req_disconnect : ℕ
req_disconnect = 2

abbrev pub rep_disconnect : ℕ
rep_disconnect = 3

abbrev pub req_heartbeat : ℕ
req_heartbeat = 4

abbrev pub rep_heartbeat : ℕ
rep_heartbeat = 5

abbrev pub req_login : ℕ
req_login = 10

abbrev pub rep_login : ℕ
rep_login = 11

abbrev pub req_logout : ℕ
req_logout = 12

abbrev pub rep_logout : ℕ
rep_logout = 13

abbrev pub req_register : ℕ
req_register = 14

abbrev pub rep_register : ℕ
rep_register = 15

abbrev pub req_entity_spawn : ℕ
req_entity_spawn = 20

abbrev pub rep_entity_spawn : ℕ
rep_entity_spawn = 21

abbrev pub req_entity_update : ℕ
req_entity_update = 22

abbrev pub rep_entity_update : ℕ
rep_entity_update = 23

abbrev pub req_entity_destroy : ℕ
req_entity_destroy = 24

abbrev pub rep_entity_destroy : ℕ
rep_entity_destroy = 25

abbrev pub req_entity_moved : ℕ
req_entity_moved = 26

abbrev pub rep_entity_moved : ℕ
rep_entity_moved = 27

abbrev pub req_entity_shoot : ℕ
req_entity_shoot = 28

abbrev pub rep_entity_shoot : ℕ
rep_entity_shoot = 29

abbrev pub req_user_updates : ℕ
req_user_updates = 30

abbrev pub rep_user_updates : ℕ
rep_user_updates = 31

abbrev pub req_create_room : ℕ
req_create_room = 50

abbrev pub rep_create_room : ℕ
rep_create_room = 51

abbrev pub req_join_room : ℕ
req_join_room = 52

abbrev pub rep_join_room : ℕ
rep_join_room = 53

abbrev pub req_leave_room : ℕ
req_leave_room = 54

abbrev pub rep_leave_room : ℕ
rep_leave_room = 55

abbrev pub req_start_game : ℕ
req_start_game = 56

abbrev pub rep_start_game : ℕ
rep_start_game = 57

abbrev pub req_end_game : ℕ
req_end_game = 58

abbrev pub rep_end_game : ℕ
rep_end_game = 59

abbrev pub max_command_id : ℕ
max_command_id = 60
