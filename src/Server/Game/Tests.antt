-- ===== src/Server/Game/Tests.antt =====
-- Server/Game/Game.cpp: an example of sending.
use flakkari.Prelude.{◌≡◌, [], ◌∷◌, some, get_elem?, count, contains_num, text_eq, arith}
use flakkari.Protocol.Packet.Tests.{request}
use flakkari.Server.Client.{Client, new_client, is_connected}
use flakkari.Server.Client.Tests.{client}
use flakkari.Server.Game.{send_on_same_scene, send_on_same_scene_except, is_on_scene}
use flakkari.Server.Game.Sending.{queued, send_on_same_scene_reaches}

send_on_same_scene_reaches_test :
    (get_elem? {A = Client} (send_on_same_scene 5 [] request (0 ∷ 1 ∷ []) (client ∷ client ∷ [])) 1
      ≡ queued request (some client))
    × (get_elem? {A = Client}
          (send_on_same_scene_except 5 [] request 1 (0 ∷ 1 ∷ []) (client ∷ client ∷ []))
          1
        ≡ some client)
unfolding contains_num count is_on_scene is_connected new_client text_eq
send_on_same_scene_reaches_test =
    send_on_same_scene_reaches 5 [] request 1 (0 ∷ 1 ∷ []) (client ∷ client ∷ []) 1 (omega arith)
