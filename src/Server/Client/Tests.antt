-- ===== src/Server/Client/Tests.antt =====
-- Server/Client/Client.cpp: examples.
use flakkari.Prelude.{[], ◌∷◌, some}
use flakkari.Server.Client.{Address, Client, new_client}

abbrev pub address : Address
address = record { text = some (49 ∷ []); ip = some (49 ∷ 46 ∷ []) }

abbrev pub client : Client
client = new_client address (97 ∷ 98 ∷ []) 1 0
