-- ===== src/Server/Tests.antt =====
-- Server/Game/ResourceManager.cpp: an example.
use flakkari.Prelude.{ℕ, ◌≡◌, [], ◌∷◌, some, lookup}
use flakkari.Server.ResourceManager.{get_template_by_id, stored, get_template_by_id-stored}

missing_one_stored :
    let (found, ts) = get_template_by_id {T = ℕ} 0 (1 ∷ []) (2 ∷ []) (3 ∷ []) [] in
    (found ≡ some 0) × (stored (1 ∷ []) (2 ∷ []) (3 ∷ []) ts ≡ some 0)
unfolding stored lookup
missing_one_stored = get_template_by_id-stored {T = ℕ} 0 (1 ∷ []) (2 ∷ []) (3 ∷ []) []
