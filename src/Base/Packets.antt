-- ===== src/Base/Packets.antt =====
-- Data cut into packets: all but the last are full.
use cmtp_responder.Base.{ℕ, ◌≡◌, List, [], ◌∷◌, length}

-- Packets of `n` bytes each.
pub data Full (n : ℕ) : List (List ℕ) → Type 0 where
  no_more : Full n []
  one_more : {p : List ℕ} {ps : List (List ℕ)} → length p ≡ n → Full n ps → Full n (p ∷ ps)
