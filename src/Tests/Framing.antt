-- ===== src/Tests/Framing.antt =====
-- Runs of the framer of internal/reader/protocol/framer.go.
use mathlib.Core.List.{flatten}
use rfid_middleware_idro900e.Prelude.{List, [], ◌∷◌, ◌≡◌, refl, Bytes, All, arith}
use rfid_middleware_idro900e.Prelude.Int.{pos}
use rfid_middleware_idro900e.Protocol.Cut.{cut_at}
use rfid_middleware_idro900e.Protocol.Framer.{new_framer, limit_of, push_all}
use rfid_middleware_idro900e.Protocol.Framer.Bounds.{IsSettled, IsLine, framer_safe}
use rfid_middleware_idro900e.Protocol.Framer.Frames.{ready, push_all-restores}

-- "AB" CR LF "C", cut between the CR and the LF.
abbrev chunks : List Bytes
chunks = (65 ∷ 66 ∷ 13 ∷ []) ∷ (10 ∷ 67 ∷ []) ∷ []

push_all-restores_example :
    push_all (ready 8 []) chunks
    ≡ (ready 8 (67 ∷ []), record { lines = (65 ∷ 66 ∷ []) ∷ []; dropped = 0 })
unfolding cut_at flatten
push_all-restores_example =
    push_all-restores 8 chunks ((65 ∷ 66 ∷ []) ∷ []) (67 ∷ []) refl ((refl, omega arith), tt) refl
      (omega arith)

framer_safe_example :
    IsSettled (push_all (new_framer (pos 8)) chunks).0
    × All (IsLine (limit_of (pos 8))) (push_all (new_framer (pos 8)) chunks).1.lines
framer_safe_example = framer_safe (pos 8) chunks
