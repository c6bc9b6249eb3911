-- ===== src/Commands/Replay/Tests.antt =====
-- A fixture of three lines, the second of which has no payload.
use mesh_monday.Base.{◌≡◌, refl, [], ◌∷◌, Option, none, some, Bytes, codes, same}
use mesh_monday.Commands.Replay.{ReplayLine, published, publish_failed, replay}

abbrev entry : Bytes → ReplayLine
entry payload = record { topic = codes "meshcore/SEA/dev1/packets"; payload_hex = payload }

-- A reader that takes the line for the payload.
abbrev decode : Bytes → Option ReplayLine
decode line = some (entry line)

two_published :
    replay decode none (codes "01" ∷ [] ∷ codes "02" ∷ []) []
    ≡ (entry (codes "01") ∷ entry (codes "02") ∷ [], published 2)
unfolding replay same
two_published = refl

second_refused :
    replay decode none (codes "01" ∷ [] ∷ codes "02" ∷ []) (none ∷ some (codes "lost") ∷ [])
    ≡ (entry (codes "01") ∷ [], publish_failed (codes "lost"))
unfolding replay same
second_refused = refl
