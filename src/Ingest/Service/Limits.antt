-- ===== src/Ingest/Service/Limits.antt =====
-- The limits that the service of an accepted configuration works with.
use mesh_monday.Base.{ℕ, zero, suc, ◌≡◌, refl, ap, arith, ok}
use mesh_monday.Base.Int.{ℤ, pos, negsuc, pos_part}
use mesh_monday.Platform.{Platform}
use mesh_monday.Config.{Config}
use mesh_monday.Config.Validate.{validate}
use mesh_monday.Config.Validate.Accepted.{IsAtLeast, validate-IsAccepted}
use mesh_monday.Ingest.Service.{new_service, positive_or, max_packet_hex_chars, max_observer_chars}

configured :
    (low : ℕ) (i : ℤ) (default : ℕ) → IsAtLeast (suc low) i → pos (positive_or i default) ≡ i
configured low (pos zero) default (n, (e, h)) = absurd (omega (arith, ap pos_part e, h))
configured low (pos (suc m)) default (n, (e, h)) = refl
configured low (negsuc m) default (n, (e, h)) = cc

-- If a configuration is accepted, the service cuts hex text and observer keys where the configuration
-- says, and never falls back on a default.
pub new_service_limits :
    (p : Platform) (c : Config)
    → validate p c ≡ ok tt
    → (pos (max_packet_hex_chars (new_service p c)) ≡ c.ingest_max_packet_hex)
      × (pos (max_observer_chars (new_service p c)) ≡ c.ingest_max_observer)
unfolding max_packet_hex_chars max_observer_chars new_service
new_service_limits p c h =
    let v = validate-IsAccepted p c h in
    (configured 63 _ 8192 v.packet_hex, configured 7 _ 64 v.observer)
