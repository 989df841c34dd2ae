-- ===== src/Net/Status/Examples.antt =====
-- Three statuses.
use magic_core.Prelude.{ℕ, ◌≡◌, refl, [], true}
use magic_core.Prelude.Int.{pos, negsuc}
use magic_core.Text.Bytes.{Bytes, bytes}
use magic_core.Net.Status.{from_status_code, to_string, equals, differs}

-- Stands for std::to_string.
abbrev nothing : ℕ → Bytes
nothing n = []

wraps :
    (equals (from_status_code (negsuc 0)) 65535 ≡ true)
    × (differs (from_status_code (pos 65736)) 404 ≡ true)
unfolding equals differs from_status_code
wraps = (refl, refl)

unknown : to_string nothing (from_status_code (pos 418)) ≡ bytes "Unknown HttpStatusCode ()"
unfolding to_string from_status_code
unknown = refl
