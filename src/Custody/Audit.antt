-- ===== src/Custody/Audit.antt =====
-- The redaction of internal/custody/audit.go. Writing the row is input and output.
pub mod Redaction
use workflow_plugin_signal.Base.{
  Bool, true, false, ◌||◌, List, [], ◌∷◌, if◌then◌else◌, Str, lit, Dict,
}
use workflow_plugin_signal.Text.{to_lower, contains}

abbrev pub sensitive_parts : List Str
sensitive_parts = lit "private_key" ∷ lit "secret" ∷ lit "token" ∷ lit "credential" ∷ []

-- The loop over the parts.
unfoldable pub any_part : Str → List Str → Bool
any_part normalized [] = false
any_part normalized (part ∷ parts) = contains normalized part || any_part normalized parts

unfoldable pub sensitive_field : Str → Bool
unfolding any_part
sensitive_field key = any_part (to_lower key) sensitive_parts

-- The map is rebuilt with the same keys.
unfoldable pub redact_fields : Dict Str → Dict Str
redact_fields [] = []
redact_fields ((key, value) ∷ fields) =
    (key, if sensitive_field key then lit "[redacted]" else value) ∷ redact_fields fields
