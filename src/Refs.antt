-- ===== src/Refs.antt =====
-- The reference texts that the steps build: `envelopeRef`, `sanitizeEnvelopeRefPart`
-- (internal/envelope_store.go), `custodyAuditRef`, `custodyProofRef` (internal/custody_steps.go),
-- `signalRefSegment` (internal/steps_service_operations.go), `safeSignalRef`
-- (internal/service_transport.go) and `productionPolicyMode` (internal/custody.go).
pub mod Sanitize
mod Examples
use workflow_plugin_signal.Base.{
  ℕ, Bool, true, false, ◌||◌, List, [], ◌∷◌, ◌++◌, if◌then◌else◌, Str, lit, is_empty, str_eq,
}
use workflow_plugin_signal.Text.{
  first_non_empty, trim, trim_space, trim_prefix, to_lower, contains, replace, replace_all,
  replace_from,
}

abbrev pub sanitize_pairs : List (Str × Str)
sanitize_pairs = (lit "://", lit "-") ∷ (lit "/", lit "-") ∷ (0 ∷ [], lit "-") ∷ []

unfoldable pub sanitize_envelope_ref_part : Str → Str
unfolding trim replace_from
sanitize_envelope_ref_part value = replace sanitize_pairs (trim b'/' value)

-- `nanos` is the text of the clock's nanoseconds.
unfoldable pub envelope_ref : Str → Str → Str → Str → Str → Str → Str
envelope_ref nanos queue idempotency_key sender_ref recipient_ref message_ref =
    let base = sanitize_envelope_ref_part (
      trim b'/' (
        first_non_empty
          (idempotency_key ∷ message_ref ∷ (sender_ref ++ 0 ∷ recipient_ref) ∷ []))) in
    lit "signal-envelope://" ++ (queue ++ (lit "/" ++ (if is_empty base then nanos else base)))

unfoldable pub custody_suffix : Str → Str
custody_suffix custody_ref =
    let suffix =
      trim b'/' (replace_all (lit "://") (lit "/") (trim_prefix custody_ref (lit "custody://"))) in
    if is_empty suffix then lit "unknown" else suffix

unfoldable pub custody_audit_ref : Str → Str
custody_audit_ref custody_ref = lit "audit://custody/" ++ custody_suffix custody_ref

abbrev pub segment_pairs : List (Str × Str)
segment_pairs = (lit "/", lit "-") ∷ (lit ":", lit "-") ∷ (lit " ", lit "-") ∷ []

unfoldable pub signal_ref_segment : Str → Str
signal_ref_segment value =
    let text = trim_prefix (trim_space value) (lit "op://") in
    let text = trim b'-' (replace segment_pairs (replace_all (lit "://") (lit "-") text)) in
    if is_empty text then lit "ref" else text

unfoldable pub safe_signal_ref : Str → Str
safe_signal_ref value =
    if is_empty value || contains value (lit "://") then value else lit "redacted"

unfoldable pub production_policy_mode : Str → Bool
production_policy_mode mode =
    let m = to_lower (trim_space mode) in str_eq m (lit "production") || str_eq m (lit "prod")
