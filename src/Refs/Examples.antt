-- ===== src/Refs/Examples.antt =====
-- Tests of the reference builders.
use workflow_plugin_signal.Base.{◌≡◌, refl, lit, []}
use workflow_plugin_signal.Text.{
  trim_prefix, drop, has_prefix, trim, trim_space, first_non_empty, replace_from,
}
use workflow_plugin_signal.Refs.{
  sanitize_envelope_ref_part, envelope_ref, custody_suffix, custody_audit_ref, signal_ref_segment,
}
use workflow_plugin_signal.Refs.Sanitize.{IsClean, sanitize-IsClean}

sanitize_test : sanitize_envelope_ref_part (lit "/a://b/c/") ≡ lit "a-b-c"
unfolding sanitize_envelope_ref_part
sanitize_test = refl

envelope_ref_test :
    envelope_ref (lit "7") (lit "outbox") [] (lit "s") (lit "r") []
    ≡ lit "signal-envelope://outbox/s-r"
unfolding envelope_ref sanitize_envelope_ref_part first_non_empty
envelope_ref_test = refl

audit_test : custody_audit_ref (lit "custody://a/b://c/") ≡ lit "audit://custody/a/b/c"
unfolding custody_audit_ref custody_suffix trim_prefix drop has_prefix trim replace_from
audit_test = refl

segment_test : signal_ref_segment (lit " op://a b:c/ ") ≡ lit "a-b-c"
unfolding signal_ref_segment trim_prefix drop trim replace_from trim_space
segment_test = refl

sanitize-IsClean_example : IsClean (sanitize_envelope_ref_part (lit "/a://b/c/"))
sanitize-IsClean_example = sanitize-IsClean (lit "/a://b/c/")
