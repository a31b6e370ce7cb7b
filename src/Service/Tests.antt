-- ===== src/Service/Tests.antt =====
-- Ceremonies and prepared operations at concrete inputs.
use workflow_plugin_signal.Base.{
  pos, ◌++◌, ◌≡◌, refl, true, false, some, none, [], ◌∷◌, lit, str_eq, lookup, insert, ok, err,
}
use workflow_plugin_signal.Text.{first_non_empty, contains, has_prefix}
use workflow_plugin_signal.Refs.{signal_ref_segment}
use workflow_plugin_signal.Accounts.{
  Registry, KeyCustodyConfig, new_key_custody_module, init_key_custody,
  registered_signal_key_custody, registered_signal_account_ref,
}
use workflow_plugin_signal.Accounts.Ownership
use workflow_plugin_signal.Service.Ceremony.{
  LinkedDeviceCeremony, consent_replay, check_ceremony, drop_expired, take_claim,
  validate_linked_device_ceremony,
}
use workflow_plugin_signal.Service.Ceremony.Replay.{run, consent_not_replayed}
use workflow_plugin_signal.Service.Prepare.{
  ServiceEnvelopeFields, ServicePrepareReadiness, inherit_account, inherit_custody,
  readiness_warnings, resolve_service_prepare_readiness, prepare_output,
}
use workflow_plugin_signal.Service.Prepare.Exposure.{
  IsShowable, IsExposable, IsPassed, prepare_output-IsExposable,
}
use workflow_plugin_signal.Service.Prepare.Readiness.{
  Paired, resolve_service_prepare_readiness-Paired,
}

abbrev ceremony : LinkedDeviceCeremony
ceremony = record {
  device_display_name = lit "phone";
  consent_ref = lit "consent://1";
  consent_expires_unix = pos 100;
  revocation_uri = lit "u";
  unlink_proof_ref = lit "p";
}

accepted : (validate_linked_device_ceremony (pos 10) (some ceremony) []).0 ≡ ok tt
unfolding validate_linked_device_ceremony check_ceremony drop_expired take_claim lookup has_prefix
accepted = refl

checked : check_ceremony (pos 30) (some ceremony) ≡ ok ceremony
unfolding check_ceremony has_prefix
checked = refl

consent_not_replayed_example :
    (validate_linked_device_ceremony
      (pos 30)
      (some ceremony)
      (run ((pos 20, none) ∷ []) (validate_linked_device_ceremony (pos 10) (some ceremony) []).1)).0
    ≡ err consent_replay
consent_not_replayed_example =
    consent_not_replayed (pos 10) (pos 30) ceremony ceremony [] ((pos 20, none) ∷ []) tt accepted
      (refl, tt) refl refl checked

has_scheme : contains (lit "a://b") (lit "://") ≡ true
unfolding contains has_prefix
has_scheme = refl

abbrev given : ServiceEnvelopeFields
given = record {
  operation_id = [];
  account_ref = [];
  device_ref = [];
  custody_ref = lit "custody://1";
  idempotency_key = [];
  consent_ref = [];
  audit_ref = [];
  credential_ref = lit "bare";
  non_exportable_key_ref = [];
  recipient_ref = [];
  payload_ref = [];
  cursor_ref = [];
  username = [];
  backup_ref = [];
  backup_id = [];
  challenge_ref = [];
  challenge_response_ref = [];
  requested_at_unix = pos 0;
  linked_device = none;
}

abbrev readiness : ServicePrepareReadiness
readiness = record { custody_attested = false; custody_attestation_ref = []; warnings = [] }

prepare_output-IsExposable_example :
    IsExposable
      (prepare_output (pos 5) (lit "send") (lit "prepared") [] (given, readiness)).envelope
    × IsShowable
        (prepare_output (pos 5) (lit "send") (lit "prepared") [] (given, readiness)).audit_ref
    × ((prepare_output
          (pos 5)
          (lit "send")
          (lit "prepared")
          []
          (given, readiness)).live_egress_attempted
        ≡ false)
    × IsPassed
        (lit "send")
        given
        (prepare_output (pos 5) (lit "send") (lit "prepared") [] (given, readiness)).envelope
prepare_output-IsExposable_example =
    prepare_output-IsExposable (pos 5) (lit "send") (lit "prepared") [] (given, readiness)

abbrev nothing : Registry
nothing = record { custodies = []; accounts = [] }

nothing-IsValid : Ownership.IsValid nothing
unfolding lookup
nothing-IsValid = record { custodies = λ k c f. cc; accounts = λ k a f. cc }

abbrev custody_config : KeyCustodyConfig
custody_config = record {
  custody_ref = lit "custody://1";
  account_ref = lit "a1";
  secret_refs = [];
  non_exportable_key_ref = lit "hsm";
  allow_exportable_secret_refs = false;
}

abbrev registry : Registry
registry = init_key_custody custody_config nothing

config_accepted : new_key_custody_module custody_config ≡ ok custody_config
unfolding new_key_custody_module
config_accepted = refl

abbrev resolved : ServiceEnvelopeFields
resolved = record given { account_ref = lit "a1"; non_exportable_key_ref = lit "hsm" }

abbrev attested : ServicePrepareReadiness
attested = record {
  custody_attested = true;
  custody_attestation_ref =
      lit "attest://signal/custody/" ++ signal_ref_segment (lit "custody://1");
  warnings = lit "account_ref_not_registered" ∷ [];
}

ready : resolve_service_prepare_readiness registry given ≡ ok (resolved, attested)
unfolding resolve_service_prepare_readiness registered_signal_account_ref
    registered_signal_key_custody inherit_account inherit_custody readiness_warnings lookup insert
    str_eq init_key_custody first_non_empty
ready = refl

resolve_service_prepare_readiness-Paired_example :
    Paired (registered_signal_key_custody (lit "custody://1") registry) resolved true
resolve_service_prepare_readiness-Paired_example =
    resolve_service_prepare_readiness-Paired registry given resolved attested
      (Ownership.init_key_custody-IsValid custody_config custody_config nothing config_accepted
        nothing-IsValid)
      ready
