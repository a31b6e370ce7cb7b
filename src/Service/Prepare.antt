-- ===== src/Service/Prepare.antt =====
-- The prepare steps of internal/steps_service_operations.go: they complete an operation from the
-- registered account and custody and build its envelope, and open no transport.
-- The names of the operations are constants of libsignal-service-go, an argument here.
pub mod Exposure
pub mod Readiness
use workflow_plugin_signal.Base.{
  ℤ, Bool, true, false, not, ◌&&◌, ◌||◌, Option, none, some, List, [], ◌∷◌, ◌++◌, if◌then◌else◌,
  is_zero, Str, lit, is_empty, str_eq, Result, ok, err, ◌>>=◌, ◌>>◌, fail_if, wrap,
}
use workflow_plugin_signal.Text.{first_non_empty}
use workflow_plugin_signal.Refs.{safe_signal_ref, signal_ref_segment}
use workflow_plugin_signal.Accounts.{
  SignalKeyCustody, SignalAccountRef, Registry, registered_signal_key_custody,
  registered_signal_account_ref,
}
use workflow_plugin_signal.Service.Ceremony
use workflow_plugin_signal.Service.Ceremony.{
  LinkedDeviceCeremony, Claims, validate_linked_device_ceremony,
}

pub record ServiceEnvelopeFields : Type 0 where
  pub operation_id : Str
  pub account_ref : Str
  pub device_ref : Str
  pub custody_ref : Str
  pub idempotency_key : Str
  pub consent_ref : Str
  pub audit_ref : Str
  pub credential_ref : Str
  pub non_exportable_key_ref : Str
  pub recipient_ref : Str
  pub payload_ref : Str
  pub cursor_ref : Str
  pub username : Str
  pub backup_ref : Str
  pub backup_id : Str
  pub challenge_ref : Str
  pub challenge_response_ref : Str
  pub requested_at_unix : ℤ
  pub linked_device : Option LinkedDeviceCeremony

pub record ServiceOperationEnvelope : Type 0 where
  pub operation_id : Str
  pub operation : Str
  pub idempotency_key : Str
  pub account_ref : Str
  pub device_ref : Str
  pub custody_ref : Str
  pub requested_at_unix : ℤ
  pub consent_ref : Str
  pub audit_ref : Str
  pub credential_ref : Str
  pub non_exportable_key_ref : Str
  pub recipient_ref : Str
  pub payload_ref : Str
  pub cursor_ref : Str
  pub username : Str
  pub backup_ref : Str
  pub backup_id : Str
  pub challenge_ref : Str
  pub challenge_response_ref : Str
  pub linked_device : Option LinkedDeviceCeremony

pub record ServicePrepareReadiness : Type 0 where
  pub custody_attested : Bool
  pub custody_attestation_ref : Str
  pub warnings : List Str

pub record ServiceOperationPrepareOutput : Type 0 where
  pub envelope : ServiceOperationEnvelope
  pub status : Str
  pub report_classification : Str
  pub deferred_reason : Str
  pub audit_ref : Str
  pub live_egress_attempted : Bool
  pub custody_attested : Bool
  pub custody_attestation_ref : Str
  pub readiness_warnings : List Str

pub data Error : Type 0 where
  custody_not_registered : Str → Error
  custody_belongs_to : Str → Str → Error
  ceremony : Ceremony.Error → Error

-- What a registered account adds to the fields.
unfoldable pub inherit_account :
    Option SignalAccountRef → ServiceEnvelopeFields → ServiceEnvelopeFields
inherit_account none fields = fields
inherit_account (some account) fields = record fields {
  device_ref = first_non_empty (fields.device_ref ∷ account.device_ref ∷ []);
  consent_ref = first_non_empty (fields.consent_ref ∷ account.consent_ref ∷ []);
  audit_ref = first_non_empty (fields.audit_ref ∷ account.audit_ref ∷ []);
  credential_ref = first_non_empty (fields.credential_ref ∷ account.credential_ref ∷ []);
  custody_ref =
      if is_empty fields.custody_ref
      then elim account.custody [ some k ↦ k.ref | none ↦ account.custody_ref ]
      else fields.custody_ref;
}

abbrev pub is_registered : {A : Type 0} → Option A → Bool
is_registered none = false
is_registered (some a) = true

-- What a registered custody adds, or its refusal. The result has the fields, whether the custody is
-- attested, and the attestation.
unfoldable pub inherit_custody :
    Option SignalKeyCustody
    → ServiceEnvelopeFields
    → Result Error (ServiceEnvelopeFields × Bool × Str)
inherit_custody none fields = ok (fields, false, [])
inherit_custody (some custody) fields =
    let key =
      first_non_empty (fields.non_exportable_key_ref ∷ custody.non_exportable_key_ref ∷ []) in
    let account = if is_empty fields.account_ref then custody.account_ref else fields.account_ref in
    if not (is_empty fields.account_ref)
      && not (is_empty custody.account_ref)
      && not (str_eq custody.account_ref fields.account_ref)
    then err (custody_belongs_to custody.ref custody.account_ref)
    else ok (
      record fields { non_exportable_key_ref = key; account_ref = account },
      not (is_empty key),
      (if is_empty key
          then []
          else lit "attest://signal/custody/" ++ signal_ref_segment custody.ref),
    )

abbrev warn_if : Bool → Str → List Str
warn_if true w = w ∷ []
warn_if false w = []

unfoldable pub readiness_warnings : Bool → Bool → ServiceEnvelopeFields → List Str
readiness_warnings account_registered custody_registered fields =
    warn_if (not (is_empty fields.account_ref) && not account_registered)
      (lit "account_ref_not_registered")
    ++ (warn_if (not (is_empty fields.custody_ref) && not custody_registered)
          (lit "custody_ref_not_registered")
        ++ warn_if (is_empty fields.custody_ref) (lit "custody_ref_missing"))

unfoldable pub resolve_service_prepare_readiness :
    Registry
    → ServiceEnvelopeFields
    → Result Error (ServiceEnvelopeFields × ServicePrepareReadiness)
resolve_service_prepare_readiness g fields =
    let account = registered_signal_account_ref fields.account_ref g in
    let fields₁ = inherit_account account fields in
    let custody = registered_signal_key_custody fields₁.custody_ref g in
    do
      fail_if
          (not (is_empty fields₁.custody_ref)
            && is_registered account
            && not (is_registered custody))
          (custody_not_registered fields₁.custody_ref)
      (fields₂, attested, attestation) ← inherit_custody custody fields₁
      ok (
        fields₂,
        record {
          custody_attested = attested;
          custody_attestation_ref = attestation;
          warnings = readiness_warnings (is_registered account) (is_registered custody) fields₂;
        },
      )

-- The envelope's own references.
unfoldable pub envelope_idempotency_key : Str → ServiceEnvelopeFields → Str
envelope_idempotency_key operation fields =
    if is_empty fields.idempotency_key
    then operation
      ++ (lit "-" ++ signal_ref_segment (first_non_empty (fields.account_ref ∷ lit "account" ∷ [])))
    else fields.idempotency_key

unfoldable pub envelope_operation_id : Str → ServiceEnvelopeFields → Str
envelope_operation_id operation fields =
    if is_empty fields.operation_id
    then lit "op://" ++ (operation ++ (lit "/" ++ envelope_idempotency_key operation fields))
    else fields.operation_id

-- `now` is the clock in Unix seconds.
unfoldable pub service_operation_envelope :
    ℤ → Str → ServiceEnvelopeFields → ServiceOperationEnvelope
service_operation_envelope now operation fields = record {
  operation_id = envelope_operation_id operation fields;
  operation = operation;
  idempotency_key = envelope_idempotency_key operation fields;
  account_ref = safe_signal_ref fields.account_ref;
  device_ref = safe_signal_ref fields.device_ref;
  custody_ref = safe_signal_ref fields.custody_ref;
  requested_at_unix = if is_zero fields.requested_at_unix then now else fields.requested_at_unix;
  consent_ref = safe_signal_ref fields.consent_ref;
  audit_ref = safe_signal_ref fields.audit_ref;
  credential_ref = safe_signal_ref fields.credential_ref;
  non_exportable_key_ref = safe_signal_ref fields.non_exportable_key_ref;
  recipient_ref = safe_signal_ref fields.recipient_ref;
  payload_ref = safe_signal_ref fields.payload_ref;
  cursor_ref = safe_signal_ref fields.cursor_ref;
  username = fields.username;
  backup_ref = safe_signal_ref fields.backup_ref;
  backup_id = safe_signal_ref fields.backup_id;
  challenge_ref = safe_signal_ref fields.challenge_ref;
  challenge_response_ref = safe_signal_ref fields.challenge_response_ref;
  linked_device = fields.linked_device;
}

unfoldable pub service_operation_audit_ref : ServiceOperationEnvelope → Str
service_operation_audit_ref envelope =
    lit "audit://signal/"
    ++ (signal_ref_segment envelope.operation
        ++ (lit "/" ++ signal_ref_segment envelope.operation_id))

unfoldable pub prepare_output :
    ℤ
    → Str
    → Str
    → Str
    → ServiceEnvelopeFields × ServicePrepareReadiness
    → ServiceOperationPrepareOutput
prepare_output now operation classification reason (fields, readiness) =
    let envelope = service_operation_envelope now operation fields in
    record {
      envelope = envelope;
      status = lit "prepared";
      report_classification = classification;
      deferred_reason = reason;
      audit_ref =
          safe_signal_ref
            (first_non_empty (fields.audit_ref ∷ service_operation_audit_ref envelope ∷ []));
      live_egress_attempted = false;
      custody_attested = readiness.custody_attested;
      custody_attestation_ref = readiness.custody_attestation_ref;
      readiness_warnings = readiness.warnings;
    }

unfoldable pub service_operation_report :
    ℤ
    → Registry
    → Str
    → Str
    → Str
    → ServiceEnvelopeFields
    → Result Error ServiceOperationPrepareOutput
service_operation_report now g operation classification reason fields = do
  resolved ← resolve_service_prepare_readiness g fields
  ok (prepare_output now operation classification reason resolved)

unfoldable pub service_operation_prepared :
    ℤ → Registry → Str → ServiceEnvelopeFields → Result Error ServiceOperationPrepareOutput
service_operation_prepared now g operation fields =
    service_operation_report now g operation (lit "prepared") [] fields
