-- ===== src/Service/Steps.antt =====
-- The handlers of internal/steps_service_operations.go. `config_account` is the account reference
-- of the step's configuration, which all of them fall back to.
use workflow_plugin_signal.Base.{ℤ, Option, none, some, [], ◌∷◌, Str, lit, Result, ◌>>=◌, wrap}
use workflow_plugin_signal.Text.{first_non_empty}
use workflow_plugin_signal.Accounts.{Registry}
use workflow_plugin_signal.Service.Ceremony.{
  LinkedDeviceCeremony, Claims, validate_linked_device_ceremony,
}
use workflow_plugin_signal.Service.Prepare.{
  ServiceEnvelopeFields, ServiceOperationPrepareOutput, Error, ceremony, service_operation_prepared,
  service_operation_report,
}

-- service.OperationRegister and its like
pub record OperationNames : Type 0 where
  pub register : Str
  pub link_device : Str
  pub send : Str
  pub receive : Str
  pub challenge : Str
  pub username : Str
  pub backup : Str

-- The fields that the inputs of the five prepare steps have in common.
pub record PrepareInput : Type 0 where
  pub operation_id : Str
  pub account_ref : Str
  pub device_ref : Str
  pub custody_ref : Str
  pub idempotency_key : Str
  pub consent_ref : Str
  pub audit_ref : Str
  pub credential_ref : Str
  pub non_exportable_key_ref : Str
  pub requested_at_unix : ℤ

unfoldable pub common_fields : Str → PrepareInput → ServiceEnvelopeFields
common_fields config_account input = record {
  operation_id = input.operation_id;
  account_ref = first_non_empty (input.account_ref ∷ config_account ∷ []);
  device_ref = input.device_ref;
  custody_ref = input.custody_ref;
  idempotency_key = input.idempotency_key;
  consent_ref = input.consent_ref;
  audit_ref = input.audit_ref;
  credential_ref = input.credential_ref;
  non_exportable_key_ref = input.non_exportable_key_ref;
  recipient_ref = [];
  payload_ref = [];
  cursor_ref = [];
  username = [];
  backup_ref = [];
  backup_id = [];
  challenge_ref = [];
  challenge_response_ref = [];
  requested_at_unix = input.requested_at_unix;
  linked_device = none;
}

module _ (names : OperationNames) (now : ℤ) (g : Registry) (config_account : Str) where
  unfoldable pub execute_register_prepare :
      PrepareInput → Str → Result Error ServiceOperationPrepareOutput
  execute_register_prepare input username =
      service_operation_prepared now g names.register
        (record (common_fields config_account input) { username = username })

  abbrev pub ceremony_consent : Option LinkedDeviceCeremony → Str
  ceremony_consent none = []
  ceremony_consent (some c) = c.consent_ref

  unfoldable pub link_fields : PrepareInput → Option LinkedDeviceCeremony → ServiceEnvelopeFields
  link_fields input linked_device = record (common_fields config_account input) {
    consent_ref = first_non_empty (input.consent_ref ∷ ceremony_consent linked_device ∷ []);
    linked_device = linked_device;
  }

  -- The claim on the consent is taken first, and stays if the preparation then fails.
  unfoldable pub execute_link_prepare :
      PrepareInput
      → Option LinkedDeviceCeremony
      → Claims
      → Result Error ServiceOperationPrepareOutput × Claims
  execute_link_prepare input linked_device claims =
      let r : Result _ (Unit {0}) × Claims =
        validate_linked_device_ceremony now linked_device claims in
      (
        (wrap ceremony r.0 >>= λ _.
            service_operation_prepared now g names.link_device (link_fields input linked_device)),
        r.1,
      )

  unfoldable pub execute_send_prepare :
      PrepareInput → Str → Str → Result Error ServiceOperationPrepareOutput
  execute_send_prepare input recipient_ref payload_ref =
      service_operation_prepared now g names.send (record (common_fields config_account input) {
        recipient_ref = recipient_ref;
        payload_ref = payload_ref;
      })

  unfoldable pub execute_receive_admit :
      PrepareInput → Str → Result Error ServiceOperationPrepareOutput
  execute_receive_admit input cursor_ref =
      service_operation_prepared now g names.receive
        (record (common_fields config_account input) { cursor_ref = cursor_ref })

  unfoldable pub execute_challenge_respond :
      PrepareInput → Str → Str → Result Error ServiceOperationPrepareOutput
  execute_challenge_respond input challenge_ref challenge_response_ref =
      service_operation_prepared now g names.challenge
        (record (common_fields config_account input) {
          challenge_ref = challenge_ref;
          challenge_response_ref = challenge_response_ref;
        })

  -- The three reports read fewer fields.
  abbrev pub report_input : Str → Str → Str → Str → ℤ → PrepareInput
  report_input operation_id account_ref idempotency_key audit_ref requested_at_unix = record {
    operation_id = operation_id;
    account_ref = account_ref;
    device_ref = [];
    custody_ref = [];
    idempotency_key = idempotency_key;
    consent_ref = [];
    audit_ref = audit_ref;
    credential_ref = [];
    non_exportable_key_ref = [];
    requested_at_unix = requested_at_unix;
  }

  unfoldable pub execute_username_proof_prepare :
      Str → Str → Str → Str → ℤ → Str → Result Error ServiceOperationPrepareOutput
  execute_username_proof_prepare op account key audit at username =
      service_operation_report now g names.username (lit "structural")
        (lit "username proof vectors are tracked in libsignal-go proof reports")
        (record (common_fields config_account (report_input op account key audit at)) {
          username = username;
        })

  unfoldable pub execute_backup_manifest_verify :
      Str → Str → Str → Str → ℤ → Str → Str → Result Error ServiceOperationPrepareOutput
  execute_backup_manifest_verify op account key audit at backup_ref backup_id =
      service_operation_report now g names.backup (lit "deferred")
        (lit "backup manifest parity depends on upstream backup vectors")
        (record (common_fields config_account (report_input op account key audit at)) {
          backup_ref = backup_ref;
          backup_id = backup_id;
        })

  unfoldable pub execute_backup_auth_prepare :
      Str → Str → Str → Str → ℤ → Str → Result Error ServiceOperationPrepareOutput
  execute_backup_auth_prepare op account key audit at backup_ref =
      service_operation_report now g names.backup (lit "deferred")
        (lit "backup auth parity depends on upstream backup credential vectors")
        (record (common_fields config_account (report_input op account key audit at)) {
          backup_ref = backup_ref;
        })
