-- ===== src/Provider/Factories.antt =====
-- `CreateTypedModule` and `CreateTypedStep` of internal/provider.go.
use workflow_plugin_signal.Base.{Str, lit, Dict, lookup, [], ◌∷◌, ◌++◌, Result, or_fail}

-- The functions that the steps run.
pub data Handler : Type 0 where
  execute_signal_session_prepare execute_signal_encrypt execute_signal_decrypt : Handler
  execute_signal_fingerprint execute_signal_account_keys execute_signal_username_link_create :
      Handler
  execute_signal_username_link_decrypt execute_signal_service_contract_check : Handler
  execute_signal_service_compliance_check execute_signal_service_policy_check : Handler
  execute_signal_service_approval_validate execute_signal_service_live_submit : Handler
  execute_signal_service_register_prepare execute_signal_service_link_prepare : Handler
  execute_signal_service_send_prepare execute_signal_service_receive_admit : Handler
  execute_signal_service_challenge_respond execute_signal_username_proof_prepare : Handler
  execute_signal_backup_manifest_verify execute_signal_backup_auth_prepare : Handler
  execute_signal_service_test_register execute_signal_service_test_link_device : Handler
  execute_signal_service_test_send execute_signal_service_test_receive : Handler
  execute_signal_service_test_username_reserve execute_signal_service_test_backup_upload : Handler
  execute_signal_service_test_backup_download execute_signal_custody_create : Handler
  execute_signal_custody_rotate execute_signal_custody_restore execute_signal_custody_revoke :
      Handler
  execute_signal_custody_inspect execute_signal_custody_attest : Handler
  execute_signal_custody_export_request execute_signal_outbox_enqueue : Handler
  execute_signal_outbox_claim execute_signal_inbox_receive execute_signal_inbox_decrypt : Handler

-- The constructors of the modules.
pub data ModuleConstructor : Type 0 where
  new_identity_store_module new_space_module new_official_service_boundary_module :
      ModuleConstructor
  new_service_transport_module new_live_policy_module new_key_custody_module : ModuleConstructor
  new_persistent_custody_module new_custody_store_module new_envelope_store_module :
      ModuleConstructor
  new_account_ref_module new_envelope_trigger_module : ModuleConstructor
  new_service_envelope_trigger_module : ModuleConstructor

-- The message that a function returns.
unfoldable pub handler_output : Handler → Str
handler_output execute_signal_session_prepare = lit "SessionPrepareOutput"
handler_output execute_signal_encrypt = lit "SignalEncryptOutput"
handler_output execute_signal_decrypt = lit "SignalDecryptOutput"
handler_output execute_signal_fingerprint = lit "SignalFingerprintOutput"
handler_output execute_signal_account_keys = lit "AccountKeysOutput"
handler_output execute_signal_username_link_create = lit "UsernameLinkCreateOutput"
handler_output execute_signal_username_link_decrypt = lit "UsernameLinkDecryptOutput"
handler_output execute_signal_service_contract_check = lit "ServiceContractCheckOutput"
handler_output execute_signal_service_compliance_check = lit "ServiceComplianceCheckOutput"
handler_output execute_signal_service_policy_check = lit "ServicePolicyCheckOutput"
handler_output execute_signal_service_approval_validate = lit "ServiceApprovalValidateOutput"
handler_output execute_signal_service_live_submit = lit "ServiceSubmitOutput"
handler_output execute_signal_service_register_prepare = lit "ServiceOperationPrepareOutput"
handler_output execute_signal_service_link_prepare = lit "ServiceOperationPrepareOutput"
handler_output execute_signal_service_send_prepare = lit "ServiceOperationPrepareOutput"
handler_output execute_signal_service_receive_admit = lit "ServiceOperationPrepareOutput"
handler_output execute_signal_service_challenge_respond = lit "ServiceOperationPrepareOutput"
handler_output execute_signal_username_proof_prepare = lit "ServiceOperationPrepareOutput"
handler_output execute_signal_backup_manifest_verify = lit "ServiceOperationPrepareOutput"
handler_output execute_signal_backup_auth_prepare = lit "ServiceOperationPrepareOutput"
handler_output execute_signal_service_test_register = lit "ServiceTestOutput"
handler_output execute_signal_service_test_link_device = lit "ServiceTestOutput"
handler_output execute_signal_service_test_send = lit "ServiceTestOutput"
handler_output execute_signal_service_test_receive = lit "ServiceTestOutput"
handler_output execute_signal_service_test_username_reserve = lit "ServiceTestOutput"
handler_output execute_signal_service_test_backup_upload = lit "ServiceTestOutput"
handler_output execute_signal_service_test_backup_download = lit "ServiceTestOutput"
handler_output execute_signal_custody_create = lit "CustodyCreateOutput"
handler_output execute_signal_custody_rotate = lit "CustodyRotateOutput"
handler_output execute_signal_custody_restore = lit "CustodyRestoreOutput"
handler_output execute_signal_custody_revoke = lit "CustodyRevokeOutput"
handler_output execute_signal_custody_inspect = lit "CustodyInspectOutput"
handler_output execute_signal_custody_attest = lit "CustodyAttestOutput"
handler_output execute_signal_custody_export_request = lit "CustodyExportRequestOutput"
handler_output execute_signal_outbox_enqueue = lit "OutboxEnqueueOutput"
handler_output execute_signal_outbox_claim = lit "OutboxClaimOutput"
handler_output execute_signal_inbox_receive = lit "InboxReceiveOutput"
handler_output execute_signal_inbox_decrypt = lit "InboxDecryptOutput"

-- sdk.NewTypedStepFactory and sdk.NewTypedModuleFactory, each with what it is made of
pub record StepFactory : Type 0 where
  pub config_message : Str
  pub input_message : Str
  pub handler : Handler

pub record ModuleFactory : Type 0 where
  pub config_message : Str
  pub constructor : ModuleConstructor

-- sdk.ErrTypedContractNotHandled
pub data Error : Type 0 where
  not_handled : Str → Error

abbrev step : Str → Str → Handler → StepFactory
step config input handler = record {
  config_message = config;
  input_message = input;
  handler = handler;
}

abbrev module_of : Str → ModuleConstructor → ModuleFactory
module_of config constructor = record { config_message = config; constructor = constructor }

-- The cases of `CreateTypedModule`.
unfoldable pub module_factories : Dict ModuleFactory
module_factories =
    (lit "signal.identity_store", module_of (lit "IdentityStoreConfig") new_identity_store_module)
    ∷ (lit "signal.space", module_of (lit "SpaceConfig") new_space_module)
    ∷ (
      lit "signal.official_service_boundary",
      module_of (lit "OfficialServiceBoundaryConfig") new_official_service_boundary_module,
    )
    ∷ (
      lit "signal.service_transport",
      module_of (lit "ServiceTransportConfig") new_service_transport_module,
    )
    ∷ (lit "signal.live_policy", module_of (lit "LivePolicyConfig") new_live_policy_module)
    ∷ (lit "signal.key_custody", module_of (lit "KeyCustodyConfig") new_key_custody_module)
    ∷ (
      lit "signal.persistent_custody",
      module_of (lit "PersistentCustodyConfig") new_persistent_custody_module,
    )
    ∷ (lit "signal.custody_store", module_of (lit "CustodyStoreConfig") new_custody_store_module)
    ∷ (lit "signal.envelope_store", module_of (lit "EnvelopeStoreConfig") new_envelope_store_module)
    ∷ (lit "signal.account_ref", module_of (lit "AccountRefConfig") new_account_ref_module)
    ∷ (
      lit "trigger.signal_envelope",
      module_of (lit "EnvelopeTriggerConfig") new_envelope_trigger_module,
    )
    ∷ (
      lit "trigger.signal_service_envelope",
      module_of (lit "ServiceEnvelopeTriggerConfig") new_service_envelope_trigger_module,
    )
    ∷ []

-- The cases of `CreateTypedStep` for the sessions and keys.
unfoldable pub session_factories : Dict StepFactory
session_factories =
    (
      lit "step.signal_session_prepare",
      step (lit "SessionPrepareConfig") (lit "SessionPrepareInput") execute_signal_session_prepare,
    )
    ∷ (
      lit "step.signal_encrypt",
      step (lit "SignalEncryptConfig") (lit "SignalEncryptInput") execute_signal_encrypt,
    )
    ∷ (
      lit "step.signal_decrypt",
      step (lit "SignalDecryptConfig") (lit "SignalDecryptInput") execute_signal_decrypt,
    )
    ∷ (
      lit "step.signal_fingerprint",
      step (lit "SignalFingerprintConfig") (lit "SignalFingerprintInput")
          execute_signal_fingerprint,
    )
    ∷ (
      lit "step.signal_account_keys",
      step (lit "AccountKeysConfig") (lit "AccountKeysInput") execute_signal_account_keys,
    )
    ∷ (
      lit "step.signal_username_link_create",
      step (lit "UsernameLinkCreateConfig") (lit "UsernameLinkCreateInput")
          execute_signal_username_link_create,
    )
    ∷ (
      lit "step.signal_username_link_decrypt",
      step (lit "UsernameLinkDecryptConfig") (lit "UsernameLinkDecryptInput")
          execute_signal_username_link_decrypt,
    )
    ∷ []

-- The cases of `CreateTypedStep` for the service.
unfoldable pub service_factories : Dict StepFactory
service_factories =
    (
      lit "step.signal_service_contract_check",
      step (lit "ServiceContractCheckConfig") (lit "ServiceContractCheckInput")
          execute_signal_service_contract_check,
    )
    ∷ (
      lit "step.signal_service_compliance_check",
      step (lit "ServiceComplianceCheckConfig") (lit "ServiceComplianceCheckInput")
          execute_signal_service_compliance_check,
    )
    ∷ (
      lit "step.signal_service_policy_check",
      step (lit "ServicePolicyCheckConfig") (lit "ServicePolicyCheckInput")
          execute_signal_service_policy_check,
    )
    ∷ (
      lit "step.signal_service_approval_validate",
      step (lit "ServiceApprovalValidateConfig") (lit "ServiceApprovalValidateInput")
          execute_signal_service_approval_validate,
    )
    ∷ (
      lit "step.signal_service_live_submit",
      step (lit "ServiceLiveSubmitConfig") (lit "ServiceLiveSubmitInput")
          execute_signal_service_live_submit,
    )
    ∷ (
      lit "step.signal_service_register_prepare",
      step (lit "ServiceRegisterPrepareConfig") (lit "ServiceRegisterPrepareInput")
          execute_signal_service_register_prepare,
    )
    ∷ (
      lit "step.signal_service_link_prepare",
      step (lit "ServiceLinkPrepareConfig") (lit "ServiceLinkPrepareInput")
          execute_signal_service_link_prepare,
    )
    ∷ (
      lit "step.signal_service_send_prepare",
      step (lit "ServiceSendPrepareConfig") (lit "ServiceSendPrepareInput")
          execute_signal_service_send_prepare,
    )
    ∷ (
      lit "step.signal_service_receive_admit",
      step (lit "ServiceReceiveAdmitConfig") (lit "ServiceReceiveAdmitInput")
          execute_signal_service_receive_admit,
    )
    ∷ (
      lit "step.signal_service_challenge_respond",
      step (lit "ServiceChallengeRespondConfig") (lit "ServiceChallengeRespondInput")
          execute_signal_service_challenge_respond,
    )
    ∷ (
      lit "step.signal_username_proof_prepare",
      step (lit "UsernameProofPrepareConfig") (lit "UsernameProofPrepareInput")
          execute_signal_username_proof_prepare,
    )
    ∷ (
      lit "step.signal_backup_manifest_verify",
      step (lit "BackupManifestVerifyConfig") (lit "BackupManifestVerifyInput")
          execute_signal_backup_manifest_verify,
    )
    ∷ (
      lit "step.signal_backup_auth_prepare",
      step (lit "BackupAuthPrepareConfig") (lit "BackupAuthPrepareInput")
          execute_signal_backup_auth_prepare,
    )
    ∷ []

-- The cases of `CreateTypedStep` for the test service.
unfoldable pub service_test_factories : Dict StepFactory
service_test_factories =
    (
      lit "step.signal_service_test_register",
      step (lit "ServiceTestRegisterConfig") (lit "ServiceTestRegisterInput")
          execute_signal_service_test_register,
    )
    ∷ (
      lit "step.signal_service_test_link_device",
      step (lit "ServiceTestLinkDeviceConfig") (lit "ServiceTestLinkDeviceInput")
          execute_signal_service_test_link_device,
    )
    ∷ (
      lit "step.signal_service_test_send",
      step (lit "ServiceTestSendConfig") (lit "ServiceTestSendInput")
          execute_signal_service_test_send,
    )
    ∷ (
      lit "step.signal_service_test_receive",
      step (lit "ServiceTestReceiveConfig") (lit "ServiceTestReceiveInput")
          execute_signal_service_test_receive,
    )
    ∷ (
      lit "step.signal_service_test_username_reserve",
      step (lit "ServiceTestUsernameReserveConfig") (lit "ServiceTestUsernameReserveInput")
          execute_signal_service_test_username_reserve,
    )
    ∷ (
      lit "step.signal_service_test_backup_upload",
      step (lit "ServiceTestBackupUploadConfig") (lit "ServiceTestBackupUploadInput")
          execute_signal_service_test_backup_upload,
    )
    ∷ (
      lit "step.signal_service_test_backup_download",
      step (lit "ServiceTestBackupDownloadConfig") (lit "ServiceTestBackupDownloadInput")
          execute_signal_service_test_backup_download,
    )
    ∷ []

-- The cases of `CreateTypedStep` for the custodies and envelopes.
unfoldable pub store_factories : Dict StepFactory
store_factories =
    (
      lit "step.signal_custody_create",
      step (lit "CustodyCreateConfig") (lit "CustodyCreateInput") execute_signal_custody_create,
    )
    ∷ (
      lit "step.signal_custody_rotate",
      step (lit "CustodyRotateConfig") (lit "CustodyRotateInput") execute_signal_custody_rotate,
    )
    ∷ (
      lit "step.signal_custody_restore",
      step (lit "CustodyRestoreConfig") (lit "CustodyRestoreInput") execute_signal_custody_restore,
    )
    ∷ (
      lit "step.signal_custody_revoke",
      step (lit "CustodyRevokeConfig") (lit "CustodyRevokeInput") execute_signal_custody_revoke,
    )
    ∷ (
      lit "step.signal_custody_inspect",
      step (lit "CustodyInspectConfig") (lit "CustodyInspectInput") execute_signal_custody_inspect,
    )
    ∷ (
      lit "step.signal_custody_attest",
      step (lit "CustodyAttestConfig") (lit "CustodyAttestInput") execute_signal_custody_attest,
    )
    ∷ (
      lit "step.signal_custody_export_request",
      step (lit "CustodyExportRequestConfig") (lit "CustodyExportRequestInput")
          execute_signal_custody_export_request,
    )
    ∷ (
      lit "step.signal_outbox_enqueue",
      step (lit "OutboxEnqueueConfig") (lit "OutboxEnqueueInput") execute_signal_outbox_enqueue,
    )
    ∷ (
      lit "step.signal_outbox_claim",
      step (lit "OutboxClaimConfig") (lit "OutboxClaimInput") execute_signal_outbox_claim,
    )
    ∷ (
      lit "step.signal_inbox_receive",
      step (lit "InboxReceiveConfig") (lit "InboxReceiveInput") execute_signal_inbox_receive,
    )
    ∷ (
      lit "step.signal_inbox_decrypt",
      step (lit "InboxDecryptConfig") (lit "InboxDecryptInput") execute_signal_inbox_decrypt,
    )
    ∷ []

unfoldable pub step_factories : Dict StepFactory
unfolding session_factories service_factories service_test_factories store_factories
step_factories =
    session_factories ++ (service_factories ++ (service_test_factories ++ store_factories))

unfoldable pub create_typed_module : Str → Result Error ModuleFactory
create_typed_module name = or_fail (lookup name module_factories) (not_handled name)

unfoldable pub create_typed_step : Str → Result Error StepFactory
create_typed_step name = or_fail (lookup name step_factories) (not_handled name)
