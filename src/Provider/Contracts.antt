-- ===== src/Provider/Contracts.antt =====
-- The announced types and `ContractRegistry` of internal/provider.go.
use workflow_plugin_signal.Base.{Str, lit, List, [], ◌∷◌, ◌++◌}

unfoldable pub signal_module_types : List Str
signal_module_types =
    lit "signal.identity_store"
    ∷ lit "signal.space"
    ∷ lit "signal.official_service_boundary"
    ∷ lit "signal.service_transport"
    ∷ lit "signal.live_policy"
    ∷ lit "signal.key_custody"
    ∷ lit "signal.persistent_custody"
    ∷ lit "signal.custody_store"
    ∷ lit "signal.envelope_store"
    ∷ lit "signal.account_ref"
    ∷ lit "trigger.signal_envelope"
    ∷ lit "trigger.signal_service_envelope"
    ∷ []

unfoldable pub signal_step_types : List Str
signal_step_types =
    lit "step.signal_session_prepare"
    ∷ lit "step.signal_encrypt"
    ∷ lit "step.signal_decrypt"
    ∷ lit "step.signal_fingerprint"
    ∷ lit "step.signal_account_keys"
    ∷ lit "step.signal_username_link_create"
    ∷ lit "step.signal_username_link_decrypt"
    ∷ lit "step.signal_service_contract_check"
    ∷ lit "step.signal_service_compliance_check"
    ∷ lit "step.signal_service_policy_check"
    ∷ lit "step.signal_service_approval_validate"
    ∷ lit "step.signal_service_live_submit"
    ∷ lit "step.signal_service_register_prepare"
    ∷ lit "step.signal_service_link_prepare"
    ∷ lit "step.signal_service_send_prepare"
    ∷ lit "step.signal_service_receive_admit"
    ∷ lit "step.signal_service_challenge_respond"
    ∷ lit "step.signal_username_proof_prepare"
    ∷ lit "step.signal_backup_manifest_verify"
    ∷ lit "step.signal_backup_auth_prepare"
    ∷ lit "step.signal_service_test_register"
    ∷ lit "step.signal_service_test_link_device"
    ∷ lit "step.signal_service_test_send"
    ∷ lit "step.signal_service_test_receive"
    ∷ lit "step.signal_service_test_username_reserve"
    ∷ lit "step.signal_service_test_backup_upload"
    ∷ lit "step.signal_service_test_backup_download"
    ∷ lit "step.signal_custody_create"
    ∷ lit "step.signal_custody_rotate"
    ∷ lit "step.signal_custody_restore"
    ∷ lit "step.signal_custody_revoke"
    ∷ lit "step.signal_custody_inspect"
    ∷ lit "step.signal_custody_attest"
    ∷ lit "step.signal_custody_export_request"
    ∷ lit "step.signal_outbox_enqueue"
    ∷ lit "step.signal_outbox_claim"
    ∷ lit "step.signal_inbox_receive"
    ∷ lit "step.signal_inbox_decrypt"
    ∷ []

-- pb.ContractDescriptor, whose mode is the strict one always
pub data ContractDescriptor : Type 0 where
  module_descriptor : Str → Str → ContractDescriptor
  step_descriptor : Str → Str → Str → Str → ContractDescriptor

unfoldable pub module_contract : Str → Str → ContractDescriptor
module_contract name config = module_descriptor name config

unfoldable pub step_contract : Str → Str → Str → Str → ContractDescriptor
step_contract name config input output = step_descriptor name config input output

-- A message of the plugin's package.
unfoldable pub pkg : Str → Str
pkg message = lit "workflow.plugins.signal.v1." ++ message

-- The contracts of `ContractRegistry`.
unfoldable pub contract_registry : List ContractDescriptor
contract_registry =
    module_contract (lit "signal.identity_store") (pkg (lit "IdentityStoreConfig"))
    ∷ module_contract (lit "signal.space") (pkg (lit "SpaceConfig"))
    ∷ module_contract (lit "signal.official_service_boundary")
        (pkg (lit "OfficialServiceBoundaryConfig"))
    ∷ module_contract (lit "signal.service_transport") (pkg (lit "ServiceTransportConfig"))
    ∷ module_contract (lit "signal.live_policy") (pkg (lit "LivePolicyConfig"))
    ∷ module_contract (lit "signal.key_custody") (pkg (lit "KeyCustodyConfig"))
    ∷ module_contract (lit "signal.persistent_custody") (pkg (lit "PersistentCustodyConfig"))
    ∷ module_contract (lit "signal.custody_store") (pkg (lit "CustodyStoreConfig"))
    ∷ module_contract (lit "signal.envelope_store") (pkg (lit "EnvelopeStoreConfig"))
    ∷ module_contract (lit "signal.account_ref") (pkg (lit "AccountRefConfig"))
    ∷ module_contract (lit "trigger.signal_envelope") (pkg (lit "EnvelopeTriggerConfig"))
    ∷ module_contract (lit "trigger.signal_service_envelope")
        (pkg (lit "ServiceEnvelopeTriggerConfig"))
    ∷ step_contract (lit "step.signal_session_prepare") (pkg (lit "SessionPrepareConfig"))
        (pkg (lit "SessionPrepareInput")) (pkg (lit "SessionPrepareOutput"))
    ∷ step_contract (lit "step.signal_encrypt") (pkg (lit "SignalEncryptConfig"))
        (pkg (lit "SignalEncryptInput")) (pkg (lit "SignalEncryptOutput"))
    ∷ step_contract (lit "step.signal_decrypt") (pkg (lit "SignalDecryptConfig"))
        (pkg (lit "SignalDecryptInput")) (pkg (lit "SignalDecryptOutput"))
    ∷ step_contract (lit "step.signal_fingerprint") (pkg (lit "SignalFingerprintConfig"))
        (pkg (lit "SignalFingerprintInput")) (pkg (lit "SignalFingerprintOutput"))
    ∷ step_contract (lit "step.signal_account_keys") (pkg (lit "AccountKeysConfig"))
        (pkg (lit "AccountKeysInput")) (pkg (lit "AccountKeysOutput"))
    ∷ step_contract (lit "step.signal_username_link_create") (pkg (lit "UsernameLinkCreateConfig"))
        (pkg (lit "UsernameLinkCreateInput")) (pkg (lit "UsernameLinkCreateOutput"))
    ∷ step_contract (lit "step.signal_username_link_decrypt")
        (pkg (lit "UsernameLinkDecryptConfig")) (pkg (lit "UsernameLinkDecryptInput"))
        (pkg (lit "UsernameLinkDecryptOutput"))
    ∷ step_contract (lit "step.signal_service_contract_check")
        (pkg (lit "ServiceContractCheckConfig")) (pkg (lit "ServiceContractCheckInput"))
        (pkg (lit "ServiceContractCheckOutput"))
    ∷ step_contract (lit "step.signal_service_compliance_check")
        (pkg (lit "ServiceComplianceCheckConfig")) (pkg (lit "ServiceComplianceCheckInput"))
        (pkg (lit "ServiceComplianceCheckOutput"))
    ∷ step_contract (lit "step.signal_service_policy_check") (pkg (lit "ServicePolicyCheckConfig"))
        (pkg (lit "ServicePolicyCheckInput")) (pkg (lit "ServicePolicyCheckOutput"))
    ∷ step_contract (lit "step.signal_service_approval_validate")
        (pkg (lit "ServiceApprovalValidateConfig")) (pkg (lit "ServiceApprovalValidateInput"))
        (pkg (lit "ServiceApprovalValidateOutput"))
    ∷ step_contract (lit "step.signal_service_live_submit") (pkg (lit "ServiceLiveSubmitConfig"))
        (pkg (lit "ServiceLiveSubmitInput")) (pkg (lit "ServiceSubmitOutput"))
    ∷ step_contract (lit "step.signal_service_register_prepare")
        (pkg (lit "ServiceRegisterPrepareConfig")) (pkg (lit "ServiceRegisterPrepareInput"))
        (pkg (lit "ServiceOperationPrepareOutput"))
    ∷ step_contract (lit "step.signal_service_link_prepare") (pkg (lit "ServiceLinkPrepareConfig"))
        (pkg (lit "ServiceLinkPrepareInput")) (pkg (lit "ServiceOperationPrepareOutput"))
    ∷ step_contract (lit "step.signal_service_send_prepare") (pkg (lit "ServiceSendPrepareConfig"))
        (pkg (lit "ServiceSendPrepareInput")) (pkg (lit "ServiceOperationPrepareOutput"))
    ∷ step_contract (lit "step.signal_service_receive_admit")
        (pkg (lit "ServiceReceiveAdmitConfig")) (pkg (lit "ServiceReceiveAdmitInput"))
        (pkg (lit "ServiceOperationPrepareOutput"))
    ∷ step_contract (lit "step.signal_service_challenge_respond")
        (pkg (lit "ServiceChallengeRespondConfig")) (pkg (lit "ServiceChallengeRespondInput"))
        (pkg (lit "ServiceOperationPrepareOutput"))
    ∷ step_contract (lit "step.signal_username_proof_prepare")
        (pkg (lit "UsernameProofPrepareConfig")) (pkg (lit "UsernameProofPrepareInput"))
        (pkg (lit "ServiceOperationPrepareOutput"))
    ∷ step_contract (lit "step.signal_backup_manifest_verify")
        (pkg (lit "BackupManifestVerifyConfig")) (pkg (lit "BackupManifestVerifyInput"))
        (pkg (lit "ServiceOperationPrepareOutput"))
    ∷ step_contract (lit "step.signal_backup_auth_prepare") (pkg (lit "BackupAuthPrepareConfig"))
        (pkg (lit "BackupAuthPrepareInput")) (pkg (lit "ServiceOperationPrepareOutput"))
    ∷ step_contract (lit "step.signal_service_test_register")
        (pkg (lit "ServiceTestRegisterConfig")) (pkg (lit "ServiceTestRegisterInput"))
        (pkg (lit "ServiceTestOutput"))
    ∷ step_contract (lit "step.signal_service_test_link_device")
        (pkg (lit "ServiceTestLinkDeviceConfig")) (pkg (lit "ServiceTestLinkDeviceInput"))
        (pkg (lit "ServiceTestOutput"))
    ∷ step_contract (lit "step.signal_service_test_send") (pkg (lit "ServiceTestSendConfig"))
        (pkg (lit "ServiceTestSendInput")) (pkg (lit "ServiceTestOutput"))
    ∷ step_contract (lit "step.signal_service_test_receive") (pkg (lit "ServiceTestReceiveConfig"))
        (pkg (lit "ServiceTestReceiveInput")) (pkg (lit "ServiceTestOutput"))
    ∷ step_contract (lit "step.signal_service_test_username_reserve")
        (pkg (lit "ServiceTestUsernameReserveConfig")) (pkg (lit "ServiceTestUsernameReserveInput"))
        (pkg (lit "ServiceTestOutput"))
    ∷ step_contract (lit "step.signal_service_test_backup_upload")
        (pkg (lit "ServiceTestBackupUploadConfig")) (pkg (lit "ServiceTestBackupUploadInput"))
        (pkg (lit "ServiceTestOutput"))
    ∷ step_contract (lit "step.signal_service_test_backup_download")
        (pkg (lit "ServiceTestBackupDownloadConfig")) (pkg (lit "ServiceTestBackupDownloadInput"))
        (pkg (lit "ServiceTestOutput"))
    ∷ step_contract (lit "step.signal_custody_create") (pkg (lit "CustodyCreateConfig"))
        (pkg (lit "CustodyCreateInput")) (pkg (lit "CustodyCreateOutput"))
    ∷ step_contract (lit "step.signal_custody_rotate") (pkg (lit "CustodyRotateConfig"))
        (pkg (lit "CustodyRotateInput")) (pkg (lit "CustodyRotateOutput"))
    ∷ step_contract (lit "step.signal_custody_restore") (pkg (lit "CustodyRestoreConfig"))
        (pkg (lit "CustodyRestoreInput")) (pkg (lit "CustodyRestoreOutput"))
    ∷ step_contract (lit "step.signal_custody_revoke") (pkg (lit "CustodyRevokeConfig"))
        (pkg (lit "CustodyRevokeInput")) (pkg (lit "CustodyRevokeOutput"))
    ∷ step_contract (lit "step.signal_custody_inspect") (pkg (lit "CustodyInspectConfig"))
        (pkg (lit "CustodyInspectInput")) (pkg (lit "CustodyInspectOutput"))
    ∷ step_contract (lit "step.signal_custody_attest") (pkg (lit "CustodyAttestConfig"))
        (pkg (lit "CustodyAttestInput")) (pkg (lit "CustodyAttestOutput"))
    ∷ step_contract (lit "step.signal_custody_export_request")
        (pkg (lit "CustodyExportRequestConfig")) (pkg (lit "CustodyExportRequestInput"))
        (pkg (lit "CustodyExportRequestOutput"))
    ∷ step_contract (lit "step.signal_outbox_enqueue") (pkg (lit "OutboxEnqueueConfig"))
        (pkg (lit "OutboxEnqueueInput")) (pkg (lit "OutboxEnqueueOutput"))
    ∷ step_contract (lit "step.signal_outbox_claim") (pkg (lit "OutboxClaimConfig"))
        (pkg (lit "OutboxClaimInput")) (pkg (lit "OutboxClaimOutput"))
    ∷ step_contract (lit "step.signal_inbox_receive") (pkg (lit "InboxReceiveConfig"))
        (pkg (lit "InboxReceiveInput")) (pkg (lit "InboxReceiveOutput"))
    ∷ step_contract (lit "step.signal_inbox_decrypt") (pkg (lit "InboxDecryptConfig"))
        (pkg (lit "InboxDecryptInput")) (pkg (lit "InboxDecryptOutput"))
    ∷ []
