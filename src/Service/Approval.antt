-- ===== src/Service/Approval.antt =====
-- The approval packages of internal/service_transport.go: what the contract holds and what the
-- policies of libsignal-service-go take.
use workflow_plugin_signal.Base.{
  ℤ, Bool, false, Option, none, some, List, [], if◌then◌else◌, is_zero, Str,
}
use workflow_plugin_signal.Custody.Sealed.{Time, zero_time}

-- contracts.ApprovalPackage
pub record ApprovalContract : Type 0 where
  pub operator_approval_id : Str
  pub operator_approval_scope : Str
  pub operator_approval_expires_unix : ℤ
  pub service_authorization_type : Str
  pub service_authorization_evidence_ref : Str
  pub service_authorization_expires_unix : ℤ
  pub account_ref : Str
  pub account_consent_evidence_ref : Str
  pub account_consent_expires_unix : ℤ
  pub custody_backend : Str
  pub custody_key_handle_ref : Str
  pub custody_backup_ref : Str
  pub custody_rotation_ref : Str
  pub abuse_idempotency_required : Bool
  pub abuse_rate_limit_ref : Str
  pub abuse_recipient_allowlist_ref : Str
  pub abuse_declared_audience_ref : Str
  pub abuse_challenge_policy_ref : Str
  pub abuse_backoff_policy_ref : Str
  pub egress_endpoint_allowlist : List Str
  pub egress_tls_policy_ref : Str
  pub egress_dry_run : Bool
  pub audit_ref : Str
  pub audit_retention_ref : Str
  pub audit_redaction_ref : Str

-- servicepolicy.OperatorApproval and its like
pub record OperatorApproval : Type 0 where
  pub id : Str
  pub scope : Str
  pub expires_at : Time

pub record ServiceAuthorization : Type 0 where
  pub type : Str
  pub evidence_ref : Str
  pub expires_at : Time

pub record AccountConsent : Type 0 where
  pub account_ref : Str
  pub evidence_ref : Str
  pub expires_at : Time

pub record CustodyPolicy : Type 0 where
  pub backend : Str
  pub key_handle_ref : Str
  pub backup_ref : Str
  pub rotation_ref : Str

pub record AbusePolicy : Type 0 where
  pub idempotency_required : Bool
  pub rate_limit_ref : Str
  pub recipient_allowlist_ref : Str
  pub declared_audience_ref : Str
  pub challenge_policy_ref : Str
  pub backoff_policy_ref : Str

pub record EgressPolicy : Type 0 where
  pub endpoint_allowlist : List Str
  pub tls_policy_ref : Str
  pub dry_run : Bool

pub record AuditPolicy : Type 0 where
  pub audit_ref : Str
  pub retention_ref : Str
  pub redaction_ref : Str

pub record ApprovalPackage : Type 0 where
  pub operator_approval : OperatorApproval
  pub service_authorization : ServiceAuthorization
  pub account_consent : AccountConsent
  pub custody_policy : CustodyPolicy
  pub abuse_policy : AbusePolicy
  pub egress_policy : EgressPolicy
  pub audit_policy : AuditPolicy

unfoldable pub unix_time : ℤ → Time
unix_time seconds = if is_zero seconds then zero_time else record { seconds = seconds; nanos = 0 }

abbrev pub no_approval : ApprovalPackage
no_approval = record {
  operator_approval = record { id = []; scope = []; expires_at = zero_time };
  service_authorization = record { type = []; evidence_ref = []; expires_at = zero_time };
  account_consent = record { account_ref = []; evidence_ref = []; expires_at = zero_time };
  custody_policy = record { backend = []; key_handle_ref = []; backup_ref = []; rotation_ref = [] };
  abuse_policy = record {
    idempotency_required = false;
    rate_limit_ref = [];
    recipient_allowlist_ref = [];
    declared_audience_ref = [];
    challenge_policy_ref = [];
    backoff_policy_ref = [];
  };
  egress_policy = record { endpoint_allowlist = []; tls_policy_ref = []; dry_run = false };
  audit_policy = record { audit_ref = []; retention_ref = []; redaction_ref = [] };
}

unfoldable pub approval_package_from_contract : Option ApprovalContract → ApprovalPackage
approval_package_from_contract none = no_approval
approval_package_from_contract (some c) = record {
  operator_approval = record {
    id = c.operator_approval_id;
    scope = c.operator_approval_scope;
    expires_at = unix_time c.operator_approval_expires_unix;
  };
  service_authorization = record {
    type = c.service_authorization_type;
    evidence_ref = c.service_authorization_evidence_ref;
    expires_at = unix_time c.service_authorization_expires_unix;
  };
  account_consent = record {
    account_ref = c.account_ref;
    evidence_ref = c.account_consent_evidence_ref;
    expires_at = unix_time c.account_consent_expires_unix;
  };
  custody_policy = record {
    backend = c.custody_backend;
    key_handle_ref = c.custody_key_handle_ref;
    backup_ref = c.custody_backup_ref;
    rotation_ref = c.custody_rotation_ref;
  };
  abuse_policy = record {
    idempotency_required = c.abuse_idempotency_required;
    rate_limit_ref = c.abuse_rate_limit_ref;
    recipient_allowlist_ref = c.abuse_recipient_allowlist_ref;
    declared_audience_ref = c.abuse_declared_audience_ref;
    challenge_policy_ref = c.abuse_challenge_policy_ref;
    backoff_policy_ref = c.abuse_backoff_policy_ref;
  };
  egress_policy = record {
    endpoint_allowlist = c.egress_endpoint_allowlist;
    tls_policy_ref = c.egress_tls_policy_ref;
    dry_run = c.egress_dry_run;
  };
  audit_policy = record {
    audit_ref = c.audit_ref;
    retention_ref = c.audit_retention_ref;
    redaction_ref = c.audit_redaction_ref;
  };
}

abbrev pub approval_of : Option ApprovalContract → Option ApprovalContract → Option ApprovalContract
approval_of (some input) config = some input
approval_of none config = config
