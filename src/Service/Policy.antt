-- ===== src/Service/Policy.antt =====
-- The policy steps of internal/service_compliance.go, internal/service_boundary.go,
-- internal/service_test_steps.go and internal/service_transport.go. The policies themselves are those
-- of libsignal-service-go, which is an argument.
pub mod Missing
mod Tests
use workflow_plugin_signal.Base.{
  Bool, true, false, not, ◌&&◌, ◌||◌, Option, none, some, List, [], ◌∷◌, ◌++◌, if◌then◌else◌, Str,
  lit, is_empty, str_eq, Result, ok, err, ◌>>◌,
}
use workflow_plugin_signal.Text.{first_non_empty}
use workflow_plugin_signal.Service.Approval.{
  ApprovalContract, ApprovalPackage, no_approval, approval_package_from_contract, approval_of,
}

-- servicepolicy.ApprovalReport and servicepolicy.ComplianceReport
pub record ApprovalReport : Type 0 where
  pub denied_reasons : List Str
  pub live_allowed : Bool

pub record ComplianceReport : Type 0 where
  pub mode : Str
  pub approved : Bool
  pub live_service_disabled : Bool
  pub blocked_actions : List Str
  pub required_approvals : List Str
  pub deferred_domains : List Str

-- servicemetadata.Current()
pub record Baseline : Type 0 where
  pub upstream_tag : Str
  pub descriptor_checksum : Str
  pub manifest_digest : Str
  pub selected_domains : List Str

-- What the steps call of servicepolicy and servicemetadata, at one moment.
pub record Policies : Type 0 where
  pub mode_disabled : Str
  pub mode_live : Str
  pub production_egress : Str
  pub validate_approval_package : ApprovalPackage → List Str → ApprovalReport
  pub evaluate_compliance : Str → List Str → ComplianceReport
  pub allows_live_transport : Str → ApprovalPackage → List Str → Bool
  pub validate_mode : Str → Option Str
  pub required_live_approvals : List Str
  pub new_live_approval_set : List Str → Str → Bool
  pub baseline : Baseline

unfoldable pub non_empty_strings : List Str → List Str
non_empty_strings [] = []
non_empty_strings (value ∷ values) =
    let rest = non_empty_strings values in if is_empty value then rest else value ∷ rest

unfoldable pub service_compliance_actions : List Str → List Str → List Str
service_compliance_actions input config =
    let actions = non_empty_strings input in
    if is_empty actions then non_empty_strings config else actions

unfoldable pub merge_non_empty_strings : List Str → List Str → List Str
merge_non_empty_strings config input = non_empty_strings config ++ non_empty_strings input

-- A LiveApprovalSet is a map to Bool: it is what it says of each approval.
unfoldable pub missing_approvals : List Str → (Str → Bool) → List Str
missing_approvals [] approvals = []
missing_approvals (approval ∷ required) approvals =
    let rest = missing_approvals required approvals in
    if approvals approval then rest else approval ∷ rest

pub record PolicyInput : Type 0 where
  pub mode : Str
  pub requested_actions : List Str
  pub approvals : List Str
  pub approval : Option ApprovalContract

pub record ServicePolicyCheckOutput : Type 0 where
  pub mode : Str
  pub approved : Bool
  pub live_service_disabled : Bool
  pub live_transport_allowed : Bool
  pub required_approvals : List Str
  pub missing_approvals : List Str
  pub blocked_actions : List Str

pub record ServiceComplianceCheckOutput : Type 0 where
  pub mode : Str
  pub approved : Bool
  pub live_service_disabled : Bool
  pub blocked_actions : List Str
  pub required_approvals : List Str
  pub deferred_domains : List Str
  pub baseline : Baseline

pub record ServiceContractCheckOutput : Type 0 where
  pub mode : Str
  pub upstream_tag : Str
  pub descriptor_checksum : Str
  pub selected_domains : List Str
  pub live_service_disabled : Bool

pub record ServiceApprovalValidateOutput : Type 0 where
  pub mode : Str
  pub live_transport_allowed : Bool
  pub live_service_disabled : Bool
  pub denied_reasons : List Str
  pub requested_actions : List Str

abbrev or_default : Str → Str → Str
or_default s d = if is_empty s then d else s

module _ (p : Policies) where
  -- Of the two `PolicyInput`s of a step, the first is its configuration.
  abbrev mode_of : Str → PolicyInput → PolicyInput → Str
  mode_of default config input =
      or_default (first_non_empty (input.mode ∷ config.mode ∷ [])) default

  unfoldable pub execute_service_policy_check : PolicyInput → PolicyInput → ServicePolicyCheckOutput
  execute_service_policy_check config input =
      let mode = mode_of p.mode_disabled config input in
      let given = merge_non_empty_strings config.approvals input.approvals in
      let actions = service_compliance_actions input.requested_actions config.requested_actions in
      let report = p.evaluate_compliance mode actions in
      let live_allowed = p.allows_live_transport mode no_approval actions in
      record {
        mode = report.mode;
        approved = report.approved && (not (str_eq mode p.mode_live) || live_allowed);
        live_service_disabled = true;
        live_transport_allowed = live_allowed;
        required_approvals = p.required_live_approvals;
        missing_approvals =
            missing_approvals p.required_live_approvals (p.new_live_approval_set given);
        blocked_actions = report.blocked_actions;
      }

  unfoldable pub execute_service_compliance_check :
      PolicyInput → PolicyInput → ServiceComplianceCheckOutput
  execute_service_compliance_check config input =
      let mode = mode_of p.mode_disabled config input in
      let actions = service_compliance_actions input.requested_actions config.requested_actions in
      let report = p.evaluate_compliance mode actions in
      record {
        mode = report.mode;
        approved = report.approved;
        live_service_disabled = report.live_service_disabled;
        blocked_actions = report.blocked_actions;
        required_approvals = report.required_approvals;
        deferred_domains = report.deferred_domains;
        baseline = p.baseline;
      }

  unfoldable pub validate_service_boundary_mode : Str → Result Str (Unit {0})
  validate_service_boundary_mode mode = elim (p.validate_mode mode) [
    | none ↦ ok tt
    | some e ↦ err e
  ]

  -- The module `signal.official_service_boundary` and the module `signal.live_policy`, by their modes.
  unfoldable pub new_official_service_boundary_module : Str → Result Str Str
  new_official_service_boundary_module mode = do validate_service_boundary_mode mode; ok mode

  unfoldable pub new_live_policy_module : Str → Result Str Str
  new_live_policy_module mode = do validate_service_boundary_mode mode; ok mode

  unfoldable pub execute_service_contract_check :
      PolicyInput → PolicyInput → Result Str ServiceContractCheckOutput
  execute_service_contract_check config input = do
    validate_service_boundary_mode (first_non_empty (input.mode ∷ config.mode ∷ []))
    ok (record {
      mode = mode_of p.mode_disabled config input;
      upstream_tag = p.baseline.upstream_tag;
      descriptor_checksum = p.baseline.descriptor_checksum;
      selected_domains = p.baseline.selected_domains;
      live_service_disabled = true;
    })

  unfoldable pub execute_service_approval_validate :
      PolicyInput → PolicyInput → ServiceApprovalValidateOutput
  execute_service_approval_validate config input =
      let mode = mode_of p.mode_live config input in
      let actions = service_compliance_actions input.requested_actions config.requested_actions in
      let report =
        p.validate_approval_package
          (approval_package_from_contract (approval_of input.approval config.approval)) actions in
      record {
        mode = mode;
        live_transport_allowed = str_eq mode p.mode_live && report.live_allowed;
        live_service_disabled = true;
        denied_reasons = report.denied_reasons;
        requested_actions = actions;
      }

  unfoldable pub operation_actions : Str → List Str
  operation_actions operation =
      if is_empty operation
      then []
      else if str_eq operation (lit "challenge_response")
      then p.production_egress ∷ []
      else operation ∷ []
