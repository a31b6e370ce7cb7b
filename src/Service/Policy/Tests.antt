-- ===== src/Service/Policy/Tests.antt =====
-- A policy check at concrete approvals.
use mathlib.Core.List.{Memᴰ}
use workflow_plugin_signal.Base.{
  str_eq, Str, Bool, List, ◌||◌, ◌≡◌, ◌≢◌, ◌↔◌, true, false, none, [], ◌∷◌, lit,
}
use workflow_plugin_signal.Service.Policy.{Policies, PolicyInput, execute_service_policy_check}
use workflow_plugin_signal.Service.Policy.Missing.{execute_service_policy_check-missing}

abbrev listed : Str → List Str → Bool
listed a [] = false
listed a (b ∷ approvals) = str_eq a b || listed a approvals

abbrev strict : Policies
strict = record {
  mode_disabled = lit "disabled";
  mode_live = lit "live";
  production_egress = lit "production_egress";
  validate_approval_package =
      λ approval actions. record { denied_reasons = []; live_allowed = false };
  evaluate_compliance = λ mode actions. record {
    mode = mode;
    approved = true;
    live_service_disabled = true;
    blocked_actions = actions;
    required_approvals = [];
    deferred_domains = [];
  };
  allows_live_transport = λ mode approval actions. false;
  validate_mode = λ mode. none;
  new_live_approval_set = λ approvals approval. listed approval approvals;
  required_live_approvals = lit "operator" ∷ lit "legal" ∷ [];
  baseline = record {
    upstream_tag = [];
    descriptor_checksum = [];
    manifest_digest = [];
    selected_domains = [];
  };
}

abbrev asked : PolicyInput
asked = record {
  mode = lit "live";
  requested_actions = [];
  approvals = lit "legal" ∷ [] ∷ [];
  approval = none;
}

abbrev configured : PolicyInput
configured = record { mode = []; requested_actions = []; approvals = []; approval = none }

execute_service_policy_check-missing_example :
    (given : List Str) × ((b : Str) → Memᴰ b given ↔ (Memᴰ b (lit "legal" ∷ [] ∷ []) × (b ≢ [])))
    × (Memᴰ
          (lit "operator")
          (execute_service_policy_check strict configured asked).missing_approvals
        ↔ (Memᴰ (lit "operator") (lit "operator" ∷ lit "legal" ∷ [])
            × (listed (lit "operator") given ≡ false)))
    × ((execute_service_policy_check strict configured asked).live_service_disabled ≡ true)
execute_service_policy_check-missing_example =
    execute_service_policy_check-missing strict configured asked (lit "operator")
