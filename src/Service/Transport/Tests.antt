-- ===== src/Service/Transport/Tests.antt =====
-- Submissions at concrete inputs.
use workflow_plugin_signal.Base.{
  ◌≡◌, ◌≢◌, refl, arith, true, false, none, some, [], ◌∷◌, Str, lit, str_eq, str_eq_iff, Dict,
  lookup, Result, ok,
}
use workflow_plugin_signal.Text.{first_non_empty, contains, has_prefix}
use workflow_plugin_signal.Refs.{safe_signal_ref}
use workflow_plugin_signal.Accounts.{Registry, lookup_signal_account_ref}
use workflow_plugin_signal.Service.Policy.{Policies}
use workflow_plugin_signal.Service.Approval.{no_approval}
use workflow_plugin_signal.Service.Requests.{
  ResponseMetadata, ServiceError, Error, ServiceLibrary, service_test_request_context,
  account_with_custody, request_metadata,
}
use workflow_plugin_signal.Service.Transport.{
  SignalServiceTransport, ServiceState, submit_ref, resolve_submit_transport,
  lookup_service_transport, prepare_submission, open_transport, service_submit_result, redact_refs,
  service_request, execute_service_live_submit,
}
use workflow_plugin_signal.Service.Contracts.{
  TransportLibrary, ServiceLiveSubmitConfig, ServiceLiveSubmitInput, ServiceSubmitOutput,
}
use workflow_plugin_signal.Service.Transport.Ledger.{execute_service_live_submit-isolated}
use workflow_plugin_signal.Service.Transport.Unnamed.{Agree, execute_service_live_submit-forgets}
use workflow_plugin_signal.Service.Transport.Exposure.{
  IsRedacted, execute_service_live_submit-IsRedacted,
}

abbrev policies : Policies
policies = record {
  mode_disabled = lit "disabled";
  mode_live = lit "live";
  production_egress = lit "production_egress";
  validate_approval_package =
      λ approval actions. record { denied_reasons = []; live_allowed = false };
  evaluate_compliance = λ mode actions. record {
    mode = mode;
    approved = true;
    live_service_disabled = true;
    blocked_actions = [];
    required_approvals = [];
    deferred_domains = [];
  };
  allows_live_transport = λ mode approval actions. false;
  validate_mode = λ mode. none;
  new_live_approval_set = λ approvals approval. false;
  required_live_approvals = [];
  baseline = record {
    upstream_tag = [];
    descriptor_checksum = [];
    manifest_digest = [];
    selected_domains = [];
  };
}

abbrev answer : ResponseMetadata
answer = record {
  request_id = lit "r1";
  status = lit "ok";
  challenge_ref = [];
  secret_refs = (lit "credential", lit "key") ∷ [];
}

abbrev sends : Dict Str → Result ServiceError ResponseMetadata × Dict Str
sends ledger = (ok answer, (lit "sent", lit "1") ∷ ledger)

-- A client that is its ledger, and adds an entry at each call.
abbrev library : ServiceLibrary
library = record {
  LedgerRecord = Str;
  ClientRecord = Str;
  Client = Dict Str;
  new_service_client = λ ledger options. ledger;
  ledger = λ client. client;
  records = λ client. [];
  call = λ client meta request. sends client;
}

abbrev transports : TransportLibrary library
transports = record {
  mode_fake = lit "fake";
  mode_sandbox = lit "sandbox";
  action_register = lit "register";
  action_linked_device = lit "link";
  action_send = lit "send";
  action_receive = lit "receive";
  action_username_reserve = lit "username";
  action_backup_upload = lit "upload";
  action_backup_download = lit "download";
  new_transport = λ config. ok tt;
  transport_mode = λ config. config.mode;
  call = λ config client meta request. sends client;
}

abbrev registry : Registry
registry = record {
  custodies = [];
  accounts =
      (
        lit "a1",
        record {
          ref = lit "a1";
          device_ref = lit "d1";
          custody_ref = [];
          credential_ref = [];
          consent_ref = [];
          audit_ref = [];
          custody = none;
        },
      )
      ∷ [];
}

abbrev config : ServiceLiveSubmitConfig
config = record {
  transport_ref = [];
  mode = [];
  sandbox_endpoint = [];
  account_ref = lit "a1";
  expired_credentials = false;
  approval = none;
}

abbrev submission : Str → Str → ServiceLiveSubmitInput
submission ref operation = record {
  transport_ref = ref;
  mode = [];
  sandbox_endpoint = [];
  operation = operation;
  request = record {
    account_ref = [];
    device_ref = [];
    custody_ref = [];
    idempotency_key = [];
    consent_ref = [];
    audit_ref = [];
    credential_ref = [];
    non_exportable_key_ref = [];
    challenge_ref = [];
    expired_credentials = false;
  };
  username = [];
  link_code_ref = [];
  recipient_ref = lit "bob";
  payload_ref = lit "p1";
  cursor_ref = [];
  backup_ref = [];
  backup_id = [];
  challenge_response_ref = [];
  approval = none;
}

abbrev State : Type 0
State = ServiceState policies library transports

abbrev t1 : SignalServiceTransport policies library transports
t1 = record {
  ref = lit "t1";
  mode = lit "fake";
  endpoint = [];
  approval = no_approval;
  actions = [];
  ledger = [];
  records = [];
  test_only = true;
}

abbrev held : Dict Str → State
held ledger = record { transports = (lit "t1", t1) ∷ []; test_ledger = ledger }

own_refs :
    (k : Str) (tr : SignalServiceTransport policies library transports)
    → lookup k ((lit "t1", t1) ∷ []) ≡ some tr
    → tr.ref ≡ k
unfolding lookup
own_refs k tr f = ground (arith, str_eq_iff (lit "t1") k)

abbrev submit : Str → Str → State → Result Error ServiceSubmitOutput × State
submit ref operation s =
    execute_service_live_submit policies library transports registry config
      (submission ref operation) s

named : submit_ref policies library transports config (submission (lit "t1") (lit "send")) ≢ []
unfolding submit_ref first_non_empty
named e = cc

other :
    lit "t2" ≢ submit_ref policies library transports config (submission (lit "t1") (lit "send"))
unfolding submit_ref first_non_empty str_eq
other e = let same : false ≡ true = (str_eq_iff (lit "t2") (lit "t1")).1 e in cc

execute_service_live_submit-isolated_example :
    (lookup (lit "t2") (submit (lit "t1") (lit "send") (held [])).1.transports
      ≡ lookup (lit "t2") (held []).transports)
    × ((submit (lit "t1") (lit "send") (held [])).1.test_ledger ≡ [])
execute_service_live_submit-isolated_example =
    execute_service_live_submit-isolated policies library transports registry config
      (submission (lit "t1") (lit "send")) (held []) (lit "t2") own_refs named other

unnamed : submit_ref policies library transports config (submission [] (lit "send")) ≡ []
unfolding submit_ref first_non_empty
unnamed = refl

abbrev earlier : State
earlier = held ((lit "before", lit "1") ∷ [])

execute_service_live_submit-forgets_example :
    Agree policies library transports config
      (submission [] (lit "send"))
      (held [])
      earlier
      (submit [] (lit "send") (held []))
      (submit [] (lit "send") earlier)
execute_service_live_submit-forgets_example =
    execute_service_live_submit-forgets policies library transports registry config
      (submission [] (lit "send")) (held []) earlier unnamed refl

abbrev sent : ServiceSubmitOutput
sent = record {
  transport_ref = lit "t1";
  transport_mode = lit "fake";
  operation = lit "send";
  account_ref = lit "redacted";
  device_ref = lit "redacted";
  request_id = lit "r1";
  status = lit "ok";
  challenge_ref = [];
  secret_refs = (lit "credential", lit "redacted") ∷ [];
  credential_ref = lit "redacted";
  audit_ref = [];
  live_egress_attempted = false;
  denied_reasons = [];
}

sent_output : (submit (lit "t1") (lit "send") (held [])).0 ≡ ok sent
unfolding execute_service_live_submit prepare_submission resolve_submit_transport submit_ref
    lookup_service_transport lookup str_eq first_non_empty service_test_request_context
    request_metadata lookup_signal_account_ref account_with_custody open_transport service_request
    service_submit_result redact_refs safe_signal_ref contains has_prefix
sent_output = refl

execute_service_live_submit-IsRedacted_example : IsRedacted sent
execute_service_live_submit-IsRedacted_example =
    execute_service_live_submit-IsRedacted policies library transports registry config
      (submission (lit "t1") (lit "send")) (held []) sent sent_output
