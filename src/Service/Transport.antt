-- ===== src/Service/Transport.antt =====
-- internal/service_transport.go: the registered transports, each with its ledger, and the submission
-- of an operation. serviceclient.Transport, which asks its policy before the client, is an argument.
-- A step meets one state of the global maps, as if nothing ran beside it.
pub mod Ledger
pub mod Unnamed
pub mod Exposure
mod Tests
use workflow_plugin_signal.Base.{
  ℕ, Bool, true, false, not, ◌&&◌, ◌||◌, Option, none, some, List, [], ◌∷◌, ◌++◌, if◌then◌else◌,
  Str, lit, is_empty, str_eq, Dict, lookup, insert, Result, ok, err, ◌>>=◌, ◌>>◌, fail_if, or_fail,
  after,
}
use workflow_plugin_signal.Text.{first_non_empty}
use workflow_plugin_signal.Refs.{safe_signal_ref}
use workflow_plugin_signal.Accounts.{SignalAccountRef, Registry}
use workflow_plugin_signal.Service.Policy.{Policies, service_compliance_actions, operation_actions}
use workflow_plugin_signal.Service.Approval.{
  ApprovalContract, ApprovalPackage, approval_package_from_contract, approval_of,
}
use workflow_plugin_signal.Service.Requests.{
  RequestInput, RequestMetadata, ResponseMetadata, ServiceRequest, register, link_device, send,
  receive, reserve_username, upload_backup, download_backup, respond_to_challenge, ClientOption,
  expired_credentials, challenge, option_if, ServiceError, Error, operation_required,
  unsupported_operation, transport_not_registered, transport_ref_required, service, ServiceLibrary,
  service_test_request_context,
}
use workflow_plugin_signal.Service.TestSteps.{text_at}
use workflow_plugin_signal.Service.Contracts.{
  ServiceTransportConfig, TransportConfig, ServiceLiveSubmitConfig, ServiceLiveSubmitInput,
  ServiceSubmitOutput, TransportLibrary,
}

module _ (p : Policies) (l : ServiceLibrary) (t : TransportLibrary l) where
  pub record SignalServiceTransport : Type 0 where
    pub ref : Str
    pub mode : Str
    pub endpoint : Str
    pub approval : ApprovalPackage
    pub actions : List Str
    pub ledger : Dict l.LedgerRecord
    pub records : List l.ClientRecord
    pub test_only : Bool

  -- signalServiceTransports and signalServiceTestLedger
  pub record ServiceState : Type 0 where
    pub transports : Dict SignalServiceTransport
    pub test_ledger : Dict l.LedgerRecord

  abbrev or_fake : Str → Str
  or_fake mode = if is_empty mode then t.mode_fake else mode

  unfoldable pub service_transport_config :
      Str → Str → Option ApprovalContract → List Str → TransportConfig
  service_transport_config mode endpoint approval requested = record {
    mode = or_fake mode;
    sandbox_endpoint = endpoint;
    approval_package = approval_package_from_contract approval;
    requested_actions = service_compliance_actions requested [];
  }

  abbrev from_service : {A : Type 0} → Result ServiceError A → Result Error A
  from_service (ok a) = ok a
  from_service (err e) = err (service e)

  unfoldable pub new_service_transport_module :
      ServiceTransportConfig → Result Error ServiceTransportConfig
  new_service_transport_module cfg = do
    fail_if (is_empty cfg.transport_ref) (transport_ref_required [])
    from_service (
        t.new_transport (
          service_transport_config cfg.mode cfg.sandbox_endpoint cfg.approval
            cfg.requested_actions))
    ok cfg

  -- serviceTransportModule.Init
  unfoldable pub init_service_transport : ServiceTransportConfig → ServiceState → ServiceState
  init_service_transport cfg s = record s {
    transports =
        insert cfg.transport_ref
          (record {
            ref = cfg.transport_ref;
            mode = or_fake cfg.mode;
            endpoint = cfg.sandbox_endpoint;
            approval = approval_package_from_contract cfg.approval;
            actions = service_compliance_actions cfg.requested_actions [];
            ledger = [];
            records = [];
            test_only =
                str_eq (or_fake cfg.mode) t.mode_fake || str_eq (or_fake cfg.mode) t.mode_sandbox;
          })
          s.transports;
  }

  unfoldable pub lookup_service_transport : Str → ServiceState → Result Error SignalServiceTransport
  lookup_service_transport ref s = or_fail (lookup ref s.transports) (transport_not_registered ref)

  -- The transport, if one is named, and the configuration to submit with.
  pub record Resolved : Type 0 where
    pub transport : Option SignalServiceTransport
    pub config : TransportConfig
    pub transport_ref : Str

  unfoldable pub submit_ref : ServiceLiveSubmitConfig → ServiceLiveSubmitInput → Str
  submit_ref cfg input = first_non_empty (input.transport_ref ∷ cfg.transport_ref ∷ [])

  unfoldable pub resolve_submit_transport :
      ServiceLiveSubmitConfig → ServiceLiveSubmitInput → ServiceState → Result Error Resolved
  resolve_submit_transport cfg input s =
      if is_empty (submit_ref cfg input)
      then ok (record {
        transport = none;
        config =
            service_transport_config (or_fake (first_non_empty (input.mode ∷ cfg.mode ∷ [])))
              (first_non_empty (input.sandbox_endpoint ∷ cfg.sandbox_endpoint ∷ []))
              (approval_of input.approval cfg.approval) (operation_actions p input.operation);
        transport_ref = [];
      })
      else (do
        transport ← lookup_service_transport (submit_ref cfg input) s
        ok (record {
          transport = some transport;
          config = record {
            mode = transport.mode;
            sandbox_endpoint = transport.endpoint;
            approval_package = transport.approval;
            requested_actions = transport.actions;
          };
          transport_ref = transport.ref;
        }))

  unfoldable pub transport_ledger : Option SignalServiceTransport → Dict l.LedgerRecord
  transport_ledger none = []
  transport_ledger (some transport) = transport.ledger

  -- The second result of `transportLedger`.
  unfoldable pub update_ledger :
      Option SignalServiceTransport → l.Client → ServiceState → ServiceState
  update_ledger none client s = record s { test_ledger = l.ledger client }
  update_ledger (some transport) client s = record s {
    transports =
        insert transport.ref
          (record transport {
            ledger = l.ledger client;
            records = transport.records ++ l.records client;
          })
          s.transports;
  }

  -- The switch of `executeServiceOperation`.
  unfoldable pub service_request : ServiceLiveSubmitInput → Result Error ServiceRequest
  service_request i =
      if str_eq i.operation t.action_register
      then ok (register i.username)
      else if str_eq i.operation t.action_linked_device
      then ok (link_device i.link_code_ref)
      else if str_eq i.operation t.action_send
      then ok (send i.recipient_ref i.payload_ref)
      else if str_eq i.operation t.action_receive
      then ok (receive i.cursor_ref)
      else if str_eq i.operation t.action_username_reserve
      then ok (reserve_username i.username)
      else if str_eq i.operation t.action_backup_upload
      then ok (upload_backup i.backup_ref)
      else if str_eq i.operation t.action_backup_download
      then ok (download_backup i.backup_id)
      else if str_eq i.operation (lit "challenge_response")
      then ok (respond_to_challenge i.request.challenge_ref i.challenge_response_ref)
      else err (unsupported_operation i.operation)

  unfoldable pub redact_refs : Dict Str → Dict Str
  redact_refs [] = []
  redact_refs ((key, value) ∷ refs) = (key, safe_signal_ref value) ∷ redact_refs refs

  unfoldable pub service_submit_result :
      Str → Str → Str → SignalAccountRef → RequestMetadata → ResponseMetadata → ServiceSubmitOutput
  service_submit_result transport_ref mode operation account request response = record {
    transport_ref = transport_ref;
    transport_mode = mode;
    operation = operation;
    account_ref = safe_signal_ref account.ref;
    device_ref = safe_signal_ref request.device_ref;
    request_id = response.request_id;
    status = response.status;
    challenge_ref = safe_signal_ref response.challenge_ref;
    secret_refs = redact_refs response.secret_refs;
    credential_ref =
        safe_signal_ref (text_at (lit "credential") (redact_refs response.secret_refs));
    audit_ref = safe_signal_ref request.audit_ref;
    live_egress_attempted = false;
    denied_reasons = [];
  }

  unfoldable pub denied_submit_result :
      ServiceLiveSubmitConfig → ServiceLiveSubmitInput → ServiceError → ServiceSubmitOutput
  denied_submit_result cfg input e =
      let report =
        p.validate_approval_package
          (approval_package_from_contract (approval_of input.approval cfg.approval))
          (operation_actions p input.operation) in
      record {
        transport_ref = submit_ref cfg input;
        transport_mode = first_non_empty (input.mode ∷ cfg.mode ∷ []);
        operation = input.operation;
        account_ref =
            safe_signal_ref (first_non_empty (input.request.account_ref ∷ cfg.account_ref ∷ []));
        device_ref = [];
        request_id = [];
        status = lit "denied";
        challenge_ref = [];
        secret_refs = [];
        credential_ref = [];
        audit_ref = [];
        live_egress_attempted = false;
        denied_reasons =
            if is_empty report.denied_reasons then e.text ∷ [] else report.denied_reasons;
      }

  -- The options of the client: those of the context, then the submission's own.
  unfoldable pub submit_options : ServiceLiveSubmitInput → List ClientOption → List ClientOption
  submit_options input options =
      options
      ++ (option_if input.request.expired_credentials expired_credentials
          ++ option_if (not (is_empty input.request.challenge_ref))
              (challenge input.operation input.request.challenge_ref))

  -- What a submission has found before it makes its transport.
  pub record Submission : Type 0 where
    pub resolved : Resolved
    pub account : SignalAccountRef
    pub meta : RequestMetadata
    pub client : l.Client

  unfoldable pub prepare_submission :
      Registry
      → ServiceLiveSubmitConfig
      → ServiceLiveSubmitInput
      → ServiceState
      → Result Error Submission
  prepare_submission g cfg input s = do
    resolved ← resolve_submit_transport cfg input s
    (account, meta, options) ←
        service_test_request_context g cfg.account_ref cfg.expired_credentials [] input.request
    fail_if (is_empty input.operation) operation_required
    ok (record {
      resolved = resolved;
      account = account;
      meta = meta;
      client =
          l.new_service_client (transport_ledger resolved.transport) (submit_options input options);
    })

  -- A policy that keeps the service disabled is an answer, not an error.
  unfoldable pub open_transport :
      ServiceLiveSubmitConfig
      → ServiceLiveSubmitInput
      → TransportConfig
      → Result Error (Option ServiceSubmitOutput)
  open_transport cfg input config = elim (t.new_transport config) [
    | ok _ ↦ ok none
    | err e ↦
        if e.live_disabled then ok (some (denied_submit_result cfg input e)) else err (service e)
  ]

  abbrev called :
      ServiceLiveSubmitInput
      → Submission
      → ServiceState
      → Result ServiceError ResponseMetadata × l.Client
      → Result Error ServiceSubmitOutput × ServiceState
  called input b s (err e, client) = (err (service e), s)
  called input b s (ok response, client) = (
    ok (
        service_submit_result b.resolved.transport_ref (t.transport_mode b.resolved.config)
          input.operation b.account b.meta response),
    update_ledger b.resolved.transport client s,
  )

  abbrev opened :
      ServiceLiveSubmitInput
      → Submission
      → Option ServiceSubmitOutput
      → ServiceState
      → Result Error ServiceSubmitOutput × ServiceState
  opened input b (some denied) s = (ok denied, s)
  opened input b none s =
      after (service_request input)
        (λ request s'. called input b s' (t.call b.resolved.config b.client b.meta request)) s

  unfoldable pub execute_service_live_submit :
      Registry
      → ServiceLiveSubmitConfig
      → ServiceLiveSubmitInput
      → ServiceState
      → Result Error ServiceSubmitOutput × ServiceState
  execute_service_live_submit g cfg input s =
      after (prepare_submission g cfg input s)
        (λ b s'. after (open_transport cfg input b.resolved.config) (opened input b) s') s
