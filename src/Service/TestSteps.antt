-- ===== src/Service/TestSteps.antt =====
-- The seven test steps of internal/service_test_steps.go: each runs one request of a client that
-- starts from the ledger of the process, and puts the client's ledger back.
use workflow_plugin_signal.Base.{
  Bool, [], Str, lit, Dict, lookup, none, some, Result, ok, err, after,
}
use workflow_plugin_signal.Accounts.{SignalAccountRef, Registry}
use workflow_plugin_signal.Service.Requests.{
  RequestInput, RequestMetadata, ResponseMetadata, ServiceRequest, register, link_device, send,
  receive, reserve_username, upload_backup, download_backup, respond_to_challenge, ServiceError,
  Error, service, ServiceLibrary, service_test_request_context,
}

pub record ServiceTestOutput : Type 0 where
  pub account_ref : Str
  pub device_ref : Str
  pub request_id : Str
  pub status : Str
  pub challenge_ref : Str
  pub secret_refs : Dict Str
  pub credential_ref : Str
  pub audit_ref : Str

-- A missing key reads as the empty text.
abbrev pub text_at : Str → Dict Str → Str
text_at key m = elim (lookup key m) [ none ↦ [] | some value ↦ value ]

-- What a step's input is, told by its type.
unfoldable pub service_test_operation : ServiceRequest → Str
service_test_operation (register username) = lit "register"
service_test_operation (link_device code) = lit "linked_device"
service_test_operation (send recipient payload) = lit "send"
service_test_operation (receive cursor) = lit "receive"
service_test_operation (reserve_username username) = lit "username_reserve"
service_test_operation (upload_backup ref) = lit "backup_upload"
service_test_operation (download_backup id) = lit "backup_download"
service_test_operation (respond_to_challenge ref response) = []

unfoldable pub service_test_result :
    SignalAccountRef → RequestMetadata → ResponseMetadata → ServiceTestOutput
service_test_result account request response = record {
  account_ref = account.ref;
  device_ref = request.device_ref;
  request_id = response.request_id;
  status = response.status;
  challenge_ref = response.challenge_ref;
  secret_refs = response.secret_refs;
  credential_ref = text_at (lit "credential") response.secret_refs;
  audit_ref = request.audit_ref;
}

module _ (l : ServiceLibrary) where
  abbrev test_called :
      SignalAccountRef
      → RequestMetadata
      → Dict l.LedgerRecord
      → Result ServiceError ResponseMetadata × l.Client
      → Result Error ServiceTestOutput × Dict l.LedgerRecord
  test_called account request ledger (err e, client) = (err (service e), ledger)
  test_called account request ledger (ok response, client) =
      (ok (service_test_result account request response), l.ledger client)

  -- What the seven steps have in common. The ledger is the global one.
  unfoldable pub run_service_test :
      Registry
      → Str
      → Bool
      → RequestInput
      → ServiceRequest
      → Dict l.LedgerRecord
      → Result Error ServiceTestOutput × Dict l.LedgerRecord
  run_service_test g config_account config_expired input request ledger =
      after
        (service_test_request_context g config_account config_expired
          (service_test_operation request) input)
        (λ context ledger'.
          let (account, meta, options) = context in
          test_called account meta ledger'
            (l.call (l.new_service_client ledger' options) meta request))
        ledger

  module _ (g : Registry) (config_account : Str) (config_expired : Bool)
      (input : RequestInput) where
    unfoldable pub execute_service_test_register :
        Str → Dict l.LedgerRecord → Result Error ServiceTestOutput × Dict l.LedgerRecord
    execute_service_test_register username =
        run_service_test g config_account config_expired input (register username)

    unfoldable pub execute_service_test_link_device :
        Str → Dict l.LedgerRecord → Result Error ServiceTestOutput × Dict l.LedgerRecord
    execute_service_test_link_device code =
        run_service_test g config_account config_expired input (link_device code)

    unfoldable pub execute_service_test_send :
        Str → Str → Dict l.LedgerRecord → Result Error ServiceTestOutput × Dict l.LedgerRecord
    execute_service_test_send recipient payload =
        run_service_test g config_account config_expired input (send recipient payload)

    unfoldable pub execute_service_test_receive :
        Str → Dict l.LedgerRecord → Result Error ServiceTestOutput × Dict l.LedgerRecord
    execute_service_test_receive cursor =
        run_service_test g config_account config_expired input (receive cursor)

    unfoldable pub execute_service_test_username_reserve :
        Str → Dict l.LedgerRecord → Result Error ServiceTestOutput × Dict l.LedgerRecord
    execute_service_test_username_reserve username =
        run_service_test g config_account config_expired input (reserve_username username)

    unfoldable pub execute_service_test_backup_upload :
        Str → Dict l.LedgerRecord → Result Error ServiceTestOutput × Dict l.LedgerRecord
    execute_service_test_backup_upload ref =
        run_service_test g config_account config_expired input (upload_backup ref)

    unfoldable pub execute_service_test_backup_download :
        Str → Dict l.LedgerRecord → Result Error ServiceTestOutput × Dict l.LedgerRecord
    execute_service_test_backup_download id =
        run_service_test g config_account config_expired input (download_backup id)
