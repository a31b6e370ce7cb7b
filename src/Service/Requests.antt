-- ===== src/Service/Requests.antt =====
-- `serviceTestRequestContext` of internal/service_test_steps.go: the account and the metadata of a
-- request to the service. The client is libsignal-service-go's, an argument.
pub mod Ownership
mod Tests
use workflow_plugin_signal.Base.{
  ℕ, ◌≡◌, Bool, true, false, not, ◌||◌, Option, none, some, List, [], ◌∷◌, ◌++◌, if◌then◌else◌, Str,
  lit, is_empty, str_eq, Dict, Result, ok, err, ◌>>=◌, ◌>>◌, fail_if, wrap,
}
use workflow_plugin_signal.Text.{first_non_empty}
use workflow_plugin_signal.Accounts
use workflow_plugin_signal.Accounts.{
  SignalKeyCustody, SignalAccountRef, Registry, lookup_signal_key_custody,
  lookup_signal_account_ref,
}

-- The fields that every input to the service has.
pub record RequestInput : Type 0 where
  pub account_ref : Str
  pub device_ref : Str
  pub custody_ref : Str
  pub idempotency_key : Str
  pub consent_ref : Str
  pub audit_ref : Str
  pub credential_ref : Str
  pub non_exportable_key_ref : Str
  pub challenge_ref : Str
  pub expired_credentials : Bool

-- serviceclient.RequestMetadata and serviceclient.ResponseMetadata
pub record RequestMetadata : Type 0 where
  pub account_ref : Str
  pub device_ref : Str
  pub idempotency_key : Str
  pub consent_ref : Str
  pub audit_ref : Str
  pub credential_ref : Str
  pub non_exportable_key : Str

pub record ResponseMetadata : Type 0 where
  pub request_id : Str
  pub status : Str
  pub challenge_ref : Str
  pub secret_refs : Dict Str

-- The requests, each with the fields that it alone has.
pub data ServiceRequest : Type 0 where
  register : Str → ServiceRequest
  link_device : Str → ServiceRequest
  send : Str → Str → ServiceRequest
  receive : Str → ServiceRequest
  reserve_username : Str → ServiceRequest
  upload_backup : Str → ServiceRequest
  download_backup : Str → ServiceRequest
  respond_to_challenge : Str → Str → ServiceRequest

-- fake.WithExpiredCredentials and fake.WithChallenge
pub data ClientOption : Type 0 where
  expired_credentials : ClientOption
  challenge : Str → Str → ClientOption

pub record ServiceError : Type 0 where
  pub live_disabled : Bool
  pub text : Str

pub data Error : Type 0 where
  registry_error : Accounts.Error → Error
  custody_belongs_to : Str → Str → Error
  operation_required : Error
  unsupported_operation transport_not_registered transport_ref_required : Str → Error
  service : ServiceError → Error

unfoldable pub check_custody_owner : SignalAccountRef → SignalKeyCustody → Result Error (Unit {0})
check_custody_owner account custody =
    fail_if (not (str_eq custody.account_ref account.ref))
      (custody_belongs_to custody.ref custody.account_ref)

-- The account with the custody of the request, or of the account, or as it is registered.
unfoldable pub account_with_custody :
    Registry → Str → SignalAccountRef → Result Error SignalAccountRef
account_with_custody g custody_ref account = if is_empty custody_ref then ok account else (do
  custody ← wrap registry_error (lookup_signal_key_custody custody_ref g)
  check_custody_owner account custody
  ok (record {
    ref = account.ref;
    device_ref = account.device_ref;
    custody_ref = [];
    credential_ref = account.credential_ref;
    consent_ref = account.consent_ref;
    audit_ref = account.audit_ref;
    custody = some custody;
  }))

abbrev custody_key : Option SignalKeyCustody → Str
custody_key none = []
custody_key (some k) = k.non_exportable_key_ref

unfoldable pub request_metadata : RequestInput → SignalAccountRef → RequestMetadata
request_metadata input account = record {
  account_ref = account.ref;
  device_ref = first_non_empty (input.device_ref ∷ account.device_ref ∷ []);
  idempotency_key = input.idempotency_key;
  consent_ref = first_non_empty (input.consent_ref ∷ account.consent_ref ∷ []);
  audit_ref = first_non_empty (input.audit_ref ∷ account.audit_ref ∷ []);
  credential_ref = first_non_empty (input.credential_ref ∷ account.credential_ref ∷ []);
  non_exportable_key =
      if is_empty input.non_exportable_key_ref
      then custody_key account.custody
      else input.non_exportable_key_ref;
}

abbrev pub option_if : Bool → ClientOption → List ClientOption
option_if true o = o ∷ []
option_if false o = []

unfoldable pub client_options : Bool → Str → RequestInput → List ClientOption
client_options config_expired operation input =
    option_if (input.expired_credentials || config_expired) expired_credentials
    ++ option_if (not (is_empty input.challenge_ref)) (challenge operation input.challenge_ref)

-- `operation` is what `serviceTestOperation` says of the input's type.
unfoldable pub service_test_request_context :
    Registry
    → Str
    → Bool
    → Str
    → RequestInput
    → Result Error (SignalAccountRef × RequestMetadata × List ClientOption)
service_test_request_context g config_account config_expired operation input = do
  registered ←
      wrap registry_error
        (lookup_signal_account_ref (first_non_empty (input.account_ref ∷ config_account ∷ [])) g)
  account ←
      account_with_custody g (first_non_empty (input.custody_ref ∷ registered.custody_ref ∷ []))
        registered
  ok (account, request_metadata input account, client_options config_expired operation input)

-- libsignal-service-go's fake client, and its transport, which asks its policy before the client.
pub record ServiceLibrary : Type 1 where
  pub LedgerRecord : Type 0
  pub ClientRecord : Type 0
  pub Client : Type 0
  pub new_service_client : Dict LedgerRecord → List ClientOption → Client
  pub ledger : Client → Dict LedgerRecord
  pub records : Client → List ClientRecord
  pub call :
      Client → RequestMetadata → ServiceRequest → Result ServiceError ResponseMetadata × Client
