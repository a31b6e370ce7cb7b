-- ===== src/Service/Requests/Tests.antt =====
-- A request's context at a concrete registry.
use workflow_plugin_signal.Base.{
  ◌≡◌, refl, inl, false, none, some, [], lit, str_eq, lookup, insert, ok,
}
use workflow_plugin_signal.Text.{first_non_empty}
use workflow_plugin_signal.Accounts.{
  SignalKeyCustody, SignalAccountRef, Registry, lookup_signal_account_ref,
  lookup_signal_key_custody,
}
use workflow_plugin_signal.Accounts.Ownership.{IsValid, IsCustody, IsAccount, insert-each}
use workflow_plugin_signal.Service.Requests.{
  RequestInput, RequestMetadata, check_custody_owner, account_with_custody, request_metadata,
  client_options, service_test_request_context,
}
use workflow_plugin_signal.Service.Requests.Ownership.{IsOwn, service_test_request_context-IsOwn}

abbrev custody : SignalKeyCustody
custody = record {
  ref = lit "c1";
  account_ref = lit "a1";
  secret_refs = [];
  non_exportable_key_ref = lit "hsm";
}

abbrev account : SignalAccountRef
account = record {
  ref = lit "a1";
  device_ref = lit "d1";
  custody_ref = lit "c1";
  credential_ref = [];
  consent_ref = [];
  audit_ref = [];
  custody = none;
}

abbrev registry : Registry
registry = record {
  custodies = insert (lit "c1") custody [];
  accounts = insert (lit "a1") account [];
}

registry-IsValid : IsValid registry
unfolding lookup
registry-IsValid = record {
  custodies =
      insert-each {P = IsCustody} (lit "c1") custody []
        (record { own_ref = refl; owner = λ e. cc; backed = inl (λ e. cc) }) (λ k c f. absurd (cc));
  accounts =
      insert-each {P = IsAccount} (lit "a1") account []
        (record { own_ref = refl; named = λ e. cc; custody_owner = λ c f. absurd (cc) })
        (λ k a f. absurd (cc));
}

abbrev input : RequestInput
input = record {
  account_ref = lit "a1";
  device_ref = [];
  custody_ref = [];
  idempotency_key = [];
  consent_ref = [];
  audit_ref = [];
  credential_ref = [];
  non_exportable_key_ref = [];
  challenge_ref = [];
  expired_credentials = false;
}

abbrev with_custody : SignalAccountRef
with_custody = record account { custody_ref = []; custody = some custody }

abbrev meta : RequestMetadata
meta = record {
  account_ref = lit "a1";
  device_ref = lit "d1";
  idempotency_key = [];
  consent_ref = [];
  audit_ref = [];
  credential_ref = [];
  non_exportable_key = lit "hsm";
}

found : service_test_request_context registry [] false [] input ≡ ok (with_custody, meta, [])
unfolding service_test_request_context lookup_signal_account_ref lookup_signal_key_custody
    account_with_custody check_custody_owner request_metadata first_non_empty lookup insert str_eq
    client_options
found = refl

service_test_request_context-IsOwn_example : IsOwn input [] with_custody meta
service_test_request_context-IsOwn_example =
    service_test_request_context-IsOwn registry [] false [] input with_custody meta []
      registry-IsValid found
