-- ===== src/Accounts/Tests.antt =====
-- The registries at concrete inputs.
use workflow_plugin_signal.Base.{◌≡◌, refl, false, [], lit, str_eq, lookup, insert, ok}
use workflow_plugin_signal.Accounts.{
  KeyCustodyConfig, AccountRefConfig, Registry, new_key_custody_module, init_key_custody,
  new_account_ref_module, bind_account, check_owner, registered_signal_key_custody,
  init_account_ref,
}
use workflow_plugin_signal.Accounts.Ownership.{
  IsValid, init_key_custody-IsValid, init_account_ref-IsValid,
}

abbrev nothing : Registry
nothing = record { custodies = []; accounts = [] }

nothing-IsValid : IsValid nothing
unfolding lookup
nothing-IsValid = record { custodies = λ k c f. cc; accounts = λ k a f. cc }

abbrev custody_config : KeyCustodyConfig
custody_config = record {
  custody_ref = lit "c1";
  account_ref = lit "a1";
  secret_refs = [];
  non_exportable_key_ref = lit "hsm";
  allow_exportable_secret_refs = false;
}

custody_accepted : new_key_custody_module custody_config ≡ ok custody_config
unfolding new_key_custody_module
custody_accepted = refl

abbrev account_config : AccountRefConfig
account_config = record {
  account_ref = lit "a1";
  device_ref = [];
  custody_ref = lit "c1";
  credential_ref = [];
  consent_ref = [];
  audit_ref = [];
}

account_accepted : new_account_ref_module account_config ≡ ok account_config
unfolding new_account_ref_module
account_accepted = refl

abbrev with_custody : Registry
with_custody = init_key_custody custody_config nothing

abbrev with_account : Registry
with_account = record with_custody {
  accounts =
      insert (lit "a1")
        (bind_account account_config (registered_signal_key_custody (lit "c1") with_custody))
        with_custody.accounts;
}

account_bound : init_account_ref account_config with_custody ≡ ok with_account
unfolding init_account_ref init_key_custody check_owner registered_signal_key_custody insert lookup
    str_eq
account_bound = refl

init_account_ref-IsValid_example : IsValid with_account
init_account_ref-IsValid_example =
    init_account_ref-IsValid account_config account_config with_custody with_account
      account_accepted
      (init_key_custody-IsValid custody_config custody_config nothing custody_accepted
        nothing-IsValid)
      account_bound
