-- ===== src/Custody/Tests.antt =====
-- The audit log and the module configurations at concrete inputs.
use workflow_plugin_signal.Base.{
  ◌≡◌, refl, str_eq, [], ◌∷◌, true, false, Str, lit, Dict, lookup, ok, none, some, ◌⊎◌,
}
use workflow_plugin_signal.Text.{to_lower, trim_space}
use workflow_plugin_signal.Refs.{production_policy_mode}
use workflow_plugin_signal.Custody.Audit.{redact_fields}
use workflow_plugin_signal.Custody.Audit.Redaction.{IsSecret, lookup-redact_fields}
use workflow_plugin_signal.Custody.Modules.{
  local_file, test_file, PersistentCustodyConfig, CustodyStoreConfig, check_backend,
  new_persistent_custody_module, new_custody_store_module,
}
use workflow_plugin_signal.Custody.Modules.Admission.{
  IsAdmitted, new_persistent_custody_module-IsAdmitted,
}

abbrev fields : Dict Str
fields = (lit "ref_id", lit "r1") ∷ (lit "API_Token", lit "t0p") ∷ []

lookup-redact_fields_example :
    ((lookup (lit "API_Token") fields ≡ none)
      × (lookup (lit "API_Token") (redact_fields fields) ≡ none))
    ⊎ ((value : Str) × (lookup (lit "API_Token") fields ≡ some value)
        × ((IsSecret (lit "API_Token")
              × (lookup (lit "API_Token") (redact_fields fields) ≡ some (lit "[redacted]")))
            ⊎ ((¬ IsSecret (lit "API_Token"))
                × (lookup (lit "API_Token") (redact_fields fields) ≡ some value))))
lookup-redact_fields_example = lookup-redact_fields fields (lit "API_Token")

abbrev persistent : PersistentCustodyConfig
persistent = record {
  custody_ref = lit "c";
  account_ref = lit "a";
  backend = local_file;
  storage_path = lit "/var/c";
  key_handle = lit "k";
  host_secret_ref = lit "s";
  allow_test_backend = false;
  allow_local_file_custody = true;
  policy_mode = lit "dev";
}

abbrev sealed : CustodyStoreConfig
sealed = record {
  backend_id = lit "b";
  backend = test_file;
  storage_path = lit "/var/s";
  kek_ref = lit "kek";
  kek_version = lit "v1";
  schema_version = 1;
  allow_test_backend = true;
  allow_local_file_custody = false;
  policy_mode = lit "dev";
}

persistent_accepted : new_persistent_custody_module persistent ≡ ok persistent
unfolding new_persistent_custody_module check_backend production_policy_mode str_eq to_lower
    trim_space
persistent_accepted = refl

sealed_accepted : new_custody_store_module sealed ≡ ok sealed
unfolding new_custody_store_module check_backend production_policy_mode str_eq to_lower trim_space
sealed_accepted = refl

new_persistent_custody_module-IsAdmitted_example : IsAdmitted local_file (lit "dev") true false
new_persistent_custody_module-IsAdmitted_example =
    new_persistent_custody_module-IsAdmitted persistent persistent persistent_accepted
