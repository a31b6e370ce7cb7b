-- ===== src/Custody/Modules/Admission.antt =====
-- A file-backed custody is admitted outside production, and only by its own opt-in.
use workflow_plugin_signal.Base.{◌≡◌, ◌⊎◌, Bool, true, false, arith, Str, str_eq_iff, ok}
use workflow_plugin_signal.Refs.{production_policy_mode}
use workflow_plugin_signal.Custody.Modules.{
  local_file, test_file, PersistentCustodyConfig, CustodyStoreConfig, check_backend,
  new_persistent_custody_module, new_custody_store_module,
}

abbrev pub IsAdmitted : Str → Str → Bool → Bool → Type 0
IsAdmitted backend policy_mode allow_local allow_test =
    (production_policy_mode policy_mode ≡ false)
    × (((backend ≡ local_file) × (allow_local ≡ true))
        ⊎ ((backend ≡ test_file) × (allow_test ≡ true)))

check_backend-IsAdmitted :
    (b p : Str) (l t : Bool) → check_backend b p l t ≡ ok tt → IsAdmitted b p l t
unfolding check_backend
check_backend-IsAdmitted b p l t e = ground (arith, str_eq_iff b local_file, str_eq_iff b test_file)

-- A persistent custody is accepted only if the policy mode is not production and the back end is
-- a file back end whose own flag is set.
pub new_persistent_custody_module-IsAdmitted :
    (cfg kept : PersistentCustodyConfig)
    → new_persistent_custody_module cfg ≡ ok kept
    → IsAdmitted kept.backend kept.policy_mode kept.allow_local_file_custody kept.allow_test_backend
unfolding new_persistent_custody_module
new_persistent_custody_module-IsAdmitted cfg kept e = ground (
  arith,
  check_backend-IsAdmitted cfg.backend cfg.policy_mode cfg.allow_local_file_custody
      cfg.allow_test_backend,
)

-- A custody store is accepted only if the policy mode is not production and the back end is a
-- file back end whose own flag is set.
new_custody_store_module-IsAdmitted :
    (cfg kept : CustodyStoreConfig)
    → new_custody_store_module cfg ≡ ok kept
    → IsAdmitted kept.backend kept.policy_mode kept.allow_local_file_custody kept.allow_test_backend
unfolding new_custody_store_module
new_custody_store_module-IsAdmitted cfg kept e = ground (
  arith,
  check_backend-IsAdmitted cfg.backend cfg.policy_mode cfg.allow_local_file_custody
      cfg.allow_test_backend,
)
