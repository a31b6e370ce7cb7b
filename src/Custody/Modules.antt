-- ===== src/Custody/Modules.antt =====
-- The module configurations of internal/custody.go: which back ends are admitted.
pub mod Admission
use workflow_plugin_signal.Base.{
  ℕ, Bool, true, false, not, if◌then◌else◌, Str, lit, is_empty, str_eq, Result, ok, err, ◌>>=◌,
  ◌>>◌, fail_if,
}
use workflow_plugin_signal.Refs.{production_policy_mode}

abbrev pub local_file : Str
local_file = lit "local_file"

abbrev pub test_file : Str
test_file = lit "test_file"

pub record PersistentCustodyConfig : Type 0 where
  pub custody_ref : Str
  pub account_ref : Str
  pub backend : Str
  pub storage_path : Str
  pub key_handle : Str
  pub host_secret_ref : Str
  pub allow_test_backend : Bool
  pub allow_local_file_custody : Bool
  pub policy_mode : Str

pub record CustodyStoreConfig : Type 0 where
  pub backend_id : Str
  pub backend : Str
  pub storage_path : Str
  pub kek_ref : Str
  pub kek_version : Str
  pub schema_version : ℕ
  pub allow_test_backend : Bool
  pub allow_local_file_custody : Bool
  pub policy_mode : Str

pub data Error : Type 0 where
  is_required unsupported_backend : Str → Error
  production_file test_backend_denied local_file_denied : Error

-- The switch on the back end, which both constructors make.
unfoldable pub check_backend : Str → Str → Bool → Bool → Result Error (Unit {0})
check_backend backend policy_mode allow_local allow_test =
    if str_eq backend local_file
    then (do
      fail_if (production_policy_mode policy_mode) production_file
      fail_if (not allow_local) local_file_denied)
    else if str_eq backend test_file
    then (do
      fail_if (production_policy_mode policy_mode) production_file
      fail_if (not allow_test) test_backend_denied)
    else err (unsupported_backend backend)

unfoldable pub new_persistent_custody_module :
    PersistentCustodyConfig → Result Error PersistentCustodyConfig
new_persistent_custody_module cfg = do
  fail_if (is_empty cfg.custody_ref) (is_required (lit "custody_ref"))
  fail_if (is_empty cfg.account_ref) (is_required (lit "account_ref"))
  fail_if (is_empty cfg.storage_path) (is_required (lit "storage_path"))
  fail_if (is_empty cfg.key_handle) (is_required (lit "key_handle"))
  fail_if (is_empty cfg.host_secret_ref) (is_required (lit "host_secret_ref"))
  check_backend cfg.backend cfg.policy_mode cfg.allow_local_file_custody cfg.allow_test_backend
  ok cfg

unfoldable pub new_custody_store_module : CustodyStoreConfig → Result Error CustodyStoreConfig
new_custody_store_module cfg = do
  fail_if (is_empty cfg.backend_id) (is_required (lit "backend_id"))
  fail_if (is_empty cfg.storage_path) (is_required (lit "storage_path"))
  fail_if (is_empty cfg.kek_ref) (is_required (lit "kek_ref"))
  fail_if (is_empty cfg.kek_version) (is_required (lit "kek_version"))
  check_backend cfg.backend cfg.policy_mode cfg.allow_local_file_custody cfg.allow_test_backend
  ok cfg
