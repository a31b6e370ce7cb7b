-- ===== src/Accounts.antt =====
-- The registries of key custodies and accounts, internal/key_custody.go. Each is a global map under
-- its own lock; a registered object is never changed, so the map holds values.
pub mod Ownership
mod Tests
use workflow_plugin_signal.Base.{
  Bool, true, false, not, ◌&&◌, ◌||◌, Option, none, some, List, [], ◌∷◌, if◌then◌else◌, Str, lit,
  is_empty, str_eq, Dict, lookup, insert, Result, ok, err, ◌>>=◌, ◌>>◌, fail_if, or_fail,
}

pub record KeyCustodyConfig : Type 0 where
  pub custody_ref : Str
  pub account_ref : Str
  pub secret_refs : List Str
  pub non_exportable_key_ref : Str
  pub allow_exportable_secret_refs : Bool

pub record AccountRefConfig : Type 0 where
  pub account_ref : Str
  pub device_ref : Str
  pub custody_ref : Str
  pub credential_ref : Str
  pub consent_ref : Str
  pub audit_ref : Str

pub record SignalKeyCustody : Type 0 where
  pub ref : Str
  pub account_ref : Str
  pub secret_refs : List Str
  pub non_exportable_key_ref : Str

pub record SignalAccountRef : Type 0 where
  pub ref : Str
  pub device_ref : Str
  pub custody_ref : Str
  pub credential_ref : Str
  pub consent_ref : Str
  pub audit_ref : Str
  pub custody : Option SignalKeyCustody

pub record Registry : Type 0 where
  pub custodies : Dict SignalKeyCustody
  pub accounts : Dict SignalAccountRef

pub data Error : Type 0 where
  is_required not_registered : Str → Error
  exportable_custody_ref_denied : Error
  belongs_to : Str → Str → Error

unfoldable pub new_key_custody_module : KeyCustodyConfig → Result Error KeyCustodyConfig
new_key_custody_module cfg = do
  fail_if (is_empty cfg.custody_ref) (is_required (lit "custody_ref"))
  fail_if (is_empty cfg.account_ref) (is_required (lit "account_ref"))
  fail_if (not (is_empty cfg.secret_refs) && not cfg.allow_exportable_secret_refs)
      exportable_custody_ref_denied
  fail_if (is_empty cfg.non_exportable_key_ref && is_empty cfg.secret_refs)
      (is_required (lit "non_exportable_key_ref or secret_refs"))
  ok cfg

-- keyCustodyModule.Init
unfoldable pub init_key_custody : KeyCustodyConfig → Registry → Registry
init_key_custody cfg g = record g {
  custodies =
      insert cfg.custody_ref
        (record {
          ref = cfg.custody_ref;
          account_ref = cfg.account_ref;
          secret_refs = cfg.secret_refs;
          non_exportable_key_ref = cfg.non_exportable_key_ref;
        })
        g.custodies;
}

unfoldable pub new_account_ref_module : AccountRefConfig → Result Error AccountRefConfig
new_account_ref_module cfg = do
  fail_if (is_empty cfg.account_ref) (is_required (lit "account_ref"))
  ok cfg

unfoldable pub lookup_signal_key_custody : Str → Registry → Result Error SignalKeyCustody
lookup_signal_key_custody ref g = do
  fail_if (is_empty ref) (is_required (lit "custody_ref"))
  or_fail (lookup ref g.custodies) (not_registered ref)

unfoldable pub registered_signal_key_custody : Str → Registry → Option SignalKeyCustody
registered_signal_key_custody ref g = if is_empty ref then none else lookup ref g.custodies

unfoldable pub lookup_signal_account_ref : Str → Registry → Result Error SignalAccountRef
lookup_signal_account_ref ref g = do
  fail_if (is_empty ref) (is_required (lit "account_ref"))
  or_fail (lookup ref g.accounts) (not_registered ref)

unfoldable pub registered_signal_account_ref : Str → Registry → Option SignalAccountRef
registered_signal_account_ref ref g = if is_empty ref then none else lookup ref g.accounts

-- The owner check that `accountRefModule.Init` makes of a custody that is registered.
unfoldable pub check_owner :
    AccountRefConfig → Option SignalKeyCustody → Result Error (Option SignalKeyCustody)
check_owner cfg none = ok none
check_owner cfg (some k) = do
  fail_if (not (is_empty k.account_ref) && not (str_eq k.account_ref cfg.account_ref))
      (belongs_to k.ref k.account_ref)
  ok (some k)

unfoldable pub bind_account : AccountRefConfig → Option SignalKeyCustody → SignalAccountRef
bind_account cfg custody = record {
  ref = cfg.account_ref;
  device_ref = cfg.device_ref;
  custody_ref = cfg.custody_ref;
  credential_ref = cfg.credential_ref;
  consent_ref = cfg.consent_ref;
  audit_ref = cfg.audit_ref;
  custody = custody;
}

-- accountRefModule.Init
unfoldable pub init_account_ref : AccountRefConfig → Registry → Result Error Registry
init_account_ref cfg g = do
  custody ← check_owner cfg (registered_signal_key_custody cfg.custody_ref g)
  ok (record g { accounts = insert cfg.account_ref (bind_account cfg custody) g.accounts })
