-- ===== src/Custody/Stores.antt =====
-- `custodyStoreModule.Init` of internal/custody.go: a sealed store over the directory of the
-- configuration, under the module's name. The host's resolver is the one that is set when the store
-- is made; the source asks for it again at each use.
use workflow_plugin_signal.Base.{Option, none, some, Str, Dict, insert, Result, ok, err, ◌>>=◌}
use workflow_plugin_signal.Custody.Modules.{CustodyStoreConfig}
use workflow_plugin_signal.Custody.Sealed
use workflow_plugin_signal.Custody.Sealed.{Bytes, Config, Vault, new_sealed_store}
use workflow_plugin_signal.Custody.Persistent.{SeedCrypto, Resolver, resolve_signal_host_secret}
use workflow_plugin_signal.Custody.Steps.{Stores}

abbrev value_of : {E A : Type 0} → Result E A → Option A
value_of (ok a) = some a
value_of (err e) = none

unfoldable pub init_custody_store :
    SeedCrypto
    → Resolver
    → Str
    → CustodyStoreConfig
    → Dict Bytes
    → Stores
    → Result Sealed.Error Stores
init_custody_store c resolver name cfg files stores = do
  store ← new_sealed_store (record {
    backend_id = cfg.backend_id;
    storage_dir = cfg.storage_path;
    kek_ref = cfg.kek_ref;
    kek_version = cfg.kek_version;
    schema_version = cfg.schema_version;
    resolve_secret = some (λ ref. value_of (resolve_signal_host_secret c resolver ref));
  })
  ok (insert name (record { cfg = store; files = files }) stores)
