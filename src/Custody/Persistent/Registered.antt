-- ===== src/Custody/Persistent/Registered.antt =====
-- What a persistent custody adds to the registry of custodies and accounts.
use workflow_plugin_signal.Base.{◌≡◌, refl, arith, Dict, Result, ok, err}
use workflow_plugin_signal.Accounts.Ownership.{IsCustody, IsValid, insert-each}
use workflow_plugin_signal.Custody.Sealed.{Bytes}
use workflow_plugin_signal.Custody.Modules.{PersistentCustodyConfig, new_persistent_custody_module}
use workflow_plugin_signal.Custody.Persistent.{
  Error, SeedCrypto, System, Resolver, Process, key_custody_of, register_seed,
  resolve_signal_host_secret, init_persistent_custody,
}

module _ (c : SeedCrypto) where
  key_custody_of-IsCustody :
      (cfg kept : PersistentCustodyConfig)
      → new_persistent_custody_module cfg ≡ ok kept
      → IsCustody kept.custody_ref (key_custody_of c kept)
  unfolding new_persistent_custody_module key_custody_of
  key_custody_of-IsCustody cfg kept e = record {
    own_ref = refl;
    owner = ground arith;
    backed = ground arith;
  }

  register_seed-IsValid :
      (cfg : PersistentCustodyConfig) (p : Process) (r : Result Error Bytes × Dict Bytes)
      → IsCustody cfg.custody_ref (key_custody_of c cfg)
      → IsValid p.registry
      → IsValid (register_seed c cfg p r).1.registry
  unfolding register_seed
  register_seed-IsValid cfg p (err x, files) k v = v
  register_seed-IsValid cfg p (ok seed, files) k v = record {
    custodies = insert-each {P = IsCustody} cfg.custody_ref _ p.registry.custodies k v.custodies;
    accounts = v.accounts;
  }

  initialised :
      (sys : System) (resolver : Resolver) (cfg : PersistentCustodyConfig) (p : Process)
      (found : Result Error Bytes)
      → resolve_signal_host_secret c resolver cfg.host_secret_ref ≡ found
      → IsCustody cfg.custody_ref (key_custody_of c cfg)
      → IsValid p.registry
      → IsValid (init_persistent_custody c sys resolver cfg p).1.registry
  unfolding init_persistent_custody
  initialised sys resolver cfg p (err x) f k v = rw f v
  initialised sys resolver cfg p (ok secret) f k v = rw f (register_seed-IsValid cfg p _ k v)

  -- A persistent custody whose configuration was accepted leaves the registry valid, whether or not
  -- its `Init` succeeds: what it registers names an account and a key handle.
  pub init_persistent_custody-IsValid :
      (sys : System) (resolver : Resolver) (cfg kept : PersistentCustodyConfig) (p : Process)
      → new_persistent_custody_module cfg ≡ ok kept
      → IsValid p.registry
      → IsValid (init_persistent_custody c sys resolver kept p).1.registry
  init_persistent_custody-IsValid sys resolver cfg kept p e v =
      initialised sys resolver kept p _ refl (key_custody_of-IsCustody cfg kept e) v
