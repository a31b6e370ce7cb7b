-- ===== src/Custody/Sealed/Kept.antt =====
-- What an operation of the sealed store that fails leaves of the files
-- (internal/custody/sealed_store.go).
use workflow_plugin_signal.Base.{
  ◌≡◌, refl, ◌⊎◌, inr, Bool, true, none, some, arith, Str, Dict, lookup, Result, ok, err,
  Result-cases,
}
use workflow_plugin_signal.Custody.Sealed.{
  Bytes, Material, Config, Metadata, Error, Crypto, CryptoLaws, System, Vault, bundle_file,
  write_bundle, commit, settle,
}
use workflow_plugin_signal.Custody.Sealed.Files.{write_file_kept, write_file_traceless}
use workflow_plugin_signal.Custody.Sealed.ReadWrite.{bundle_apart}

module _ (c : Crypto) where
  -- A write that failed leaves the paths of all bundles as they were.
  pub write_bundle_kept :
      (sys : System) (cfg : Config) (meta : Metadata) (material : Material) (files : Dict Bytes)
      (dir ref : Str) {e : Error}
      → CryptoLaws c
      → (write_bundle c sys cfg meta material files).0 ≡ err e
      → lookup (c.path_for dir ref) (write_bundle c sys cfg meta material files).1
        ≡ lookup (c.path_for dir ref) files
  unfolding write_bundle
  write_bundle_kept sys cfg meta material files dir ref laws e =
      Result-cases (bundle_file c sys cfg meta material)
        (λ (path, raw) f. rw f (
          write_file_kept c sys.temp sys path (c.path_for dir ref) raw files
            (bundle_apart c sys cfg meta material path raw dir ref laws f) (rw f at e)))
        (λ x f. rw f refl)

  pub write_bundle_traceless :
      (sys : System) (cfg : Config) (meta : Metadata) (material : Material) (files : Dict Bytes)
      {e : Error}
      → ((path suffix : Str)
          → sys.temp ≡ some suffix
          → lookup (c.temp_for path suffix) files ≡ none)
      → (write_bundle c sys cfg meta material files).0 ≡ err e
      → (sys.remove_fails ≡ true)
        ⊎ ((k : Str) → lookup k (write_bundle c sys cfg meta material files).1 ≡ lookup k files)
  unfolding write_bundle
  write_bundle_traceless sys cfg meta material files fresh e =
      Result-cases (bundle_file c sys cfg meta material)
        (λ (path, raw) f.
          rw f (write_file_traceless c sys.temp sys path raw files (fresh path) (rw f at e)))
        (λ x f. rw f (inr (λ k. refl)))

  -- What an operation that failed leaves of a vault: its configuration, the paths of all bundles, and
  -- no other name either, unless the temporary file could not be removed.
  pub record IsKept (remove_fails : Bool) (v v' : Vault) : Type 0 where
    pub cfg : v'.cfg ≡ v.cfg
    pub bundles :
        (dir ref : Str) → lookup (c.path_for dir ref) v'.files ≡ lookup (c.path_for dir ref) v.files
    pub traceless : (remove_fails ≡ true) ⊎ ((k : Str) → lookup k v'.files ≡ lookup k v.files)

  -- The name that a call would give its temporary file is not taken: os.CreateTemp looks for such a
  -- one.
  abbrev pub IsFresh : System → Vault → Type 0
  IsFresh sys v =
      (path suffix : Str) → sys.temp ≡ some suffix → lookup (c.temp_for path suffix) v.files ≡ none

  settle-IsKept :
      (remove_fails : Bool) (v : Vault) (cfg : Config) (meta : Metadata)
      (written : Result Error Unit × Dict Bytes) {e : Error}
      → ((e : Error) (dir ref : Str)
          → written.0 ≡ err e
          → lookup (c.path_for dir ref) written.1 ≡ lookup (c.path_for dir ref) v.files)
      → ((e : Error)
          → written.0 ≡ err e
          → (remove_fails ≡ true) ⊎ ((k : Str) → lookup k written.1 ≡ lookup k v.files))
      → (settle c v cfg meta written).0 ≡ err e
      → IsKept remove_fails v (settle c v cfg meta written).1
  settle-IsKept fails v cfg meta (err x, files) bundles traceless h = record {
    cfg = refl;
    bundles = λ dir ref. bundles x dir ref refl;
    traceless = traceless x refl;
  }
  settle-IsKept fails v cfg meta (ok u, files) bundles traceless h = absurd (ground arith)

  pub commit-IsKept :
      (sys : System) (v : Vault) (plan : Result Error (Config × Metadata × Material)) {e : Error}
      → CryptoLaws c
      → IsFresh sys v
      → (commit c sys v plan).0 ≡ err e
      → IsKept sys.remove_fails v (commit c sys v plan).1
  unfolding commit
  commit-IsKept sys v (err x) laws fresh h = record {
    cfg = refl;
    bundles = λ dir ref. refl;
    traceless = inr (λ k. refl);
  }
  commit-IsKept sys v (ok (cfg, meta, material)) laws fresh h =
      settle-IsKept sys.remove_fails v cfg meta (write_bundle c sys cfg meta material v.files)
        (λ x dir ref f. write_bundle_kept sys cfg meta material v.files dir ref laws f)
        (λ x f. write_bundle_traceless sys cfg meta material v.files fresh f) h
