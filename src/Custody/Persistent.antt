-- ===== src/Custody/Persistent.antt =====
-- The persistent custody module of internal/custody.go: a random seed in an encrypted file, bound
-- to the configuration, from which labelled keys are derived. `Init` also registers the custody in
-- the registry of internal/key_custody.go. Hashing, AES-GCM, base64 and JSON are an argument.
pub mod Restart
pub mod Registered
mod Tests
use workflow_plugin_signal.Base.{
  ℕ, ◌≡◌, Bool, true, false, not, ◌&&◌, ◌||◌, Option, none, some, List, [], ◌∷◌, ◌++◌,
  if◌then◌else◌, ◌==◌, length, Str, lit, is_empty, str_eq, Dict, lookup, insert, Result, ok, err,
  ◌>>=◌, ◌>>◌, fail_if, or_fail, after,
}
use workflow_plugin_signal.Text.{has_prefix}
use workflow_plugin_signal.Envelope.{Write, complete, partial}
use workflow_plugin_signal.Accounts.{SignalKeyCustody, Registry}
use workflow_plugin_signal.Custody.Sealed.{Bytes}
use workflow_plugin_signal.Custody.Modules.{PersistentCustodyConfig, test_file}

pub record PersistentCustodyRecord : Type 0 where
  pub custody_ref : Str
  pub account_ref : Str
  pub backend : Str
  pub key_handle : Str
  pub host_secret_ref : Str
  pub test_backend : Bool
  pub seed : Bytes

pub record PersistentCustodyEnvelope : Type 0 where
  pub version : ℕ
  pub custody_ref : Str
  pub account_ref : Str
  pub backend : Str
  pub key_handle : Str
  pub host_secret_ref : Str
  pub nonce : Str
  pub ciphertext : Str

pub data Error : Type 0 where
  secret_resolver_missing resolver_failed label_required refs_do_not_match : Error
  secret_is_empty not_registered : Str → Error
  read_storage decode_storage nonce_decode ciphertext_decode decrypt_storage cipher_failed : Error
  seed_failed nonce_failed marshal_storage create_storage_dir write_storage : Error
  unsupported_version : ℕ → Error

-- What the module takes from Go's library.
pub record SeedCrypto : Type 0 where
  pub sha256 : Bytes → Bytes
  pub hmac_sha256 : Bytes → Bytes → Bytes
  pub seal : Bytes → Bytes → Bytes → Bytes → Bytes
  pub unseal : Bytes → Bytes → Bytes → Bytes → Option Bytes
  pub base64_encode : Bytes → Str
  pub base64_decode : Str → Option Bytes
  pub marshal : PersistentCustodyEnvelope → Option Bytes
  pub unmarshal : Bytes → Option PersistentCustodyEnvelope

-- What is sealed and encoded comes back.
pub record SeedLaws (c : SeedCrypto) : Type 0 where
  pub unseal-seal :
      (key nonce plain aad : Bytes)
      → c.unseal key nonce (c.seal key nonce plain aad) aad ≡ some plain
  pub base64-round_trip : (b : Bytes) → c.base64_decode (c.base64_encode b) ≡ some b
  pub unmarshal-marshal :
      (e : PersistentCustodyEnvelope) (raw : Bytes)
      → c.marshal e ≡ some raw
      → c.unmarshal raw ≡ some e

-- What one call meets outside: a read that fails though the file is there, the random draws, and
-- the system calls that fail.
pub record System : Type 0 where
  pub read_fails : Bool
  pub seed : Option Bytes
  pub nonce : Option Bytes
  pub mkdir_fails : Bool
  pub write : Write

-- The host's secret resolver, if one is set.
abbrev pub Resolver : Type 0
Resolver = Option (Str → Option Bytes)

-- The global maps of the process, and the files.
pub record Process : Type 0 where
  pub persistent : Dict PersistentCustodyRecord
  pub registry : Registry
  pub files : Dict Bytes

unfoldable pub persistent_custody_aad : PersistentCustodyConfig → Bytes
persistent_custody_aad cfg =
    cfg.custody_ref
    ++ (0 ∷ (cfg.account_ref ++ (0 ∷ (cfg.key_handle ++ (0 ∷ cfg.host_secret_ref)))))

-- aes.NewCipher takes keys of three sizes.
unfoldable pub persistent_custody_aead : Bytes → Result Error Bytes
persistent_custody_aead key = do
  fail_if (not (length key == 16 || length key == 24 || length key == 32)) cipher_failed
  ok key

module _ (c : SeedCrypto) where
  unfoldable pub resolve_signal_host_secret : Resolver → Str → Result Error Bytes
  resolve_signal_host_secret none ref =
      if has_prefix ref (lit "test://signal/")
      then ok (c.sha256 (lit "workflow-plugin-signal-test-secret" ++ (0 ∷ ref)))
      else err secret_resolver_missing
  resolve_signal_host_secret (some resolver) ref = do
    secret ← or_fail (resolver ref) resolver_failed
    fail_if (is_empty secret) (secret_is_empty ref)
    ok secret

  unfoldable pub sealed_envelope :
      Bytes → PersistentCustodyConfig → Bytes → Bytes → PersistentCustodyEnvelope
  sealed_envelope seed cfg key nonce = record {
    version = 1;
    custody_ref = cfg.custody_ref;
    account_ref = cfg.account_ref;
    backend = cfg.backend;
    key_handle = cfg.key_handle;
    host_secret_ref = cfg.host_secret_ref;
    nonce = c.base64_encode nonce;
    ciphertext = c.base64_encode (c.seal key nonce seed (persistent_custody_aad cfg));
  }

  unfoldable pub encrypt_persistent_custody_seed :
      System → Bytes → PersistentCustodyConfig → Bytes → Result Error Bytes
  encrypt_persistent_custody_seed sys seed cfg key = do
    gcm ← persistent_custody_aead key
    nonce ← or_fail sys.nonce nonce_failed
    or_fail (c.marshal (sealed_envelope seed cfg gcm nonce)) marshal_storage

  unfoldable pub refs_match : PersistentCustodyEnvelope → PersistentCustodyConfig → Bool
  refs_match env cfg =
      str_eq env.custody_ref cfg.custody_ref
      && (str_eq env.account_ref cfg.account_ref
          && (str_eq env.key_handle cfg.key_handle
              && str_eq env.host_secret_ref cfg.host_secret_ref))

  unfoldable pub decrypt_persistent_custody_seed :
      Bytes → PersistentCustodyConfig → Bytes → Result Error Bytes
  unfolding refs_match
  decrypt_persistent_custody_seed raw cfg key = do
    env ← or_fail (c.unmarshal raw) decode_storage
    fail_if (not (env.version == 1)) (unsupported_version env.version)
    fail_if (not (refs_match env cfg)) refs_do_not_match
    gcm ← persistent_custody_aead key
    nonce ← or_fail (c.base64_decode env.nonce) nonce_decode
    ciphertext ← or_fail (c.base64_decode env.ciphertext) ciphertext_decode
    or_fail (c.unseal gcm nonce ciphertext (persistent_custody_aad cfg)) decrypt_storage

  -- A new seed, and the bytes of its file, once only the write can fail.
  unfoldable pub new_seed : System → PersistentCustodyConfig → Bytes → Result Error (Bytes × Bytes)
  new_seed sys cfg key = do
    seed ← or_fail sys.seed seed_failed
    raw ← encrypt_persistent_custody_seed sys seed cfg key
    fail_if sys.mkdir_fails create_storage_dir
    ok (seed, raw)

  -- os.WriteFile on the storage path itself.
  unfoldable pub write_seed :
      Write → Str → Bytes × Bytes → Dict Bytes → Result Error Bytes × Dict Bytes
  write_seed complete path (seed, raw) files = (ok seed, insert path raw files)
  write_seed (partial none) path (seed, raw) files = (err write_storage, files)
  write_seed (partial (some part)) path (seed, raw) files =
      (err write_storage, insert path part files)

  unfoldable pub load_or_create_persistent_custody_seed :
      System → PersistentCustodyConfig → Bytes → Dict Bytes → Result Error Bytes × Dict Bytes
  load_or_create_persistent_custody_seed sys cfg key files =
      if sys.read_fails then (err read_storage, files) else elim (lookup cfg.storage_path files) [
        | some raw ↦ (decrypt_persistent_custody_seed raw cfg key, files)
        | none ↦ after (new_seed sys cfg key) (write_seed sys.write cfg.storage_path) files
      ]

  unfoldable pub persistent_record : PersistentCustodyConfig → Bytes → PersistentCustodyRecord
  persistent_record cfg seed = record {
    custody_ref = cfg.custody_ref;
    account_ref = cfg.account_ref;
    backend = cfg.backend;
    key_handle = cfg.key_handle;
    host_secret_ref = cfg.host_secret_ref;
    test_backend = str_eq cfg.backend test_file;
    seed = seed;
  }

  unfoldable pub key_custody_of : PersistentCustodyConfig → SignalKeyCustody
  key_custody_of cfg = record {
    ref = cfg.custody_ref;
    account_ref = cfg.account_ref;
    secret_refs = [];
    non_exportable_key_ref = cfg.key_handle;
  }

  -- Both maps get the custody, once there is a seed.
  unfoldable pub register_seed :
      PersistentCustodyConfig
      → Process
      → Result Error Bytes × Dict Bytes
      → Result Error (Unit {0}) × Process
  register_seed cfg p (err e, files) = (err e, record p { files = files })
  register_seed cfg p (ok seed, files) = (
    ok tt,
    record {
      persistent = insert cfg.custody_ref (persistent_record cfg seed) p.persistent;
      registry = record p.registry {
        custodies = insert cfg.custody_ref (key_custody_of cfg) p.registry.custodies;
      };
      files = files;
    },
  )

  -- persistentCustodyModule.Init
  unfoldable pub init_persistent_custody :
      System → Resolver → PersistentCustodyConfig → Process → Result Error (Unit {0}) × Process
  init_persistent_custody sys resolver cfg p =
      after (resolve_signal_host_secret resolver cfg.host_secret_ref)
        (λ secret p'.
          register_seed cfg p'
            (load_or_create_persistent_custody_seed sys cfg (c.sha256 secret) p'.files))
        p

  unfoldable pub derive_persistent_custody_key :
      Str → Str → Dict PersistentCustodyRecord → Result Error Bytes
  derive_persistent_custody_key ref label persistent = do
    fail_if (is_empty label) label_required
    r ← or_fail (lookup ref persistent) (not_registered ref)
    ok (c.hmac_sha256 r.seed label)

  -- Everything but the seed.
  unfoldable pub lookup_persistent_custody_metadata :
      Str → Dict PersistentCustodyRecord → Result Error PersistentCustodyRecord
  lookup_persistent_custody_metadata ref persistent = do
    r ← or_fail (lookup ref persistent) (not_registered ref)
    ok (record r { seed = [] })
