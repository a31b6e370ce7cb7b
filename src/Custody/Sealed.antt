-- ===== src/Custody/Sealed.antt =====
-- internal/custody/sealed_store.go: key material sealed in one file for each reference. The mutex
-- makes each operation atomic. Cryptography, hashing, base64 and JSON are the argument `Crypto`.
-- A bundle is written to a temporary file, which is renamed over its path, and whose name is removed
-- whatever happened; the removal itself can fail. Directories are not files here: creating the
-- directory changes nothing.
pub mod Files
pub mod ReadWrite
pub mod Kept
pub mod Lifecycle
pub mod Rotation
mod Codec
mod Tests
use workflow_plugin_signal.Base.{
  ℕ, ℤ, negsuc, ◌≡◌, ◌≢◌, Bool, true, false, ◌&&◌, ◌||◌, not, Option, none, some, List, [], ◌∷◌,
  ◌++◌, if◌then◌else◌, ◌==◌, Str, lit, is_empty, str_eq, Dict, lookup, insert, remove, Result, ok,
  err, after, ◌>>=◌, ◌>>◌, fail_if, or_fail,
}

-- time.Time in UTC
pub record Time : Type 0 where
  pub seconds : ℤ
  pub nanos : ℕ

-- t.IsZero(): the first of January of the year 1
abbrev is_year_one : ℤ → Bool
is_year_one (negsuc n) = n == 62135596799
is_year_one _ = false

abbrev pub is_zero_time : Time → Bool
is_zero_time t = is_year_one t.seconds && t.nanos == 0

abbrev pub zero_time : Time
zero_time = record { seconds = negsuc 62135596799; nanos = 0 }

abbrev pub Bytes : Type 0
Bytes = List ℕ

-- map[string][]byte
abbrev pub Material : Type 0
Material = Dict Bytes

abbrev pub state_active : Str
state_active = lit "active"

abbrev pub state_revoked : Str
state_revoked = lit "revoked"

pub record Config : Type 0 where
  pub backend_id : Str
  pub storage_dir : Str
  pub kek_ref : Str
  pub kek_version : Str
  pub schema_version : ℕ
  pub resolve_secret : Option (Str → Option Bytes)

pub record Metadata : Type 0 where
  pub backend_id : Str
  pub ref_id : Str
  pub schema_version : ℕ
  pub kek_ref : Str
  pub kek_version : Str
  pub created_at : Time
  pub rotated_at : Time
  pub revoked_at : Time
  pub state : Str
  pub account_ref : Str
  pub device_ref : Str

pub record CreateRequest : Type 0 where
  pub ref_id : Str
  pub account_ref : Str
  pub device_ref : Str
  pub material : Material
  pub now : Time

pub record RotateRequest : Type 0 where
  pub ref_id : Str
  pub expected_kek_version : Str
  pub new_kek_ref : Str
  pub new_kek_version : Str
  pub now : Time

pub record SealedBundle : Type 0 where
  pub metadata : Metadata
  pub nonce : Str
  pub ciphertext : Str

pub data Error : Type 0 where
  is_required : Str → Error
  partial_bundle stale_kek_version rotate_conflict revoked_ref : Error
  read_failed secret_failed open_failed random_failed marshal_failed : Error
  mkdir_failed temp_failed write_failed rename_failed : Error

-- What the store takes from Go's library: pathFor's hash and join, the name that os.CreateTemp makes
-- for a path and a random suffix, AES-GCM under the hash of a secret, base64 and JSON.
pub record Crypto : Type 0 where
  pub path_for : Str → Str → Str
  pub temp_for : Str → Str → Str
  pub sha256 : Bytes → Bytes
  pub seal : Bytes → Bytes → Bytes → Bytes → Bytes
  pub unseal : Bytes → Bytes → Bytes → Bytes → Option Bytes
  pub base64_encode : Bytes → Str
  pub base64_decode : Str → Option Bytes
  pub marshal_material : Material → Bytes
  pub unmarshal_material : Bytes → Option Material
  pub marshal_bundle : SealedBundle → Option Bytes
  pub unmarshal_bundle : Bytes → Option SealedBundle

-- What is written reads back, and a temporary file has no bundle's path: its base name starts with a
-- dot.
pub record CryptoLaws (c : Crypto) : Type 0 where
  pub temp-apart :
      (dir ref suffix dir' ref' : Str)
      → c.temp_for (c.path_for dir ref) suffix ≢ c.path_for dir' ref'
  pub unseal-seal :
      (key nonce plain aad : Bytes)
      → c.unseal key nonce (c.seal key nonce plain aad) aad ≡ some plain
  pub decode-encode : (b : Bytes) → c.base64_decode (c.base64_encode b) ≡ some b
  pub material-round_trip : (m : Material) → c.unmarshal_material (c.marshal_material m) ≡ some m
  pub bundle-round_trip :
      (b : SealedBundle) (raw : Bytes)
      → c.marshal_bundle b ≡ some raw
      → c.unmarshal_bundle raw ≡ some b

-- How writing, syncing and closing the temporary file ends: well, or in an error, after which the file
-- holds these bytes.
pub data Write : Type 0 where
  whole : Write
  stopped : Bytes → Write

-- What one call meets outside: the clock, the random nonce, the random part of the name of a
-- temporary file (none when it cannot be made), and the system calls that fail.
pub record System : Type 0 where
  pub now : Time
  pub nonce : Option Bytes
  pub mkdir_fails : Bool
  pub temp : Option Str
  pub write : Write
  pub rename_fails : Bool
  pub remove_fails : Bool

-- A store and the files below its directory.
pub record Vault : Type 0 where
  pub cfg : Config
  pub files : Dict Bytes

unfoldable pub new_sealed_store : Config → Result Error Config
new_sealed_store cfg = do
  fail_if (is_empty cfg.backend_id) (is_required (lit "backend_id"))
  fail_if (is_empty cfg.storage_dir) (is_required (lit "storage_dir"))
  fail_if (is_empty cfg.kek_ref) (is_required (lit "kek_ref"))
  fail_if (is_empty cfg.kek_version) (is_required (lit "kek_version"))
  _ ← or_fail cfg.resolve_secret (is_required (lit "secret resolver"))
  ok (if cfg.schema_version == 0 then record cfg { schema_version = 1 } else cfg)

unfoldable pub non_zero_time : System → Time → Time
non_zero_time sys t = if is_zero_time t then sys.now else t

unfoldable pub aad : Metadata → Bytes
aad meta = meta.backend_id ++ (0 ∷ (meta.ref_id ++ (0 ∷ (meta.kek_ref ++ (0 ∷ meta.kek_version)))))

abbrev resolve : Option (Str → Option Bytes) → Str → Option Bytes
resolve none ref = none
resolve (some f) ref = f ref

module _ (c : Crypto) where
  -- The key of the cipher.
  unfoldable pub aead : Config → Result Error Bytes
  aead cfg = do
    secret ← or_fail (resolve cfg.resolve_secret cfg.kek_ref) secret_failed
    ok (c.sha256 secret)

  unfoldable pub encrypt_material :
      System → Config → Metadata → Material → Result Error (Bytes × Bytes)
  encrypt_material sys cfg meta material = do
    key ← aead cfg
    nonce ← or_fail sys.nonce random_failed
    ok (nonce, c.seal key nonce (c.marshal_material material) (aad meta))

  unfoldable pub decrypt_material : Config → SealedBundle → Result Error Material
  decrypt_material cfg bundle = do
    key ← aead cfg
    nonce ← or_fail (c.base64_decode bundle.nonce) partial_bundle
    ciphertext ← or_fail (c.base64_decode bundle.ciphertext) partial_bundle
    plain ← or_fail (c.unseal key nonce ciphertext (aad bundle.metadata)) open_failed
    or_fail (c.unmarshal_material plain) partial_bundle

  -- The bytes of the file at the path of a reference, or a failed read.
  unfoldable pub read_bundle : Vault → Str → Result Error (SealedBundle × Material)
  read_bundle v ref_id = do
    raw ← or_fail (lookup (c.path_for v.cfg.storage_dir ref_id) v.files) read_failed
    bundle ← or_fail (c.unmarshal_bundle raw) partial_bundle
    fail_if
        (not (str_eq bundle.metadata.kek_ref v.cfg.kek_ref)
          || not (str_eq bundle.metadata.kek_version v.cfg.kek_version))
        stale_kek_version
    material ← decrypt_material v.cfg bundle
    ok (bundle, material)

  -- The path and the bytes of the new file.
  unfoldable pub bundle_file : System → Config → Metadata → Material → Result Error (Str × Bytes)
  bundle_file sys cfg meta material = do
    fail_if sys.mkdir_fails mkdir_failed
    (nonce, ciphertext) ← encrypt_material sys cfg meta material
    raw ←
        or_fail
          (c.marshal_bundle (record {
            metadata = meta;
            nonce = c.base64_encode nonce;
            ciphertext = c.base64_encode ciphertext;
          }))
          marshal_failed
    ok (c.path_for cfg.storage_dir meta.ref_id, raw)

  -- Filling the temporary file and renaming it over the path.
  unfoldable pub replace_file :
      Str → Str → Bytes → Write → Bool → Dict Bytes → Result Error Unit × Dict Bytes
  replace_file tmp path raw (stopped part) rename_fails files =
      (err write_failed, insert tmp part files)
  replace_file tmp path raw whole true files = (err rename_failed, insert tmp raw files)
  replace_file tmp path raw whole false files =
      (ok tt, insert path raw (remove tmp (insert tmp raw files)))

  -- The deferred os.Remove, whose error is ignored.
  unfoldable pub clean_up : Bool → Str → Dict Bytes → Dict Bytes
  clean_up true tmp files = files
  clean_up false tmp files = remove tmp files

  unfoldable pub write_file :
      Option Str → System → Str → Bytes → Dict Bytes → Result Error Unit × Dict Bytes
  write_file none sys path raw files = (err temp_failed, files)
  write_file (some suffix) sys path raw files =
      let tmp = c.temp_for path suffix in
      let done = replace_file tmp path raw sys.write sys.rename_fails files in
      (done.0, clean_up sys.remove_fails tmp done.1)

  unfoldable pub write_bundle :
      System → Config → Metadata → Material → Dict Bytes → Result Error Unit × Dict Bytes
  write_bundle sys cfg meta material files =
      after (bundle_file sys cfg meta material) (λ file. write_file sys.temp sys file.0 file.1)
        files

  abbrev pub settle :
      Vault → Config → Metadata → Result Error Unit × Dict Bytes → Result Error Metadata × Vault
  settle v cfg meta (err e, files) = (err e, record v { files = files })
  settle v cfg meta (ok _, files) = (ok meta, record { cfg = cfg; files = files })

  -- An operation that ends in a write: the metadata that it returns, the configuration and the
  -- files that it leaves; or an error, the configuration as it was, and the files that it leaves.
  unfoldable pub commit :
      System → Vault → Result Error (Config × Metadata × Material) → Result Error Metadata × Vault
  commit sys v (err e) = (err e, v)
  commit sys v (ok (cfg, meta, material)) =
      settle v cfg meta (write_bundle sys cfg meta material v.files)

  unfoldable pub plan_create :
      System → CreateRequest → Vault → Result Error (Config × Metadata × Material)
  unfolding non_zero_time
  plan_create sys req v = do
    fail_if (is_empty req.ref_id) (is_required (lit "ref_id"))
    ok (
      v.cfg,
      record {
        backend_id = v.cfg.backend_id;
        ref_id = req.ref_id;
        schema_version = v.cfg.schema_version;
        kek_ref = v.cfg.kek_ref;
        kek_version = v.cfg.kek_version;
        created_at = non_zero_time sys req.now;
        rotated_at = non_zero_time sys req.now;
        revoked_at = zero_time;
        state = state_active;
        account_ref = req.account_ref;
        device_ref = req.device_ref;
      },
      req.material,
    )

  unfoldable pub create : System → CreateRequest → Vault → Result Error Metadata × Vault
  create sys req v = commit sys v (plan_create sys req v)

  unfoldable pub restore : Str → Vault → Result Error Metadata
  restore ref_id v = do
    fail_if (is_empty ref_id) (is_required (lit "ref_id"))
    (bundle, _) ← read_bundle v ref_id
    fail_if (str_eq bundle.metadata.state state_revoked) revoked_ref
    ok bundle.metadata

  unfoldable pub inspect : Str → Vault → Result Error Metadata
  inspect ref_id v = do
    fail_if (is_empty ref_id) (is_required (lit "ref_id"))
    (bundle, _) ← read_bundle v ref_id
    ok bundle.metadata

  abbrev pub new_ref : RotateRequest → Config → Str
  new_ref req cfg = if is_empty req.new_kek_ref then cfg.kek_ref else req.new_kek_ref

  unfoldable pub plan_rotate :
      System → RotateRequest → Vault → Result Error (Config × Metadata × Material)
  unfolding non_zero_time
  plan_rotate sys req v = do
    fail_if (is_empty req.ref_id) (is_required (lit "ref_id"))
    fail_if (is_empty req.expected_kek_version) (is_required (lit "expected_kek_version"))
    fail_if (is_empty req.new_kek_version) (is_required (lit "new_kek_version"))
    (bundle, material) ← read_bundle v req.ref_id
    fail_if (str_eq bundle.metadata.state state_revoked) revoked_ref
    fail_if (not (str_eq bundle.metadata.kek_version req.expected_kek_version)) rotate_conflict
    ok (
      record v.cfg { kek_ref = new_ref req v.cfg; kek_version = req.new_kek_version },
      record bundle.metadata {
        kek_ref = new_ref req v.cfg;
        kek_version = req.new_kek_version;
        rotated_at = non_zero_time sys req.now;
      },
      material,
    )

  unfoldable pub rotate : System → RotateRequest → Vault → Result Error Metadata × Vault
  rotate sys req v = commit sys v (plan_rotate sys req v)

  unfoldable pub plan_revoke :
      System → Str → Time → Vault → Result Error (Config × Metadata × Material)
  unfolding non_zero_time
  plan_revoke sys ref_id now v = do
    fail_if (is_empty ref_id) (is_required (lit "ref_id"))
    (bundle, material) ← read_bundle v ref_id
    ok (
      v.cfg,
      record bundle.metadata { state = state_revoked; revoked_at = non_zero_time sys now },
      material,
    )

  unfoldable pub revoke : System → Str → Time → Vault → Result Error Metadata × Vault
  revoke sys ref_id now v = commit sys v (plan_revoke sys ref_id now v)
