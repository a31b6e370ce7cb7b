-- ===== src/Keys.antt =====
-- The steps of internal/steps.go that keep no state: fingerprints, account keys and username links.
-- What they take from libsignal-go is an argument, with the bytes that its calls draw.
pub mod Bounds
pub mod Links
mod Tests
use workflow_plugin_signal.Base.{
  ℕ, ◌≡◌, Bool, true, false, not, ◌||◌, ◌==◌, Option, none, some, List, [], ◌∷◌, if◌then◌else◌, Str,
  lit, is_empty, length, Result, ok, err, ◌>>=◌, ◌>>◌, fail_if, or_fail,
}
use workflow_plugin_signal.Text.{first_non_empty}
use workflow_plugin_signal.Session.{Bytes, first_non_zero}

-- A step's configuration and its input have the fields of one record, of which the input's come first.
pub record FingerprintConfig : Type 0 where
  pub version : ℕ
  pub iterations : ℕ

pub record FingerprintInput : Type 0 where
  pub local_id : Str
  pub local_key : Str
  pub remote_id : Str
  pub remote_key : Str
  pub version : ℕ
  pub iterations : ℕ

pub record FingerprintOutput : Type 0 where
  pub display : Str
  pub scannable_hex : Str

pub record AccountKeysInput : Type 0 where
  pub entropy_pool : Str
  pub aci : Bytes
  pub pin : Str
  pub pin_salt : Bytes
  pub pin_salt_username : Str
  pub pin_salt_group_id : ℕ

pub record AccountKeysOutput : Type 0 where
  pub entropy_pool : Str
  pub svr_key : Bytes
  pub backup_key : Bytes
  pub backup_id : Bytes
  pub pin_salt : Bytes
  pub pin_access_key : Bytes
  pub pin_encryption_key : Bytes

pub record UsernameLinkCreateInput : Type 0 where
  pub username : Str
  pub entropy : Bytes

pub record UsernameLinkCreateOutput : Type 0 where
  pub entropy : Bytes
  pub encrypted_username : Bytes
  pub link_buffer : Bytes

pub record UsernameLinkDecryptInput : Type 0 where
  pub entropy : Bytes
  pub encrypted_username : Bytes
  pub link_buffer : Bytes

pub data Error : Type 0 where
  key_failed : Str → Error
  compute_failed serialize_failed : Error
  entropy_pool_failed : Error
  must_be : Str → ℕ → ℕ → Error
  salt_required username_required encrypted_username_required : Error
  create_link_failed link_buffer_failed decrypt_failed : Error

-- usernames.Link
pub record Link : Type 0 where
  pub entropy : Bytes
  pub encrypted_username : Bytes

pub record PinHash : Type 0 where
  pub access_key : Bytes
  pub encryption_key : Bytes

-- What the steps take from libsignal-go's accountkeys, usernames, fingerprint, curve and address, and
-- encoding/hex.
pub record KeyLibrary : Type 1 where
  pub PublicKey : Type 0
  pub Fingerprint : Type 0
  pub Pool : Type 0
  pub BackupKey : Type 0
  pub uuid_len : ℕ
  pub link_entropy_size : ℕ
  pub hex_decode : Str → Option Bytes
  pub hex_encode : Bytes → Str
  pub deserialize_key : Bytes → Option PublicKey
  pub new_fingerprint : ℕ → ℕ → Str → PublicKey → Str → PublicKey → Option Fingerprint
  pub serialize : Fingerprint → Option Bytes
  pub display_string : Fingerprint → Str
  pub generate_pool : Bytes → Option Pool
  pub parse_pool : Str → Option Pool
  pub pool_text : Pool → Str
  pub derive_backup_key : Pool → BackupKey
  pub derive_svr_key : Pool → Bytes
  pub backup_key_bytes : BackupKey → Bytes
  pub derive_backup_id : BackupKey → Bytes → Bytes
  pub make_pin_salt : Str → ℕ → Bytes
  pub create_pin_hash : Str → Bytes → PinHash
  pub create_link : Bytes → Str → Option Bytes → Option Link
  pub link_buffer : Link → Bytes
  pub parse_link_buffer : Bytes → Option Link
  pub decrypt_username : Bytes → Bytes → Option Str

-- A field of bytes and a field of text are both lists of bytes.
unfoldable pub first_bytes : List Bytes → Bytes
first_bytes [] = []
first_bytes (value ∷ values) = if is_empty value then first_bytes values else value

-- A fixed array of bytes is its list, which the check before the copy has measured.
unfoldable pub sized : Str → ℕ → Bytes → Result Error Bytes
sized field size raw = do
  fail_if (not (length raw == size)) (must_be field size (length raw))
  ok raw

module _ (l : KeyLibrary) where
  unfoldable pub decode_key : Str → Str → Result Error l.PublicKey
  decode_key field value = do
    raw ← or_fail (l.hex_decode value) (key_failed field)
    or_fail (l.deserialize_key raw) (key_failed field)

  -- The input of a request that has one.
  unfoldable pub execute_signal_fingerprint :
      FingerprintConfig → FingerprintInput → Result Error FingerprintOutput
  execute_signal_fingerprint config input = do
    local_key ← decode_key (lit "localKey") input.local_key
    remote_key ← decode_key (lit "remoteKey") input.remote_key
    fp ←
        or_fail
          (l.new_fingerprint (first_non_zero (input.version ∷ config.version ∷ []))
            (first_non_zero (input.iterations ∷ config.iterations ∷ [])) input.local_id local_key
            input.remote_id remote_key)
          compute_failed
    scannable ← or_fail (l.serialize fp) serialize_failed
    ok (record { display = l.display_string fp; scannable_hex = l.hex_encode scannable })

  unfoldable pub service_id_from_aci : Bytes → Result Error Bytes
  service_id_from_aci raw = sized (lit "aci") l.uuid_len raw

  unfoldable pub username_entropy : Bytes → Result Error Bytes
  username_entropy raw = sized (lit "entropy") l.link_entropy_size raw

  unfoldable pub resolve_pin_salt : AccountKeysInput → AccountKeysInput → Result Error Bytes
  resolve_pin_salt config input =
      let raw = first_bytes (input.pin_salt ∷ config.pin_salt ∷ []) in
      let username = first_non_empty (input.pin_salt_username ∷ config.pin_salt_username ∷ []) in
      let group_id = first_non_zero (input.pin_salt_group_id ∷ config.pin_salt_group_id ∷ []) in
      if not (is_empty raw)
      then sized (lit "pin_salt") 32 raw
      else if is_empty username || group_id == 0
      then err salt_required
      else ok (l.make_pin_salt username group_id)

  -- The pool of the request, or a new one that is made from what is drawn.
  unfoldable pub resolve_pool : Bytes → Str → Result Error l.Pool
  resolve_pool draw text =
      or_fail (if is_empty text then l.generate_pool draw else l.parse_pool text)
        entropy_pool_failed

  unfoldable pub backup_id_of : l.BackupKey → Bytes → Result Error Bytes
  backup_id_of backup_key raw =
      if is_empty raw
      then ok []
      else (do aci ← service_id_from_aci raw; ok (l.derive_backup_id backup_key aci))

  -- The salt and the hash, if a PIN is given.
  unfoldable pub pin_keys :
      AccountKeysInput → AccountKeysInput → Result Error (Option (Bytes × PinHash))
  pin_keys config input =
      let pin = first_non_empty (input.pin ∷ config.pin ∷ []) in
      if is_empty pin
      then ok none
      else (do salt ← resolve_pin_salt config input; ok (some (salt, l.create_pin_hash pin salt)))

  abbrev pub account_keys_output : l.Pool → Bytes → Option (Bytes × PinHash) → AccountKeysOutput
  account_keys_output pool backup_id none = record {
    entropy_pool = l.pool_text pool;
    svr_key = l.derive_svr_key pool;
    backup_key = l.backup_key_bytes (l.derive_backup_key pool);
    backup_id = backup_id;
    pin_salt = [];
    pin_access_key = [];
    pin_encryption_key = [];
  }
  account_keys_output pool backup_id (some (salt, hash)) = record {
    entropy_pool = l.pool_text pool;
    svr_key = l.derive_svr_key pool;
    backup_key = l.backup_key_bytes (l.derive_backup_key pool);
    backup_id = backup_id;
    pin_salt = salt;
    pin_access_key = hash.access_key;
    pin_encryption_key = hash.encryption_key;
  }

  unfoldable pub execute_signal_account_keys :
      Bytes → AccountKeysInput → AccountKeysInput → Result Error AccountKeysOutput
  execute_signal_account_keys draw config input = do
    pool ← resolve_pool draw (first_non_empty (input.entropy_pool ∷ config.entropy_pool ∷ []))
    backup_id ← backup_id_of (l.derive_backup_key pool) (first_bytes (input.aci ∷ config.aci ∷ []))
    keys ← pin_keys config input
    ok (account_keys_output pool backup_id keys)

  unfoldable pub given_entropy : Bytes → Result Error (Option Bytes)
  given_entropy raw =
      if is_empty raw then ok none else (do entropy ← username_entropy raw; ok (some entropy))

  unfoldable pub execute_signal_username_link_create :
      Bytes
      → UsernameLinkCreateInput
      → UsernameLinkCreateInput
      → Result Error UsernameLinkCreateOutput
  execute_signal_username_link_create draw config input =
      let username = first_non_empty (input.username ∷ config.username ∷ []) in
      (do
        fail_if (is_empty username) username_required
        entropy ← given_entropy (first_bytes (input.entropy ∷ config.entropy ∷ []))
        link ← or_fail (l.create_link draw username entropy) create_link_failed
        ok (record {
          entropy = link.entropy;
          encrypted_username = link.encrypted_username;
          link_buffer = l.link_buffer link;
        }))

  -- The entropy and the ciphertext: those that are given, then those of the buffer.
  unfoldable pub link_parts : Bytes → UsernameLinkDecryptInput → Result Error (Bytes × Bytes)
  link_parts config_entropy input =
      let entropy = first_bytes (input.entropy ∷ config_entropy ∷ []) in
      if is_empty input.link_buffer then ok (entropy, input.encrypted_username) else (do
        link ← or_fail (l.parse_link_buffer input.link_buffer) link_buffer_failed
        ok (
          if is_empty entropy then link.entropy else entropy,
          if is_empty input.encrypted_username
              then link.encrypted_username
              else input.encrypted_username,
        ))

  unfoldable pub execute_signal_username_link_decrypt :
      Bytes → UsernameLinkDecryptInput → Result Error Str
  execute_signal_username_link_decrypt config_entropy input = do
    (raw, encrypted) ← link_parts config_entropy input
    entropy ← username_entropy raw
    fail_if (is_empty encrypted) encrypted_username_required
    or_fail (l.decrypt_username entropy encrypted) decrypt_failed
