-- ===== src/Session.antt =====
-- Identities and sessions: internal/modules.go and the session steps of internal/steps.go. The
-- protocol, libsignal-go, is an argument, and so is hexadecimal text. A step that changes an
-- identity's sessions changes the object that the global map holds.
pub mod Steps
pub mod Keys
pub mod Replay
pub mod Access
mod Tests
use workflow_plugin_signal.Base.{
  ℕ, ◌≡◌, Bool, Option, none, some, List, [], ◌∷◌, if◌then◌else◌, ◌==◌, Str, lit, is_empty, str_eq,
  Dict, lookup, insert, Result, ok, err, ◌>>=◌, ◌>>◌, fail_if, or_fail,
}

abbrev pub Bytes : Type 0
Bytes = List ℕ

-- a name and a device
abbrev pub Address : Type 0
Address = Str × ℕ

-- What the steps take from libsignal-go and encoding/hex. Calls that draw from rand.Reader get the
-- bytes they draw; a call that may fail gives an option, and one that changes a store gives it too.
pub record Protocol : Type 1 where
  pub KeyPair : Type 0
  pub KemPair : Type 0
  pub PublicKey : Type 0
  pub KemKey : Type 0
  pub Session : Type 0
  pub Sessions : Type 0
  pub Trusted : Type 0
  pub Message : Type 0
  pub PreKeyMessage : Type 0
  pub Bundle : Type 0
  pub generate : Bytes → Option KeyPair
  pub generate_kem : Bytes → Option KemPair
  pub public_key : KeyPair → PublicKey
  pub kem_key : KemPair → KemKey
  pub serialize_key : PublicKey → Bytes
  pub serialize_kem : KemKey → Bytes
  pub deserialize_key : Bytes → Option PublicKey
  pub deserialize_kem : Bytes → Option KemKey
  pub sign : Bytes → KeyPair → Bytes → Option Bytes
  pub hex_encode : Bytes → Str
  pub hex_decode : Str → Option Bytes
  pub new_trusted : KeyPair → ℕ → Trusted
  pub new_sessions : Sessions
  pub new_device_id : ℕ → Option ℕ
  pub new_bundle :
      (registration_id device_id pre_key_id : ℕ) (pre_key : PublicKey) (signed_pre_key_id : ℕ)
      (signed_pre_key : PublicKey) (signed_signature : Bytes) (kyber_pre_key_id : ℕ)
      (kyber_pre_key : KemKey) (kyber_signature : Bytes) (identity_key : PublicKey)
      → Option Bundle
  pub process_bundle :
      Bytes → Address → Bundle → Sessions → Trusted → Option (Unit {0}) × Sessions × Trusted
  pub encrypt :
      Bytes
      → Bytes
      → Address
      → Sessions
      → Trusted
      → Option (Message × Option PreKeyMessage) × Sessions × Trusted
  pub message_bytes : Message → Bytes
  pub pre_key_bytes : PreKeyMessage → Bytes
  pub parse_message : Bytes → Option Message
  pub parse_pre_key : Bytes → Option PreKeyMessage
  pub inner_message : PreKeyMessage → Message
  pub identity_key : PreKeyMessage → PublicKey
  pub base_key : PreKeyMessage → PublicKey
  pub kyber_ciphertext : PreKeyMessage → Bytes
  pub initialize_bob :
      (our_identity our_signed our_one_time : KeyPair) (our_kyber : KemPair)
      (their_identity their_base : PublicKey) (kyber_cipher : Bytes)
      → Option Session
  pub store_session : Sessions → Address → Session → Option Sessions
  pub load_session : Sessions → Address → Option Session
  pub decrypt : Bytes → Message → Address → Sessions → Option Bytes × Sessions

pub data Error : Type 0 where
  missing_input identity_ref_required : Error
  not_registered key_generation_failed signature_failed bad_field : Str → Error
  remote_bundle_required remote_address bundle_failed process_failed encrypt_failed : Error
  envelope_required sender_address parse_pre_key_failed initialize_failed : Error
  store_session_failed parse_message_failed decrypt_failed : Error
  unsupported_message_type : Str → Error

pub record IdentityStoreConfig : Type 0 where
  pub identity_ref : Str
  pub local_id : Str
  pub device_id : ℕ
  pub registration_id : ℕ

-- The draws of a new identity's keys.
pub record KeyDraws : Type 0 where
  pub identity : Bytes
  pub signed_pre : Bytes
  pub one_time : Bytes
  pub kyber : Bytes

unfoldable pub first_non_zero : List ℕ → ℕ
first_non_zero [] = 0
first_non_zero (value ∷ values) = if value == 0 then first_non_zero values else value

abbrev or_default : Str → Str → Str
or_default s d = if is_empty s then d else s

abbrev or_one : ℕ → ℕ
or_one n = if n == 0 then 1 else n

module _ (p : Protocol) where
  pub record SignalIdentity : Type 0 where
    pub ref : Str
    pub local_id : Str
    pub device_id : ℕ
    pub registration_id : ℕ
    pub identity : p.KeyPair
    pub signed_pre : p.KeyPair
    pub one_time : p.KeyPair
    pub kyber : p.KemPair
    pub pre_key_id : ℕ
    pub signed_pre_key_id : ℕ
    pub kyber_pre_key_id : ℕ
    pub identity_store : p.Trusted
    pub session_store : p.Sessions

  -- signalIdentities: an identity stands under its own reference
  abbrev pub SignalIdentities : Type 0
  SignalIdentities = Dict SignalIdentity

  unfoldable pub new_signal_identity : KeyDraws → IdentityStoreConfig → Result Error SignalIdentity
  new_signal_identity draws cfg = do
    fail_if (is_empty cfg.identity_ref) identity_ref_required
    identity ← or_fail (p.generate draws.identity) (key_generation_failed (lit "identity key"))
    signed_pre ←
        or_fail (p.generate draws.signed_pre) (key_generation_failed (lit "signed pre-key"))
    one_time ← or_fail (p.generate draws.one_time) (key_generation_failed (lit "one-time pre-key"))
    kyber ← or_fail (p.generate_kem draws.kyber) (key_generation_failed (lit "kyber pre-key"))
    ok (record {
      ref = cfg.identity_ref;
      local_id = or_default cfg.local_id cfg.identity_ref;
      device_id = or_one cfg.device_id;
      registration_id = or_one cfg.registration_id;
      identity = identity;
      signed_pre = signed_pre;
      one_time = one_time;
      kyber = kyber;
      pre_key_id = 1;
      signed_pre_key_id = 2;
      kyber_pre_key_id = 3;
      identity_store = p.new_trusted identity (or_one cfg.registration_id);
      session_store = p.new_sessions;
    })

  -- identityStoreModule.Init
  unfoldable pub init_identity_store :
      KeyDraws → IdentityStoreConfig → SignalIdentities → Result Error SignalIdentities
  init_identity_store draws cfg ids = do
    identity ← new_signal_identity draws cfg
    ok (insert identity.ref identity ids)

  unfoldable pub lookup_signal_identity : Str → SignalIdentities → Result Error SignalIdentity
  lookup_signal_identity ref ids = do
    fail_if (is_empty ref) identity_ref_required
    or_fail (lookup ref ids) (not_registered ref)

  unfoldable pub protocol_address : Str → ℕ → Option Address
  protocol_address name device_id = elim (p.new_device_id device_id) [
    | none ↦ none
    | some device ↦ some (name, device)
  ]
