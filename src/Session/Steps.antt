-- ===== src/Session/Steps.antt =====
-- `ExecuteSignalSessionPrepare`, `ExecuteSignalEncrypt` and `ExecuteSignalDecrypt` of
-- internal/steps.go.
use workflow_plugin_signal.Base.{
  ℕ, Bool, true, false, not, ◌&&◌, Option, none, some, [], ◌∷◌, if◌then◌else◌, Str, lit, is_empty,
  str_eq, insert, Result, ok, err, ◌>>=◌, or_fail, after,
}
use workflow_plugin_signal.Text.{first_non_empty}
use workflow_plugin_signal.Envelope.{SignalEnvelope}
use workflow_plugin_signal.Envelope.Steps.{SignalDecryptRequest, SignalDecryptOutput}
use workflow_plugin_signal.Session.{
  Bytes, Address, Protocol, Error, missing_input, signature_failed, bad_field,
  remote_bundle_required, remote_address, bundle_failed, process_failed, encrypt_failed,
  envelope_required, sender_address, parse_pre_key_failed, initialize_failed, store_session_failed,
  parse_message_failed, decrypt_failed, unsupported_message_type, first_non_zero, SignalIdentity,
  SignalIdentities, lookup_signal_identity, protocol_address,
}

pub record PreKeyBundle : Type 0 where
  pub identity_ref : Str
  pub local_id : Str
  pub device_id : ℕ
  pub registration_id : ℕ
  pub pre_key_id : ℕ
  pub pre_key : Str
  pub signed_pre_key_id : ℕ
  pub signed_pre_key : Str
  pub signed_pre_key_signature : Str
  pub kyber_pre_key_id : ℕ
  pub kyber_pre_key : Str
  pub kyber_pre_key_signature : Str
  pub identity_key : Str

pub record SignalEncryptInput : Type 0 where
  pub identity_ref : Str
  pub remote_id : Str
  pub remote_device_id : ℕ
  pub remote_bundle : Option PreKeyBundle
  pub plaintext : Bytes

abbrev pub pre_key_type : Str
pre_key_type = lit "prekey"

abbrev pub signal_type : Str
signal_type = lit "signal"

abbrev pub remote_local_id : Option PreKeyBundle → Str
remote_local_id none = []
remote_local_id (some b) = b.local_id

abbrev pub remote_device : Option PreKeyBundle → ℕ
remote_device none = 0
remote_device (some b) = b.device_id

module _ (p : Protocol) where
  -- The draws are those of the two signatures.
  unfoldable pub execute_signal_session_prepare :
      Bytes → Bytes → Str → Str → SignalIdentities p → Result Error PreKeyBundle
  execute_signal_session_prepare draw₁ draw₂ input_ref config_ref ids = do
    identity ← lookup_signal_identity p (first_non_empty (input_ref ∷ config_ref ∷ [])) ids
    signed_signature ←
        or_fail
          (p.sign draw₁ identity.identity (p.serialize_key (p.public_key identity.signed_pre)))
          (signature_failed (lit "signed pre-key signature"))
    kyber_signature ←
        or_fail (p.sign draw₂ identity.identity (p.serialize_kem (p.kem_key identity.kyber)))
          (signature_failed (lit "kyber pre-key signature"))
    ok (record {
      identity_ref = identity.ref;
      local_id = identity.local_id;
      device_id = identity.device_id;
      registration_id = identity.registration_id;
      pre_key_id = identity.pre_key_id;
      pre_key = p.hex_encode (p.serialize_key (p.public_key identity.one_time));
      signed_pre_key_id = identity.signed_pre_key_id;
      signed_pre_key = p.hex_encode (p.serialize_key (p.public_key identity.signed_pre));
      signed_pre_key_signature = p.hex_encode signed_signature;
      kyber_pre_key_id = identity.kyber_pre_key_id;
      kyber_pre_key = p.hex_encode (p.serialize_kem (p.kem_key identity.kyber));
      kyber_pre_key_signature = p.hex_encode kyber_signature;
      identity_key = p.hex_encode (p.serialize_key (p.public_key identity.identity));
    })

  unfoldable pub decode_public_key : Str → Str → Result Error p.PublicKey
  decode_public_key field value = do
    raw ← or_fail (p.hex_decode value) (bad_field field)
    or_fail (p.deserialize_key raw) (bad_field field)

  unfoldable pub decode_kem_public_key : Str → Str → Result Error p.KemKey
  decode_kem_public_key field value = do
    raw ← or_fail (p.hex_decode value) (bad_field field)
    or_fail (p.deserialize_kem raw) (bad_field field)

  unfoldable pub pre_key_bundle_from_contract : PreKeyBundle → Result Error p.Bundle
  pre_key_bundle_from_contract b = do
    pre_key ← decode_public_key (lit "pre_key") b.pre_key
    signed_pre_key ← decode_public_key (lit "signed_pre_key") b.signed_pre_key
    kyber_pre_key ← decode_kem_public_key (lit "kyber_pre_key") b.kyber_pre_key
    identity_key ← decode_public_key (lit "identity_key") b.identity_key
    signed_signature ←
        or_fail (p.hex_decode b.signed_pre_key_signature)
          (bad_field (lit "signed_pre_key_signature"))
    kyber_signature ←
        or_fail (p.hex_decode b.kyber_pre_key_signature) (bad_field (lit "kyber_pre_key_signature"))
    or_fail
        (p.new_bundle b.registration_id b.device_id b.pre_key_id pre_key b.signed_pre_key_id
          signed_pre_key signed_signature b.kyber_pre_key_id kyber_pre_key kyber_signature
          identity_key)
        bundle_failed

  -- The checks of an encryption: the identity, the address and the bundle.
  unfoldable pub check_encrypt :
      Str
      → Option SignalEncryptInput
      → SignalIdentities p
      → Result Error (SignalEncryptInput × SignalIdentity p × Address × p.Bundle)
  check_encrypt config_ref input ids = do
    i ← or_fail input missing_input
    local ← lookup_signal_identity p (first_non_empty (i.identity_ref ∷ config_ref ∷ [])) ids
    bundle ← or_fail i.remote_bundle remote_bundle_required
    addr ←
        or_fail
          (protocol_address p (first_non_empty (i.remote_id ∷ bundle.local_id ∷ []))
            (first_non_zero (i.remote_device_id ∷ bundle.device_id ∷ [])))
          remote_address
    session_bundle ← pre_key_bundle_from_contract bundle
    ok (i, local, addr, session_bundle)

  abbrev pub encrypt_type : Option p.PreKeyMessage → Str
  encrypt_type none = signal_type
  encrypt_type (some m) = pre_key_type

  abbrev pub encrypt_bytes : p.Message → Option p.PreKeyMessage → Bytes
  encrypt_bytes m none = p.message_bytes m
  encrypt_bytes m (some pre_key) = p.pre_key_bytes pre_key

  -- The envelope carries the remote id as it was given, not as the address has it.
  unfoldable pub encrypted_envelope :
      SignalEncryptInput → SignalIdentity p → p.Message × Option p.PreKeyMessage → SignalEnvelope
  encrypted_envelope i local (m, pre_key) = record {
    sender_id = local.local_id;
    sender_device_id = local.device_id;
    recipient_id = first_non_empty (i.remote_id ∷ remote_local_id i.remote_bundle ∷ []);
    recipient_device_id = first_non_zero (i.remote_device_id ∷ remote_device i.remote_bundle ∷ []);
    message_type = encrypt_type pre_key;
    ciphertext = encrypt_bytes m pre_key;
  }

  -- The stores of an identity after a call, in the object that the map holds.
  unfoldable pub put_stores :
      SignalIdentity p → p.Sessions → p.Trusted → SignalIdentities p → SignalIdentities p
  put_stores local sessions trusted ids =
      insert local.ref (record local { identity_store = trusted; session_store = sessions }) ids

  abbrev pub encrypt_processed :
      Bytes
      → SignalEncryptInput
      → SignalIdentity p
      → Address
      → SignalIdentities p
      → Option (Unit {0}) × p.Sessions × p.Trusted
      → Result Error SignalEnvelope × SignalIdentities p
  encrypt_processed draw i local addr ids (none, sessions, trusted) =
      (err process_failed, put_stores local sessions trusted ids)
  encrypt_processed draw i local addr ids (some _, sessions, trusted) =
      let done = p.encrypt draw i.plaintext addr sessions trusted in
      (
        (or_fail done.0 encrypt_failed >>= λ m. ok (encrypted_envelope i local m)),
        put_stores local done.1 done.2 ids,
      )

  -- A session is set up anew from the bundle for each message.
  unfoldable pub execute_signal_encrypt :
      Bytes
      → Bytes
      → Str
      → Option SignalEncryptInput
      → SignalIdentities p
      → Result Error SignalEnvelope × SignalIdentities p
  execute_signal_encrypt draw₁ draw₂ config_ref input ids =
      after (check_encrypt config_ref input ids)
        (λ checked ids'.
          let (i, local, addr, bundle) = checked in
          encrypt_processed draw₂ i local addr ids'
            (p.process_bundle draw₁ addr bundle local.session_store local.identity_store))
        ids

  -- A pre-key message: its session is stored before its text is decrypted.
  unfoldable pub bob_session : SignalIdentity p → Bytes → Result Error (p.PreKeyMessage × p.Session)
  bob_session local ciphertext = do
    m ← or_fail (p.parse_pre_key ciphertext) parse_pre_key_failed
    s ←
        or_fail
          (p.initialize_bob local.identity local.signed_pre local.one_time local.kyber
            (p.identity_key m) (p.base_key m) (p.kyber_ciphertext m))
          initialize_failed
    ok (m, s)

  abbrev pub stored :
      p.PreKeyMessage → p.Sessions → Option p.Sessions → Result Error p.Message × p.Sessions
  stored m sessions none = (err store_session_failed, sessions)
  stored m sessions (some sessions') = (ok (p.inner_message m), sessions')

  unfoldable pub open_message :
      SignalIdentity p → Address → Str → Bytes → p.Sessions → Result Error p.Message × p.Sessions
  open_message local addr message_type ciphertext sessions =
      if str_eq message_type pre_key_type
      then after (bob_session local ciphertext)
          (λ ms sessions'. stored ms.0 sessions' (p.store_session sessions' addr ms.1)) sessions
      else if str_eq message_type signal_type
      then (or_fail (p.parse_message ciphertext) parse_message_failed, sessions)
      else (err (unsupported_message_type message_type), sessions)

  abbrev pub decrypt_opened :
      Bytes → Address → Result Error p.Message × p.Sessions → Result Error Bytes × p.Sessions
  decrypt_opened draw addr (err e, sessions) = (err e, sessions)
  decrypt_opened draw addr (ok m, sessions) =
      let done = p.decrypt draw m addr sessions in (or_fail done.0 decrypt_failed, done.1)

  unfoldable pub check_decrypt :
      SignalDecryptRequest
      → SignalIdentities p
      → Result Error (SignalIdentity p × SignalEnvelope × Address)
  check_decrypt r ids = do
    local ←
        lookup_signal_identity p (first_non_empty (r.identity_ref ∷ r.config_identity_ref ∷ [])) ids
    envelope ← or_fail r.envelope envelope_required
    addr ← or_fail (protocol_address p envelope.sender_id envelope.sender_device_id) sender_address
    ok (local, envelope, addr)

  abbrev pub plaintext_output : Result Error Bytes → Result Error SignalDecryptOutput
  plaintext_output r =
      r >>= λ plaintext. ok (record { denied = false; error = []; plaintext = plaintext })

  unfoldable pub decrypt_checked :
      Bytes
      → SignalIdentity p × SignalEnvelope × Address
      → SignalIdentities p
      → Result Error SignalDecryptOutput × SignalIdentities p
  decrypt_checked draw (local, envelope, addr) ids =
      let done =
        decrypt_opened draw addr
          (open_message local addr envelope.message_type envelope.ciphertext local.session_store) in
      (plaintext_output done.0, put_stores local done.1 local.identity_store ids)

  unfoldable pub decrypt_denied : Str → SignalDecryptOutput
  decrypt_denied message = record { denied = true; error = message; plaintext = [] }

  abbrev pub unauthorized : SignalDecryptRequest → Bool
  unauthorized r =
      not (is_empty r.required_principal) && not (str_eq r.principal r.required_principal)

  -- The request holds the step's configuration and its input, which is there: a typed step hands over
  -- an input, if an empty one.
  unfoldable pub execute_signal_decrypt :
      Bytes
      → SignalDecryptRequest
      → SignalIdentities p
      → Result Error SignalDecryptOutput × SignalIdentities p
  execute_signal_decrypt draw r ids =
      if unauthorized r
      then (ok (decrypt_denied (lit "principal is not authorized")), ids)
      else after (check_decrypt r ids) (decrypt_checked draw) ids
