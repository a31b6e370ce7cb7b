-- ===== src/Session/Tests.antt =====
-- The session steps (internal/steps.go) with a protocol of toys: a key is a number, a message its
-- own text, and a session the one-time key.
use workflow_plugin_signal.Base.{
  ℕ, pos, ◌≡◌, ◌≢◌, refl, ◌⊎◌, false, Option, none, some, [], ◌∷◌, arith, Str, lit, str_eq,
  str_eq_iff, str_eq_refl, Dict, lookup, insert, lookup-insert, ok,
}
use workflow_plugin_signal.Text.{first_non_empty}
use workflow_plugin_signal.Envelope.{SignalEnvelope, EnvelopeRecord, EnvelopeStore, memory}
use workflow_plugin_signal.Envelope.Store.{inbox, clone_envelope_record, clone_signal_envelope}
use workflow_plugin_signal.Envelope.Registry.{Process, lookup_signal_envelope_store, get_elem?}
use workflow_plugin_signal.Envelope.Steps.{
  SignalDecryptRequest, SignalDecryptOutput, InboxDecryptConfig, InboxDecryptInput,
  InboxDecryptOutput, IsReceived, find_received, decrypt_request, decrypt_output,
  execute_signal_inbox_decrypt,
}
use workflow_plugin_signal.Session.{
  Bytes, Address, Protocol, Error, SignalIdentity, SignalIdentities, lookup_signal_identity,
  protocol_address,
}
use workflow_plugin_signal.Session.Steps.{
  bob_session, open_message, check_decrypt, decrypt_checked, execute_signal_decrypt, pre_key_type,
}
use workflow_plugin_signal.Session.Replay.{SessionLaws, pre_key_message_replayed}
use workflow_plugin_signal.Session.Keys.{decrypts, run_sessions}
use workflow_plugin_signal.Session.Access.{
  signal_decrypt, IsDecrypted, execute_signal_inbox_decrypt-authorized,
}

abbrev address_key : Address → Str
address_key (name, device) = device ∷ name

abbrev opened : Bytes → Option ℕ → Option Bytes
opened m none = none
opened m (some key) = some (key ∷ m)

abbrev toy : Protocol
toy = record {
  KeyPair = ℕ;
  KemPair = ℕ;
  PublicKey = ℕ;
  KemKey = ℕ;
  Session = ℕ;
  Sessions = Dict ℕ;
  Trusted = ℕ;
  Message = Bytes;
  PreKeyMessage = Bytes;
  Bundle = ℕ;
  generate = λ draw. some 1;
  generate_kem = λ draw. some 2;
  public_key = λ k. k;
  kem_key = λ k. k;
  serialize_key = λ k. k ∷ [];
  serialize_kem = λ k. k ∷ [];
  deserialize_key = λ b. some 1;
  deserialize_kem = λ b. some 2;
  sign = λ draw k b. some (k ∷ b);
  hex_encode = λ b. b;
  hex_decode = λ s. some s;
  new_trusted = λ k n. n;
  new_sessions = [];
  new_device_id = λ n. some n;
  new_bundle = λ r d i k j l s m q t u. some i;
  process_bundle = λ draw a b s t. (some tt, s, t);
  encrypt = λ draw m a s t. (some (m, none), s, t);
  message_bytes = λ m. m;
  pre_key_bytes = λ m. m;
  parse_message = λ b. some b;
  parse_pre_key = λ b. some b;
  inner_message = λ m. m;
  identity_key = λ m. 1;
  base_key = λ m. 1;
  kyber_ciphertext = λ m. m;
  initialize_bob = λ i s o k a b c. some o;
  store_session = λ s a x. some (insert (address_key a) x s);
  load_session = λ s a. lookup (address_key a) s;
  decrypt = λ draw m a s. (opened m (lookup (address_key a) s), s);
}

stored_found :
    (s : Dict ℕ) (a : Address) (x : ℕ)
    → lookup (address_key a) (insert (address_key a) x s) ≡ some x
stored_found s a x =
    rw (lookup-insert (address_key a) (address_key a) x s, str_eq_refl (address_key a)) refl

toy_laws : SessionLaws toy
toy_laws = record {
  stores = λ s a x. (insert (address_key a) x s, refl, stored_found s a x);
  decrypt-load = λ d d' m a s s' e. rw e refl;
}

abbrev bob : SignalIdentity toy
bob = record {
  ref = lit "bob";
  local_id = lit "bob";
  device_id = 1;
  registration_id = 1;
  identity = 1;
  signed_pre = 3;
  one_time = 4;
  kyber = 2;
  pre_key_id = 1;
  signed_pre_key_id = 2;
  kyber_pre_key_id = 3;
  identity_store = 0;
  session_store = [];
}

abbrev identities : SignalIdentities toy
identities = (lit "bob", bob) ∷ []

abbrev letter : SignalEnvelope
letter = record {
  sender_id = lit "alice";
  sender_device_id = 1;
  recipient_id = lit "bob";
  recipient_device_id = 1;
  message_type = pre_key_type;
  ciphertext = lit "hi";
}

abbrev request : SignalDecryptRequest
request = record {
  config_identity_ref = [];
  required_principal = lit "ops";
  identity_ref = lit "bob";
  principal = lit "ops";
  envelope = some letter;
}

abbrev read : SignalDecryptOutput
read = record { denied = false; error = []; plaintext = 4 ∷ lit "hi" }

first_read : (execute_signal_decrypt toy [] request identities).0 ≡ ok read
unfolding execute_signal_decrypt check_decrypt decrypt_checked lookup_signal_identity
    protocol_address open_message bob_session str_eq lookup insert first_non_empty
first_read = refl

own_refs : (k : Str) (j : SignalIdentity toy) → lookup k identities ≡ some j → j.ref ≡ k
unfolding lookup
own_refs k j f = ground (arith, str_eq_iff (lit "bob") k)

pre_key_message_replayed_example :
    (execute_signal_decrypt toy [] request (
      run_sessions toy
        (decrypts [] request ∷ [])
        (execute_signal_decrypt toy [] request identities).1)).0
    ≡ ok read
pre_key_message_replayed_example =
    pre_key_message_replayed toy [] [] request letter identities (decrypts [] request ∷ []) read
      toy_laws own_refs refl refl first_read

abbrev received : EnvelopeRecord
received = record {
  envelope = some letter;
  envelope_ref = lit "in";
  queue = lit "inbox";
  status = lit "received";
  sender_ref = [];
  recipient_ref = lit "bob";
  custody_ref = [];
  authz_ref = [];
  message_ref = [];
  created_at_unix = pos 0;
  claimed_at_unix = pos 0;
  received_at_unix = pos 9;
  lease_ref = [];
}

abbrev store : EnvelopeStore
store = record {
  config = record {
    store_ref = [];
    backend = memory;
    storage_path = [];
    retention_limit = 0;
    allow_local_file_envelope = false;
    policy_mode = [];
  };
  state = record { version = 1; outbox = []; inbox = (lit "in", received) ∷ [] };
}

abbrev process : Process
process = record {
  registry = record { handles = (lit "main", 0) ∷ []; stores = store ∷ [] };
  files = [];
}

abbrev inbox_config : InboxDecryptConfig
inbox_config = record {
  store_ref = lit "main";
  identity_ref = lit "bob";
  required_principal = lit "ops";
}

abbrev inbox_input : InboxDecryptInput
inbox_input = record {
  store_ref = [];
  envelope_ref = lit "in";
  custody_ref = lit "c";
  authz_ref = lit "z";
  identity_ref = [];
  principal = lit "ops";
}

abbrev silent : Error → Str
silent e = lit "failed"

abbrev answer : InboxDecryptOutput
answer = decrypt_output inbox_input received read

inbox_read :
    (execute_signal_inbox_decrypt
      (signal_decrypt toy silent [])
      inbox_config
      inbox_input
      process
      identities).0
    ≡ ok answer
unfolding execute_signal_inbox_decrypt find_received lookup_signal_envelope_store inbox
    clone_envelope_record clone_signal_envelope decrypt_request signal_decrypt
    execute_signal_decrypt check_decrypt decrypt_checked lookup_signal_identity protocol_address
    open_message bob_session str_eq lookup insert first_non_empty get_elem?
inbox_read = refl

answered : answer.plaintext ≢ []
unfolding decrypt_output
answered = λ e. cc

execute_signal_inbox_decrypt-authorized_example :
    ((r : EnvelopeRecord) × IsReceived inbox_config inbox_input process.registry r
      × IsDecrypted toy silent [] inbox_config inbox_input r identities answer.plaintext)
    × ((lit "ops" ≡ []) ⊎ (lit "ops" ≡ lit "ops"))
execute_signal_inbox_decrypt-authorized_example =
    execute_signal_inbox_decrypt-authorized toy silent [] inbox_config inbox_input process
      identities answer inbox_read answered
