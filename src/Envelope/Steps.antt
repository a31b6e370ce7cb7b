-- ===== src/Envelope/Steps.antt =====
-- The steps of internal/envelope_steps.go: each looks its store up by the reference of the input or
-- else of the configuration, and reports what the store returned.
use workflow_plugin_signal.Base.{
  ℕ, ◌≡◌, ◌≢◌, ◌⊎◌, inl, inr, refl, arith, Bool, Option, some, Option-cases, Result-cases, lookup,
  List, [], ◌∷◌, Str, lit, is_empty, Result, ok, err, ◌>>=◌, ◌>>◌, fail_if,
}
use workflow_plugin_signal.Text.{first_non_empty}
use workflow_plugin_signal.Envelope.{
  SignalEnvelope, EnvelopeRecord, EnvelopeStore, OutboxEnqueueInput, OutboxClaimInput,
  InboxReceiveInput, EnvelopeQueueMetadata, Error, is_required, decrypt_failed, Host, System,
}
use workflow_plugin_signal.Envelope.Store.{
  enqueue_outbox, claim_outbox, receive_inbox, inbox, inbox_decrypt, clone_signal_envelope,
  envelope_metadata,
}
use workflow_plugin_signal.Envelope.Store.Queue.{clone_envelope_record-eq}
use workflow_plugin_signal.Envelope.Registry.{
  EnvelopeStores, lookup_signal_envelope_store, Process, with_store,
}

-- The output of enqueuing and of receiving.
pub record QueueOutput : Type 0 where
  pub envelope_ref : Str
  pub status : Str
  pub metadata : EnvelopeQueueMetadata

pub record OutboxClaimOutput : Type 0 where
  pub envelope_ref : Str
  pub status : Str
  pub envelope : Option SignalEnvelope
  pub lease_ref : Str
  pub metadata : EnvelopeQueueMetadata

pub record InboxDecryptConfig : Type 0 where
  pub store_ref : Str
  pub identity_ref : Str
  pub required_principal : Str

pub record InboxDecryptInput : Type 0 where
  pub store_ref : Str
  pub envelope_ref : Str
  pub custody_ref : Str
  pub authz_ref : Str
  pub identity_ref : Str
  pub principal : Str

-- The request to `ExecuteSignalDecrypt`: its configuration, then its input.
pub record SignalDecryptRequest : Type 0 where
  pub config_identity_ref : Str
  pub required_principal : Str
  pub identity_ref : Str
  pub principal : Str
  pub envelope : Option SignalEnvelope

pub record SignalDecryptOutput : Type 0 where
  pub denied : Bool
  pub error : Str
  pub plaintext : List ℕ

pub record InboxDecryptOutput : Type 0 where
  pub denied : Bool
  pub error : Str
  pub plaintext : List ℕ
  pub metadata : EnvelopeQueueMetadata

unfoldable pub queue_output : EnvelopeRecord → QueueOutput
queue_output r = record {
  envelope_ref = r.envelope_ref;
  status = r.status;
  metadata = envelope_metadata r;
}

unfoldable pub claim_output : EnvelopeRecord → OutboxClaimOutput
claim_output r = record {
  envelope_ref = r.envelope_ref;
  status = r.status;
  envelope = clone_signal_envelope r.envelope;
  lease_ref = r.lease_ref;
  metadata = envelope_metadata r;
}

abbrev report : {A B S : Type 0} → (A → B) → Result Error A × S → Result Error B × S
report f (r, s) = (r >>= λ a. ok (f a), s)

unfoldable pub execute_signal_outbox_enqueue :
    Host → System → Str → OutboxEnqueueInput → Process → Result Error QueueOutput × Process
execute_signal_outbox_enqueue h sys config_ref input p = report queue_output (
    with_store (first_non_empty (input.store_ref ∷ config_ref ∷ [])) (enqueue_outbox h sys input) p)

unfoldable pub execute_signal_outbox_claim :
    Host → System → Str → OutboxClaimInput → Process → Result Error OutboxClaimOutput × Process
execute_signal_outbox_claim h sys config_ref input p =
    report claim_output (
      with_store (first_non_empty (input.store_ref ∷ config_ref ∷ [])) (claim_outbox h sys input) p)

unfoldable pub execute_signal_inbox_receive :
    Host → System → Str → InboxReceiveInput → Process → Result Error QueueOutput × Process
execute_signal_inbox_receive h sys config_ref input p =
    report queue_output (
      with_store (first_non_empty (input.store_ref ∷ config_ref ∷ [])) (receive_inbox h sys input)
        p)

-- `ExecuteSignalDecrypt` changes the session store of libsignal, which is `I` here.
abbrev pub Decrypt : Type 0 → Type 0
Decrypt I = SignalDecryptRequest → I → Result Str SignalDecryptOutput × I

unfoldable pub decrypt_request :
    InboxDecryptConfig → InboxDecryptInput → EnvelopeRecord → SignalDecryptRequest
decrypt_request cfg input r = record {
  config_identity_ref = first_non_empty (input.identity_ref ∷ cfg.identity_ref ∷ []);
  required_principal = cfg.required_principal;
  identity_ref = first_non_empty (input.identity_ref ∷ cfg.identity_ref ∷ []);
  principal = input.principal;
  envelope = clone_signal_envelope r.envelope;
}

-- The checks before the decryption.
unfoldable pub find_received :
    InboxDecryptConfig → InboxDecryptInput → EnvelopeStores → Result Error EnvelopeRecord
find_received cfg input g = do
  (_, s) ← lookup_signal_envelope_store (first_non_empty (input.store_ref ∷ cfg.store_ref ∷ [])) g
  fail_if (is_empty input.custody_ref) (is_required inbox_decrypt (lit "custody_ref"))
  fail_if (is_empty input.authz_ref) (is_required inbox_decrypt (lit "authz_ref"))
  inbox input.envelope_ref s

unfoldable pub decrypt_output :
    InboxDecryptInput → EnvelopeRecord → SignalDecryptOutput → InboxDecryptOutput
decrypt_output input r d = record {
  denied = d.denied;
  error = d.error;
  plaintext = d.plaintext;
  metadata = record (envelope_metadata r) {
    custody_ref = input.custody_ref;
    authz_ref = input.authz_ref;
  };
}

-- `decrypt_failed` is the error of `ExecuteSignalDecrypt`, passed on.
abbrev pub decrypted :
    {I : Type 0}
    → InboxDecryptInput
    → EnvelopeRecord
    → Result Str SignalDecryptOutput × I
    → Result Error InboxDecryptOutput × I
decrypted input r (err e, i) = (err (decrypt_failed e), i)
decrypted input r (ok d, i) = (ok (decrypt_output input r d), i)

abbrev decrypt_found :
    {I : Type 0}
    → Decrypt I
    → InboxDecryptConfig
    → InboxDecryptInput
    → Result Error EnvelopeRecord
    → I
    → Result Error InboxDecryptOutput × I
decrypt_found decrypt cfg input (err e) i = (err e, i)
decrypt_found decrypt cfg input (ok r) i =
    decrypted input r (decrypt (decrypt_request cfg input r) i)

unfoldable pub execute_signal_inbox_decrypt :
    {I : Type 0}
    → Decrypt I
    → InboxDecryptConfig
    → InboxDecryptInput
    → Process
    → I
    → Result Error InboxDecryptOutput × I
execute_signal_inbox_decrypt decrypt cfg input p i =
    decrypt_found decrypt cfg input (find_received cfg input p.registry) i

-- What is to be decrypted: a record of the inbox of the store that is asked for, under a custody
-- and an authorization.
pub record IsReceived (cfg : InboxDecryptConfig) (input : InboxDecryptInput) (g : EnvelopeStores)
    (r : EnvelopeRecord) : Type 0 where
  pub handle : ℕ
  pub store : EnvelopeStore
  pub registered :
      lookup_signal_envelope_store (first_non_empty (input.store_ref ∷ cfg.store_ref ∷ [])) g
      ≡ ok (handle, store)
  pub received : lookup input.envelope_ref store.state.inbox ≡ some r
  pub custody : input.custody_ref ≢ []
  pub authz : input.authz_ref ≢ []

inbox-found :
    (ref : Str) (s : EnvelopeStore) (r : EnvelopeRecord)
    → inbox ref s ≡ ok r
    → lookup ref s.state.inbox ≡ some r
unfolding inbox
inbox-found ref s r e = elim (Option-cases (lookup ref s.state.inbox)) [
  | inl missing ↦ absurd (ground arith)
  | inr (x, found) ↦ ground (arith, clone_envelope_record-eq x)
]

found-IsReceived :
    (cfg : InboxDecryptConfig) (input : InboxDecryptInput) (g : EnvelopeStores) (r : EnvelopeRecord)
    (found : Result Error (ℕ × EnvelopeStore))
    → lookup_signal_envelope_store (first_non_empty (input.store_ref ∷ cfg.store_ref ∷ [])) g
      ≡ found
    → find_received cfg input g ≡ ok r
    → IsReceived cfg input g r
unfolding find_received
found-IsReceived cfg input g r (err x) at e = absurd (ground arith)
found-IsReceived cfg input g r (ok (n, s)) at e = record {
  handle = n;
  store = s;
  registered = at;
  received = inbox-found input.envelope_ref s r (ground arith);
  custody = ground arith;
  authz = ground arith;
}

-- An inbox decryption decrypts a record that the named store has received, under a custody and an
-- authorization, or it reports an error and leaves the sessions as they were.
pub execute_signal_inbox_decrypt_guarded :
    {I : Type 0} (decrypt : Decrypt I) (cfg : InboxDecryptConfig) (input : InboxDecryptInput)
    (p : Process) (i : I)
    → ((r : EnvelopeRecord) × IsReceived cfg input p.registry r
        × (execute_signal_inbox_decrypt decrypt cfg input p i
            ≡ decrypted input r (decrypt (decrypt_request cfg input r) i)))
      ⊎ ((e : Error) × (execute_signal_inbox_decrypt decrypt cfg input p i ≡ (err e, i)))
unfolding execute_signal_inbox_decrypt
execute_signal_inbox_decrypt_guarded decrypt cfg input p i =
    Result-cases (find_received cfg input p.registry)
      (λ r e. inl (r, found-IsReceived cfg input p.registry r _ refl e, rw e refl))
      (λ x e. inr (x, rw e refl))
