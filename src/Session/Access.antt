-- ===== src/Session/Access.antt =====
-- Who reads an inbox: the inbox step of internal/envelope_steps.go with the decryption of
-- internal/steps.go.
use workflow_plugin_signal.Base.{
  ◌≡◌, ◌≢◌, refl, sym, ap, ◌∙◌, ◌⊎◌, inl, inr, Option, none, some, [], ◌∷◌, arith, Str, str_eq_iff,
  Result, ok, err, wrap, Bool-cases, Result-cases, lit,
}
use workflow_plugin_signal.Text.{first_non_empty}
use workflow_plugin_signal.Envelope.{SignalEnvelope, EnvelopeRecord}
use workflow_plugin_signal.Envelope.Store.{clone_signal_envelope}
use workflow_plugin_signal.Envelope.Registry.{Process}
use workflow_plugin_signal.Envelope.Steps.{
  SignalDecryptRequest, SignalDecryptOutput, InboxDecryptConfig, InboxDecryptInput,
  InboxDecryptOutput, Decrypt, IsReceived, decrypted, decrypt_output, decrypt_request,
  execute_signal_inbox_decrypt, execute_signal_inbox_decrypt_guarded,
}
use workflow_plugin_signal.Session
use workflow_plugin_signal.Session.{
  Bytes, Address, Protocol, SignalIdentity, SignalIdentities, lookup_signal_identity,
  protocol_address,
}
use workflow_plugin_signal.Session.Steps.{
  decrypt_denied, execute_signal_decrypt, unauthorized, check_decrypt, decrypt_checked,
  decrypt_opened, open_message, plaintext_output,
}
use workflow_plugin_signal.Session.Keys.{check_decrypt-found}

module _ (p : Protocol) (describe : Session.Error → Str) where
  -- The decryption that the inbox step calls; `describe` is the text of an error.
  unfoldable pub signal_decrypt : Bytes → Decrypt (SignalIdentities p)
  signal_decrypt draw r ids =
      let done : Result Session.Error SignalDecryptOutput × SignalIdentities p =
        execute_signal_decrypt p draw r ids in
      (wrap describe done.0, done.1)

  no_text :
      (d : SignalDecryptOutput)
      → ◌≡◌ {A = Result Str SignalDecryptOutput}
          (ok (decrypt_denied p (lit "principal is not authorized")))
          (ok d)
      → d.plaintext ≡ []
  unfolding decrypt_denied
  no_text d e = ground arith

  -- A decryption that gives text was asked for by the required principal, if one is required.
  authorized :
      (draw : Bytes) (r : SignalDecryptRequest) (ids : SignalIdentities p) (d : SignalDecryptOutput)
      → (signal_decrypt draw r ids).0 ≡ ok d
      → d.plaintext ≢ []
      → (r.required_principal ≡ []) ⊎ (r.principal ≡ r.required_principal)
  unfolding signal_decrypt execute_signal_decrypt decrypt_denied
  authorized draw r ids d e text = elim (Bool-cases (unauthorized p r)) [
    | inl denied ↦ absurd (text (no_text d (rw denied at e)))
    | inr allowed ↦ ground (arith, str_eq_iff r.principal r.required_principal)
  ]

  first_twice : (s : Str) → first_non_empty (s ∷ s ∷ []) ≡ s
  unfolding first_non_empty
  first_twice [] = refl
  first_twice (c ∷ s) = refl

  clone_signal_envelope-eq : (e : Option SignalEnvelope) → clone_signal_envelope e ≡ e
  unfolding clone_signal_envelope
  clone_signal_envelope-eq none = refl
  clone_signal_envelope-eq (some e) = refl

  -- Where the text that a decryption gives comes from.
  record IsOpened (draw : Bytes) (r : SignalDecryptRequest) (ids : SignalIdentities p)
      (plaintext : Bytes) : Type 0 where
    pub identity : SignalIdentity p
    pub envelope : SignalEnvelope
    pub address : Address
    pub known :
        lookup_signal_identity p (first_non_empty (r.identity_ref ∷ r.config_identity_ref ∷ [])) ids
        ≡ ok identity
    pub given : r.envelope ≡ some envelope
    pub sender : protocol_address p envelope.sender_id envelope.sender_device_id ≡ some address
    pub opened :
        (decrypt_opened p draw address (
          open_message p identity address envelope.message_type envelope.ciphertext
            identity.session_store)).0
        ≡ ok plaintext

  plaintext_output-ok :
      (x : Result Session.Error Bytes) (d : SignalDecryptOutput)
      → plaintext_output p x ≡ ok d
      → x ≡ ok d.plaintext
  plaintext_output-ok (err x) d e = absurd (ground arith)
  plaintext_output-ok (ok t) d e = ground arith

  wrap-ok :
      (x : Result Session.Error SignalDecryptOutput) (d : SignalDecryptOutput)
      → wrap describe x ≡ ok d
      → x ≡ ok d
  wrap-ok (err x) d e = absurd (ground arith)
  wrap-ok (ok t) d e = ground arith

  signal_decrypt-allowed :
      (draw : Bytes) (r : SignalDecryptRequest) (ids : SignalIdentities p) (d : SignalDecryptOutput)
      → (signal_decrypt draw r ids).0 ≡ ok d
      → d.plaintext ≢ []
      → IsOpened draw r ids d.plaintext
  unfolding signal_decrypt execute_signal_decrypt decrypt_checked
  signal_decrypt-allowed draw r ids d e text = elim (Bool-cases (unauthorized p r)) [
    | inl denied ↦ absurd (text (no_text d (rw denied at e)))
    | inr allowed ↦
        Result-cases (check_decrypt p r ids)
          (λ c f.
            let (local, v, addr) = c in
            let (known, given, sender) = check_decrypt-found p r ids local v addr f in
            record {
              identity = local;
              envelope = v;
              address = addr;
              known = known;
              given = given;
              sender = sender;
              opened = plaintext_output-ok _ d (wrap-ok _ d (rw (allowed, f) at e));
            })
          (λ x f. absurd (ground arith))
  ]

  -- Text that came out of an inbox record: it is what libsignal makes of the record's envelope, with
  -- the identity that the step names and the address of the record's sender.
  pub record IsDecrypted (draw : Bytes) (cfg : InboxDecryptConfig) (input : InboxDecryptInput)
      (r : EnvelopeRecord) (ids : SignalIdentities p) (plaintext : Bytes) : Type 0 where
    pub identity : SignalIdentity p
    pub envelope : SignalEnvelope
    pub address : Address
    pub known :
        lookup_signal_identity p (first_non_empty (input.identity_ref ∷ cfg.identity_ref ∷ [])) ids
        ≡ ok identity
    pub stored : r.envelope ≡ some envelope
    pub sender : protocol_address p envelope.sender_id envelope.sender_device_id ≡ some address
    pub opened :
        (decrypt_opened p draw address (
          open_message p identity address envelope.message_type envelope.ciphertext
            identity.session_store)).0
        ≡ ok plaintext

  read_by :
      (draw : Bytes) (cfg : InboxDecryptConfig) (input : InboxDecryptInput) (r : EnvelopeRecord)
      (ids : SignalIdentities p) (out : InboxDecryptOutput)
      (done : Result Str SignalDecryptOutput × SignalIdentities p)
      → signal_decrypt draw (decrypt_request cfg input r) ids ≡ done
      → (decrypted input r done).0 ≡ ok out
      → out.plaintext ≢ []
      → IsDecrypted draw cfg input r ids out.plaintext
        × ((cfg.required_principal ≡ []) ⊎ (input.principal ≡ cfg.required_principal))
  unfolding decrypt_output decrypt_request
  read_by draw cfg input r ids out (err x, s) d e text = absurd (ground arith)
  read_by draw cfg input r ids out (ok t, s) d e text =
      let same : t.plaintext ≡ out.plaintext = ground arith in
      let some_text : t.plaintext ≢ [] = λ none. text (ground arith) in
      let call = ap (λ z. z.0) d in
      let o = signal_decrypt-allowed draw (decrypt_request cfg input r) ids t call some_text in
      (
        record {
          identity = o.identity;
          envelope = o.envelope;
          address = o.address;
          known =
              rw (first_twice (first_non_empty (input.identity_ref ∷ cfg.identity_ref ∷ []))) at
                o.known;
          stored = sym (clone_signal_envelope-eq r.envelope) ∙ o.given;
          sender = o.sender;
          opened = o.opened ∙ ap ok same;
        },
        authorized draw (decrypt_request cfg input r) ids t call some_text,
      )

  -- Text that an inbox step returns was received: it is what libsignal makes of the envelope of a
  -- record that stands, under the reference that the input names, in the inbox of the store that was
  -- named; with the identity that the step names, under a custody and an authorization, and for the
  -- required principal if the step's configuration requires one.
  pub execute_signal_inbox_decrypt-authorized :
      (draw : Bytes) (cfg : InboxDecryptConfig) (input : InboxDecryptInput) (g : Process)
      (ids : SignalIdentities p) (out : InboxDecryptOutput)
      → (execute_signal_inbox_decrypt (signal_decrypt draw) cfg input g ids).0 ≡ ok out
      → out.plaintext ≢ []
      → ((r : EnvelopeRecord) × IsReceived cfg input g.registry r
          × IsDecrypted draw cfg input r ids out.plaintext)
        × ((cfg.required_principal ≡ []) ⊎ (input.principal ≡ cfg.required_principal))
  execute_signal_inbox_decrypt-authorized draw cfg input g ids out e text =
      elim (execute_signal_inbox_decrypt_guarded (signal_decrypt draw) cfg input g ids) [
        | inl (r, received, same) ↦
            let (text_of, allowed) =
              read_by draw cfg input r ids out _ refl (ap (λ z. z.0) (sym same) ∙ e) text in
            ((r, received, text_of), allowed)
        | inr (x, refused) ↦ absurd (ground arith)
      ]
