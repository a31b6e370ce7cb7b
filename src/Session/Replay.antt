-- ===== src/Session/Replay.antt =====
-- A pre-key message is accepted as often as it comes (internal/steps.go): the one-time pre-key of an
-- identity is never used up, and the session of the sender is replaced each time.
use workflow_plugin_signal.Base.{
  ◌≡◌, refl, sym, ap, ◌∙◌, inl, inr, true, false, some, List, [], ◌∷◌, arith, Str, str_eq_refl,
  lookup, Result, ok, err, Bool-cases, Result-cases,
}
use workflow_plugin_signal.Text.{first_non_empty}
use workflow_plugin_signal.Envelope.{SignalEnvelope}
use workflow_plugin_signal.Envelope.Steps.{SignalDecryptRequest, SignalDecryptOutput}
use workflow_plugin_signal.Session.{
  Bytes, Address, Protocol, Error, SignalIdentity, SignalIdentities, lookup_signal_identity,
}
use workflow_plugin_signal.Session.Steps.{
  pre_key_type, bob_session, open_message, check_decrypt, decrypt_checked, decrypt_opened,
  execute_signal_decrypt, unauthorized, plaintext_output,
}
use workflow_plugin_signal.Session.Keys.{
  SameKeys, HasKeys, SessionOperation, run_sessions, bob_session-SameKeys, check_decrypt-found,
  lookup_identity-found, decrypt-HasKeys, run-HasKeys,
}

-- Storing a session in memory does not fail, and a message's text depends on the session of its
-- sender alone, not on what is drawn for the next ratchet.
pub record SessionLaws (p : Protocol) : Type 0 where
  pub stores :
      (s : p.Sessions) (a : Address) (x : p.Session)
      → (s' : p.Sessions) × (p.store_session s a x ≡ some s') × (p.load_session s' a ≡ some x)
  pub decrypt-load :
      (d d' : Bytes) (m : p.Message) (a : Address) (s s' : p.Sessions)
      → p.load_session s a ≡ p.load_session s' a
      → (p.decrypt d m a s).0 ≡ (p.decrypt d' m a s').0

module _ (p : Protocol) where
  -- The text of a pre-key message depends on the identity's keys alone.
  opened_text :
      (d d' : Bytes) (i j : SignalIdentity p) (addr : Address) (message_type ciphertext : Bytes)
      (s s' : p.Sessions)
      → SessionLaws p
      → SameKeys p i j
      → message_type ≡ pre_key_type
      → (decrypt_opened p d addr (open_message p i addr message_type ciphertext s)).0
        ≡ (decrypt_opened p d' addr (open_message p j addr message_type ciphertext s')).0
  unfolding open_message
  opened_text d d' i j addr message_type ciphertext s s' laws k t =
      Result-cases (bob_session p j ciphertext)
        (λ ms e.
          let (m, x) = ms in
          let (s₁, stored₁, load₁) = laws.stores s addr x in
          let (s₂, stored₂, load₂) = laws.stores s' addr x in
          let same = laws.decrypt-load d d' (p.inner_message m) addr s₁ s₂ (load₁ ∙ sym load₂) in
          rw
            (
              t,
              str_eq_refl pre_key_type,
              bob_session-SameKeys p i j ciphertext k,
              e,
              stored₁,
              stored₂,
              same,
            )
            refl)
        (λ x e. rw (t, str_eq_refl pre_key_type, bob_session-SameKeys p i j ciphertext k, e) refl)

  lookup_identity-again :
      (ref : Str) (ids ids' : SignalIdentities p) (i j : SignalIdentity p)
      → lookup_signal_identity p ref ids ≡ ok i
      → lookup ref ids' ≡ some j
      → lookup_signal_identity p ref ids' ≡ ok j
  unfolding lookup_signal_identity
  lookup_identity-again ref ids ids' i j e f = ground arith

  again_checked :
      (r : SignalDecryptRequest) (ids ids' : SignalIdentities p) (local j : SignalIdentity p)
      (envelope : SignalEnvelope) (addr : Address)
      → check_decrypt p r ids ≡ ok (local, envelope, addr)
      → lookup (first_non_empty (r.identity_ref ∷ r.config_identity_ref ∷ [])) ids' ≡ some j
      → check_decrypt p r ids' ≡ ok (j, envelope, addr)
  again_checked r ids ids' local j envelope addr e f =
      let (found, given, known) = check_decrypt-found p r ids local envelope addr e in
      let found' = lookup_identity-again _ ids ids' local j found f in
      unfold check_decrypt in rw (found', given, known) refl

  checked_text :
      (d d' : Bytes) (i j : SignalIdentity p) (envelope : SignalEnvelope) (addr : Address)
      (ids ids' : SignalIdentities p)
      → SessionLaws p
      → SameKeys p i j
      → envelope.message_type ≡ pre_key_type
      → (decrypt_checked p d (i, envelope, addr) ids).0
        ≡ (decrypt_checked p d' (j, envelope, addr) ids').0
  unfolding decrypt_checked
  checked_text d d' i j envelope addr ids ids' laws k t = ap (plaintext_output p) (
      opened_text d d' i j addr envelope.message_type envelope.ciphertext i.session_store
        j.session_store laws k t)

  denied_again :
      (d d' : Bytes) (r : SignalDecryptRequest) (ids ids' : SignalIdentities p)
      (out : SignalDecryptOutput)
      → unauthorized p r ≡ true
      → (execute_signal_decrypt p d r ids).0 ≡ ok out
      → (execute_signal_decrypt p d' r ids').0 ≡ ok out
  unfolding execute_signal_decrypt
  denied_again d d' r ids ids' out denied e = rw denied (rw denied at e)

  -- The second decryption, by whether the first was allowed and what its checks found.
  allowed_again :
      (d d' : Bytes) (r : SignalDecryptRequest) (envelope : SignalEnvelope)
      (ids ids' : SignalIdentities p) (out : SignalDecryptOutput)
      (checked : Result Error (SignalIdentity p × SignalEnvelope × Address))
      → SessionLaws p
      → unauthorized p r ≡ false
      → r.envelope ≡ some envelope
      → envelope.message_type ≡ pre_key_type
      → check_decrypt p r ids ≡ checked
      → ((i : SignalIdentity p)
          → lookup (first_non_empty (r.identity_ref ∷ r.config_identity_ref ∷ [])) ids ≡ some i
          → HasKeys p (first_non_empty (r.identity_ref ∷ r.config_identity_ref ∷ [])) i ids')
      → (execute_signal_decrypt p d r ids).0 ≡ ok out
      → (execute_signal_decrypt p d' r ids').0 ≡ ok out
  unfolding execute_signal_decrypt
  allowed_again d d' r envelope ids ids' out (err x) laws allowed given t c keys e =
      absurd (ground arith)
  allowed_again d d' r envelope ids ids' out (ok (i, v, addr)) laws allowed given t c keys e =
      let (found, given', known) = check_decrypt-found p r ids i v addr c in
      let h = keys i (lookup_identity-found p _ ids i found) in
      let type : v.message_type ≡ pre_key_type = ground arith in
      let first : (decrypt_checked p d (i, v, addr) ids).0 ≡ ok out = rw (allowed, c) at e in
      rw (allowed, again_checked r ids ids' i h.current v addr c h.found)
        (sym (checked_text d d' i h.current v addr ids ids' laws h.same type) ∙ first)

  -- A pre-key message that was decrypted is decrypted to the same output again by the same request,
  -- after any history of encryptions and decryptions: nothing tells a replay.
  pub pre_key_message_replayed :
      (d d' : Bytes) (r : SignalDecryptRequest) (envelope : SignalEnvelope)
      (ids : SignalIdentities p) (ops : List (SessionOperation p)) (out : SignalDecryptOutput)
      → SessionLaws p
      → ((k : Str) (j : SignalIdentity p) → lookup k ids ≡ some j → j.ref ≡ k)
      → r.envelope ≡ some envelope
      → envelope.message_type ≡ pre_key_type
      → (execute_signal_decrypt p d r ids).0 ≡ ok out
      → (execute_signal_decrypt p d' r (run_sessions p ops (execute_signal_decrypt p d r ids).1)).0
        ≡ ok out
  pre_key_message_replayed d d' r envelope ids ops out laws own given t e =
      elim (Bool-cases (unauthorized p r)) [
        | inl denied ↦ denied_again d d' r ids _ out denied e
        | inr allowed ↦
            allowed_again d d' r envelope ids _ out _ laws allowed given t refl
              (λ i f. run-HasKeys p _ i ops _ (
                decrypt-HasKeys p _ i d r ids (record {
                  own_ref = own;
                  current = i;
                  found = f;
                  same = record {
                    identity = refl;
                    signed_pre = refl;
                    one_time = refl;
                    kyber = refl;
                  };
                })))
              e
      ]
