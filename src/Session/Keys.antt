-- ===== src/Session/Keys.antt =====
-- The steps keep the keys of every identity, and which reference it stands under (internal/steps.go).
use workflow_plugin_signal.Base.{
  subst, ◌≡◌, refl, sym, ap, ◌∙◌, inl, inr, not, ◌&&◌, Option, none, some, List, [], ◌∷◌, arith,
  Str, is_empty, str_eq, str_eq_iff, lookup, lookup-insert, ok, Option-cases, Bool-cases,
  Result-cases,
}
use workflow_plugin_signal.Text.{first_non_empty}
use workflow_plugin_signal.Envelope.{SignalEnvelope}
use workflow_plugin_signal.Envelope.Steps.{SignalDecryptRequest}
use workflow_plugin_signal.Session.{
  Bytes, Address, Protocol, SignalIdentity, SignalIdentities, lookup_signal_identity,
  protocol_address,
}
use workflow_plugin_signal.Session.Steps.{
  SignalEncryptInput, check_encrypt, execute_signal_encrypt, bob_session, check_decrypt,
  decrypt_checked, encrypt_processed, execute_signal_decrypt, put_stores,
}

module _ (p : Protocol) where
  -- Two states of an identity with the same keys.
  pub record SameKeys (i j : SignalIdentity p) : Type 0 where
    pub identity : i.identity ≡ j.identity
    pub signed_pre : i.signed_pre ≡ j.signed_pre
    pub one_time : i.one_time ≡ j.one_time
    pub kyber : i.kyber ≡ j.kyber

  pub bob_session-SameKeys :
      (i j : SignalIdentity p) (ciphertext : Bytes)
      → SameKeys i j
      → bob_session p i ciphertext ≡ bob_session p j ciphertext
  unfolding bob_session
  bob_session-SameKeys i j ciphertext k = rw (k.identity, k.signed_pre, k.one_time, k.kyber) refl

  -- Each identity stands under its own reference, and the one under `ref` has the keys of `i`.
  pub record HasKeys (ref : Str) (i : SignalIdentity p) (ids : SignalIdentities p) : Type 0 where
    pub own_ref : (k : Str) (j : SignalIdentity p) → lookup k ids ≡ some j → j.ref ≡ k
    pub current : SignalIdentity p
    pub found : lookup ref ids ≡ some current
    pub same : SameKeys i current

  put_current :
      (ref : Str) (i local current : SignalIdentity p) (s : p.Sessions) (t : p.Trusted)
      (ids : SignalIdentities p)
      → lookup ref ids ≡ some current
      → lookup local.ref ids ≡ some local
      → SameKeys i current
      → (j : SignalIdentity p) × (lookup ref (put_stores p local s t ids) ≡ some j) × SameKeys i j
  unfolding put_stores
  put_current ref i local current s t ids found own same =
      let put : SignalIdentity p = record local { identity_store = t; session_store = s } in
      elim (Bool-cases (str_eq local.ref ref)) [
        | inl here ↦
            let e : local.ref ≡ ref = (str_eq_iff local.ref ref).0 here in
            let this : local ≡ current = ground (arith) in
            let keys : SameKeys i local = subst (SameKeys i) (sym this) same in
            (
              put,
              rw (lookup-insert local.ref ref put ids, here) refl,
              record {
                identity = keys.identity;
                signed_pre = keys.signed_pre;
                one_time = keys.one_time;
                kyber = keys.kyber;
              },
            )
        | inr other ↦ (current, rw (lookup-insert local.ref ref put ids, other) found, same)
      ]

  put_own_ref :
      (local : SignalIdentity p) (s : p.Sessions) (t : p.Trusted) (ids : SignalIdentities p)
      → ((k : Str) (j : SignalIdentity p) → lookup k ids ≡ some j → j.ref ≡ k)
      → (k : Str) (j : SignalIdentity p) → lookup k (put_stores p local s t ids) ≡ some j
      → j.ref ≡ k
  unfolding put_stores
  put_own_ref local s t ids own k j f =
      let put : SignalIdentity p = record local { identity_store = t; session_store = s } in
      ground (arith, lookup-insert local.ref k put ids, str_eq_iff local.ref k, own k j)

  put-HasKeys :
      (ref : Str) (i local : SignalIdentity p) (k : Str) (s : p.Sessions) (t : p.Trusted)
      (ids : SignalIdentities p)
      → lookup k ids ≡ some local
      → HasKeys ref i ids
      → HasKeys ref i (put_stores p local s t ids)
  put-HasKeys ref i local k s t ids f h =
      let own : lookup local.ref ids ≡ some local =
        ap (λ z. lookup z ids) (h.own_ref k local f) ∙ f in
      let (j, found, same) = put_current ref i local h.current s t ids h.found own h.same in
      record {
        own_ref = put_own_ref local s t ids h.own_ref;
        current = j;
        found = found;
        same = same;
      }

  pub lookup_identity-found :
      (ref : Str) (ids : SignalIdentities p) (local : SignalIdentity p)
      → lookup_signal_identity p ref ids ≡ ok local
      → lookup ref ids ≡ some local
  unfolding lookup_signal_identity
  lookup_identity-found ref ids local e = ground arith

  pub check_decrypt-found :
      (r : SignalDecryptRequest) (ids : SignalIdentities p) (local : SignalIdentity p)
      (envelope : SignalEnvelope) (addr : Address)
      → check_decrypt p r ids ≡ ok (local, envelope, addr)
      → (lookup_signal_identity p
            (first_non_empty (r.identity_ref ∷ r.config_identity_ref ∷ []))
            ids
          ≡ ok local)
        × (r.envelope ≡ some envelope)
        × (protocol_address p envelope.sender_id envelope.sender_device_id ≡ some addr)
  unfolding check_decrypt
  check_decrypt-found r ids local envelope addr e =
      Result-cases
        (lookup_signal_identity p (first_non_empty (r.identity_ref ∷ r.config_identity_ref ∷ []))
          ids)
        (λ l f. elim (Option-cases r.envelope) [
          | inl missing ↦ absurd (ground arith)
          | inr (v, given) ↦
              elim (Option-cases (protocol_address p v.sender_id v.sender_device_id)) [
                | inl bad ↦ absurd (ground arith)
                | inr (a, known) ↦ (ground arith, ground arith, ground arith)
              ]
        ])
        (λ x f. absurd (ground arith))

  pub decrypt-HasKeys :
      (ref : Str) (i : SignalIdentity p) (draw : Bytes) (r : SignalDecryptRequest)
      (ids : SignalIdentities p)
      → HasKeys ref i ids
      → HasKeys ref i (execute_signal_decrypt p draw r ids).1
  unfolding execute_signal_decrypt decrypt_checked
  decrypt-HasKeys ref i draw r ids h =
      elim (Bool-cases
        (not (is_empty r.required_principal) && not (str_eq r.principal r.required_principal))) [
          | inl denied ↦ rw denied h
          | inr allowed ↦
              Result-cases (check_decrypt p r ids)
                (λ c e.
                  rw (allowed, e)
                    (let (local, envelope, addr) = c in
                      put-HasKeys ref i local _ _ _ ids
                        (lookup_identity-found _ ids local
                          (check_decrypt-found r ids local envelope addr e).0)
                        h))
                (λ x e. rw (allowed, e) h)
        ]

  check_encrypt-found :
      (config_ref : Str) (input : Option SignalEncryptInput) (ids : SignalIdentities p)
      (i : SignalEncryptInput) (local : SignalIdentity p) (addr : Address) (b : p.Bundle)
      → check_encrypt p config_ref input ids ≡ ok (i, local, addr, b)
      → (k : Str) × (lookup k ids ≡ some local)
  unfolding check_encrypt
  check_encrypt-found config_ref (some i') ids i local addr b e =
      let k : Str = first_non_empty (i'.identity_ref ∷ config_ref ∷ []) in
      Result-cases (lookup_signal_identity p k ids)
        (λ l f. elim (Option-cases i'.remote_bundle) [
          | inl missing ↦ absurd (ground arith)
          | inr (v, given) ↦ (k, lookup_identity-found k ids local (ground arith))
        ])
        (λ x f. absurd (ground arith))
  check_encrypt-found config_ref none ids i local addr b e = cc

  processed-HasKeys :
      (ref : Str) (i : SignalIdentity p) (draw k : Bytes) (input : SignalEncryptInput)
      (local : SignalIdentity p) (addr : Address) (ids : SignalIdentities p)
      (done : Option (Unit {0}) × p.Sessions × p.Trusted)
      → lookup k ids ≡ some local
      → HasKeys ref i ids
      → HasKeys ref i (encrypt_processed p draw input local addr ids done).1
  processed-HasKeys ref i draw k input local addr ids (none, s, t) f h =
      put-HasKeys ref i local k s t ids f h
  processed-HasKeys ref i draw k input local addr ids (some u, s, t) f h =
      put-HasKeys ref i local k _ _ ids f h

  encrypt-HasKeys :
      (ref : Str) (i : SignalIdentity p) (draw₁ draw₂ : Bytes) (config_ref : Str)
      (input : Option SignalEncryptInput) (ids : SignalIdentities p)
      → HasKeys ref i ids
      → HasKeys ref i (execute_signal_encrypt p draw₁ draw₂ config_ref input ids).1
  unfolding execute_signal_encrypt
  encrypt-HasKeys ref i draw₁ draw₂ config_ref input ids h =
      Result-cases (check_encrypt p config_ref input ids)
        (λ checked e. rw e (
          let (given, local, addr, b) = checked in
          let (k, f) = check_encrypt-found config_ref input ids given local addr b e in
          processed-HasKeys ref i draw₂ k given local addr ids _ f h))
        (λ x e. rw e h)

  -- The steps that change the sessions of an identity, each with what it draws.
  pub data SessionOperation : Type 0 where
    encrypts : Bytes → Bytes → Str → Option SignalEncryptInput → SessionOperation
    decrypts : Bytes → SignalDecryptRequest → SessionOperation

  unfoldable pub run_sessions : List SessionOperation → SignalIdentities p → SignalIdentities p
  run_sessions [] ids = ids
  run_sessions (encrypts draw₁ draw₂ config_ref input ∷ ops) ids =
      run_sessions ops (execute_signal_encrypt p draw₁ draw₂ config_ref input ids).1
  run_sessions (decrypts draw r ∷ ops) ids =
      run_sessions ops (execute_signal_decrypt p draw r ids).1

  pub run-HasKeys :
      (ref : Str) (i : SignalIdentity p) (ops : List SessionOperation) (ids : SignalIdentities p)
      → HasKeys ref i ids
      → HasKeys ref i (run_sessions ops ids)
  unfolding run_sessions
  run-HasKeys ref i [] ids h = h
  run-HasKeys ref i (encrypts draw₁ draw₂ config_ref input ∷ ops) ids h =
      run-HasKeys ref i ops _ (encrypt-HasKeys ref i draw₁ draw₂ config_ref input ids h)
  run-HasKeys ref i (decrypts draw r ∷ ops) ids h =
      run-HasKeys ref i ops _ (decrypt-HasKeys ref i draw r ids h)
