-- ===== src/Envelope/Store/Restart.antt =====
-- A local file brings the store back after a restart.
use workflow_plugin_signal.Base.{◌≡◌, sym, subst, ap, ◌∙◌, false, refl, ok, err, Result, after}
use workflow_plugin_signal.Envelope.{
  EnvelopeRecord, EnvelopeStore, EnvelopeStoreConfig, Error, Host, JsonLaws, System, World, Files,
  local_file, OutboxEnqueueInput, OutboxClaimInput, InboxReceiveInput,
}
use workflow_plugin_signal.Envelope.Store.{
  finish, queued_record, claimed_record, received_record, check_enqueue, check_claim,
  check_envelope, put_outbox, set_outbox, put_inbox, enqueue_outbox, claim_outbox, receive_inbox,
  init_store, inbox_receive,
}
use workflow_plugin_signal.Envelope.Store.Persist.{finish-init_store}

-- The operations that change a store.
pub data Operation : Type 0 where
  enqueue : OutboxEnqueueInput → Operation
  claim : OutboxClaimInput → Operation
  receive : InboxReceiveInput → Operation

unfoldable pub perform : Host → System → Operation → World → Result Error EnvelopeRecord × World
perform h sys (enqueue input) w = enqueue_outbox h sys input w
perform h sys (claim input) w = claim_outbox h sys input w
perform h sys (receive input) w = receive_inbox h sys input w

finish_store :
    (h : Host) (sys : System) (s : EnvelopeStore) (r : EnvelopeRecord) (files : Files)
    → (finish h sys s r files).1.store ≡ s
unfolding finish
finish_store h sys s r files = refl

-- Behind checks, an operation ends in `finish` of a changed store, or reports an error.
after-init_store :
    {A : Type 0} (h : Host) (sys : System) (cfg : EnvelopeStoreConfig) (checks : Result Error A)
    (s : A → EnvelopeStore → EnvelopeStore) (r : A → EnvelopeRecord) (w : World)
    {r' : EnvelopeRecord}
    → JsonLaws h (after checks (λ a w'. finish h sys (s a w'.store) (r a) w'.files) w).1.store.state
    → cfg.backend ≡ local_file
    → ((a : A) → (s a w.store).config ≡ cfg)
    → ((a : A) → (s a w.store).state.version ≡ 1)
    → (after checks (λ a w'. finish h sys (s a w'.store) (r a) w'.files) w).0 ≡ ok r'
    → init_store h false
        (after checks (λ a w'. finish h sys (s a w'.store) (r a) w'.files) w).1.files
        cfg
      ≡ ok (after checks (λ a w'. finish h sys (s a w'.store) (r a) w'.files) w).1.store
after-init_store h sys cfg (ok a) s r w laws b c v e =
    let same : (s a w.store).config.backend ≡ local_file = rw (c a) b in
    rw (← c a) (
      finish-init_store h sys (s a w.store) (r a) w.files
        (subst (λ z. JsonLaws h z.state) (finish_store h sys (s a w.store) (r a) w.files) laws) same
        (v a) e
      ∙ sym (ap ok (finish_store h sys (s a w.store) (r a) w.files)))
after-init_store h sys cfg (err x) s r w laws b c v e = cc

-- With a local file and JSON that reads back what it wrote, a store that is built anew from the
-- file after a successful operation is the store that the operation left.
pub perform-Restarts :
    (h : Host) (sys : System) (op : Operation) (w : World) {r : EnvelopeRecord}
    → JsonLaws h (perform h sys op w).1.store.state
    → w.store.config.backend ≡ local_file
    → w.store.state.version ≡ 1
    → (perform h sys op w).0 ≡ ok r
    → init_store h false (perform h sys op w).1.files w.store.config
      ≡ ok (perform h sys op w).1.store
unfolding perform enqueue_outbox claim_outbox receive_inbox put_outbox set_outbox put_inbox
perform-Restarts h sys (enqueue input) w laws b v e =
    after-init_store h sys w.store.config (check_enqueue input)
      (λ _. put_outbox h (queued_record sys input)) (λ _. queued_record sys input) w laws b
      (λ _. refl) (λ _. v) e
perform-Restarts h sys (claim input) w laws b v e =
    after-init_store h sys w.store.config (check_claim input w)
      (λ r. set_outbox input.envelope_ref (claimed_record sys input r)) (claimed_record sys input) w
      laws b (λ _. refl) (λ _. v) e
perform-Restarts h sys (receive input) w laws b v e =
    after-init_store h sys w.store.config (check_envelope inbox_receive input.envelope)
      (λ e. put_inbox h (received_record sys input e)) (received_record sys input) w laws b
      (λ _. refl) (λ _. v) e
