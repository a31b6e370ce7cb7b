-- ===== src/Envelope/Store/Reachable.antt =====
-- Every history of calls keeps the invariant of a store.
use workflow_plugin_signal.Base.{◌≡◌, ◌≢◌, refl, List, [], ◌∷◌, lookup, Result, ok, err, after}
use workflow_plugin_signal.Envelope.{
  EnvelopeRecord, EnvelopeStore, EnvelopeStoreConfig, Error, Host, RangeLaws, System, World, Files,
  InboxReceiveInput, SignalEnvelope,
}
use workflow_plugin_signal.Envelope.Store.{
  finish, check_envelope, check_enqueue, check_claim, queued_record, claimed_record,
  received_record, put_outbox, set_outbox, put_inbox, enqueue_outbox, claim_outbox, receive_inbox,
  empty_store, inbox_receive,
}
use workflow_plugin_signal.Envelope.Store.Queue.{
  check_enqueue-IsSendable, check_claim-IsClaimable, envelope_ref-nonempty,
}
use workflow_plugin_signal.Envelope.Store.Restart.{Operation, enqueue, claim, receive, perform}
use workflow_plugin_signal.Envelope.Store.Invariant.{
  IsValid, insert-IsQueue, enforce-IsQueue, queued_record-IsOutboxRecord,
  claimed_record-IsOutboxRecord, received_record-IsInboxRecord, first_non_empty-nonempty,
}

pub after_store :
    {A : Type 0} (P : EnvelopeStore → Type 0) (h : Host) (sys : System) (checks : Result Error A)
    (s : A → EnvelopeStore → EnvelopeStore) (r : A → EnvelopeRecord) (w : World)
    → P w.store
    → ((a : A) → checks ≡ ok a → P (s a w.store))
    → P (after checks (λ a w'. finish h sys (s a w'.store) (r a) w'.files) w).1.store
unfolding finish
after_store P h sys (ok a) s r w refused accepted = accepted a refl
after_store P h sys (err e) s r w refused accepted = refused

received_ref-nonempty :
    (sys : System) (input : InboxReceiveInput) (e : SignalEnvelope)
    → (received_record sys input e).envelope_ref ≢ []
unfolding received_record
received_ref-nonempty sys input e =
    first_non_empty-nonempty input.envelope_ref _ (envelope_ref-nonempty _ _ _ _ _ _)

queued_ref-nonempty : (sys : System) (input : _) → (queued_record sys input).envelope_ref ≢ []
unfolding queued_record
queued_ref-nonempty sys input = envelope_ref-nonempty _ _ _ _ _ _

-- Every operation, whether it succeeds, is refused or fails to save, keeps the invariant: distinct
-- and named entries, each under its own reference, in its own queue, with a ciphertext, and an
-- outbox record has a lease exactly when it is claimed.
perform-IsValid :
    (h : Host) (sys : System) (op : Operation) (w : World)
    → RangeLaws h
    → IsValid w.store
    → IsValid (perform h sys op w).1.store
unfolding perform enqueue_outbox claim_outbox receive_inbox put_outbox set_outbox put_inbox
perform-IsValid h sys (enqueue input) w laws v =
    after_store IsValid h sys (check_enqueue input) (λ _. put_outbox h (queued_record sys input))
      (λ _. queued_record sys input) w v
      (λ _ pass. record {
        outbox = enforce-IsQueue h _ _ laws (
            insert-IsQueue _ _ _ (queued_ref-nonempty sys input)
              (queued_record-IsOutboxRecord sys input (check_enqueue-IsSendable input pass))
              v.outbox);
        inbox = v.inbox;
      })
perform-IsValid h sys (claim input) w laws v =
    after_store IsValid h sys (check_claim input w)
      (λ r. set_outbox input.envelope_ref (claimed_record sys input r)) (claimed_record sys input) w
      v
      (λ r pass.
        let c = check_claim-IsClaimable input w r pass in
        record {
          outbox =
              insert-IsQueue _ _ _ c.named
                (claimed_record-IsOutboxRecord sys input r
                  (v.outbox.each input.envelope_ref r c.found))
                v.outbox;
          inbox = v.inbox;
        })
perform-IsValid h sys (receive input) w laws v =
    after_store IsValid h sys (check_envelope inbox_receive input.envelope)
      (λ e. put_inbox h (received_record sys input e)) (received_record sys input) w v
      (λ e pass. record {
        outbox = v.outbox;
        inbox = enforce-IsQueue h _ _ laws (
            insert-IsQueue _ _ _ (received_ref-nonempty sys input e)
              (received_record-IsInboxRecord sys input e pass) v.inbox);
      })

-- A history: calls in the order in which the mutex admits them, each with what it meets outside.
unfoldable pub run : Host → List (System × Operation) → World → World
run h [] w = w
run h ((sys, op) ∷ calls) w = run h calls (perform h sys op w).1

run-keeps :
    (h : Host) (calls : List (System × Operation)) (w : World)
    → RangeLaws h
    → IsValid w.store
    → IsValid (run h calls w).store
unfolding run
run-keeps h [] w laws v = v
run-keeps h ((sys, op) ∷ calls) w laws v =
    run-keeps h calls (perform h sys op w).1 laws (perform-IsValid h sys op w laws v)

empty_store-IsValid : (cfg : EnvelopeStoreConfig) → IsValid (empty_store cfg)
unfolding lookup
empty_store-IsValid cfg = record {
  outbox = record { distinct = tt; named = refl; each = λ k r f. cc };
  inbox = record { distinct = tt; named = refl; each = λ k r f. cc };
}

-- After any history of operations on a new store, whatever failed on the way, the store meets
-- the invariant.
pub run-IsValid :
    (h : Host) (cfg : EnvelopeStoreConfig) (files : Files) (calls : List (System × Operation))
    → RangeLaws h
    → IsValid (run h calls (record { store = empty_store cfg; files = files })).store
run-IsValid h cfg files calls laws = run-keeps h calls _ laws (empty_store-IsValid cfg)
