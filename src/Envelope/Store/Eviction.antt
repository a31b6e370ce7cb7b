-- ===== src/Envelope/Store/Eviction.antt =====
-- An envelope whose time stamp is older than all that a full outbox holds.
use workflow_plugin_signal.Base.{
  suc, ◌<◌, ◌≤◌, ◌≡◌, ◌≢◌, refl, ap, true, false, none, some, [], ◌∷◌, arith, Str, str_eq,
  str_eq_iff, str_eq_refl, Dict, length, Distinct, lookup, insert, lookup-insert, insert-Distinct,
  ltb_ℤ, Result, ok,
}
use workflow_plugin_signal.Envelope.{
  EnvelopeRecord, Host, RangeLaws, System, World, OutboxEnqueueInput, local_file,
}
use workflow_plugin_signal.Envelope.Retention.{age_stamp}
use workflow_plugin_signal.Envelope.Retention.Laws.{enforce_retention-drops_oldest}
use workflow_plugin_signal.Envelope.Store.{queued_record, put_outbox, enqueue_outbox}
use workflow_plugin_signal.Envelope.Store.Queue.{
  IsSendable, IsSendable-check_enqueue, enqueue_store, finish_memory, envelope_ref-nonempty,
}

length-insert_new :
    {V : Type 0} (k : Str) (v : V) (q : Dict V)
    → lookup k q ≡ none
    → length (insert k v q) ≡ suc (length q)
unfolding lookup insert
length-insert_new k v [] f = refl
length-insert_new k v ((j, w) ∷ q) f = ground (arith, length-insert_new k v q)

-- In memory, an envelope that is new to a full outbox and older than every record in it is
-- reported as queued, and is not in the outbox afterwards.
pub enqueue_outbox-loses_oldest :
    (h : Host) (sys : System) (input : OutboxEnqueueInput) (w : World)
    → RangeLaws h
    → str_eq w.store.config.backend local_file ≡ false
    → 0 < w.store.config.retention_limit
    → w.store.config.retention_limit ≤ length w.store.state.outbox
    → Distinct w.store.state.outbox
    → lookup [] w.store.state.outbox ≡ none
    → lookup (queued_record sys input).envelope_ref w.store.state.outbox ≡ none
    → ((j : Str) (s : EnvelopeRecord)
        → lookup j w.store.state.outbox ≡ some s
        → ltb_ℤ (age_stamp (queued_record sys input)) (age_stamp s) ≡ true)
    → IsSendable input
    → ((enqueue_outbox h sys input w).0 ≡ ok (queued_record sys input))
      × (lookup
            (queued_record sys input).envelope_ref
            (enqueue_outbox h sys input w).1.store.state.outbox
          ≡ none)
unfolding enqueue_outbox put_outbox
enqueue_outbox-loses_oldest h sys input w laws b some_room full d ne new newer v =
    let r = queued_record sys input in
    let q = w.store.state.outbox in
    let nonempty : r.envelope_ref ≢ [] =
      unfold queued_record in envelope_ref-nonempty _ _ _ _ _ _ in
    (
      rw (IsSendable-check_enqueue input v)
          (ap (λ (x : Result _ EnvelopeRecord × World). x.0) (finish_memory h sys _ _ w.files b)),
      rw (enqueue_store h sys input w v) (
          enforce_retention-drops_oldest h laws w.store.config.retention_limit
            (insert r.envelope_ref r q) r.envelope_ref r some_room
            (rw (length-insert_new r.envelope_ref r q new) (omega arith))
            (insert-Distinct r.envelope_ref r q d)
            (ground (arith, lookup-insert r.envelope_ref [] r q, str_eq_iff r.envelope_ref []))
            (simp (lookup-insert, str_eq_refl))
            (λ j s ne_j f. newer j s (
              ground (
                arith,
                lookup-insert r.envelope_ref j r q,
                str_eq_iff r.envelope_ref j,
                str_eq_iff j r.envelope_ref,
              )))),
    )
