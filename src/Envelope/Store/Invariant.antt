-- ===== src/Envelope/Store/Invariant.antt =====
-- The invariant of a store, and that every operation keeps it.
use workflow_plugin_signal.Base.{
  ℕ, ◌≡◌, ◌≢◌, refl, subst, ◌⊎◌, inl, inr, Option, none, some, [], ◌∷◌, arith, Str, lit, Dict,
  Distinct, str_eq, str_eq_iff, lookup, insert, lookup-insert, insert-Distinct, ok, Option-cases,
  Bool-cases,
}
use workflow_plugin_signal.Text.{first_non_empty}
use workflow_plugin_signal.Envelope.{
  SignalEnvelope, EnvelopeRecord, EnvelopeStore, Host, RangeLaws, System, OutboxEnqueueInput,
  OutboxClaimInput, InboxReceiveInput,
}
use workflow_plugin_signal.Envelope.Retention.{enforce_retention}
use workflow_plugin_signal.Envelope.Retention.Laws.{
  enforce_retention-kept, enforce_retention-Distinct,
}
use workflow_plugin_signal.Envelope.Store.{
  clone_signal_envelope, check_envelope, queued_record, claimed_record, received_record,
  inbox_receive,
}
use workflow_plugin_signal.Envelope.Store.Queue.{IsSendable}

-- There is an envelope, and it has a ciphertext.
abbrev pub HasCiphertext : Option SignalEnvelope → Type 0
HasCiphertext none = ⊥
HasCiphertext (some e) = e.ciphertext ≢ []

-- A record of the outbox under its reference: queued without a lease, or claimed with one.
pub record IsOutboxRecord (k : Str) (r : EnvelopeRecord) : Type 0 where
  pub own_ref : r.envelope_ref ≡ k
  pub own_queue : r.queue ≡ lit "outbox"
  pub sealed : HasCiphertext r.envelope
  pub custody : r.custody_ref ≢ []
  pub authz : r.authz_ref ≢ []
  pub lease :
      ((r.status ≡ lit "queued") × (r.lease_ref ≡ []))
      ⊎ ((r.status ≡ lit "claimed") × (r.lease_ref ≢ []))

pub record IsInboxRecord (k : Str) (r : EnvelopeRecord) : Type 0 where
  pub own_ref : r.envelope_ref ≡ k
  pub own_queue : r.queue ≡ lit "inbox"
  pub sealed : HasCiphertext r.envelope
  pub received : r.status ≡ lit "received"

pub record IsQueue (P : Str → EnvelopeRecord → Type 0) (q : Dict EnvelopeRecord) : Type 0 where
  pub distinct : Distinct q
  pub named : lookup [] q ≡ none
  pub each : (k : Str) (r : EnvelopeRecord) → lookup k q ≡ some r → P k r

pub record IsValid (s : EnvelopeStore) : Type 0 where
  pub outbox : IsQueue IsOutboxRecord s.state.outbox
  pub inbox : IsQueue IsInboxRecord s.state.inbox

module _ {P : Str → EnvelopeRecord → Type 0} where
  pub insert-IsQueue :
      (k : Str) (r : EnvelopeRecord) (q : Dict EnvelopeRecord)
      → k ≢ []
      → P k r
      → IsQueue P q
      → IsQueue P (insert k r q)
  insert-IsQueue k r q nonempty p v = record {
    distinct = insert-Distinct k r q v.distinct;
    named = ground (arith, lookup-insert k [] r q, str_eq_iff k [], v.named);
    each = λ j s f. elim (Bool-cases (str_eq k j)) [
      | inl here ↦
          let same_key : k ≡ j = (str_eq_iff k j).0 here in
          let same : r ≡ s = ground (arith, lookup-insert k j r q) in
          subst (λ x. P x s) same_key (subst (P k) same p)
      | inr other ↦ v.each j s (ground (arith, lookup-insert k j r q))
    ];
  }

  pub enforce-IsQueue :
      (h : Host) (limit : ℕ) (q : Dict EnvelopeRecord)
      → RangeLaws h
      → IsQueue P q
      → IsQueue P (enforce_retention h limit q)
  enforce-IsQueue h limit q laws v = record {
    distinct = enforce_retention-Distinct h laws limit q v.distinct;
    named = elim (Option-cases (lookup [] (enforce_retention h limit q))) [
      | inl gone ↦ gone
      | inr (s, left) ↦ absurd (cc (enforce_retention-kept h laws limit q [] s left, v.named))
    ];
    each = λ j s f. v.each j s (enforce_retention-kept h laws limit q j s f);
  }

pub queued_record-IsOutboxRecord :
    (sys : System) (input : OutboxEnqueueInput)
    → IsSendable input
    → IsOutboxRecord (queued_record sys input).envelope_ref (queued_record sys input)
unfolding queued_record clone_signal_envelope
queued_record-IsOutboxRecord sys input v = record {
  own_ref = refl;
  own_queue = refl;
  sealed = rw v.given v.ciphertext;
  custody = v.custody;
  authz = v.authz;
  lease = inl (refl, refl);
}

pub claimed_record-IsOutboxRecord :
    (sys : System) (input : OutboxClaimInput) (r : EnvelopeRecord)
    → IsOutboxRecord input.envelope_ref r
    → IsOutboxRecord input.envelope_ref (claimed_record sys input r)
unfolding claimed_record
claimed_record-IsOutboxRecord sys input r v = record {
  own_ref = v.own_ref;
  own_queue = v.own_queue;
  sealed = v.sealed;
  custody = v.custody;
  authz = v.authz;
  lease = inr (refl, cc);
}

check_envelope_sealed :
    (operation : Str) (envelope : Option SignalEnvelope) (e : SignalEnvelope)
    → check_envelope operation envelope ≡ ok e
    → HasCiphertext (clone_signal_envelope envelope)
unfolding check_envelope clone_signal_envelope
check_envelope_sealed operation none e h = cc
check_envelope_sealed operation (some x) e h = ground arith

pub first_non_empty-nonempty : (s t : Str) → t ≢ [] → first_non_empty (s ∷ t ∷ []) ≢ []
unfolding first_non_empty
first_non_empty-nonempty [] [] h = ground arith
first_non_empty-nonempty [] (c ∷ t) h = cc
first_non_empty-nonempty (c ∷ s) t h = cc

pub received_record-IsInboxRecord :
    (sys : System) (input : InboxReceiveInput) (e : SignalEnvelope)
    → check_envelope inbox_receive input.envelope ≡ ok e
    → IsInboxRecord (received_record sys input e).envelope_ref (received_record sys input e)
unfolding received_record
received_record-IsInboxRecord sys input e h = record {
  own_ref = refl;
  own_queue = refl;
  sealed = check_envelope_sealed inbox_receive input.envelope e h;
  received = refl;
}
