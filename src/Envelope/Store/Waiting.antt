-- ===== src/Envelope/Store/Waiting.antt =====
-- A queued envelope stays claimable until it is claimed (internal/envelope_store.go).
use workflow_plugin_signal.Base.{
  ◌≡◌, ◌≢◌, refl, ◌∙◌, inl, inr, Bool, true, false, ◌&&◌, some, List, [], ◌∷◌, arith, Str, lit,
  str_eq, str_eq_iff, str_eq_refl, Dict, lookup, insert, lookup-insert, Result, ok, err,
  if◌then◌else◌, Bool-cases,
}
use workflow_plugin_signal.Envelope.{
  EnvelopeRecord, EnvelopeStore, local_file, Host, System, World, OutboxEnqueueInput,
  OutboxClaimInput,
}
use workflow_plugin_signal.Envelope.Store.{
  check_envelope, check_enqueue, check_claim, queued_record, claimed_record, received_record,
  put_outbox, set_outbox, put_inbox, enqueue_outbox, claim_outbox, receive_inbox, inbox_receive,
}
use workflow_plugin_signal.Envelope.Store.Queue.{
  IsSendable, check_enqueue-IsSendable, check_cases, envelope_ref-nonempty, claim_memory, no_limit,
  enqueue_store, enqueue_refused,
}
use workflow_plugin_signal.Envelope.Store.Restart.{Operation, enqueue, claim, receive, perform}
use workflow_plugin_signal.Envelope.Store.Reachable.{after_store, run}

-- A store in memory, with no retention limit, whose outbox holds this record for a reference, queued.
record IsWaiting (k : Str) (r : EnvelopeRecord) (s : EnvelopeStore) : Type 0 where
  in_memory : str_eq s.config.backend local_file ≡ false
  unlimited : s.config.retention_limit ≡ 0
  found : lookup k s.state.outbox ≡ some r
  queued : r.status ≡ lit "queued"

abbrev accepted : {E A : Type 0} → Result E A → Bool
accepted (ok a) = true
accepted (err e) = false

-- The record that was last accepted under a reference: the given one, or that of the last call that
-- offers an envelope which is accepted and gets the same reference.
abbrev pub latest : Str → EnvelopeRecord → List (System × Operation) → EnvelopeRecord
latest k r [] = r
latest k r ((sys, enqueue input) ∷ calls) =
    latest k
      (if accepted (check_enqueue input) && str_eq (queued_record sys input).envelope_ref k
        then queued_record sys input
        else r)
      calls
latest k r ((sys, claim input) ∷ calls) = latest k r calls
latest k r ((sys, receive input) ∷ calls) = latest k r calls

-- No call of the history claims the reference.
abbrev pub Unclaimed : Str → List (System × Operation) → Type 0
Unclaimed k [] = Unit
Unclaimed k ((sys, enqueue input) ∷ calls) = Unclaimed k calls
Unclaimed k ((sys, claim input) ∷ calls) = (input.envelope_ref ≢ k) × Unclaimed k calls
Unclaimed k ((sys, receive input) ∷ calls) = Unclaimed k calls

lookup_other :
    (k j : Str) (r : EnvelopeRecord) (q : Dict EnvelopeRecord)
    → j ≢ k
    → lookup k (insert j r q) ≡ lookup k q
lookup_other k j r q other =
    let apart : str_eq j k ≡ false = ground (arith, str_eq_iff j k) in
    rw (lookup-insert j k r q, apart) refl

lookup_put :
    (k : Str) (h : Host) (r : EnvelopeRecord) (s : EnvelopeStore)
    → s.config.retention_limit ≡ 0
    → lookup k (put_outbox h r s).state.outbox
      ≡ (if str_eq r.envelope_ref k then some r else lookup k s.state.outbox)
unfolding put_outbox
lookup_put k h r s unlimited =
    rw (no_limit h s.config.retention_limit (insert r.envelope_ref r s.state.outbox) unlimited)
      (lookup-insert r.envelope_ref k r s.state.outbox)

put_outbox-IsWaiting :
    (k : Str) (h : Host) (old r : EnvelopeRecord) (s : EnvelopeStore)
    → r.status ≡ lit "queued"
    → IsWaiting k old s
    → IsWaiting k (if str_eq r.envelope_ref k then r else old) (put_outbox h r s)
unfolding put_outbox
put_outbox-IsWaiting k h old r s fresh w = elim (Bool-cases (str_eq r.envelope_ref k)) [
  | inl here ↦ rw here (record {
    in_memory = w.in_memory;
    unlimited = w.unlimited;
    found = unfold put_outbox in rw here at (lookup_put k h r s w.unlimited);
    queued = fresh;
  })
  | inr other ↦ rw other (record {
    in_memory = w.in_memory;
    unlimited = w.unlimited;
    found = (unfold put_outbox in rw other at (lookup_put k h r s w.unlimited)) ∙ w.found;
    queued = w.queued;
  })
]

enqueue-IsWaiting :
    (k : Str) (h : Host) (old : EnvelopeRecord) (sys : System) (input : OutboxEnqueueInput)
    (w : World)
    → IsWaiting k old w.store
    → IsWaiting k
        (if accepted (check_enqueue input) && str_eq (queued_record sys input).envelope_ref k
          then queued_record sys input
          else old)
        (enqueue_outbox h sys input w).1.store
enqueue-IsWaiting k h old sys input w v = elim (check_cases (check_enqueue input)) [
  | inl pass ↦
      rw (pass, enqueue_store h sys input w (check_enqueue-IsSendable input pass))
        (put_outbox-IsWaiting k h old (queued_record sys input) w.store
          (unfold queued_record in refl) v)
  | inr (e, stop) ↦ rw (stop, enqueue_refused h sys input w e stop) v
]

set_outbox-IsWaiting :
    (k j : Str) (old r : EnvelopeRecord) (s : EnvelopeStore)
    → j ≢ k
    → IsWaiting k old s
    → IsWaiting k old (set_outbox j r s)
unfolding set_outbox
set_outbox-IsWaiting k j old r s other w = record {
  in_memory = w.in_memory;
  unlimited = w.unlimited;
  found = lookup_other k j r s.state.outbox other ∙ w.found;
  queued = w.queued;
}

run-IsWaiting :
    (k : Str) (h : Host) (calls : List (System × Operation)) (r : EnvelopeRecord) (w : World)
    → Unclaimed k calls
    → IsWaiting k r w.store
    → IsWaiting k (latest k r calls) (run h calls w).store
unfolding run perform claim_outbox receive_inbox put_inbox
run-IsWaiting k h [] r w none_claims v = v
run-IsWaiting k h ((sys, enqueue input) ∷ calls) r w rest v =
    run-IsWaiting k h calls _ _ rest (enqueue-IsWaiting k h r sys input w v)
run-IsWaiting k h ((sys, claim input) ∷ calls) r w (other, rest) v =
    run-IsWaiting k h calls r _ rest (
      after_store (IsWaiting k r) h sys (check_claim input w)
        (λ x. set_outbox input.envelope_ref (claimed_record sys input x)) (claimed_record sys input)
        w v (λ x pass. set_outbox-IsWaiting k input.envelope_ref r _ w.store other v))
run-IsWaiting k h ((sys, receive input) ∷ calls) r w rest v = run-IsWaiting k h calls r _ rest (
    after_store (IsWaiting k r) h sys (check_envelope inbox_receive input.envelope)
      (λ e. put_inbox h (received_record sys input e)) (received_record sys input) w v
      (λ e pass. record {
        in_memory = v.in_memory;
        unlimited = v.unlimited;
        found = v.found;
        queued = v.queued;
      }))

enqueued-IsWaiting :
    (h : Host) (sys : System) (input : OutboxEnqueueInput) (w : World)
    → str_eq w.store.config.backend local_file ≡ false
    → w.store.config.retention_limit ≡ 0
    → IsSendable input
    → IsWaiting
        (queued_record sys input).envelope_ref
        (queued_record sys input)
        (enqueue_outbox h sys input w).1.store
enqueued-IsWaiting h sys input w in_memory unlimited sendable =
    let r = queued_record sys input in
    rw (enqueue_store h sys input w sendable) (record {
      in_memory = unfold put_outbox in in_memory;
      unlimited = unfold put_outbox in unlimited;
      found = rw (str_eq_refl r.envelope_ref) at (lookup_put r.envelope_ref h r w.store unlimited);
      queued = unfold queued_record in refl;
    })

-- In memory and with no retention limit, an envelope that was queued can be claimed by anybody who
-- names it, after any further calls that do not claim it and whatever the store held before: also if
-- the reference was claimed before it was queued. The claim gets this envelope as it was queued,
-- unless a further call queued another one under the same reference: then it gets the last of those.
pub claim_outbox-available :
    (h : Host) (sys later : System) (input : OutboxEnqueueInput) (calls : List (System × Operation))
    (taking : OutboxClaimInput) (w : World)
    → str_eq w.store.config.backend local_file ≡ false
    → w.store.config.retention_limit ≡ 0
    → IsSendable input
    → Unclaimed (queued_record sys input).envelope_ref calls
    → taking.envelope_ref ≡ (queued_record sys input).envelope_ref
    → taking.claimant_ref ≢ []
    → (claim_outbox h later taking (run h calls (enqueue_outbox h sys input w).1)).0
      ≡ ok (
          claimed_record later taking
            (latest (queued_record sys input).envelope_ref (queued_record sys input) calls))
claim_outbox-available h sys later input calls taking w in_memory unlimited sendable unclaimed same
      who =
    let k = (queued_record sys input).envelope_ref in
    let r = queued_record sys input in
    let v : IsWaiting k (latest k r calls) (run h calls (enqueue_outbox h sys input w).1).store =
      run-IsWaiting k h calls r _ unclaimed
        (enqueued-IsWaiting h sys input w in_memory unlimited sendable) in
    claim_memory h later taking _ (latest k r calls) v.in_memory (record {
      named = rw same (unfold queued_record in envelope_ref-nonempty _ _ _ _ _ _);
      claimant = who;
      found = rw same v.found;
      queued = v.queued;
    })
