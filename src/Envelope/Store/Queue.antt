-- ===== src/Envelope/Store/Queue.antt =====
-- What the queue operations do: which inputs they accept, what they store and return, and that an
-- outbox envelope is claimed at most once for each time that it is queued.
use workflow_plugin_signal.Base.{
  ℕ, suc, ◌≤◌, ◌<◌, ◌≡◌, ◌≢◌, refl, sym, subst, ap, ◌⊎◌, inl, inr, false, some, [], ◌∷◌,
  if◌then◌else◌, arith, Str, lit, str_eq, str_eq_iff, str_eq_refl, is_empty-false, length, Dict,
  lookup, insert, lookup-insert, Result, ok, err, Option-cases,
}
use workflow_plugin_signal.Envelope.{
  SignalEnvelope, EnvelopeStore, EnvelopeRecord, local_file, Error, already, Host, System, Files,
  World, OutboxEnqueueInput, OutboxClaimInput,
}
use workflow_plugin_signal.Refs.{envelope_ref}
use workflow_plugin_signal.Envelope.Retention.{enforce_retention}
use workflow_plugin_signal.Envelope.Store.{
  persist_locked, finish, clone_envelope_record, check_enqueue, queued_record, put_outbox,
  enqueue_outbox, check_claim, claimed_record, set_outbox, claim_outbox,
}

-- Copying a record changes nothing in it.
pub clone_envelope_record-eq : (r : EnvelopeRecord) → clone_envelope_record r ≡ r
unfolding clone_envelope_record
clone_envelope_record-eq r = ground arith

-- What `enqueueOutbox` asks of its input.
pub record IsSendable (input : OutboxEnqueueInput) : Type 0 where
  pub envelope : SignalEnvelope
  pub given : input.envelope ≡ some envelope
  pub ciphertext : envelope.ciphertext ≢ []
  pub custody : input.custody_ref ≢ []
  pub authz : input.authz_ref ≢ []
  pub sender : input.sender_ref ≢ []
  pub recipient : input.recipient_ref ≢ []
  pub keyed : (input.idempotency_key ≢ []) ⊎ (input.message_ref ≢ [])

pub check_enqueue-IsSendable :
    (input : OutboxEnqueueInput) → check_enqueue input ≡ ok tt → IsSendable input
unfolding check_enqueue
check_enqueue-IsSendable input e = elim (Option-cases input.envelope) [
  | inl missing ↦ absurd (ground arith)
  | inr (env, given) ↦ record {
    envelope = env;
    given = given;
    ciphertext = ground arith;
    custody = ground arith;
    authz = ground arith;
    sender = ground arith;
    recipient = ground arith;
    keyed = ground arith;
  }
]

pub IsSendable-check_enqueue :
    (input : OutboxEnqueueInput) → IsSendable input → check_enqueue input ≡ ok tt
unfolding check_enqueue
IsSendable-check_enqueue input v = ground arith

-- The checks of a claim pass exactly for a queued record and a named claimant.
pub record IsClaimable (input : OutboxClaimInput) (w : World) (r : EnvelopeRecord) : Type 0 where
  pub named : input.envelope_ref ≢ []
  pub claimant : input.claimant_ref ≢ []
  pub found : lookup input.envelope_ref w.store.state.outbox ≡ some r
  pub queued : r.status ≡ lit "queued"

pub check_claim-IsClaimable :
    (input : OutboxClaimInput) (w : World) (r : EnvelopeRecord)
    → check_claim input w ≡ ok r
    → IsClaimable input w r
unfolding check_claim
check_claim-IsClaimable input w r e =
    elim (Option-cases (lookup input.envelope_ref w.store.state.outbox)) [
      | inl missing ↦ absurd (ground arith)
      | inr (r', found) ↦ ground (arith, str_eq_iff r'.status (lit "queued"))
    ]

pub IsClaimable-check_claim :
    (input : OutboxClaimInput) (w : World) (r : EnvelopeRecord)
    → IsClaimable input w r
    → check_claim input w ≡ ok r
unfolding check_claim
IsClaimable-check_claim input w r c = ground (arith, str_eq_iff r.status (lit "queued"))

check_claim_claimed :
    (input : OutboxClaimInput) (w : World) (r : EnvelopeRecord)
    → input.envelope_ref ≢ []
    → input.claimant_ref ≢ []
    → lookup input.envelope_ref w.store.state.outbox ≡ some r
    → r.status ≡ lit "claimed"
    → check_claim input w ≡ err (already input.envelope_ref (lit "claimed"))
unfolding check_claim str_eq
check_claim_claimed input w r named claimant found status =
    rw (is_empty-false named, is_empty-false claimant, found, status) refl

pub claim_changes :
    (h : Host) (sys : System) (input : OutboxClaimInput) (w : World) (r : EnvelopeRecord)
    → check_claim input w ≡ ok r
    → (claim_outbox h sys input w).1.store
      ≡ set_outbox input.envelope_ref (claimed_record sys input r) w.store
unfolding claim_outbox finish
claim_changes h sys input w r e = rw e

lookup-claim :
    (h : Host) (sys : System) (input : OutboxClaimInput) (w : World) (r : EnvelopeRecord)
    → check_claim input w ≡ ok r
    → lookup input.envelope_ref (claim_outbox h sys input w).1.store.state.outbox
      ≡ some (claimed_record sys input r)
unfolding set_outbox
lookup-claim h sys input w r e =
    rw (claim_changes h sys input w r e, set_outbox) (simp (lookup-insert, str_eq_refl))

pub claim_refused :
    (h : Host) (sys : System) (input : OutboxClaimInput) (w : World) (e : Error)
    → check_claim input w ≡ err e
    → claim_outbox h sys input w ≡ (err e, w)
unfolding claim_outbox
claim_refused h sys input w e bad = rw bad

-- After a claim whose checks passed, whether or not it could be saved, a further claim of the
-- reference by a named claimant is refused with the status that the record has, and changes
-- nothing.
pub claim_outbox_once :
    (h : Host) (sys later : System) (input again : OutboxClaimInput) (w : World)
    (r : EnvelopeRecord)
    → check_claim input w ≡ ok r
    → again.envelope_ref ≡ input.envelope_ref
    → again.claimant_ref ≢ []
    → claim_outbox h later again (claim_outbox h sys input w).1
      ≡ (err (already again.envelope_ref (lit "claimed")), (claim_outbox h sys input w).1)
unfolding claimed_record
claim_outbox_once h sys later input again w r e same who =
    let c = check_claim-IsClaimable input w r e in
    claim_refused h later again _ _ (
      check_claim_claimed again _ (claimed_record sys input r) (rw same c.named) who
        (rw same (lookup-claim h sys input w r e)) refl)

-- A record as `finish` returns it.
pub finish_ok :
    (h : Host) (sys : System) (s : EnvelopeStore) (r : EnvelopeRecord) (files : Files)
    {r' : EnvelopeRecord}
    → (finish h sys s r files).0 ≡ ok r'
    → r' ≡ r
unfolding finish
finish_ok h sys s r files e = ground (arith, clone_envelope_record-eq r)

pub finish_memory :
    (h : Host) (sys : System) (s : EnvelopeStore) (r : EnvelopeRecord) (files : Files)
    → str_eq s.config.backend local_file ≡ false
    → finish h sys s r files ≡ (ok r, record { store = s; files = files })
unfolding finish persist_locked
finish_memory h sys s r files b = rw (b, clone_envelope_record-eq r)

pub check_cases : (r : Result Error (Unit {0})) → (r ≡ ok tt) ⊎ ((e : Error) × (r ≡ err e))
check_cases (ok _) = inl refl
check_cases (err e) = inr (e, refl)

pub envelope_ref-nonempty : (n q k s r m : Str) → envelope_ref n q k s r m ≢ []
unfolding envelope_ref
envelope_ref-nonempty n q k s r m = cc

enqueue_memory :
    (h : Host) (sys : System) (input : OutboxEnqueueInput) (w : World)
    → str_eq w.store.config.backend local_file ≡ false
    → check_enqueue input ≡ ok tt
    → enqueue_outbox h sys input w ≡ (
      ok (queued_record sys input),
      record w { store = put_outbox h (queued_record sys input) w.store },
    )
unfolding enqueue_outbox put_outbox
enqueue_memory h sys input w b pass = rw pass (finish_memory h sys _ _ _ b)

pub enqueue_refused :
    (h : Host) (sys : System) (input : OutboxEnqueueInput) (w : World) (e : Error)
    → check_enqueue input ≡ err e
    → enqueue_outbox h sys input w ≡ (err e, w)
unfolding enqueue_outbox
enqueue_refused h sys input w e stop = rw stop refl

pub no_limit :
    (h : Host) (limit : ℕ) (q : Dict EnvelopeRecord) → limit ≡ 0 → enforce_retention h limit q ≡ q
unfolding enforce_retention
no_limit h limit q e = ground arith

length-insert : {A : Type 0} (k : Str) (v : A) (q : Dict A) → length (insert k v q) ≤ suc (length q)
unfolding insert
length-insert k v [] = ground arith
length-insert k v ((j, x) ∷ q) = ground (arith, length-insert k v q)

-- An outbox that has room keeps what is put into it.
enforce_retention_room :
    (h : Host) (limit : ℕ) (r : EnvelopeRecord) (q : Dict EnvelopeRecord)
    → (limit ≡ 0) ⊎ (length q < limit)
    → enforce_retention h limit (insert r.envelope_ref r q) ≡ insert r.envelope_ref r q
enforce_retention_room h limit r q (inl none) = no_limit h limit _ none
enforce_retention_room h limit r q (inr room) =
    unfold enforce_retention in ground (arith, length-insert r.envelope_ref r q)

-- What a record that was accepted leaves of a world, as a reader of the outbox sees it.
pub record IsQueued (record_of : EnvelopeRecord) (w : World)
    (done : Result Error EnvelopeRecord × World) : Type 0 where
  pub returned : done.0 ≡ ok record_of
  pub outbox :
      (k : Str)
      → lookup k done.1.store.state.outbox ≡ (
          if str_eq record_of.envelope_ref k then some record_of else lookup k w.store.state.outbox)
  pub inbox : done.1.store.state.inbox ≡ w.store.state.inbox
  pub config : done.1.store.config ≡ w.store.config
  pub files : done.1.files ≡ w.files

put_outbox-IsQueued :
    (h : Host) (r : EnvelopeRecord) (w : World)
    → (w.store.config.retention_limit ≡ 0)
      ⊎ (length w.store.state.outbox < w.store.config.retention_limit)
    → IsQueued r w (ok r, record w { store = put_outbox h r w.store })
unfolding put_outbox
put_outbox-IsQueued h r w room = record {
  returned = refl;
  outbox = λ k.
      rw (enforce_retention_room h w.store.config.retention_limit r w.store.state.outbox room)
        (lookup-insert r.envelope_ref k r w.store.state.outbox);
  inbox = refl;
  config = refl;
  files = refl;
}

-- In memory, with no retention limit or with room below it, an envelope is accepted exactly when it
-- is sendable: then the record that is returned is found in the outbox under its reference, and
-- every other reference, the inbox, the configuration and the files are as they were. A refused
-- input changes nothing.
pub enqueue_outbox_memory :
    (h : Host) (sys : System) (input : OutboxEnqueueInput) (w : World)
    → str_eq w.store.config.backend local_file ≡ false
    → (w.store.config.retention_limit ≡ 0)
      ⊎ (length w.store.state.outbox < w.store.config.retention_limit)
    → (IsSendable input × IsQueued (queued_record sys input) w (enqueue_outbox h sys input w))
      ⊎ ((¬ IsSendable input) × ((e : Error) × (enqueue_outbox h sys input w ≡ (err e, w))))
enqueue_outbox_memory h sys input w b room = elim (check_cases (check_enqueue input)) [
  | inl pass ↦ inl (
    check_enqueue-IsSendable input pass,
    subst (IsQueued (queued_record sys input) w) (sym (enqueue_memory h sys input w b pass))
        (put_outbox-IsQueued h (queued_record sys input) w room),
  )
  | inr (e, stop) ↦
      inr (
        λ v. cc (IsSendable-check_enqueue input v, stop),
        (e, enqueue_refused h sys input w e stop),
      )
]

pub enqueue_store :
    (h : Host) (sys : System) (input : OutboxEnqueueInput) (w : World)
    → IsSendable input
    → (enqueue_outbox h sys input w).1.store ≡ put_outbox h (queued_record sys input) w.store
unfolding enqueue_outbox finish
enqueue_store h sys input w v = rw (IsSendable-check_enqueue input v)

pub claim_memory :
    (h : Host) (sys : System) (input : OutboxClaimInput) (w : World) (r : EnvelopeRecord)
    → str_eq w.store.config.backend local_file ≡ false
    → IsClaimable input w r
    → (claim_outbox h sys input w).0 ≡ ok (claimed_record sys input r)
unfolding claim_outbox set_outbox
claim_memory h sys input w r b c =
    rw (IsClaimable-check_claim input w r c)
      (ap (λ (x : Result Error EnvelopeRecord × World). x.0) (finish_memory h sys _ _ w.files b))

-- An envelope that was queued in memory with no retention limit can be claimed by anybody who names
-- it, whatever the store held before: also if the reference was already claimed once.
claim_outbox-enqueue_outbox :
    (h : Host) (sys later : System) (input : OutboxEnqueueInput) (claim : OutboxClaimInput)
    (w : World)
    → str_eq w.store.config.backend local_file ≡ false
    → w.store.config.retention_limit ≡ 0
    → IsSendable input
    → claim.envelope_ref ≡ (queued_record sys input).envelope_ref
    → claim.claimant_ref ≢ []
    → (claim_outbox h later claim (enqueue_outbox h sys input w).1).0
      ≡ ok (claimed_record later claim (queued_record sys input))
claim_outbox-enqueue_outbox h sys later input claim w b limit v same who =
    let w' = (enqueue_outbox h sys input w).1 in
    let stored = enqueue_store h sys input w v in
    claim_memory h later claim w' (queued_record sys input) (rw stored (unfold put_outbox in b))
      (record {
        named = rw same (unfold queued_record in envelope_ref-nonempty _ _ _ _ _ _);
        claimant = who;
        found =
            rw (stored, same)
              (unfold put_outbox in
                rw (no_limit h w.store.config.retention_limit _ limit)
                  (simp (lookup-insert, str_eq_refl)));
        queued = unfold queued_record in refl;
      })
