-- ===== src/Envelope/Store/Refinement.antt =====
-- The outbox of a store keeps what a board promises, whatever fails to be saved.
use workflow_plugin_signal.Base.{
  ℕ, ◌≤◌, ◌≡◌, refl, ap, ◌∙◌, ◌⊎◌, inl, inr, Option, none, some, List, [], ◌∷◌, arith,
  if◌then◌else◌, Str, lit, str_eq, Dict, lookup, insert, lookup-insert, Result, ok, err, after,
  Option-cases, Bool-cases,
}
use workflow_plugin_signal.Envelope.{
  EnvelopeRecord, EnvelopeStore, EnvelopeStoreConfig, Error, Host, RangeLaws, System, World, Files,
}
use workflow_plugin_signal.Envelope.Retention.{enforce_retention}
use workflow_plugin_signal.Envelope.Retention.Laws.{enforce_retention-kept}
use workflow_plugin_signal.Envelope.Store.{
  finish, check_envelope, check_enqueue, check_claim, queued_record, claimed_record,
  received_record, put_outbox, set_outbox, put_inbox, enqueue_outbox, claim_outbox, receive_inbox,
  empty_store, inbox_receive,
}
use workflow_plugin_signal.Envelope.Store.Queue.{check_claim-IsClaimable}
use workflow_plugin_signal.Envelope.Store.Restart.{Operation, enqueue, claim, receive, perform}
use workflow_plugin_signal.Envelope.Store.Reachable.{run}
use workflow_plugin_signal.Envelope.Store.Board.{
  Ticket, waiting, taken, Board, put, Event, idle, offer, take, Step, nothing_done, offered,
  claimed, Run, done, then_step, takes_of, offers_of, count, takes_all,
}

abbrev pub ticket : EnvelopeRecord → Ticket
ticket r = if str_eq r.status (lit "queued") then waiting else taken r.lease_ref

abbrev pub ticket_of : Option EnvelopeRecord → Option Ticket
ticket_of none = none
ticket_of (some r) = some (ticket r)

abbrev pub board : EnvelopeStore → Board
board s k = ticket_of (lookup k s.state.outbox)

abbrev event_if : {A : Type 0} → Result Error A → (A → Event) → Event
event_if (ok a) f = f a
event_if (err e) f = idle

-- What an operation does to the board: an input that is accepted offers its envelope, or takes one.
unfoldable pub event : System → Operation → World → Event
event sys (enqueue input) w =
    event_if (check_enqueue input) (λ _. offer (queued_record sys input).envelope_ref)
event sys (claim input) w =
    event_if (check_claim input w)
      (λ r. take input.envelope_ref (claimed_record sys input r).lease_ref)
event sys (receive input) w = idle

ticket_of-insert :
    (k : Str) (r : EnvelopeRecord) (q : Dict EnvelopeRecord) (t : Ticket) (j : Str)
    → ticket r ≡ t
    → ticket_of (lookup j (insert k r q)) ≡ put k t (λ i. ticket_of (lookup i q)) j
ticket_of-insert k r q t j same = elim (Bool-cases (str_eq k j)) [
  | inl here ↦ rw (lookup-insert k j r q, here, same) refl
  | inr other ↦ rw (lookup-insert k j r q, other) refl
]

ticket_of-enforce_retention :
    (h : Host) (laws : RangeLaws h) (limit : ℕ) (q : Dict EnvelopeRecord) (j : Str)
    → (ticket_of (lookup j (enforce_retention h limit q)) ≡ ticket_of (lookup j q))
      ⊎ (ticket_of (lookup j (enforce_retention h limit q)) ≡ none)
ticket_of-enforce_retention h laws limit q j =
    elim (Option-cases (lookup j (enforce_retention h limit q))) [
      | inl lost ↦ rw lost (inr refl)
      | inr (r, kept) ↦ rw (kept, enforce_retention-kept h laws limit q j r kept) (inl refl)
    ]

enqueue-Step :
    (h : Host) (laws : RangeLaws h) (r : EnvelopeRecord) (s : EnvelopeStore)
    → ticket r ≡ waiting
    → Step (offer r.envelope_ref) (board s) (board (put_outbox h r s))
unfolding put_outbox
enqueue-Step h laws r s fresh = offered r.envelope_ref (λ j.
    elim (ticket_of-enforce_retention h laws s.config.retention_limit
      (insert r.envelope_ref r s.state.outbox) j) [
        | inl kept ↦ inl (kept ∙ ticket_of-insert r.envelope_ref r s.state.outbox waiting j fresh)
        | inr lost ↦ inr lost
      ])

claim-Step :
    (k : Str) (r claimed_r : EnvelopeRecord) (s : EnvelopeStore)
    → lookup k s.state.outbox ≡ some r
    → r.status ≡ lit "queued"
    → ticket claimed_r ≡ taken claimed_r.lease_ref
    → Step (take k claimed_r.lease_ref) (board s) (board (set_outbox k claimed_r s))
unfolding set_outbox str_eq
claim-Step k r claimed_r s found queued lease =
    claimed k claimed_r.lease_ref (rw (found, queued) refl)
      (λ j. ticket_of-insert k claimed_r s.state.outbox (taken claimed_r.lease_ref) j lease)

after-Step :
    {A : Type 0} (h : Host) (sys : System) (checks : Result Error A)
    (s : A → EnvelopeStore → EnvelopeStore) (r : A → EnvelopeRecord) (f : A → Event) (w : World)
    → ((a : A) → checks ≡ ok a → Step (f a) (board w.store) (board (s a w.store)))
    → Step
        (event_if checks f)
        (board w.store)
        (board (after checks (λ a w'. finish h sys (s a w'.store) (r a) w'.files) w).1.store)
unfolding finish
after-Step h sys (ok a) s r f w accepted = accepted a refl
after-Step h sys (err e) s r f w accepted = nothing_done (λ j. refl)

receive-Step :
    {A : Type 0} (h : Host) (sys : System) (checks : Result Error A)
    (s : A → EnvelopeStore → EnvelopeStore) (r : A → EnvelopeRecord) (w : World)
    → ((a : A) → (s a w.store).state.outbox ≡ w.store.state.outbox)
    → Step idle
        (board w.store)
        (board (after checks (λ a w'. finish h sys (s a w'.store) (r a) w'.files) w).1.store)
unfolding finish
receive-Step h sys (ok a) s r w same = nothing_done (λ j. ap (λ q. ticket_of (lookup j q)) (same a))
receive-Step h sys (err e) s r w same = nothing_done (λ j. refl)

-- Whatever fails to be saved, an operation on a store is a step of its board: an enqueued input
-- that is accepted offers its envelope, an accepted claim takes a ticket that was waiting, and
-- anything else leaves the board.
pub perform-Step :
    (h : Host) (sys : System) (op : Operation) (w : World)
    → RangeLaws h
    → Step (event sys op w) (board w.store) (board (perform h sys op w).1.store)
unfolding event perform enqueue_outbox claim_outbox receive_inbox put_inbox queued_record
    claimed_record str_eq
perform-Step h sys (enqueue input) w laws =
    after-Step h sys (check_enqueue input) (λ _. put_outbox h (queued_record sys input))
      (λ _. queued_record sys input) (λ _. offer (queued_record sys input).envelope_ref) w
      (λ _ pass. enqueue-Step h laws (queued_record sys input) w.store refl)
perform-Step h sys (claim input) w laws =
    after-Step h sys (check_claim input w)
      (λ r. set_outbox input.envelope_ref (claimed_record sys input r)) (claimed_record sys input)
      (λ r. take input.envelope_ref (claimed_record sys input r).lease_ref) w
      (λ r pass.
        let c = check_claim-IsClaimable input w r pass in
        claim-Step input.envelope_ref r (claimed_record sys input r) w.store c.found c.queued refl)
perform-Step h sys (receive input) w laws =
    receive-Step h sys (check_envelope inbox_receive input.envelope)
      (λ e. put_inbox h (received_record sys input e)) (received_record sys input) w (λ e. refl)

-- The events of a history.
unfoldable pub events : Host → List (System × Operation) → World → List Event
events h [] w = []
events h ((sys, op) ∷ calls) w = event sys op w ∷ events h calls (perform h sys op w).1

run-Run :
    (h : Host) (calls : List (System × Operation)) (w : World)
    → RangeLaws h
    → Run (events h calls w) (board w.store) (board (run h calls w).store)
unfolding events run
run-Run h [] w laws = done
run-Run h ((sys, op) ∷ calls) w laws =
    then_step (perform-Step h sys op w laws) (run-Run h calls (perform h sys op w).1 laws)

-- In any history of a new store, whatever failed on the way, the claims of an envelope that are
-- accepted are at most as many as the inputs that enqueued it.
pub claims-bounded :
    (h : Host) (cfg : EnvelopeStoreConfig) (files : Files) (calls : List (System × Operation))
    (k : Str)
    → RangeLaws h
    → count (takes_of k) (events h calls (record { store = empty_store cfg; files = files }))
      ≤ count (offers_of k) (events h calls (record { store = empty_store cfg; files = files }))
unfolding lookup
claims-bounded h cfg files calls k laws =
    let w : World = record { store = empty_store cfg; files = files } in
    let bound = takes_all k _ _ _ (run-Run h calls w laws) in omega arith
