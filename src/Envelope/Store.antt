-- ===== src/Envelope/Store.antt =====
-- The store's operations in internal/envelope_store.go: `newEnvelopeStoreModule`, `enqueueOutbox`,
-- `claimOutbox`, `receiveInbox`, `inbox`, `load` and `persistLocked`. The mutex makes each operation
-- atomic, so an operation is one function on the store and the files.
pub mod Persist
pub mod Queue
pub mod Eviction
pub mod Invariant
pub mod Restart
pub mod Reachable
pub mod Board
pub mod Refinement
pub mod Waiting
mod Tests
use workflow_plugin_signal.Base.{
  ℕ, ℤ, zero, pos, Bool, true, false, not, ◌&&◌, ◌||◌, ◌==◌, Option, none, some, List, [], ◌∷◌,
  ◌++◌, if◌then◌else◌, is_zero, Str, lit, is_empty, str_eq, Dict, lookup, insert, remove, Result,
  ok, err, ◌>>=◌, ◌>>◌, fail_if, or_fail, after,
}
use workflow_plugin_signal.Text.{first_non_empty}
use workflow_plugin_signal.Refs.{sanitize_envelope_ref_part, envelope_ref, production_policy_mode}
use workflow_plugin_signal.Envelope.{
  SignalEnvelope, EnvelopeRecord, EnvelopeStoreState, EnvelopeStoreConfig, EnvelopeStore, memory,
  local_file, OutboxEnqueueInput, OutboxClaimInput, InboxReceiveInput, EnvelopeQueueMetadata, Error,
  is_required, not_queued, not_received, unsupported_backend, already, local_file_denied,
  production_rejects_local_file, read_storage, decode_storage, encode_storage, create_storage_dir,
  write_storage_temp, replace_storage, unsupported_storage_version, StoredState, Host, Write,
  complete, partial, System, Files, World,
}
use workflow_plugin_signal.Envelope.Retention.{enforce_retention}

abbrev store_name : Str
store_name = lit "signal envelope store"

-- The configuration that the module keeps, its backend filled in.
unfoldable pub new_envelope_store_module : EnvelopeStoreConfig → Result Error EnvelopeStoreConfig
new_envelope_store_module cfg =
    let backend = if is_empty cfg.backend then memory else cfg.backend in
    let kept : EnvelopeStoreConfig = record cfg { backend = backend } in
    if str_eq backend memory
    then ok kept
    else if str_eq backend local_file
    then (do
      fail_if (not cfg.allow_local_file_envelope) local_file_denied
      fail_if (is_empty cfg.storage_path) (is_required store_name (lit "storage_path"))
      fail_if (production_policy_mode cfg.policy_mode) production_rejects_local_file
      ok kept)
    else err (unsupported_backend backend)

unfoldable pub clone_signal_envelope : Option SignalEnvelope → Option SignalEnvelope
clone_signal_envelope none = none
clone_signal_envelope (some e) = some (record {
  sender_id = e.sender_id;
  sender_device_id = e.sender_device_id;
  recipient_id = e.recipient_id;
  recipient_device_id = e.recipient_device_id;
  message_type = e.message_type;
  ciphertext = e.ciphertext;
})

unfoldable pub clone_envelope_record : EnvelopeRecord → EnvelopeRecord
unfolding clone_signal_envelope
clone_envelope_record r = record r { envelope = clone_signal_envelope r.envelope }

unfoldable pub envelope_unix_time : System → ℤ → ℤ
envelope_unix_time sys ts = if is_zero ts then sys.now else ts

-- `persistLocked`: nothing but for local_file; else a temporary file, then a rename over the path.
unfoldable pub temp_path : Str → Str
temp_path path = path ++ lit ".tmp"

unfoldable pub write_temp : Files → Str → List ℕ → Write → Files
write_temp files path raw complete = insert (temp_path path) raw files
write_temp files path raw (partial none) = files
write_temp files path raw (partial (some part)) = insert (temp_path path) part files

-- What a failed write means to the caller.
abbrev write_error : Write → Bool
write_error complete = false
write_error (partial part) = true

unfoldable pub replace_file : System → Files → Str → List ℕ → Result Error (Unit {0}) × Files
unfolding write_temp
replace_file sys files path raw =
    if sys.mkdir_fails
    then (err create_storage_dir, files)
    else if write_error sys.write
    then (err write_storage_temp, write_temp files path raw sys.write)
    else if sys.rename_fails
    then (err replace_storage, write_temp files path raw sys.write)
    else (ok tt, insert path raw (remove (temp_path path) (write_temp files path raw sys.write)))

unfoldable pub persist_locked :
    Host → System → EnvelopeStore → Files → Result Error (Unit {0}) × Files
persist_locked h sys s files =
    if str_eq s.config.backend local_file
    then elim (h.encode s.state) [
      | none ↦ (err encode_storage, files)
      | some raw ↦ replace_file sys files s.config.storage_path raw
    ]
    else (ok tt, files)

-- An operation has changed the store: persist, then return a copy of the record. A failure leaves
-- the change in memory.
unfoldable pub finish :
    Host → System → EnvelopeStore → EnvelopeRecord → Files → Result Error EnvelopeRecord × World
unfolding clone_envelope_record
finish h sys s r files =
    let done : Result Error (Unit {0}) × Files = persist_locked h sys s files in
    (done.0 >> ok (clone_envelope_record r), record { store = s; files = done.1 })

-- The checks on an envelope that `enqueueOutbox` and `receiveInbox` share.
unfoldable pub check_envelope : Str → Option SignalEnvelope → Result Error SignalEnvelope
check_envelope operation envelope = do
  e ← or_fail envelope (is_required operation (lit "envelope"))
  fail_if (is_empty e.ciphertext) (is_required operation (lit "ciphertext"))
  ok e

abbrev pub outbox_enqueue : Str
outbox_enqueue = lit "signal outbox enqueue"

unfoldable pub check_enqueue : OutboxEnqueueInput → Result Error (Unit {0})
unfolding check_envelope
check_enqueue input = do
  _ ← check_envelope outbox_enqueue input.envelope
  fail_if (is_empty input.custody_ref) (is_required outbox_enqueue (lit "custody_ref"))
  fail_if (is_empty input.authz_ref) (is_required outbox_enqueue (lit "authz_ref"))
  fail_if (is_empty input.sender_ref) (is_required outbox_enqueue (lit "sender_ref"))
  fail_if (is_empty input.recipient_ref) (is_required outbox_enqueue (lit "recipient_ref"))
  fail_if (is_empty input.idempotency_key && is_empty input.message_ref)
      (is_required outbox_enqueue (lit "idempotency_key or message_ref"))

unfoldable pub queued_record : System → OutboxEnqueueInput → EnvelopeRecord
unfolding clone_signal_envelope envelope_unix_time
queued_record sys input = record {
  envelope = clone_signal_envelope input.envelope;
  envelope_ref =
      envelope_ref sys.nanos (lit "outbox") input.idempotency_key input.sender_ref
        input.recipient_ref input.message_ref;
  queue = lit "outbox";
  status = lit "queued";
  sender_ref = input.sender_ref;
  recipient_ref = input.recipient_ref;
  custody_ref = input.custody_ref;
  authz_ref = input.authz_ref;
  message_ref = input.message_ref;
  created_at_unix = envelope_unix_time sys input.requested_at_unix;
  claimed_at_unix = pos 0;
  received_at_unix = pos 0;
  lease_ref = [];
}

unfoldable pub put_outbox : Host → EnvelopeRecord → EnvelopeStore → EnvelopeStore
put_outbox h r s = record s {
  state = record s.state {
    outbox = enforce_retention h s.config.retention_limit (insert r.envelope_ref r s.state.outbox);
  };
}

unfoldable pub enqueue_outbox :
    Host → System → OutboxEnqueueInput → World → Result Error EnvelopeRecord × World
enqueue_outbox h sys input w =
    let r = queued_record sys input in
    after (check_enqueue input) (λ _ w'. finish h sys (put_outbox h r w'.store) r w'.files) w

abbrev pub outbox_claim : Str
outbox_claim = lit "signal outbox claim"

unfoldable pub check_claim : OutboxClaimInput → World → Result Error EnvelopeRecord
check_claim input w = do
  fail_if (is_empty input.envelope_ref) (is_required outbox_claim (lit "envelope_ref"))
  fail_if (is_empty input.claimant_ref) (is_required outbox_claim (lit "claimant_ref"))
  r ← or_fail (lookup input.envelope_ref w.store.state.outbox) (not_queued input.envelope_ref)
  fail_if (not (str_eq r.status (lit "queued"))) (already input.envelope_ref r.status)
  ok r

unfoldable pub claimed_record : System → OutboxClaimInput → EnvelopeRecord → EnvelopeRecord
unfolding envelope_unix_time
claimed_record sys input r = record r {
  status = lit "claimed";
  claimed_at_unix = envelope_unix_time sys input.requested_at_unix;
  lease_ref =
      lit "lease://signal/outbox/"
      ++ (sanitize_envelope_ref_part (first_non_empty (input.lease_id ∷ input.claimant_ref ∷ []))
          ++ (lit "/" ++ sanitize_envelope_ref_part input.envelope_ref));
}

-- The source writes through the pointer that the map holds, so the entry of the claimed reference
-- changes.
unfoldable pub set_outbox : Str → EnvelopeRecord → EnvelopeStore → EnvelopeStore
set_outbox ref r s = record s { state = record s.state { outbox = insert ref r s.state.outbox } }

unfoldable pub claim_outbox :
    Host → System → OutboxClaimInput → World → Result Error EnvelopeRecord × World
claim_outbox h sys input w =
    after (check_claim input w)
      (λ r w'.
        finish h sys (set_outbox input.envelope_ref (claimed_record sys input r) w'.store)
          (claimed_record sys input r) w'.files)
      w

abbrev pub inbox_receive : Str
inbox_receive = lit "signal inbox receive"

unfoldable pub received_record : System → InboxReceiveInput → SignalEnvelope → EnvelopeRecord
unfolding clone_signal_envelope envelope_unix_time
received_record sys input e = record {
  envelope = clone_signal_envelope input.envelope;
  envelope_ref = first_non_empty (
      input.envelope_ref
      ∷ envelope_ref sys.nanos (lit "inbox") input.idempotency_key input.recipient_ref e.sender_id
          []
      ∷ []);
  queue = lit "inbox";
  status = lit "received";
  sender_ref = [];
  recipient_ref = input.recipient_ref;
  custody_ref = [];
  authz_ref = [];
  message_ref = [];
  created_at_unix = pos 0;
  claimed_at_unix = pos 0;
  received_at_unix = envelope_unix_time sys input.requested_at_unix;
  lease_ref = [];
}

unfoldable pub put_inbox : Host → EnvelopeRecord → EnvelopeStore → EnvelopeStore
put_inbox h r s = record s {
  state = record s.state {
    inbox = enforce_retention h s.config.retention_limit (insert r.envelope_ref r s.state.inbox);
  };
}

unfoldable pub receive_inbox :
    Host → System → InboxReceiveInput → World → Result Error EnvelopeRecord × World
receive_inbox h sys input w =
    after (check_envelope inbox_receive input.envelope)
      (λ e w'.
        finish h sys (put_inbox h (received_record sys input e) w'.store)
          (received_record sys input e) w'.files)
      w

abbrev pub inbox_decrypt : Str
inbox_decrypt = lit "signal inbox decrypt"

unfoldable pub inbox : Str → EnvelopeStore → Result Error EnvelopeRecord
unfolding clone_envelope_record
inbox ref s = do
  fail_if (is_empty ref) (is_required inbox_decrypt (lit "envelope_ref"))
  r ← or_fail (lookup ref s.state.inbox) (not_received ref)
  ok (clone_envelope_record r)

abbrev or_empty : Option (Dict EnvelopeRecord) → Dict EnvelopeRecord
or_empty none = []
or_empty (some q) = q

-- `load`: a missing file leaves the state as it is. `read_fails` is any other failure of the read.
unfoldable pub load : Host → Bool → Files → EnvelopeStore → Result Error EnvelopeStore
load h read_fails files s =
    if read_fails then err read_storage else elim (lookup s.config.storage_path files) [
      | none ↦ ok s
      | some raw ↦ do
        stored ← or_fail (h.decode raw) decode_storage
        fail_if (not (stored.version == 1)) (unsupported_storage_version stored.version)
        ok (record s {
          state = record {
            version = stored.version;
            outbox = or_empty stored.outbox;
            inbox = or_empty stored.inbox;
          };
        })
    ]

-- The store that `Init` builds, before it is registered.
abbrev pub empty_store : EnvelopeStoreConfig → EnvelopeStore
empty_store cfg = record { config = cfg; state = record { version = 1; outbox = []; inbox = [] } }

unfoldable pub init_store : Host → Bool → Files → EnvelopeStoreConfig → Result Error EnvelopeStore
init_store h read_fails files cfg =
    if str_eq cfg.backend local_file
    then load h read_fails files (empty_store cfg)
    else ok (empty_store cfg)

unfoldable pub envelope_metadata : EnvelopeRecord → EnvelopeQueueMetadata
envelope_metadata r = record {
  envelope_ref = r.envelope_ref;
  queue = r.queue;
  status = r.status;
  sender_ref = r.sender_ref;
  recipient_ref = r.recipient_ref;
  custody_ref = r.custody_ref;
  authz_ref = r.authz_ref;
  message_ref = r.message_ref;
  created_at_unix = r.created_at_unix;
  claimed_at_unix = r.claimed_at_unix;
  received_at_unix = r.received_at_unix;
  lease_ref = r.lease_ref;
}
