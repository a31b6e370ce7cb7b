-- ===== src/Envelope/Tests.antt =====
-- The envelope stores at concrete inputs: a host that ranges over a map in its order, and a store
-- file that is known.
use workflow_plugin_signal.Base.{
  ℕ, suc, pos, ◌≡◌, ◌≤ℤ◌, ◌⊎◌, refl, subst, true, false, none, some, [], ◌∷◌, arith, Str, lit,
  str_eq, ltb_ℤ, length, Dict, lookup, insert, remove, Distinct, ok, err, inl, inr,
}
use Prim.Native.Nat.{min}
use workflow_plugin_signal.Text.{first_non_empty, trim}
use workflow_plugin_signal.Refs.{envelope_ref, sanitize_envelope_ref_part}
use workflow_plugin_signal.Envelope.{
  SignalEnvelope, EnvelopeRecord, EnvelopeStoreState, EnvelopeStoreConfig, EnvelopeStore, memory,
  local_file, OutboxEnqueueInput, OutboxClaimInput, Error, already, Host, RangeLaws, JsonLaws,
  complete, System, World,
}
use workflow_plugin_signal.Envelope.Retention.{
  age_stamp, oldest_step, find_oldest, retention_loop, enforce_retention,
}
use workflow_plugin_signal.Envelope.Retention.Laws.{
  length-enforce_retention, enforce_retention-evicts_oldest,
}
use workflow_plugin_signal.Envelope.Store.{
  check_envelope, check_enqueue, queued_record, put_outbox, enqueue_outbox, check_claim,
  claim_outbox, persist_locked, replace_file, finish, init_store, empty_store, envelope_unix_time,
}
use workflow_plugin_signal.Envelope.Store.Persist.{Saved, persist_locked_atomic}
use workflow_plugin_signal.Envelope.Store.Queue.{
  IsSendable, IsQueued, claim_outbox_once, enqueue_outbox_memory,
}
use workflow_plugin_signal.Envelope.Store.Eviction.{enqueue_outbox-loses_oldest}
use workflow_plugin_signal.Envelope.Store.Restart.{enqueue, claim, perform, perform-Restarts}
use workflow_plugin_signal.Envelope.Store.Invariant.{IsValid}
use workflow_plugin_signal.Envelope.Store.Reachable.{run, run-IsValid}
use workflow_plugin_signal.Envelope.Registry.{
  EnvelopeStores, Process, register, allocate, with_store, lookup_signal_envelope_store,
  with_store-register,
}
use workflow_plugin_signal.Envelope.Steps.{
  InboxDecryptConfig, InboxDecryptInput, Decrypt, IsReceived, decrypted, decrypt_request,
  execute_signal_inbox_decrypt, execute_signal_inbox_decrypt_guarded,
}

abbrev letter : SignalEnvelope
letter = record {
  sender_id = lit "alice";
  sender_device_id = 1;
  recipient_id = lit "bob";
  recipient_device_id = 1;
  message_type = lit "prekey";
  ciphertext = 7 ∷ [];
}

abbrev pub message : OutboxEnqueueInput
message = record {
  store_ref = lit "main";
  envelope = some letter;
  message_ref = lit "m1";
  sender_ref = lit "alice";
  recipient_ref = lit "bob";
  custody_ref = lit "c";
  authz_ref = lit "z";
  idempotency_key = lit "k1";
  requested_at_unix = pos 50;
}

pub sendable : IsSendable message
sendable = record {
  envelope = letter;
  given = refl;
  ciphertext = λ e. cc;
  custody = λ e. cc;
  authz = λ e. cc;
  sender = λ e. cc;
  recipient = λ e. cc;
  keyed = inl (λ e. cc);
}

abbrev pub calm : System
calm = record {
  now = pos 100;
  nanos = lit "5";
  mkdir_fails = false;
  write = complete;
  rename_fails = false;
}

abbrev pub config : Str → ℕ → EnvelopeStoreConfig
config backend limit = record {
  store_ref = lit "ref";
  backend = backend;
  storage_path = lit "state.json";
  retention_limit = limit;
  allow_local_file_envelope = true;
  policy_mode = [];
}

abbrev pub world : EnvelopeStoreConfig → World
world cfg = record { store = empty_store cfg; files = [] }

-- A host that reads no file.
abbrev unread : Host
unread = record { encode = λ s. some []; decode = λ raw. none; range = λ n q. q }

abbrev after_message : EnvelopeStoreState
after_message = (perform unread calm (enqueue message) (world (config local_file 0))).1.store.state

-- A host whose file reads as the state after the first message.
abbrev pub host : Host
host = record unread {
  decode = λ raw. some (record {
    version = after_message.version;
    outbox = some after_message.outbox;
    inbox = some after_message.inbox;
  });
}

pub range_laws : RangeLaws host
range_laws = record { range-Distinct = λ n q d. d; lookup-range = λ n q k d. refl }

json_laws :
    JsonLaws host (perform host calm (enqueue message) (world (config local_file 0))).1.store.state
unfolding perform enqueue_outbox check_enqueue check_envelope finish put_outbox enforce_retention
json_laws = record { decode-encode = λ raw e. refl }

stored_ok :
    (perform host calm (enqueue message) (world (config local_file 0))).0
    ≡ ok (queued_record calm message)
unfolding perform enqueue_outbox check_enqueue check_envelope finish put_outbox enforce_retention
    persist_locked replace_file str_eq queued_record
stored_ok = refl

perform-Restarts_example :
    init_store host false
      (perform host calm (enqueue message) (world (config local_file 0))).1.files
      (config local_file 0)
    ≡ ok (perform host calm (enqueue message) (world (config local_file 0))).1.store
perform-Restarts_example =
    perform-Restarts host calm (enqueue message) (world (config local_file 0)) json_laws refl refl
      stored_ok

persist_locked_atomic_example :
    Saved host
      (empty_store (config local_file 0))
      []
      (persist_locked host calm (empty_store (config local_file 0)) [])
persist_locked_atomic_example =
    persist_locked_atomic host calm (empty_store (config local_file 0)) [] refl

pub in_memory : str_eq memory local_file ≡ false
unfolding str_eq
in_memory = refl

enqueue_outbox_memory_example :
    (IsSendable message
      × IsQueued
          (queued_record calm message)
          (world (config memory 3))
          (enqueue_outbox host calm message (world (config memory 3))))
    ⊎ ((¬ IsSendable message)
        × ((e : Error) × (enqueue_outbox host calm message (world (config memory 3))
              ≡ (err e, world (config memory 3)))))
enqueue_outbox_memory_example =
    enqueue_outbox_memory host calm message (world (config memory 3)) in_memory (inr (omega arith))

abbrev pub claim_first : OutboxClaimInput
claim_first = record {
  store_ref = lit "main";
  envelope_ref = (queued_record calm message).envelope_ref;
  claimant_ref = lit "worker";
  lease_id = [];
  requested_at_unix = pos 60;
}

abbrev sent : World
sent = (enqueue_outbox host calm message (world (config memory 0))).1

claimable : check_claim claim_first sent ≡ ok (queued_record calm message)
unfolding check_claim enqueue_outbox check_enqueue check_envelope finish put_outbox
    enforce_retention insert lookup queued_record str_eq envelope_ref first_non_empty
    sanitize_envelope_ref_part trim
claimable = refl

claim_outbox_once_example :
    claim_outbox host calm claim_first (claim_outbox host calm claim_first sent).1 ≡ (
      err (already claim_first.envelope_ref (lit "claimed")),
      (claim_outbox host calm claim_first sent).1,
    )
claim_outbox_once_example =
    claim_outbox_once host calm calm claim_first claim_first sent (queued_record calm message)
      claimable refl (λ e. cc)

run-IsValid_example :
    IsValid
      (run host
        ((calm, enqueue message) ∷ (calm, claim claim_first) ∷ [])
        (world (config memory 3))).store
run-IsValid_example =
    run-IsValid host (config memory 3) [] ((calm, enqueue message) ∷ (calm, claim claim_first) ∷ [])
      range_laws

-- A record of the outbox that was created at a time.
abbrev created_at : ℕ → EnvelopeRecord
created_at n = record (queued_record calm message) { created_at_unix = pos n }

abbrev newer_outbox : Dict EnvelopeRecord
newer_outbox = (lit "a", created_at 500) ∷ []

abbrev crowded : Dict EnvelopeRecord
crowded = (lit "b", created_at 20) ∷ newer_outbox

crowded-Distinct : Distinct crowded
unfolding lookup str_eq
crowded-Distinct = (refl, (refl, tt))

length-enforce_retention_example :
    length (enforce_retention host 1 crowded) ≡ min (length crowded) 1
length-enforce_retention_example =
    length-enforce_retention host range_laws 1 crowded (omega arith) crowded-Distinct

evicted : lookup (lit "b") (enforce_retention host 1 crowded) ≡ none
unfolding enforce_retention retention_loop find_oldest lookup str_eq oldest_step remove
evicted = refl

stays : lookup (lit "a") (enforce_retention host 1 crowded) ≡ some (created_at 500)
unfolding enforce_retention retention_loop find_oldest lookup str_eq oldest_step remove
stays = refl

there : lookup (lit "b") crowded ≡ some (created_at 20)
unfolding lookup str_eq
there = refl

unnamed : lookup [] crowded ≡ none
unfolding lookup str_eq
unnamed = refl

enforce_retention-evicts_oldest_example : age_stamp (created_at 20) ≤ℤ age_stamp (created_at 500)
enforce_retention-evicts_oldest_example =
    enforce_retention-evicts_oldest host range_laws 1 crowded (lit "b") (created_at 20) (lit "a")
      (created_at 500) crowded-Distinct unnamed there evicted stays

abbrev full : World
full = record {
  store = record {
    config = config memory 1;
    state = record { version = 1; outbox = newer_outbox; inbox = [] };
  };
  files = [];
}

newer_found : (j : Str) (s : EnvelopeRecord) → lookup j newer_outbox ≡ some s → created_at 500 ≡ s
unfolding lookup
newer_found j s f = ground arith

message_older : ltb_ℤ (age_stamp (queued_record calm message)) (age_stamp (created_at 500)) ≡ true
unfolding age_stamp queued_record envelope_unix_time
message_older = refl

message_new : lookup (queued_record calm message).envelope_ref newer_outbox ≡ none
unfolding lookup str_eq queued_record envelope_ref first_non_empty sanitize_envelope_ref_part trim
message_new = refl

outbox_unnamed : lookup [] newer_outbox ≡ none
unfolding lookup str_eq
outbox_unnamed = refl

enqueue_outbox-loses_oldest_example :
    ((enqueue_outbox host calm message full).0 ≡ ok (queued_record calm message))
    × (lookup
          (queued_record calm message).envelope_ref
          (enqueue_outbox host calm message full).1.store.state.outbox
        ≡ none)
enqueue_outbox-loses_oldest_example =
    enqueue_outbox-loses_oldest host calm message full range_laws in_memory (omega arith)
      (omega arith) (crowded-Distinct.1) outbox_unnamed message_new
      (λ j s f.
        subst (λ x. ltb_ℤ (age_stamp (queued_record calm message)) (age_stamp x) ≡ true)
          (newer_found j s f) message_older)
      sendable

abbrev no_stores : EnvelopeStores
no_stores = record { handles = []; stores = [] }

abbrev main_store : EnvelopeStore
main_store = empty_store (config memory 0)

with_store-register_example :
    ((with_store
        (lit "main")
        (enqueue_outbox host calm message)
        (record { registry = register (lit "main") main_store no_stores; files = [] })).0
      ≡ (enqueue_outbox host calm message (record { store = main_store; files = [] })).0)
    × (lookup_signal_envelope_store
          (lit "ref")
          (with_store (lit "main") (enqueue_outbox host calm message) (record {
            registry = register (lit "main") main_store no_stores;
            files = [];
          })).1.registry
        ≡ ok (
          (allocate [] main_store).0,
          (enqueue_outbox host calm message (record { store = main_store; files = [] })).1.store,
        ))
with_store-register_example =
    with_store-register (lit "main") main_store no_stores [] (enqueue_outbox host calm message)
      (λ e. cc) (λ e. cc)

abbrev decrypt_config : InboxDecryptConfig
decrypt_config = record { store_ref = lit "main"; identity_ref = []; required_principal = [] }

abbrev decrypt_input : InboxDecryptInput
decrypt_input = record {
  store_ref = [];
  envelope_ref = lit "in";
  custody_ref = lit "c";
  authz_ref = lit "z";
  identity_ref = lit "bob";
  principal = [];
}

-- A session counts its messages.
abbrev counting : Decrypt ℕ
counting request n = (ok (record { denied = false; error = []; plaintext = 1 ∷ [] }), suc n)

abbrev received_process : Process
received_process = record {
  registry =
      register (lit "main")
        (record main_store {
          state = record main_store.state { inbox = (lit "in", created_at 9) ∷ [] };
        })
        no_stores;
  files = [];
}

execute_signal_inbox_decrypt_guarded_example :
    ((r : EnvelopeRecord) × IsReceived decrypt_config decrypt_input received_process.registry r
      × (execute_signal_inbox_decrypt counting decrypt_config decrypt_input received_process 0
          ≡ decrypted decrypt_input r
              (counting (decrypt_request decrypt_config decrypt_input r) 0)))
    ⊎ ((e : Error) × (execute_signal_inbox_decrypt counting decrypt_config decrypt_input
            received_process 0
          ≡ (err e, 0)))
execute_signal_inbox_decrypt_guarded_example =
    execute_signal_inbox_decrypt_guarded counting decrypt_config decrypt_input received_process 0
