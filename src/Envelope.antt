-- ===== src/Envelope.antt =====
-- The data of internal/envelope_store.go, with the messages of the generated contracts that it
-- reads, and what the store takes from outside the repository: JSON, the file system, the clock
-- and the order in which Go ranges over a map.
pub mod Retention
pub mod Store
pub mod Registry
pub mod Steps
mod Tests
use workflow_plugin_signal.Base.{
  ℕ, ℤ, ◌≡◌, Bool, Option, none, some, List, Str, lit, Dict, lookup, Distinct,
}

pub record SignalEnvelope : Type 0 where
  pub sender_id : Str
  pub sender_device_id : ℕ
  pub recipient_id : Str
  pub recipient_device_id : ℕ
  pub message_type : Str
  pub ciphertext : List ℕ

pub record EnvelopeRecord : Type 0 where
  pub envelope : Option SignalEnvelope
  pub envelope_ref : Str
  pub queue : Str
  pub status : Str
  pub sender_ref : Str
  pub recipient_ref : Str
  pub custody_ref : Str
  pub authz_ref : Str
  pub message_ref : Str
  pub created_at_unix : ℤ
  pub claimed_at_unix : ℤ
  pub received_at_unix : ℤ
  pub lease_ref : Str

pub record EnvelopeStoreState : Type 0 where
  pub version : ℕ
  pub outbox : Dict EnvelopeRecord
  pub inbox : Dict EnvelopeRecord

pub record EnvelopeStoreConfig : Type 0 where
  pub store_ref : Str
  pub backend : Str
  pub storage_path : Str
  pub retention_limit : ℕ
  pub allow_local_file_envelope : Bool
  pub policy_mode : Str

pub record EnvelopeStore : Type 0 where
  pub config : EnvelopeStoreConfig
  pub state : EnvelopeStoreState

abbrev pub memory : Str
memory = lit "memory"

abbrev pub local_file : Str
local_file = lit "local_file"

pub record OutboxEnqueueInput : Type 0 where
  pub store_ref : Str
  pub envelope : Option SignalEnvelope
  pub message_ref : Str
  pub sender_ref : Str
  pub recipient_ref : Str
  pub custody_ref : Str
  pub authz_ref : Str
  pub idempotency_key : Str
  pub requested_at_unix : ℤ

pub record OutboxClaimInput : Type 0 where
  pub store_ref : Str
  pub envelope_ref : Str
  pub claimant_ref : Str
  pub lease_id : Str
  pub requested_at_unix : ℤ

pub record InboxReceiveInput : Type 0 where
  pub store_ref : Str
  pub envelope_ref : Str
  pub envelope : Option SignalEnvelope
  pub recipient_ref : Str
  pub idempotency_key : Str
  pub requested_at_unix : ℤ

pub record EnvelopeQueueMetadata : Type 0 where
  pub envelope_ref : Str
  pub queue : Str
  pub status : Str
  pub sender_ref : Str
  pub recipient_ref : Str
  pub custody_ref : Str
  pub authz_ref : Str
  pub message_ref : Str
  pub created_at_unix : ℤ
  pub claimed_at_unix : ℤ
  pub received_at_unix : ℤ
  pub lease_ref : Str

-- The errors, each with the operation and the field, reference or version that its text names.
pub data Error : Type 0 where
  is_required : Str → Str → Error
  not_queued not_received not_registered unsupported_backend : Str → Error
  already : Str → Str → Error
  local_file_denied production_rejects_local_file : Error
  read_storage decode_storage encode_storage : Error
  create_storage_dir write_storage_temp replace_storage : Error
  unsupported_storage_version : ℕ → Error
  decrypt_failed : Str → Error

-- What json.Unmarshal makes of a file: a missing map is nil.
pub record StoredState : Type 0 where
  pub version : ℕ
  pub outbox : Option (Dict EnvelopeRecord)
  pub inbox : Option (Dict EnvelopeRecord)

-- Go's encoding/json at the store's state, and the order of `range` over a queue, which may differ
-- from one round of a loop to the next.
pub record Host : Type 0 where
  pub encode : EnvelopeStoreState → Option (List ℕ)
  pub decode : List ℕ → Option StoredState
  pub range : ℕ → Dict EnvelopeRecord → Dict EnvelopeRecord

-- `range` visits each entry of a map exactly once.
pub record RangeLaws (h : Host) : Type 0 where
  pub range-Distinct : (n : ℕ) (q : Dict EnvelopeRecord) → Distinct q → Distinct (h.range n q)
  pub lookup-range :
      (n : ℕ) (q : Dict EnvelopeRecord) (k : Str) → Distinct q → lookup k (h.range n q) ≡ lookup k q

-- What a state is encoded to decodes to the same state, its maps present.
pub record JsonLaws (h : Host) (s : EnvelopeStoreState) : Type 0 where
  pub decode-encode :
      (raw : List ℕ)
      → h.encode s ≡ some raw
      → h.decode raw
        ≡ some (record { version = s.version; outbox = some s.outbox; inbox = some s.inbox })

-- os.WriteFile: it writes all, or fails and leaves what it wrote, if it created the file at all.
pub data Write : Type 0 where
  complete : Write
  partial : Option (List ℕ) → Write

-- What a call meets outside: the clock, and which system calls fail. `nanos` is the decimal text of
-- the clock's nanoseconds, used only where a reference would be empty.
pub record System : Type 0 where
  pub now : ℤ
  pub nanos : Str
  pub mkdir_fails : Bool
  pub write : Write
  pub rename_fails : Bool

abbrev pub Files : Type 0
Files = Dict (List ℕ)

-- One store and the files of the host.
pub record World : Type 0 where
  pub store : EnvelopeStore
  pub files : Files
