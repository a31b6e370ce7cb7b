-- ===== src/Custody/Steps.antt =====
-- The steps of internal/custody_steps.go over the registered custody stores. A handler looks its
-- store up by name, calls it, and reports references and metadata only.
pub mod Hints
use workflow_plugin_signal.Base.{
  ℕ, ℤ, pos, not, ◌&&◌, List, [], ◌∷◌, ◌++◌, if◌then◌else◌, is_zero, Str, lit, is_empty, str_eq,
  Dict, lookup, insert, Result, ok, err, ◌>>=◌, ◌>>◌, fail_if, or_fail, wrap,
}
use workflow_plugin_signal.Text.{first_non_empty}
use workflow_plugin_signal.Refs.{custody_audit_ref, custody_suffix}
use workflow_plugin_signal.Custody.Sealed
use workflow_plugin_signal.Custody.Sealed.{
  Time, Bytes, Material, Metadata, Crypto, System, Vault, is_zero_time,
}

pub record CustodyMetadata : Type 0 where
  pub backend_id : Str
  pub ref_id : Str
  pub schema_version : ℕ
  pub kek_ref : Str
  pub kek_version : Str
  pub created_at_unix : ℤ
  pub rotated_at_unix : ℤ
  pub revoked_at_unix : ℤ
  pub state : Str
  pub account_ref : Str
  pub device_ref : Str

pub data Error : Type 0 where
  store_ref_required : Error
  is_required : Str → Str → Error
  not_registered : Str → Error
  hint_mismatch : Str → Str → Error
  custody : Sealed.Error → Error

-- The registered stores. Each has its own vault, so their directories are different ones.
abbrev pub Stores : Type 0
Stores = Dict Vault

unfoldable pub lookup_signal_custody_store : Str → Stores → Result Error Vault
lookup_signal_custody_store ref stores = do
  fail_if (is_empty ref) store_ref_required
  or_fail (lookup ref stores) (not_registered ref)

unfoldable pub custody_unix_time : System → ℤ → Time
custody_unix_time sys ts = if is_zero ts then sys.now else record { seconds = ts; nanos = 0 }

unfoldable pub custody_metadata : Metadata → CustodyMetadata
custody_metadata meta = record {
  backend_id = meta.backend_id;
  ref_id = meta.ref_id;
  schema_version = meta.schema_version;
  kek_ref = meta.kek_ref;
  kek_version = meta.kek_version;
  created_at_unix = meta.created_at.seconds;
  rotated_at_unix = meta.rotated_at.seconds;
  revoked_at_unix = if is_zero_time meta.revoked_at then pos 0 else meta.revoked_at.seconds;
  state = meta.state;
  account_ref = meta.account_ref;
  device_ref = meta.device_ref;
}

pub record CustodyCreateInput : Type 0 where
  pub store_ref : Str
  pub account_ref : Str
  pub device_ref : Str
  pub material_refs : List Str
  pub idempotency_key : Str
  pub requested_at_unix : ℤ

pub record CustodyRotateInput : Type 0 where
  pub custody_ref : Str
  pub new_kek_ref : Str
  pub new_kek_version : Str
  pub requested_at_unix : ℤ

pub record CustodyRestoreInput : Type 0 where
  pub custody_ref : Str
  pub sealed_bundle_ref : Str
  pub kek_ref : Str
  pub kek_version : Str

-- What the steps return, with the fields that a step does not set left empty.
pub record CustodyOutput : Type 0 where
  pub custody_ref : Str
  pub metadata : CustodyMetadata
  pub audit_ref : Str
  pub old_ref_state : Str

pub record CustodyProof : Type 0 where
  pub custody_ref : Str
  pub metadata : CustodyMetadata
  pub first_ref : Str
  pub second_ref : Str
  pub status : Str

-- The material of a new reference: each material reference under itself.
unfoldable pub material_of : List Str → Material → Material
material_of [] m = m
material_of (r ∷ refs) m = material_of refs (insert r r m)

unfoldable pub created_ref : Str → CustodyCreateInput → Str
created_ref store_ref input =
    lit "custody://" ++ first_non_empty (input.idempotency_key ∷ input.account_ref ∷ store_ref ∷ [])

unfoldable pub validate_custody_restore_hints :
    CustodyRestoreInput → Metadata → Result Error (Unit {0})
validate_custody_restore_hints input meta = do
  fail_if
      (not (is_empty input.sealed_bundle_ref)
        && not (str_eq input.sealed_bundle_ref input.custody_ref))
      (hint_mismatch (lit "sealed_bundle_ref") input.sealed_bundle_ref)
  fail_if (not (is_empty input.kek_ref) && not (str_eq input.kek_ref meta.kek_ref))
      (hint_mismatch (lit "kek_ref") input.kek_ref)
  fail_if (not (is_empty input.kek_version) && not (str_eq input.kek_version meta.kek_version))
      (hint_mismatch (lit "kek_version") input.kek_version)

-- An operation on the vault of a store, put back under the store's name.
abbrev pub put_back :
    Str → Stores → Result Sealed.Error Metadata × Vault → Result Error Metadata × Stores
put_back ref stores (r, v) = (wrap custody r, insert ref v stores)

abbrev pub with_store :
    {A : Type 0}
    → Result Error Vault
    → Stores
    → (Vault → Result Error A × Stores)
    → Result Error A × Stores
with_store (err e) stores k = (err e, stores)
with_store (ok v) stores k = k v

module _ (c : Crypto) where
  unfoldable pub execute_custody_create :
      System → Str → CustodyCreateInput → Stores → Result Error CustodyOutput × Stores
  execute_custody_create sys config_store input stores =
      let store_ref = first_non_empty (input.store_ref ∷ config_store ∷ []) in
      let ref = created_ref store_ref input in
      with_store (lookup_signal_custody_store store_ref stores) stores (λ v.
        let done : Result Error Metadata × Stores = put_back store_ref stores (
          Sealed.create c sys
            (record {
              ref_id = ref;
              account_ref = input.account_ref;
              device_ref = input.device_ref;
              material = material_of input.material_refs [];
              now = custody_unix_time sys input.requested_at_unix;
            })
            v) in
        (
          (done.0 >>= λ meta. ok (record {
            custody_ref = ref;
            metadata = custody_metadata meta;
            audit_ref = custody_audit_ref ref;
            old_ref_state = [];
          })),
          done.1,
        ))

  -- The expected version is the one that inspecting the reference shows.
  unfoldable pub rotate_request : System → CustodyRotateInput → Metadata → Sealed.RotateRequest
  rotate_request sys input current = record {
    ref_id = input.custody_ref;
    expected_kek_version = current.kek_version;
    new_kek_ref = input.new_kek_ref;
    new_kek_version = input.new_kek_version;
    now = custody_unix_time sys input.requested_at_unix;
  }

  abbrev rotate_inspected :
      System
      → Str
      → CustodyRotateInput
      → Stores
      → Vault
      → Result Sealed.Error Metadata
      → Result Error CustodyOutput × Stores
  rotate_inspected sys store_ref input stores v (err e) = (err (custody e), stores)
  rotate_inspected sys store_ref input stores v (ok current) =
      let done : Result Error Metadata × Stores =
        put_back store_ref stores (Sealed.rotate c sys (rotate_request sys input current) v) in
      (
        (done.0 >>= λ meta. ok (record {
          custody_ref = input.custody_ref;
          metadata = custody_metadata meta;
          audit_ref = custody_audit_ref input.custody_ref;
          old_ref_state = current.state;
        })),
        done.1,
      )

  unfoldable pub execute_custody_rotate :
      System → Str → CustodyRotateInput → Stores → Result Error CustodyOutput × Stores
  execute_custody_rotate sys store_ref input stores =
      with_store (lookup_signal_custody_store store_ref stores) stores
        (λ v. rotate_inspected sys store_ref input stores v (Sealed.inspect c input.custody_ref v))

  unfoldable pub execute_custody_restore :
      Str → CustodyRestoreInput → Stores → Result Error CustodyOutput
  execute_custody_restore store_ref input stores = do
    v ← lookup_signal_custody_store store_ref stores
    meta ← wrap custody (Sealed.restore c input.custody_ref v)
    validate_custody_restore_hints input meta
    ok (record {
      custody_ref = input.custody_ref;
      metadata = custody_metadata meta;
      audit_ref = custody_audit_ref input.custody_ref;
      old_ref_state = [];
    })

  unfoldable pub execute_custody_revoke :
      System → Str → Str → ℤ → Stores → Result Error CustodyOutput × Stores
  execute_custody_revoke sys store_ref custody_ref at stores =
      with_store (lookup_signal_custody_store store_ref stores) stores (λ v.
        let done : Result Error Metadata × Stores =
          put_back store_ref stores
            (Sealed.revoke c sys custody_ref (custody_unix_time sys at) v) in
        (
          (done.0 >>= λ meta. ok (record {
            custody_ref = custody_ref;
            metadata = custody_metadata meta;
            audit_ref = custody_audit_ref custody_ref;
            old_ref_state = [];
          })),
          done.1,
        ))

  unfoldable pub execute_custody_inspect : Str → Str → Stores → Result Error CustodyOutput
  execute_custody_inspect store_ref custody_ref stores = do
    v ← lookup_signal_custody_store store_ref stores
    meta ← wrap custody (Sealed.inspect c custody_ref v)
    ok (record {
      custody_ref = custody_ref;
      metadata = custody_metadata meta;
      audit_ref = [];
      old_ref_state = [];
    })

  -- `digest` is the hexadecimal text of the first eight bytes of the hash of its parts, the time
  -- of the request among them.
  unfoldable pub custody_proof_ref : (Str → Str → Str → ℤ → Str) → Str → Str → Str → ℤ → Str
  custody_proof_ref digest kind custody_ref audience requested_at =
      kind
      ++ (lit "://custody/"
          ++ (custody_suffix custody_ref
              ++ (lit "/" ++ digest kind custody_ref audience requested_at)))

  unfoldable pub execute_custody_attest :
      (Str → Str → Str → ℤ → Str) → Str → Str → Str → ℤ → Stores → Result Error CustodyProof
  execute_custody_attest digest store_ref custody_ref audience at stores = do
    v ← lookup_signal_custody_store store_ref stores
    fail_if (is_empty audience) (is_required (lit "signal custody attest") (lit "audience_ref"))
    meta ← wrap custody (Sealed.inspect c custody_ref v)
    ok (record {
      custody_ref = custody_ref;
      metadata = custody_metadata meta;
      first_ref = custody_proof_ref digest (lit "attest") custody_ref audience at;
      second_ref = custody_proof_ref digest (lit "evidence") custody_ref audience at;
      status = [];
    })

  abbrev export_request : Str
  export_request = lit "signal custody export request"

  unfoldable pub execute_custody_export_request :
      (Str → Str → Str → ℤ → Str) → Str → Str → Str → Str → ℤ → Stores → Result Error CustodyProof
  execute_custody_export_request digest store_ref custody_ref requester reason at stores = do
    v ← lookup_signal_custody_store store_ref stores
    fail_if (is_empty requester) (is_required export_request (lit "requester_ref"))
    fail_if (is_empty reason) (is_required export_request (lit "reason_ref"))
    meta ← wrap custody (Sealed.inspect c custody_ref v)
    ok (record {
      custody_ref = custody_ref;
      metadata = custody_metadata meta;
      first_ref =
          custody_proof_ref digest (lit "export-request") custody_ref (requester ++ (0 ∷ reason))
            at;
      second_ref =
          custody_proof_ref digest (lit "approval-required") custody_ref (requester ++ (0 ∷ reason))
            at;
      status = lit "approval_required";
    })
