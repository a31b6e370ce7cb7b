-- ===== src/Service/Prepare/Exposure.antt =====
-- What an operation envelope shows of the references that it is given.
use workflow_plugin_signal.Base.{
  ℤ, ◌≡◌, refl, sym, ◌⊎◌, inl, inr, true, false, ◌||◌, Str, lit, is_empty, arith, Bool-cases,
}
use workflow_plugin_signal.Text.{contains, has_prefix}
use workflow_plugin_signal.Refs.{safe_signal_ref}
use workflow_plugin_signal.Service.Prepare.{
  ServiceEnvelopeFields, ServiceOperationEnvelope, ServicePrepareReadiness,
  service_operation_envelope, prepare_output, envelope_idempotency_key, envelope_operation_id,
}

-- Text that may be shown: none, a reference with a scheme, or the mark of a redaction.
abbrev pub IsShowable : Str → Type 0
IsShowable s = (is_empty s ≡ true) ⊎ (contains s (lit "://") ≡ true) ⊎ (s ≡ lit "redacted")

IsShowable-if : (s : Str) → (is_empty s || contains s (lit "://")) ≡ true → IsShowable s
IsShowable-if s h = elim (Bool-cases (is_empty s)) [
  | inl empty ↦ inl empty
  | inr full ↦ inr (inl (ground arith))
]

redacted_if :
    (s : Str) → (is_empty s || contains s (lit "://")) ≡ false → IsShowable s → lit "redacted" ≡ s
redacted_if s h (inl empty) = absurd (ground arith)
redacted_if s h (inr (inl scheme)) = absurd (ground arith)
redacted_if s h (inr (inr mark)) = sym mark

-- What `safeSignalRef` returns may be shown, and is returned as it is when it is given again.
pub safe_signal_ref-IsShowable :
    (s : Str)
    → IsShowable (safe_signal_ref s) × (safe_signal_ref (safe_signal_ref s) ≡ safe_signal_ref s)
unfolding safe_signal_ref contains has_prefix
safe_signal_ref-IsShowable s = elim (Bool-cases (is_empty s || contains s (lit "://"))) [
  | inl plain ↦ rw (plain, plain) (IsShowable-if s plain, refl)
  | inr bare ↦ rw bare (inr (inr refl), refl)
]

-- `safeSignalRef` returns text that may be shown as it is.
safe_signal_ref-showable : (s : Str) → IsShowable s → safe_signal_ref s ≡ s
unfolding safe_signal_ref
safe_signal_ref-showable s h = elim (Bool-cases (is_empty s || contains s (lit "://"))) [
  | inl plain ↦ rw plain refl
  | inr bare ↦ rw bare (redacted_if s bare h)
]

-- The reference fields of an envelope itself, without the ceremony of a linked device.
pub record IsExposable (e : ServiceOperationEnvelope) : Type 0 where
  pub account : IsShowable e.account_ref
  pub device : IsShowable e.device_ref
  pub custody : IsShowable e.custody_ref
  pub consent : IsShowable e.consent_ref
  pub audit : IsShowable e.audit_ref
  pub credential : IsShowable e.credential_ref
  pub key : IsShowable e.non_exportable_key_ref
  pub recipient : IsShowable e.recipient_ref
  pub payload : IsShowable e.payload_ref
  pub cursor : IsShowable e.cursor_ref
  pub backup : IsShowable e.backup_ref
  pub backup_id : IsShowable e.backup_id
  pub challenge : IsShowable e.challenge_ref
  pub challenge_response : IsShowable e.challenge_response_ref

shows : (s : Str) → IsShowable (safe_signal_ref s)
shows s = (safe_signal_ref-IsShowable s).0

-- The fields of an envelope that are no references of their own, as they were given or made.
pub record IsPassed (operation : Str) (f : ServiceEnvelopeFields) (e : ServiceOperationEnvelope)
    : Type 0 where
  pub linked : e.linked_device ≡ f.linked_device
  pub username : e.username ≡ f.username
  pub key : e.idempotency_key ≡ envelope_idempotency_key operation f
  pub id : e.operation_id ≡ envelope_operation_id operation f

-- The references of a prepared output may be shown: each of the fourteen reference fields of its
-- envelope, and its audit reference, is empty, has a scheme, or is redacted; and it reports no live
-- egress. The rest of the envelope is not redacted: the ceremony of a linked device, with the
-- references that stand in it, and the username are passed on as given, and an operation id and an
-- idempotency key are taken as given or made from the operation and the account reference.
pub prepare_output-IsExposable :
    (now : ℤ) (operation classification reason : Str)
    (resolved : ServiceEnvelopeFields × ServicePrepareReadiness)
    → IsExposable (prepare_output now operation classification reason resolved).envelope
      × IsShowable (prepare_output now operation classification reason resolved).audit_ref
      × ((prepare_output now operation classification reason resolved).live_egress_attempted
          ≡ false)
      × IsPassed operation resolved.0
          (prepare_output now operation classification reason resolved).envelope
unfolding prepare_output service_operation_envelope
prepare_output-IsExposable now operation classification reason (f, readiness) = (
  record {
    account = shows f.account_ref;
    device = shows f.device_ref;
    custody = shows f.custody_ref;
    consent = shows f.consent_ref;
    audit = shows f.audit_ref;
    credential = shows f.credential_ref;
    key = shows f.non_exportable_key_ref;
    recipient = shows f.recipient_ref;
    payload = shows f.payload_ref;
    cursor = shows f.cursor_ref;
    backup = shows f.backup_ref;
    backup_id = shows f.backup_id;
    challenge = shows f.challenge_ref;
    challenge_response = shows f.challenge_response_ref;
  },
  shows _,
  refl,
  record { linked = refl; username = refl; key = refl; id = refl },
)
