-- ===== src/Service/Transport/Exposure.antt =====
-- What a submission shows (internal/service_transport.go).
use workflow_plugin_signal.Base.{
  subst, sym, ap, ◌∙◌, ◌≡◌, refl, inl, inr, false, Option, none, some, [], ◌∷◌, arith, Str, str_eq,
  Dict, lookup, Result, ok, err, after, Result-cases, Bool-cases,
}
use workflow_plugin_signal.Refs.{safe_signal_ref}
use workflow_plugin_signal.Accounts.{Registry, SignalAccountRef}
use workflow_plugin_signal.Service.Policy.{Policies}
use workflow_plugin_signal.Service.Requests.{
  Error, ServiceLibrary, ServiceRequest, ServiceError, ResponseMetadata, RequestMetadata,
}
use workflow_plugin_signal.Service.Prepare.Exposure.{IsShowable, safe_signal_ref-IsShowable}
use workflow_plugin_signal.Service.Transport.{
  ServiceState, Submission, redact_refs, service_submit_result, denied_submit_result,
  prepare_submission, open_transport, service_request, opened, called, execute_service_live_submit,
}
use workflow_plugin_signal.Service.Contracts.{
  TransportLibrary, ServiceLiveSubmitConfig, ServiceLiveSubmitInput, ServiceSubmitOutput,
  TransportConfig,
}

shows : (s : Str) → IsShowable (safe_signal_ref s)
shows s = (safe_signal_ref-IsShowable s).0

ok-injective :
    (a b : ServiceSubmitOutput) → ◌≡◌ {A = Result Error ServiceSubmitOutput} (ok a) (ok b) → a ≡ b
ok-injective a b e = cc

-- The references of an output, those of its map included; the transport's own reference and the
-- service's request id are not shortened.
pub record IsRedacted (o : ServiceSubmitOutput) : Type 0 where
  pub account : IsShowable o.account_ref
  pub device : IsShowable o.device_ref
  pub challenge : IsShowable o.challenge_ref
  pub secrets : (k value : Str) → lookup k o.secret_refs ≡ some value → IsShowable value
  pub credential : IsShowable o.credential_ref
  pub audit : IsShowable o.audit_ref
  pub no_egress : o.live_egress_attempted ≡ false

module _ (p : Policies) (l : ServiceLibrary) (t : TransportLibrary l) where
  lookup-redact_refs :
      (m : Dict Str) (k value : Str)
      → lookup k (redact_refs p l t m) ≡ some value
      → IsShowable value
  unfolding redact_refs lookup
  lookup-redact_refs [] k value f = cc
  lookup-redact_refs ((j, v) ∷ m) k value f = elim (Bool-cases (str_eq j k)) [
    | inl here ↦
        let same : safe_signal_ref v ≡ value = ground arith in subst IsShowable same (shows v)
    | inr other ↦ lookup-redact_refs m k value (ground arith)
  ]

  submitted-IsRedacted :
      (ref mode operation : Str) (account : SignalAccountRef) (request : RequestMetadata)
      (response : ResponseMetadata)
      → IsRedacted (service_submit_result p l t ref mode operation account request response)
  unfolding service_submit_result
  submitted-IsRedacted ref mode operation account request response = record {
    account = shows _;
    device = shows _;
    challenge = shows _;
    secrets = lookup-redact_refs response.secret_refs;
    credential = shows _;
    audit = shows _;
    no_egress = refl;
  }

  denied-IsRedacted :
      (cfg : ServiceLiveSubmitConfig) (input : ServiceLiveSubmitInput) (e : ServiceError)
      → IsRedacted (denied_submit_result p l t cfg input e)
  unfolding denied_submit_result lookup
  denied-IsRedacted cfg input e = record {
    account = shows _;
    device = inl refl;
    challenge = inl refl;
    secrets = λ k value f. cc;
    credential = inl refl;
    audit = inl refl;
    no_egress = refl;
  }

  called-IsRedacted :
      (input : ServiceLiveSubmitInput) (b : Submission p l t) (s : ServiceState p l t)
      (done : Result ServiceError ResponseMetadata × l.Client) (out : ServiceSubmitOutput)
      → (called p l t input b s done).0 ≡ ok out
      → IsRedacted out
  called-IsRedacted input b s (err e, client) out f = cc
  called-IsRedacted input b s (ok response, client) out f =
      subst IsRedacted (ok-injective _ _ f) (submitted-IsRedacted _ _ _ b.account b.meta response)

  opened-IsRedacted :
      (input : ServiceLiveSubmitInput) (b : Submission p l t) (s : ServiceState p l t)
      (answer : Option ServiceSubmitOutput) (request : Result Error ServiceRequest)
      (out : ServiceSubmitOutput)
      → service_request p l t input ≡ request
      → ((denied : ServiceSubmitOutput) → answer ≡ some denied → IsRedacted denied)
      → (opened p l t input b answer s).0 ≡ ok out
      → IsRedacted out
  opened-IsRedacted input b s (some denied) request out q r f =
      subst IsRedacted (ok-injective _ _ f) (r denied refl)
  opened-IsRedacted input b s none (err x) out q r f = absurd (ground arith)
  opened-IsRedacted input b s none (ok request) out q r f =
      called-IsRedacted input b s _ out (rw q at f)

  some-injective :
      (a b : ServiceSubmitOutput)
      → ◌≡◌ {A = Result Error (Option ServiceSubmitOutput)} (ok (some a)) (ok (some b))
      → a ≡ b
  some-injective a b e = cc

  open_transport-IsRedacted :
      (cfg : ServiceLiveSubmitConfig) (input : ServiceLiveSubmitInput) (config : TransportConfig)
      (denied : ServiceSubmitOutput)
      → open_transport p l t cfg input config ≡ ok (some denied)
      → IsRedacted denied
  unfolding open_transport
  open_transport-IsRedacted cfg input config denied f =
      Result-cases (t.new_transport config) (λ made e. absurd (ground arith))
        (λ x e. elim (Bool-cases x.live_disabled) [
          | inl disabled ↦
              let answer = denied_submit_result p l t cfg input x in
              let given : open_transport p l t cfg input config ≡ ok (some answer) =
                rw (open_transport, e, disabled) refl in
              subst IsRedacted (some-injective _ _ (sym given ∙ f)) (denied-IsRedacted cfg input x)
          | inr other ↦ absurd (ground arith)
        ])

  answered-IsRedacted :
      (cfg : ServiceLiveSubmitConfig) (input : ServiceLiveSubmitInput) (b : Submission p l t)
      (s : ServiceState p l t) (answer : Result Error (Option ServiceSubmitOutput))
      (out : ServiceSubmitOutput)
      → open_transport p l t cfg input b.resolved.config ≡ answer
      → (after answer (opened p l t input b) s).0 ≡ ok out
      → IsRedacted out
  answered-IsRedacted cfg input b s (ok answer) out a f =
      opened-IsRedacted input b s answer _ out refl
        (λ denied e. open_transport-IsRedacted cfg input b.resolved.config denied (a ∙ ap ok e)) f
  answered-IsRedacted cfg input b s (err x) out a f = absurd (ground arith)

  prepared-IsRedacted :
      (g : Registry) (cfg : ServiceLiveSubmitConfig) (input : ServiceLiveSubmitInput)
      (s : ServiceState p l t) (found : Result Error (Submission p l t)) (out : ServiceSubmitOutput)
      → prepare_submission p l t g cfg input s ≡ found
      → (execute_service_live_submit p l t g cfg input s).0 ≡ ok out
      → IsRedacted out
  unfolding execute_service_live_submit
  prepared-IsRedacted g cfg input s (ok b) out e f =
      answered-IsRedacted cfg input b s _ out refl (rw e at f)
  prepared-IsRedacted g cfg input s (err x) out e f = absurd (ground arith)

  -- What a submission returns, a denied one included, shows its account, device, challenge, secret,
  -- credential and audit references in the short form of `safe_signal_ref` only, and says that no
  -- egress was attempted.
  pub execute_service_live_submit-IsRedacted :
      (g : Registry) (cfg : ServiceLiveSubmitConfig) (input : ServiceLiveSubmitInput)
      (s : ServiceState p l t) (out : ServiceSubmitOutput)
      → (execute_service_live_submit p l t g cfg input s).0 ≡ ok out
      → IsRedacted out
  execute_service_live_submit-IsRedacted g cfg input s out f =
      prepared-IsRedacted g cfg input s _ out refl f
