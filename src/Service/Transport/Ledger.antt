-- ===== src/Service/Transport/Ledger.antt =====
-- Which ledger a submission reads and writes (internal/service_transport.go).
use workflow_plugin_signal.Base.{
  ◌≡◌, ◌≢◌, refl, sym, ◌∙◌, ◌⊎◌, inl, inr, false, Option, none, some, [], arith, Str, str_eq,
  str_eq_iff, lookup, lookup-insert, Result, ok, err, after, Option-cases, Result-cases,
}
use workflow_plugin_signal.Accounts.{Registry}
use workflow_plugin_signal.Service.Policy.{Policies}
use workflow_plugin_signal.Service.Requests.{
  Error, ServiceLibrary, ServiceRequest, ServiceError, ResponseMetadata,
  service_test_request_context,
}
use workflow_plugin_signal.Service.Transport.{
  SignalServiceTransport, ServiceState, Resolved, Submission, submit_ref, lookup_service_transport,
  resolve_submit_transport, update_ledger, prepare_submission, service_request, opened, called,
  execute_service_live_submit,
}
use workflow_plugin_signal.Service.Contracts.{
  TransportLibrary, ServiceLiveSubmitConfig, ServiceLiveSubmitInput, ServiceSubmitOutput,
}

module _ (p : Policies) (l : ServiceLibrary) (t : TransportLibrary l) where
  -- A submission leaves the state, or it succeeds and updates the ledger of what it resolved.
  abbrev Leaves :
      ServiceState p l t
      → Result Error ServiceSubmitOutput × ServiceState p l t
      → Option (SignalServiceTransport p l t)
      → Type 0
  Leaves s done transport =
      (done.1 ≡ s)
      ⊎ ((client : l.Client) × (out : ServiceSubmitOutput) × (done
            ≡ (ok out, update_ledger p l t transport client s)))

  called-Leaves :
      (input : ServiceLiveSubmitInput) (b : Submission p l t) (s : ServiceState p l t)
      (done : Result ServiceError ResponseMetadata × l.Client)
      → Leaves s (called p l t input b s done) b.resolved.transport
  called-Leaves input b s (err e, client) = inl refl
  called-Leaves input b s (ok response, client) = inr (client, _, refl)

  opened-Leaves :
      (input : ServiceLiveSubmitInput) (b : Submission p l t) (s : ServiceState p l t)
      (answer : Option ServiceSubmitOutput) (request : Result Error ServiceRequest)
      → service_request p l t input ≡ request
      → Leaves s (opened p l t input b answer s) b.resolved.transport
  opened-Leaves input b s (some denied) request e = inl refl
  opened-Leaves input b s none (ok request) e = rw e (called-Leaves input b s _)
  opened-Leaves input b s none (err x) e = rw e (inl refl)

  answered-Leaves :
      (cfg : ServiceLiveSubmitConfig) (input : ServiceLiveSubmitInput) (b : Submission p l t)
      (s : ServiceState p l t) (answer : Result Error (Option ServiceSubmitOutput))
      → Leaves s (after answer (opened p l t input b) s) b.resolved.transport
  answered-Leaves cfg input b s (ok answer) = opened-Leaves input b s answer _ refl
  answered-Leaves cfg input b s (err e) = inl refl

  pub prepared-resolved :
      (g : Registry) (cfg : ServiceLiveSubmitConfig) (input : ServiceLiveSubmitInput)
      (s : ServiceState p l t) (b : Submission p l t)
      → prepare_submission p l t g cfg input s ≡ ok b
      → resolve_submit_transport p l t cfg input s ≡ ok b.resolved
  unfolding prepare_submission
  prepared-resolved g cfg input s b e =
      Result-cases (resolve_submit_transport p l t cfg input s)
        (λ r f.
          Result-cases
            (service_test_request_context g cfg.account_ref cfg.expired_credentials []
              input.request)
            (λ c h. ground arith) (λ x h. absurd (ground arith)))
        (λ x f. absurd (ground arith))

  -- What a submission leaves, by what its preparation found.
  submitted-Leaves :
      (g : Registry) (cfg : ServiceLiveSubmitConfig) (input : ServiceLiveSubmitInput)
      (s : ServiceState p l t) (found : Result Error (Submission p l t))
      → prepare_submission p l t g cfg input s ≡ found
      → ((execute_service_live_submit p l t g cfg input s).1 ≡ s)
        ⊎ ((b : Submission p l t) × (resolve_submit_transport p l t cfg input s ≡ ok b.resolved)
            × Leaves s (execute_service_live_submit p l t g cfg input s) b.resolved.transport)
  unfolding execute_service_live_submit
  submitted-Leaves g cfg input s (ok b) e =
      rw e (inr (b, prepared-resolved g cfg input s b e, answered-Leaves cfg input b s _))
  submitted-Leaves g cfg input s (err x) e = rw e (inl refl)

  -- Each transport stands under its own reference.
  abbrev pub OwnRefs : ServiceState p l t → Type 0
  OwnRefs s =
      (k : Str) (tr : SignalServiceTransport p l t) → lookup k s.transports ≡ some tr → tr.ref ≡ k

  resolved_named :
      (cfg : ServiceLiveSubmitConfig) (input : ServiceLiveSubmitInput) (s : ServiceState p l t)
      (r : Resolved p l t)
      → resolve_submit_transport p l t cfg input s ≡ ok r
      → submit_ref p l t cfg input ≢ []
      → OwnRefs s
      → (tr : SignalServiceTransport p l t) × (r.transport ≡ some tr)
        × (tr.ref ≡ submit_ref p l t cfg input)
  unfolding resolve_submit_transport lookup_service_transport
  resolved_named cfg input s r e named own =
      let ref : Str = submit_ref p l t cfg input in
      elim (Option-cases (lookup ref s.transports)) [
        | inl missing ↦ absurd (ground arith)
        | inr (tr, found) ↦ (tr, ground arith, own ref tr found)
      ]

  pub resolved_unnamed :
      (cfg : ServiceLiveSubmitConfig) (input : ServiceLiveSubmitInput) (s : ServiceState p l t)
      (r : Resolved p l t)
      → resolve_submit_transport p l t cfg input s ≡ ok r
      → submit_ref p l t cfg input ≡ []
      → r.transport ≡ none
  unfolding resolve_submit_transport
  resolved_unnamed cfg input s r e bare = ground arith

  update_other :
      (tr : SignalServiceTransport p l t) (client : l.Client) (s : ServiceState p l t) (k : Str)
      → tr.ref ≢ k
      → (lookup k (update_ledger p l t (some tr) client s).transports ≡ lookup k s.transports)
        × ((update_ledger p l t (some tr) client s).test_ledger ≡ s.test_ledger)
  unfolding update_ledger
  update_other tr client s k other =
      let apart : str_eq tr.ref k ≡ false = ground (arith, str_eq_iff tr.ref k) in
      (rw (lookup-insert tr.ref k _ s.transports, apart) refl, refl)

  -- A submission that names a transport changes that transport alone: every other one, and the
  -- ledger of the test steps, stay as they were.
  pub execute_service_live_submit-isolated :
      (g : Registry) (cfg : ServiceLiveSubmitConfig) (input : ServiceLiveSubmitInput)
      (s : ServiceState p l t) (k : Str)
      → OwnRefs s
      → submit_ref p l t cfg input ≢ []
      → k ≢ submit_ref p l t cfg input
      → (lookup k (execute_service_live_submit p l t g cfg input s).1.transports
          ≡ lookup k s.transports)
        × ((execute_service_live_submit p l t g cfg input s).1.test_ledger ≡ s.test_ledger)
  execute_service_live_submit-isolated g cfg input s k own named other =
      elim (submitted-Leaves g cfg input s _ refl) [
        | inl same ↦ rw same (refl, refl)
        | inr (b, r, inl same) ↦ rw same (refl, refl)
        | inr (b, r, inr (client, out, done)) ↦
            let (tr, which, ref) = resolved_named cfg input s b.resolved r named own in
            rw (done, which) (update_other tr client s k (λ e. other (sym e ∙ ref)))
      ]

  -- A submission that fails changes nothing.
  execute_service_live_submit-err :
      (g : Registry) (cfg : ServiceLiveSubmitConfig) (input : ServiceLiveSubmitInput)
      (s : ServiceState p l t) (e : Error)
      → (execute_service_live_submit p l t g cfg input s).0 ≡ err e
      → (execute_service_live_submit p l t g cfg input s).1 ≡ s
  execute_service_live_submit-err g cfg input s e failed =
      elim (submitted-Leaves g cfg input s _ refl) [
        | inl same ↦ same
        | inr (b, r, inl same) ↦ same
        | inr (b, r, inr (client, out, done)) ↦ absurd (ground arith)
      ]
