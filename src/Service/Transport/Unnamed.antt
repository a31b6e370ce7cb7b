-- ===== src/Service/Transport/Unnamed.antt =====
-- A submission that names no transport (`transportLedger` of internal/service_transport.go with no
-- transport).
use workflow_plugin_signal.Base.{
  ◌≡◌, refl, sym, ap, ◌∙◌, ◌⊎◌, inl, inr, Option, none, some, [], arith, Str, Result, ok, err,
  after, Result-cases, List, Bool-cases,
}
use workflow_plugin_signal.Accounts.{Registry, SignalAccountRef}
use workflow_plugin_signal.Service.Policy.{Policies}
use workflow_plugin_signal.Service.Requests.{
  Error, ServiceLibrary, ServiceRequest, ServiceError, ResponseMetadata,
  service_test_request_context, ClientOption, RequestMetadata, service,
}
use workflow_plugin_signal.Service.Transport.{
  SignalServiceTransport, ServiceState, Submission, submit_ref, resolve_submit_transport,
  update_ledger, prepare_submission, service_request, opened, called, open_transport,
  execute_service_live_submit, denied_submit_result, service_submit_result, submit_options,
  transport_ledger,
}
use workflow_plugin_signal.Service.Contracts.{
  TransportLibrary, ServiceLiveSubmitConfig, ServiceLiveSubmitInput, ServiceSubmitOutput,
  TransportConfig,
}
use workflow_plugin_signal.Service.Transport.Ledger.{prepared-resolved, resolved_unnamed}

module _ (p : Policies) (l : ServiceLibrary) (t : TransportLibrary l) where
  -- A submission that was served by a client of the library that started from an empty ledger, and
  -- what it leaves of a state.
  pub record IsServed (input : ServiceLiveSubmitInput) (s : ServiceState p l t)
      (r : Result Error ServiceSubmitOutput × ServiceState p l t) : Type 0 where
    pub transport_ref : Str
    pub mode : Str
    pub account : SignalAccountRef
    pub options : List ClientOption
    pub config : TransportConfig
    pub meta : RequestMetadata
    pub request : ServiceRequest
    pub response : ResponseMetadata
    pub client : l.Client
    pub answered :
        t.call config (l.new_service_client [] options) meta request ≡ (ok response, client)
    pub reported :
        r.0
        ≡ ok (service_submit_result p l t transport_ref mode input.operation account meta response)
    pub replaced : r.1 ≡ record { transports = s.transports; test_ledger = l.ledger client }

  -- A submission that ended before a client answered: an error, or a denial.
  pub record IsStopped (cfg : ServiceLiveSubmitConfig) (input : ServiceLiveSubmitInput)
      (s : ServiceState p l t) (r : Result Error ServiceSubmitOutput × ServiceState p l t)
      : Type 0 where
    pub reason :
        ((e : Error) × (r.0 ≡ err e))
        ⊎ ((e : ServiceError) × (r.0 ≡ ok (denied_submit_result p l t cfg input e)))
    pub kept : r.1 ≡ s

  -- Two runs from two states report the same, and end in the same way.
  abbrev pub Agree :
      ServiceLiveSubmitConfig
      → ServiceLiveSubmitInput
      → ServiceState p l t
      → ServiceState p l t
      → Result Error ServiceSubmitOutput × ServiceState p l t
      → Result Error ServiceSubmitOutput × ServiceState p l t
      → Type 0
  Agree cfg input s s' r r' =
      (r'.0 ≡ r.0)
      × ((IsStopped cfg input s r × IsStopped cfg input s' r')
          ⊎ (IsServed input s r × IsServed input s' r' × (r'.1 ≡ r.1)))

  stopped :
      (cfg : ServiceLiveSubmitConfig) (input : ServiceLiveSubmitInput) (s s' : ServiceState p l t)
      (answer : Result Error ServiceSubmitOutput)
      → ((e : Error) × (answer ≡ err e))
        ⊎ ((e : ServiceError) × (answer ≡ ok (denied_submit_result p l t cfg input e)))
      → Agree cfg input s s' (answer, s) (answer, s')
  stopped cfg input s s' answer why =
      (refl, inl (record { reason = why; kept = refl }, record { reason = why; kept = refl }))

  update_empty :
      (transport : Option (SignalServiceTransport p l t)) (client : l.Client)
      (s : ServiceState p l t)
      → transport ≡ none
      → update_ledger p l t transport client s
        ≡ record { transports = s.transports; test_ledger = l.ledger client }
  unfolding update_ledger
  update_empty none client s e = refl
  update_empty (some tr) client s e = cc

  empty_ledger :
      (transport : Option (SignalServiceTransport p l t)) (client : l.Client)
      (options : List ClientOption)
      → transport ≡ none
      → client ≡ l.new_service_client (transport_ledger p l t transport) options
      → client ≡ l.new_service_client [] options
  unfolding transport_ledger
  empty_ledger none client options e f = f
  empty_ledger (some tr) client options e f = cc

  prepared-client :
      (g : Registry) (cfg : ServiceLiveSubmitConfig) (input : ServiceLiveSubmitInput)
      (s : ServiceState p l t) (b : Submission p l t)
      → prepare_submission p l t g cfg input s ≡ ok b
      → (options : List ClientOption) × (b.client
          ≡ l.new_service_client (transport_ledger p l t b.resolved.transport) options)
  unfolding prepare_submission
  prepared-client g cfg input s b e =
      Result-cases (resolve_submit_transport p l t cfg input s)
        (λ r f.
          Result-cases
            (service_test_request_context g cfg.account_ref cfg.expired_credentials []
              input.request)
            (λ c h.
              let (account, meta, options) = c in
              (submit_options p l t input options, ground arith))
            (λ x h. absurd (ground arith)))
        (λ x f. absurd (ground arith))

  update_unnamed :
      (transport : Option (SignalServiceTransport p l t)) (client : l.Client)
      (s s' : ServiceState p l t)
      → transport ≡ none
      → s'.transports ≡ s.transports
      → update_ledger p l t transport client s' ≡ update_ledger p l t transport client s
  unfolding update_ledger
  update_unnamed none client s s' e same =
      ap (λ ts. record { transports = ts; test_ledger = l.ledger client }) same
  update_unnamed (some tr) client s s' e same = cc

  called-Agree :
      (cfg : ServiceLiveSubmitConfig) (input : ServiceLiveSubmitInput) (b : Submission p l t)
      (s s' : ServiceState p l t) (options : List ClientOption) (request : ServiceRequest)
      (done : Result ServiceError ResponseMetadata × l.Client)
      → t.call b.resolved.config (l.new_service_client [] options) b.meta request ≡ done
      → b.resolved.transport ≡ none
      → s'.transports ≡ s.transports
      → Agree cfg input s s' (called p l t input b s done) (called p l t input b s' done)
  called-Agree cfg input b s s' options request (err e, client) c bare same =
      stopped cfg input s s' _ (inl (service e, refl))
  called-Agree cfg input b s s' options request (ok response, client) c bare same =
      let served : (x : ServiceState p l t)
          → IsServed input x (called p l t input b x (ok response, client)) =
        λ x. record {
          transport_ref = b.resolved.transport_ref;
          mode = t.transport_mode b.resolved.config;
          account = b.account;
          options = options;
          config = b.resolved.config;
          meta = b.meta;
          request = request;
          response = response;
          client = client;
          answered = c;
          reported = refl;
          replaced = update_empty b.resolved.transport client x bare;
        } in
      (refl, inr (served s, served s', update_unnamed b.resolved.transport client s s' bare same))

  denied-reason :
      (a b : ServiceSubmitOutput)
      → ◌≡◌ {A = Result Error (Option ServiceSubmitOutput)} (ok (some a)) (ok (some b))
      → b ≡ a
  denied-reason a b e = cc

  open_transport-denied :
      (cfg : ServiceLiveSubmitConfig) (input : ServiceLiveSubmitInput) (config : TransportConfig)
      (denied : ServiceSubmitOutput)
      → open_transport p l t cfg input config ≡ ok (some denied)
      → (e : ServiceError) × (denied ≡ denied_submit_result p l t cfg input e)
  unfolding open_transport
  open_transport-denied cfg input config denied f =
      Result-cases (t.new_transport config) (λ made e. absurd (ground arith))
        (λ x e. elim (Bool-cases x.live_disabled) [
          | inl disabled ↦
              let answer = denied_submit_result p l t cfg input x in
              let given : open_transport p l t cfg input config ≡ ok (some answer) =
                rw (open_transport, e, disabled) refl in
              (x, denied-reason answer denied (sym given ∙ f))
          | inr other ↦ absurd (ground arith)
        ])

  answered-Agree :
      (cfg : ServiceLiveSubmitConfig) (input : ServiceLiveSubmitInput) (b : Submission p l t)
      (s s' : ServiceState p l t) (options : List ClientOption)
      (answer : Result Error (Option ServiceSubmitOutput)) (request : Result Error ServiceRequest)
      → open_transport p l t cfg input b.resolved.config ≡ answer
      → service_request p l t input ≡ request
      → b.client ≡ l.new_service_client [] options
      → b.resolved.transport ≡ none
      → s'.transports ≡ s.transports
      → Agree cfg input s s'
          (after answer (opened p l t input b) s)
          (after answer (opened p l t input b) s')
  answered-Agree cfg input b s s' options (err e) request a q k bare same =
      stopped cfg input s s' _ (inl (e, refl))
  answered-Agree cfg input b s s' options (ok (some denied)) request a q k bare same =
      let (e, same_denied) = open_transport-denied cfg input b.resolved.config denied a in
      stopped cfg input s s' (ok denied) (inr (e, ap ok same_denied))
  answered-Agree cfg input b s s' options (ok none) (err x) a q k bare same =
      rw q (stopped cfg input s s' _ (inl (x, refl)))
  answered-Agree cfg input b s s' options (ok none) (ok request) a q k bare same =
      rw q (called-Agree cfg input b s s' options request _ (rw k refl) bare same)

  prepare_unnamed :
      (g : Registry) (cfg : ServiceLiveSubmitConfig) (input : ServiceLiveSubmitInput)
      (s s' : ServiceState p l t)
      → submit_ref p l t cfg input ≡ []
      → prepare_submission p l t g cfg input s' ≡ prepare_submission p l t g cfg input s
  unfolding prepare_submission resolve_submit_transport
  prepare_unnamed g cfg input s s' bare = rw bare refl

  submitted-Agree :
      (g : Registry) (cfg : ServiceLiveSubmitConfig) (input : ServiceLiveSubmitInput)
      (s s' : ServiceState p l t) (found : Result Error (Submission p l t))
      → prepare_submission p l t g cfg input s ≡ found
      → submit_ref p l t cfg input ≡ []
      → s'.transports ≡ s.transports
      → Agree cfg input s s'
          (execute_service_live_submit p l t g cfg input s)
          (execute_service_live_submit p l t g cfg input s')
  unfolding execute_service_live_submit
  submitted-Agree g cfg input s s' (err x) e bare same =
      rw (prepare_unnamed g cfg input s s' bare, e) (stopped cfg input s s' _ (inl (x, refl)))
  submitted-Agree g cfg input s s' (ok b) e bare same =
      let none_named =
        resolved_unnamed p l t cfg input s b.resolved (prepared-resolved p l t g cfg input s b e)
          bare in
      let (options, client) = prepared-client g cfg input s b e in
      rw (prepare_unnamed g cfg input s s' bare, e)
        (answered-Agree cfg input b s s' options _ _ refl refl
          (empty_ledger b.resolved.transport b.client options none_named client) none_named same)

  -- A submission that names no transport reports the same for any two ledgers of the test steps. It
  -- fails or is denied and leaves the state, or it was served by a client that started from an empty
  -- ledger, and then that client's ledger has replaced the one that was there.
  pub execute_service_live_submit-forgets :
      (g : Registry) (cfg : ServiceLiveSubmitConfig) (input : ServiceLiveSubmitInput)
      (s s' : ServiceState p l t)
      → submit_ref p l t cfg input ≡ []
      → s'.transports ≡ s.transports
      → Agree cfg input s s'
          (execute_service_live_submit p l t g cfg input s)
          (execute_service_live_submit p l t g cfg input s')
  execute_service_live_submit-forgets g cfg input s s' bare same =
      submitted-Agree g cfg input s s' _ refl bare same
