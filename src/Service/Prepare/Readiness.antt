-- ===== src/Service/Prepare/Readiness.antt =====
-- What a prepared operation says about the custody that it names.
use workflow_plugin_signal.Base.{
  ◌≡◌, ◌≢◌, refl, subst, sym, Bool, true, false, Option, none, some, [], arith, Str, str_eq_iff,
  Result, ok, err, ◌>>=◌,
}
use workflow_plugin_signal.Accounts.{
  SignalKeyCustody, SignalAccountRef, Registry, registered_signal_key_custody,
  registered_signal_account_ref,
}
use workflow_plugin_signal.Accounts.Ownership
use workflow_plugin_signal.Service.Prepare.{
  ServiceEnvelopeFields, ServicePrepareReadiness, Error, inherit_account, inherit_custody,
  is_registered, resolve_service_prepare_readiness, readiness_warnings,
}

-- What is left of a custody when its owner was checked.
abbrev pub Paired : Option SignalKeyCustody → ServiceEnvelopeFields → Bool → Type 0
Paired none f attested = attested ≡ false
Paired (some k) f attested =
    (f.account_ref ≡ k.account_ref) × ((attested ≡ true) → f.non_exportable_key_ref ≢ [])

inherit_custody-Paired :
    (o : Option SignalKeyCustody) (f f' : ServiceEnvelopeFields) (attested : Bool)
    (attestation : Str)
    → ((k : SignalKeyCustody) → o ≡ some k → k.account_ref ≢ [])
    → inherit_custody o f ≡ ok (f', attested, attestation)
    → Paired o f' attested × (f'.custody_ref ≡ f.custody_ref)
unfolding inherit_custody
inherit_custody-Paired none f f' a t owner e = ground arith
inherit_custody-Paired (some k) f f' a t owner e =
    ground (arith, str_eq_iff k.account_ref f.account_ref, owner k refl)

registered_owner :
    (g : Registry) (ref : Str) (k : SignalKeyCustody)
    → Ownership.IsValid g
    → registered_signal_key_custody ref g ≡ some k
    → k.account_ref ≢ []
unfolding registered_signal_key_custody
registered_owner g ref k v f = (v.custodies ref k (ground arith)).owner

-- The custody that is named in the end is the one that was checked.
resolved_at :
    (g : Registry) (account : Option SignalAccountRef) (f f' : ServiceEnvelopeFields)
    (r : ServicePrepareReadiness) (inherited : Result Error (ServiceEnvelopeFields × Bool × Str))
    (refusal : Result Error (Unit {0}))
    → inherit_custody (registered_signal_key_custody f.custody_ref g) f ≡ inherited
    → Ownership.IsValid g
    → (refusal >>= λ _. inherited >>= λ x.
        let out : ServiceEnvelopeFields × ServicePrepareReadiness = (
          x.0,
          record {
            custody_attested = x.1;
            custody_attestation_ref = x.2;
            warnings =
                readiness_warnings
                  (is_registered account)
                  (is_registered (registered_signal_key_custody f.custody_ref g))
                  x.0;
          },
        ) in
        ok out)
      ≡ ok (f', r)
    → Paired (registered_signal_key_custody f'.custody_ref g) f' r.custody_attested
resolved_at g account f f' r inherited (err e) i v h = cc
resolved_at g account f f' r (err e) (ok _) i v h = cc
resolved_at g account f f' r (ok (f₂, attested, attestation)) (ok _) i v h =
    let (paired, same) =
      inherit_custody-Paired (registered_signal_key_custody f.custody_ref g) f f₂ attested
        attestation (λ k e. registered_owner g f.custody_ref k v e) i in
    let fields : f₂ ≡ f' = cc in
    let flag : attested ≡ r.custody_attested = ground arith in
    let at_end : Paired (registered_signal_key_custody f₂.custody_ref g) f₂ attested =
      subst (λ ref. Paired (registered_signal_key_custody ref g) f₂ attested) (sym same) paired in
    subst
      (λ (x : ServiceEnvelopeFields).
        Paired (registered_signal_key_custody x.custody_ref g) x r.custody_attested)
      fields (subst (λ b. Paired (registered_signal_key_custody f₂.custody_ref g) f₂ b) flag at_end)

-- With valid registries, an operation that is prepared names either a custody that is not
-- registered, and then nothing is attested, or a custody of the very account that it names, and
-- what is attested has a key that cannot be exported.
pub resolve_service_prepare_readiness-Paired :
    (g : Registry) (f f' : ServiceEnvelopeFields) (r : ServicePrepareReadiness)
    → Ownership.IsValid g
    → resolve_service_prepare_readiness g f ≡ ok (f', r)
    → Paired (registered_signal_key_custody f'.custody_ref g) f' r.custody_attested
unfolding resolve_service_prepare_readiness
resolve_service_prepare_readiness-Paired g f f' r v e =
    let account = registered_signal_account_ref f.account_ref g in
    resolved_at g account (inherit_account account f) f' r _ _ refl v e
