-- ===== src/Service/Requests/Ownership.antt =====
-- Whose custody a request to the service uses (`serviceTestRequestContext`).
use workflow_plugin_signal.Base.{
  ◌≡◌, ◌≢◌, ◌∙◌, refl, subst, inl, inr, Bool, true, some, [], ◌∷◌, arith, Str, is_empty, str_eq,
  str_eq_iff, lookup, ok, Bool-cases, Option-cases, Result-cases, List,
}
use workflow_plugin_signal.Text.{first_non_empty}
use workflow_plugin_signal.Accounts.{
  SignalKeyCustody, SignalAccountRef, Registry, lookup_signal_key_custody,
  lookup_signal_account_ref,
}
use workflow_plugin_signal.Accounts.Ownership.{IsValid, IsAccount}
use workflow_plugin_signal.Service.Requests.{
  RequestInput, RequestMetadata, ClientOption, check_custody_owner, account_with_custody,
  request_metadata, service_test_request_context,
}

abbrev Owns : SignalAccountRef → Type 0
Owns account = (k : SignalKeyCustody) → account.custody ≡ some k → k.account_ref ≡ account.ref

registered-Owns :
    (g : Registry) (ref : Str) (account : SignalAccountRef)
    → IsValid g
    → lookup_signal_account_ref ref g ≡ ok account
    → (account.ref ≡ ref) × Owns account
unfolding lookup_signal_account_ref
registered-Owns g ref account v e = elim (Option-cases (lookup ref g.accounts)) [
  | inl missing ↦ absurd (ground arith)
  | inr (a, found) ↦
      let same : a ≡ account = ground arith in
      let holds : IsAccount ref account = subst (IsAccount ref) same (v.accounts ref a found) in
      (holds.own_ref, holds.custody_owner)
]

account_with_custody-Owns :
    (g : Registry) (custody_ref : Str) (registered account : SignalAccountRef)
    → Owns registered
    → account_with_custody g custody_ref registered ≡ ok account
    → (account.ref ≡ registered.ref) × Owns account
unfolding account_with_custody check_custody_owner
account_with_custody-Owns g custody_ref registered account o e =
    elim (Bool-cases (is_empty custody_ref)) [
      | inl bare ↦
          let same : registered ≡ account = ground arith in
          subst (λ a. (a.ref ≡ registered.ref) × Owns a) same (refl, o)
      | inr named ↦
          Result-cases (lookup_signal_key_custody custody_ref g)
            (λ custody found. elim (Bool-cases (str_eq custody.account_ref registered.ref)) [
              | inl own ↦
                  let bound : SignalAccountRef = record {
                    ref = registered.ref;
                    device_ref = registered.device_ref;
                    custody_ref = [];
                    credential_ref = registered.credential_ref;
                    consent_ref = registered.consent_ref;
                    audit_ref = registered.audit_ref;
                    custody = some custody;
                  } in
                  let same : bound ≡ account = ground arith in
                  let owner : custody.account_ref ≡ registered.ref = (str_eq_iff _ _).0 own in
                  subst (λ a. (a.ref ≡ registered.ref) × Owns a) same (refl, λ k f. ground arith)
              | inr foreign ↦ absurd (ground arith)
            ])
            (λ x missing. absurd (ground arith))
    ]

-- The account of a context, and what its metadata says of it.
pub record IsOwn (input : RequestInput) (config_account : Str) (account : SignalAccountRef)
    (meta : RequestMetadata) : Type 0 where
  pub requested : account.ref ≡ first_non_empty (input.account_ref ∷ config_account ∷ [])
  pub custody_owner :
      (k : SignalKeyCustody) → account.custody ≡ some k → k.account_ref ≡ account.ref
  pub same_account : meta.account_ref ≡ account.ref
  pub key :
      is_empty input.non_exportable_key_ref ≡ true
      → meta.non_exportable_key ≢ []
      → (k : SignalKeyCustody) × (account.custody ≡ some k)
        × (meta.non_exportable_key ≡ k.non_exportable_key_ref)

key_of_custody :
    (input : RequestInput) (account : SignalAccountRef)
    → is_empty input.non_exportable_key_ref ≡ true
    → (request_metadata input account).non_exportable_key ≢ []
    → (k : SignalKeyCustody) × (account.custody ≡ some k)
      × ((request_metadata input account).non_exportable_key ≡ k.non_exportable_key_ref)
unfolding request_metadata
key_of_custody input account bare used = elim (Option-cases account.custody) [
  | inl without ↦ absurd (used (ground arith))
  | inr (k, held) ↦ (k, held, ground arith)
]

metadata-IsOwn :
    (input : RequestInput) (config_account : Str) (account : SignalAccountRef)
    → account.ref ≡ first_non_empty (input.account_ref ∷ config_account ∷ [])
    → Owns account
    → IsOwn input config_account account (request_metadata input account)
unfolding request_metadata
metadata-IsOwn input config_account account requested owns = record {
  requested = requested;
  custody_owner = owns;
  same_account = refl;
  key = key_of_custody input account;
}

-- Over a valid registry, the account of a request to the service is the one that is asked for, the
-- custody that it uses belongs to that account, and a request that names no key of its own is sent
-- with the key of that custody or with none.
pub service_test_request_context-IsOwn :
    (g : Registry) (config_account : Str) (expired : Bool) (operation : Str) (input : RequestInput)
    (account : SignalAccountRef) (meta : RequestMetadata) (options : List ClientOption)
    → IsValid g
    → service_test_request_context g config_account expired operation input
      ≡ ok (account, meta, options)
    → IsOwn input config_account account meta
unfolding service_test_request_context
service_test_request_context-IsOwn g config_account expired operation input account meta options v
      e =
    Result-cases
      (lookup_signal_account_ref (first_non_empty (input.account_ref ∷ config_account ∷ [])) g)
      (λ registered found.
        Result-cases
          (account_with_custody g
            (first_non_empty (input.custody_ref ∷ registered.custody_ref ∷ [])) registered)
          (λ bound with_custody.
            let (own_ref, owns) = registered-Owns g _ registered v found in
            let (same_ref, bound_owns) =
              account_with_custody-Owns g _ registered bound owns with_custody in
            let same : bound ≡ account = ground arith in
            let same_meta : request_metadata input account ≡ meta = ground arith in
            subst (IsOwn input config_account account) same_meta (
              subst (λ a. IsOwn input config_account a (request_metadata input a)) same
                (metadata-IsOwn input config_account bound (same_ref ∙ own_ref) bound_owns)))
          (λ x missing. absurd (ground arith)))
      (λ x missing. absurd (ground arith))
