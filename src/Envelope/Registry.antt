-- ===== src/Envelope/Registry.antt =====
-- The global map of stores in internal/envelope_store.go: `Init` and `lookupSignalEnvelopeStore`.
-- The map holds pointers, so a store that is registered under two names is one store: the names
-- lead to a handle, and the handle to the store.
use workflow_plugin_signal.Base.{
  ℕ, zero, suc, ◌≡◌, ◌≢◌, refl, Bool, false, Option, none, some, List, [], ◌∷◌, if◌then◌else◌, Str,
  lit, is_empty, is_empty-false, str_eq_refl, Dict, lookup, insert, lookup-insert, Result, ok, err,
  ◌>>=◌, ◌>>◌, fail_if, or_fail, arith, Option-cases, inl, inr,
}
use workflow_plugin_signal.Envelope.{
  EnvelopeStore, EnvelopeStoreConfig, Error, is_required, not_registered, Host, Files, World,
}
use workflow_plugin_signal.Envelope.Store.{init_store}

-- The handle of a store is its place in the list of those that were built.
pub record EnvelopeStores : Type 0 where
  pub handles : Dict ℕ
  pub stores : List EnvelopeStore

unfoldable pub get_elem? : List EnvelopeStore → ℕ → Option EnvelopeStore
get_elem? [] n = none
get_elem? (s ∷ stores) zero = some s
get_elem? (s ∷ stores) (suc n) = get_elem? stores n

unfoldable pub set : List EnvelopeStore → ℕ → EnvelopeStore → List EnvelopeStore
set [] n s = []
set (s' ∷ stores) zero s = s ∷ stores
set (s' ∷ stores) (suc n) s = s' ∷ set stores n s

-- A new store at the end of the list, and its handle.
unfoldable pub allocate : List EnvelopeStore → EnvelopeStore → ℕ × List EnvelopeStore
allocate [] s = (0, s ∷ [])
allocate (s' ∷ stores) s = let (n, stores') = allocate stores s in (suc n, s' ∷ stores')

abbrev under_ref : Str → ℕ → Dict ℕ → Dict ℕ
under_ref ref n handles = if is_empty ref then handles else insert ref n handles

unfoldable pub register : Str → EnvelopeStore → EnvelopeStores → EnvelopeStores
unfolding allocate
register name s g = record {
  handles =
      under_ref s.config.store_ref (allocate g.stores s).0
        (insert name (allocate g.stores s).0 g.handles);
  stores = (allocate g.stores s).1;
}

-- envelopeStoreModule.Init
unfoldable pub init_envelope_store :
    Host → Bool → Files → Str → EnvelopeStoreConfig → EnvelopeStores → Result Error EnvelopeStores
init_envelope_store h read_fails files name cfg g = do
  s ← init_store h read_fails files cfg
  ok (register name s g)

abbrev registry_name : Str
registry_name = lit "signal envelope store"

-- The handle of the store besides the store.
unfoldable pub lookup_signal_envelope_store :
    Str → EnvelopeStores → Result Error (ℕ × EnvelopeStore)
unfolding get_elem?
lookup_signal_envelope_store ref g = do
  fail_if (is_empty ref) (is_required registry_name (lit "store_ref"))
  n ← or_fail (lookup ref g.handles) (not_registered ref)
  s ← or_fail (get_elem? g.stores n) (not_registered ref)
  ok (n, s)

-- The registered stores and the files.
pub record Process : Type 0 where
  pub registry : EnvelopeStores
  pub files : Files

abbrev put_back : {A : Type 0} → ℕ → Process → A × World → A × Process
put_back n p (a, w) = (
  a,
  record {
    registry = record p.registry { stores = set p.registry.stores n w.store };
    files = w.files;
  },
)

abbrev at_store :
    {A : Type 0}
    → (World → Result Error A × World)
    → Process
    → Result Error (ℕ × EnvelopeStore)
    → Result Error A × Process
at_store f p (err e) = (err e, p)
at_store f p (ok (n, s)) = put_back n p (f (record { store = s; files = p.files }))

-- An operation on the store that a reference names.
unfoldable pub with_store :
    {A : Type 0} → Str → (World → Result Error A × World) → Process → Result Error A × Process
with_store ref f p = at_store f p (lookup_signal_envelope_store ref p.registry)

get_elem?-allocate :
    (stores : List EnvelopeStore) (s : EnvelopeStore)
    → get_elem? (allocate stores s).1 (allocate stores s).0 ≡ some s
unfolding get_elem? allocate
get_elem?-allocate [] s = refl
get_elem?-allocate (s' ∷ stores) s = get_elem?-allocate stores s

get_elem?-set :
    (stores : List EnvelopeStore) (n : ℕ) (s s' : EnvelopeStore)
    → get_elem? stores n ≡ some s'
    → get_elem? (set stores n s) n ≡ some s
unfolding get_elem? set
get_elem?-set [] n s s' e = cc
get_elem?-set (x ∷ stores) zero s s' e = refl
get_elem?-set (x ∷ stores) (suc n) s s' e = get_elem?-set stores n s s' e

found_handle :
    (ref : Str) (g : EnvelopeStores) (n : ℕ) (s : EnvelopeStore)
    → lookup_signal_envelope_store ref g ≡ ok (n, s)
    → (is_empty ref ≡ false) × (lookup ref g.handles ≡ some n) × (get_elem? g.stores n ≡ some s)
unfolding lookup_signal_envelope_store
found_handle ref g n s e = elim (Option-cases (lookup ref g.handles)) [
  | inl missing ↦ absurd (ground arith)
  | inr (m, found) ↦ elim (Option-cases (get_elem? g.stores m)) [
    | inl missing ↦ absurd (ground arith)
    | inr (s', there) ↦ (ground arith, ground arith, ground arith)
  ]
]

found_again :
    (ref : Str) (g : EnvelopeStores) (n : ℕ) (s s' : EnvelopeStore)
    → lookup_signal_envelope_store ref g ≡ ok (n, s)
    → lookup_signal_envelope_store ref (record g { stores = set g.stores n s' }) ≡ ok (n, s')
unfolding lookup_signal_envelope_store
found_again ref g n s s' e =
    let (named, handle, there) = found_handle ref g n s e in
    rw (named, handle, get_elem?-set g.stores n s' s there) refl

registered :
    (name : Str) (s : EnvelopeStore) (g : EnvelopeStores)
    → name ≢ []
    → s.config.store_ref ≢ []
    → (lookup_signal_envelope_store name (register name s g) ≡ ok ((allocate g.stores s).0, s))
      × (lookup_signal_envelope_store s.config.store_ref (register name s g)
          ≡ ok ((allocate g.stores s).0, s))
unfolding lookup_signal_envelope_store register
registered name s g a b =
    let n = (allocate g.stores s).0 in
    let handles = insert name n g.handles in
    let by_name : lookup name (insert s.config.store_ref n handles) ≡ some n = ground (
      arith,
      lookup-insert s.config.store_ref name n handles,
      lookup-insert name name n g.handles,
      str_eq_refl name,
    ) in
    let by_ref : lookup s.config.store_ref (insert s.config.store_ref n handles) ≡ some n = ground (
      arith,
      lookup-insert s.config.store_ref s.config.store_ref n handles,
      str_eq_refl s.config.store_ref,
    ) in
    (
      rw (is_empty-false a, is_empty-false b, by_name, get_elem?-allocate g.stores s) refl,
      rw (is_empty-false b, by_ref, get_elem?-allocate g.stores s) refl,
    )

-- A store that was registered under a name and a reference, neither empty, is one store: an
-- operation through the name has its result, and the store that it leaves is what a lookup by
-- the reference finds.
pub with_store-register :
    {A : Type 0} (name : Str) (s : EnvelopeStore) (g : EnvelopeStores) (files : Files)
    (f : World → Result Error A × World)
    → name ≢ []
    → s.config.store_ref ≢ []
    → ((with_store name f (record { registry = register name s g; files = files })).0
        ≡ (f (record { store = s; files = files })).0)
      × (lookup_signal_envelope_store s.config.store_ref
            (with_store name f (record { registry = register name s g; files = files })).1.registry
          ≡ ok ((allocate g.stores s).0, (f (record { store = s; files = files })).1.store))
unfolding with_store
with_store-register name s g files f a b =
    let (by_name, by_ref) = registered name s g a b in
    (
      rw by_name refl,
      rw by_name
          (found_again s.config.store_ref (register name s g) (allocate g.stores s).0 s _ by_ref),
    )
