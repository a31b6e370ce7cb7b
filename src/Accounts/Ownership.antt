-- ===== src/Accounts/Ownership.antt =====
-- A registered account holds a custody of its own only.
use workflow_plugin_signal.Base.{
  ◌≡◌, ◌≢◌, refl, sym, subst, ◌⊎◌, inl, inr, Option, none, some, [], arith, Str, str_eq, str_eq_iff,
  Dict, lookup, insert, lookup-insert, Result, ok, err, ◌>>=◌, Bool-cases,
}
use workflow_plugin_signal.Accounts.{
  KeyCustodyConfig, AccountRefConfig, SignalKeyCustody, SignalAccountRef, Registry, Error,
  new_key_custody_module, init_key_custody, new_account_ref_module, init_account_ref, bind_account,
  check_owner, registered_signal_key_custody,
}

-- A custody under its reference: it names an account, and a key handle or secrets.
pub record IsCustody (k : Str) (c : SignalKeyCustody) : Type 0 where
  pub own_ref : c.ref ≡ k
  pub owner : c.account_ref ≢ []
  pub backed : (c.non_exportable_key_ref ≢ []) ⊎ (c.secret_refs ≢ [])

-- An account under its reference: the custody that it holds is its own.
pub record IsAccount (k : Str) (a : SignalAccountRef) : Type 0 where
  pub own_ref : a.ref ≡ k
  pub named : a.ref ≢ []
  pub custody_owner : (c : SignalKeyCustody) → a.custody ≡ some c → c.account_ref ≡ a.ref

pub record IsValid (g : Registry) : Type 0 where
  pub custodies : (k : Str) (c : SignalKeyCustody) → lookup k g.custodies ≡ some c → IsCustody k c
  pub accounts : (k : Str) (a : SignalAccountRef) → lookup k g.accounts ≡ some a → IsAccount k a

pub insert-each :
    {V : Type 0} {P : Str → V → Type 0} (k : Str) (v : V) (m : Dict V)
    → P k v
    → ((j : Str) (x : V) → lookup j m ≡ some x → P j x)
    → (j : Str) (x : V) → lookup j (insert k v m) ≡ some x
    → P j x
insert-each {P = P} k v m p each j x f = elim (Bool-cases (str_eq k j)) [
  | inl here ↦
      let same_key : k ≡ j = (str_eq_iff k j).0 here in
      let same : v ≡ x = ground (arith, lookup-insert k j v m) in
      subst (λ i. P i x) same_key (subst (P k) same p)
  | inr other ↦ each j x (ground (arith, lookup-insert k j v m))
]

-- A custody module whose configuration was accepted leaves a valid registry valid.
pub init_key_custody-IsValid :
    (cfg kept : KeyCustodyConfig) (g : Registry)
    → new_key_custody_module cfg ≡ ok kept
    → IsValid g
    → IsValid (init_key_custody kept g)
unfolding new_key_custody_module init_key_custody
init_key_custody-IsValid cfg kept g e v = record {
  custodies =
      insert-each {P = IsCustody} kept.custody_ref _ g.custodies
        (record { own_ref = refl; owner = ground arith; backed = ground arith }) v.custodies;
  accounts = v.accounts;
}

owner_of :
    (cfg : AccountRefConfig) (o : Option SignalKeyCustody) (k : Option SignalKeyCustody)
    (c : SignalKeyCustody)
    → ((x : SignalKeyCustody) → o ≡ some x → x.account_ref ≢ [])
    → check_owner cfg o ≡ ok k
    → k ≡ some c
    → c.account_ref ≡ cfg.account_ref
unfolding check_owner
owner_of cfg none k c ne e f = cc
owner_of cfg (some x) k c ne e f =
    ground (arith, str_eq_iff x.account_ref cfg.account_ref, ne x refl)

accepted_named :
    (cfg kept : AccountRefConfig) → new_account_ref_module cfg ≡ ok kept → kept.account_ref ≢ []
unfolding new_account_ref_module
accepted_named cfg kept e = ground arith

registered_lookup :
    (ref : Str) (g : Registry) (x : SignalKeyCustody)
    → registered_signal_key_custody ref g ≡ some x
    → lookup ref g.custodies ≡ some x
unfolding registered_signal_key_custody
registered_lookup ref g x f = ground arith

bound-IsAccount :
    (cfg : AccountRefConfig) (k o : Option SignalKeyCustody)
    → cfg.account_ref ≢ []
    → ((x : SignalKeyCustody) → o ≡ some x → x.account_ref ≢ [])
    → check_owner cfg o ≡ ok k
    → IsAccount cfg.account_ref (bind_account cfg k)
unfolding bind_account
bound-IsAccount cfg k o named ne e = record {
  own_ref = refl;
  named = named;
  custody_owner = λ c f. owner_of cfg o k c ne e f;
}

init_ok_at :
    (cfg : AccountRefConfig) (g g' : Registry) (r : Result Error (Option SignalKeyCustody))
    → (r >>= λ custody.
        ok (record g { accounts = insert cfg.account_ref (bind_account cfg custody) g.accounts }))
      ≡ ok g'
    → (k : Option SignalKeyCustody) × (r ≡ ok k)
      × (g' ≡ record g { accounts = insert cfg.account_ref (bind_account cfg k) g.accounts })
init_ok_at cfg g g' (ok k) i = (k, refl, cc)
init_ok_at cfg g g' (err e) i = cc

init_ok :
    (cfg : AccountRefConfig) (g g' : Registry)
    → init_account_ref cfg g ≡ ok g'
    → (k : Option SignalKeyCustody) × (check_owner cfg
          (registered_signal_key_custody cfg.custody_ref g)
        ≡ ok k)
      × (g' ≡ record g { accounts = insert cfg.account_ref (bind_account cfg k) g.accounts })
unfolding init_account_ref
init_ok cfg g g' i = init_ok_at cfg g g' _ i

-- An account module that initialises in a valid registry leaves a valid one: an account can be
-- bound to a registered custody only if the custody names that account.
pub init_account_ref-IsValid :
    (cfg kept : AccountRefConfig) (g g' : Registry)
    → new_account_ref_module cfg ≡ ok kept
    → IsValid g
    → init_account_ref kept g ≡ ok g'
    → IsValid g'
init_account_ref-IsValid cfg kept g g' e v i =
    let (k, checked, same) = init_ok kept g g' i in
    subst IsValid (sym same) (record {
      custodies = v.custodies;
      accounts =
          insert-each {P = IsAccount} kept.account_ref (bind_account kept k) g.accounts
            (bound-IsAccount kept k _ (accepted_named cfg kept e)
              (λ x f.
                (v.custodies kept.custody_ref x (registered_lookup kept.custody_ref g x f)).owner)
              checked)
            v.accounts;
    })
