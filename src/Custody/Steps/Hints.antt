-- ===== src/Custody/Steps/Hints.antt =====
-- What a restore of a custody reference has compared (internal/custody_steps.go).
use workflow_plugin_signal.Base.{
  ◌≡◌, refl, ◌⊎◌, inl, inr, false, not, ◌&&◌, [], arith, Str, str_eq, str_eq_iff, is_empty, Result,
  ok, err, Bool-cases, Result-cases,
}
use workflow_plugin_signal.Custody.Sealed
use workflow_plugin_signal.Custody.Sealed.{Metadata, Crypto, Vault}
use workflow_plugin_signal.Custody.Steps.{
  Error, Stores, CustodyRestoreInput, CustodyOutput, custody_metadata, lookup_signal_custody_store,
  validate_custody_restore_hints, execute_custody_restore,
}

-- A hint is absent, or it is the value.
abbrev pub Agrees : Str → Str → Type 0
Agrees hint value = (hint ≡ []) ⊎ (hint ≡ value)

-- The three hints of a restore agree with the reference and its metadata.
pub record HintsAgree (input : CustodyRestoreInput) (meta : Metadata) : Type 0 where
  pub bundle : Agrees input.sealed_bundle_ref input.custody_ref
  pub kek_ref : Agrees input.kek_ref meta.kek_ref
  pub kek_version : Agrees input.kek_version meta.kek_version

Agrees-if :
    (hint value : Str)
    → (not (is_empty hint) && not (str_eq hint value)) ≡ false
    → Agrees hint value
Agrees-if hint value e = elim (Bool-cases (is_empty hint)) [
  | inl empty ↦ inl (ground arith)
  | inr full ↦ inr ((str_eq_iff hint value).0 (ground arith))
]

validate-HintsAgree :
    (input : CustodyRestoreInput) (meta : Metadata)
    → validate_custody_restore_hints input meta ≡ ok tt
    → HintsAgree input meta
unfolding validate_custody_restore_hints
validate-HintsAgree input meta e = record {
  bundle = Agrees-if input.sealed_bundle_ref input.custody_ref (ground arith);
  kek_ref = Agrees-if input.kek_ref meta.kek_ref (ground arith);
  kek_version = Agrees-if input.kek_version meta.kek_version (ground arith);
}

module _ (c : Crypto) where
  -- What a restore step that succeeds has found.
  pub record IsRestored (store_ref : Str) (input : CustodyRestoreInput) (stores : Stores)
      (out : CustodyOutput) : Type 0 where
    pub vault : Vault
    pub meta : Metadata
    pub found : lookup_signal_custody_store store_ref stores ≡ ok vault
    pub restored : Sealed.restore c input.custody_ref vault ≡ ok meta
    pub hints : HintsAgree input meta
    pub reported : out.metadata ≡ custody_metadata meta

  IsRestored-at :
      (store_ref : Str) (input : CustodyRestoreInput) (stores : Stores) (out : CustodyOutput)
      (v : Result Error Vault)
      → lookup_signal_custody_store store_ref stores ≡ v
      → execute_custody_restore c store_ref input stores ≡ ok out
      → IsRestored store_ref input stores out
  unfolding execute_custody_restore
  IsRestored-at store_ref input stores out (err x) a e = absurd (ground arith)
  IsRestored-at store_ref input stores out (ok v) a e =
      Result-cases (Sealed.restore c input.custody_ref v)
        (λ m f.
          Result-cases (validate_custody_restore_hints input m)
            (λ t g. record {
              vault = v;
              meta = m;
              found = a;
              restored = f;
              hints = validate-HintsAgree input m g;
              reported = ground arith;
            })
            (λ x g. absurd (ground arith)))
        (λ x f. absurd (ground arith))

  -- A restore step that succeeds reports the metadata of the reference in the store that it names,
  -- and each hint that was given is the reference, the key or the version that is stored.
  pub execute_custody_restore-IsRestored :
      (store_ref : Str) (input : CustodyRestoreInput) (stores : Stores) (out : CustodyOutput)
      → execute_custody_restore c store_ref input stores ≡ ok out
      → IsRestored store_ref input stores out
  execute_custody_restore-IsRestored store_ref input stores out e =
      IsRestored-at store_ref input stores out _ refl e
