-- ===== src/Keys/Bounds.antt =====
-- The sizes of the account keys' parts (internal/steps.go).
use workflow_plugin_signal.Base.{
  ℕ, ◌≡◌, ◌≢◌, refl, sym, subst, ap, ◌∙◌, ◌⊎◌, inl, inr, true, false, ◌||◌, ◌==◌, Option, none,
  some, List, [], ◌∷◌, arith, Str, lit, is_empty, length, ok, Bool-cases, Result-cases,
}
use workflow_plugin_signal.Text.{first_non_empty}
use workflow_plugin_signal.Session.{Bytes, first_non_zero}
use workflow_plugin_signal.Keys.{
  KeyLibrary, PinHash, AccountKeysInput, AccountKeysOutput, first_bytes, sized, service_id_from_aci,
  resolve_pin_salt, resolve_pool, backup_id_of, pin_keys, account_keys_output,
  execute_signal_account_keys,
}

-- The sizes that the library documents for what it derives.
pub record SizeLaws (l : KeyLibrary) : Type 0 where
  pub salt : (username : Str) (group_id : ℕ) → length (l.make_pin_salt username group_id) ≡ 32
  pub backup_id : (key : l.BackupKey) (aci : Bytes) → length (l.derive_backup_id key aci) ≡ 16

-- The account identifier that a request names is of the library's length or none is named.
pub record IsSized (l : KeyLibrary) (config input : AccountKeysInput) (out : AccountKeysOutput)
    : Type 0 where
  pub aci :
      (length (first_bytes (input.aci ∷ config.aci ∷ [])) ≡ l.uuid_len)
      ⊎ (first_bytes (input.aci ∷ config.aci ∷ []) ≡ [])
  pub backup_id : (length out.backup_id ≡ 16) ⊎ (out.backup_id ≡ [])
  pub pin_salt :
      ((length out.pin_salt ≡ 32) × (first_non_empty (input.pin ∷ config.pin ∷ []) ≢ []))
      ⊎ ((out.pin_salt ≡ [])
          × (out.pin_access_key ≡ [])
          × (out.pin_encryption_key ≡ [])
          × (first_non_empty (input.pin ∷ config.pin ∷ []) ≡ []))

empty : (s : List ℕ) → is_empty s ≡ true → s ≡ []
empty [] e = refl
empty (c ∷ s) e = cc

full : (s : List ℕ) → is_empty s ≡ false → s ≢ []
full [] e f = absurd (ground arith)
full (c ∷ s) e f = cc

sized-length :
    (field : Str) (size : ℕ) (raw out : Bytes)
    → sized field size raw ≡ ok out
    → (out ≡ raw) × (length raw ≡ size)
unfolding sized
sized-length field size raw out e = elim (Bool-cases (length raw == size)) [
  | inl fits ↦ (ground arith, ground arith)
  | inr other ↦ absurd (ground arith)
]

module _ (l : KeyLibrary) (laws : SizeLaws l) where
  length-resolve_pin_salt :
      (config input : AccountKeysInput) (salt : Bytes)
      → resolve_pin_salt l config input ≡ ok salt
      → length salt ≡ 32
  unfolding resolve_pin_salt
  length-resolve_pin_salt config input salt e =
      let raw = first_bytes (input.pin_salt ∷ config.pin_salt ∷ []) in
      let username = first_non_empty (input.pin_salt_username ∷ config.pin_salt_username ∷ []) in
      let group_id = first_non_zero (input.pin_salt_group_id ∷ config.pin_salt_group_id ∷ []) in
      elim (Bool-cases (is_empty raw)) [
        | inr given ↦
            let kept : sized (lit "pin_salt") 32 raw ≡ ok salt = ground arith in
            let (same, fits) = sized-length _ 32 raw salt kept in ap length same ∙ fits
        | inl bare ↦ elim (Bool-cases (is_empty username || group_id == 0)) [
          | inl missing ↦ absurd (ground arith)
          | inr named ↦
              let made : l.make_pin_salt username group_id ≡ salt = ground arith in
              ap length (sym made) ∙ laws.salt username group_id
        ]
      ]

  length-backup_id_of :
      (key : l.BackupKey) (raw out : Bytes)
      → backup_id_of l key raw ≡ ok out
      → ((length raw ≡ l.uuid_len) ⊎ (raw ≡ [])) × ((length out ≡ 16) ⊎ (out ≡ []))
  unfolding backup_id_of service_id_from_aci
  length-backup_id_of key raw out e = elim (Bool-cases (is_empty raw)) [
    | inl bare ↦ (inr (empty raw bare), inr (ground arith))
    | inr given ↦
        Result-cases (sized (lit "aci") l.uuid_len raw)
          (λ aci kept.
            let (same, fits) = sized-length _ _ raw aci kept in
            let made : l.derive_backup_id key aci ≡ out = ground arith in
            (inl fits, inl (ap length (sym made) ∙ laws.backup_id key aci)))
          (λ x bad. absurd (ground arith))
  ]

  pin_keys-IsSized :
      (config input : AccountKeysInput) (pool : l.Pool) (backup_id : Bytes)
      (keys : Option (Bytes × PinHash))
      → pin_keys l config input ≡ ok keys
      → (length (first_bytes (input.aci ∷ config.aci ∷ [])) ≡ l.uuid_len)
        ⊎ (first_bytes (input.aci ∷ config.aci ∷ []) ≡ [])
      → (length backup_id ≡ 16) ⊎ (backup_id ≡ [])
      → IsSized l config input (account_keys_output l pool backup_id keys)
  unfolding pin_keys
  pin_keys-IsSized config input pool backup_id none e aci id =
      let pin = first_non_empty (input.pin ∷ config.pin ∷ []) in
      elim (Bool-cases (is_empty pin)) [
        | inl bare ↦ record {
          aci = aci;
          backup_id = id;
          pin_salt = inr (refl, refl, refl, empty pin bare);
        }
        | inr given ↦ absurd (
            Result-cases (resolve_pin_salt l config input) (λ salt f. ground arith)
              (λ x f. ground arith))
      ]
  pin_keys-IsSized config input pool backup_id (some (salt, hash)) e aci id =
      let pin = first_non_empty (input.pin ∷ config.pin ∷ []) in
      elim (Bool-cases (is_empty pin)) [
        | inl bare ↦ absurd (ground arith)
        | inr given ↦
            Result-cases (resolve_pin_salt l config input)
              (λ found f.
                let same : found ≡ salt = ground arith in
                record {
                  aci = aci;
                  backup_id = id;
                  pin_salt = inl (
                    ap length (sym same) ∙ length-resolve_pin_salt config input found f,
                    full pin given,
                  );
                })
              (λ x f. absurd (ground arith))
      ]

  -- The account keys that a request gets: an account identifier that it names has the library's
  -- length, and the backup identifier is 16 bytes or none. With a PIN the salt is 32 bytes, whether it
  -- was given or made, and without one the salt and both of its keys are empty.
  pub execute_signal_account_keys-IsSized :
      (draw : Bytes) (config input : AccountKeysInput) (out : AccountKeysOutput)
      → execute_signal_account_keys l draw config input ≡ ok out
      → IsSized l config input out
  unfolding execute_signal_account_keys
  execute_signal_account_keys-IsSized draw config input out e =
      let raw = first_bytes (input.aci ∷ config.aci ∷ []) in
      Result-cases
        (resolve_pool l draw (first_non_empty (input.entropy_pool ∷ config.entropy_pool ∷ [])))
        (λ pool p.
          Result-cases (backup_id_of l (l.derive_backup_key pool) raw)
            (λ id i.
              Result-cases (pin_keys l config input)
                (λ keys k.
                  let (aci, sized_id) = length-backup_id_of _ raw id i in
                  let same : account_keys_output l pool id keys ≡ out = ground arith in
                  subst (IsSized l config input) same
                    (pin_keys-IsSized config input pool id keys k aci sized_id))
                (λ x f. absurd (ground arith)))
            (λ x f. absurd (ground arith)))
        (λ x f. absurd (ground arith))
