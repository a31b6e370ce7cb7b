-- ===== src/Custody/Persistent/Restart.antt =====
-- The keys of a persistent custody after a restart.
use workflow_plugin_signal.Base.{
  ◌≡◌, refl, ap, ◌∙◌, inl, inr, true, false, none, some, arith, Str, str_eq_refl, Dict, lookup,
  insert, lookup-insert, Result, ok, err, after, Option-cases, Bool-cases, Result-cases,
}
use workflow_plugin_signal.Envelope.{Write, complete, partial}
use workflow_plugin_signal.Custody.Sealed.{Bytes}
use workflow_plugin_signal.Custody.Modules.{PersistentCustodyConfig}
use workflow_plugin_signal.Custody.Persistent.{
  Error, decode_storage, SeedCrypto, SeedLaws, System, Resolver, Process, persistent_custody_aead,
  persistent_record, sealed_envelope, refs_match, encrypt_persistent_custody_seed,
  decrypt_persistent_custody_seed, new_seed, write_seed, load_or_create_persistent_custody_seed,
  register_seed, resolve_signal_host_secret, init_persistent_custody, derive_persistent_custody_key,
}

module _ (c : SeedCrypto) where
  -- What a successful encryption has gone through.
  encrypted :
      (sys : System) (seed : Bytes) (cfg : PersistentCustodyConfig) (key raw : Bytes)
      → encrypt_persistent_custody_seed c sys seed cfg key ≡ ok raw
      → (nonce : Bytes) × (persistent_custody_aead key ≡ ok key)
        × (c.marshal (sealed_envelope c seed cfg key nonce) ≡ some raw)
  unfolding encrypt_persistent_custody_seed persistent_custody_aead
  encrypted sys seed cfg key raw e = elim (Option-cases sys.nonce) [
    | inl missing ↦ absurd (ground arith)
    | inr (nonce, drawn) ↦ (nonce, ground arith, ground arith)
  ]

  refs_match-sealed_envelope :
      (seed : Bytes) (cfg : PersistentCustodyConfig) (key nonce : Bytes)
      → refs_match c (sealed_envelope c seed cfg key nonce) cfg ≡ true
  unfolding refs_match sealed_envelope
  refs_match-sealed_envelope seed cfg key nonce =
      rw
        (
          str_eq_refl cfg.custody_ref,
          str_eq_refl cfg.account_ref,
          str_eq_refl cfg.key_handle,
          str_eq_refl cfg.host_secret_ref,
        )
        refl

  decrypt-sealed_envelope :
      (seed : Bytes) (cfg : PersistentCustodyConfig) (key nonce raw : Bytes)
      → SeedLaws c
      → persistent_custody_aead key ≡ ok key
      → c.marshal (sealed_envelope c seed cfg key nonce) ≡ some raw
      → decrypt_persistent_custody_seed c raw cfg key ≡ ok seed
  unfolding decrypt_persistent_custody_seed sealed_envelope
  decrypt-sealed_envelope seed cfg key nonce raw laws gcm e =
      let parsed = laws.unmarshal-marshal (sealed_envelope c seed cfg key nonce) raw e in
      let same = refs_match-sealed_envelope seed cfg key nonce in
      rw
        (
          parsed,
          same,
          gcm,
          laws.base64-round_trip nonce,
          laws.base64-round_trip _,
          laws.unseal-seal,
        )
        refl

  decrypt-encrypt :
      (sys : System) (seed : Bytes) (cfg : PersistentCustodyConfig) (key raw : Bytes)
      → SeedLaws c
      → encrypt_persistent_custody_seed c sys seed cfg key ≡ ok raw
      → decrypt_persistent_custody_seed c raw cfg key ≡ ok seed
  decrypt-encrypt sys seed cfg key raw laws e =
      let (nonce, gcm, written) = encrypted sys seed cfg key raw e in
      decrypt-sealed_envelope seed cfg key nonce raw laws gcm written

  -- A file at the path decrypts to the seed.
  abbrev Stored : PersistentCustodyConfig → Bytes → Bytes → Dict Bytes → Type 0
  Stored cfg key seed files =
      (raw : Bytes) × (lookup cfg.storage_path files ≡ some raw)
      × (decrypt_persistent_custody_seed c raw cfg key ≡ ok seed)

  write-Stored :
      (sys : System) (write : Write) (cfg : PersistentCustodyConfig) (key seed' seed raw : Bytes)
      (files : Dict Bytes)
      → decrypt_persistent_custody_seed c raw cfg key ≡ ok seed'
      → (write_seed c write cfg.storage_path (seed', raw) files).0 ≡ ok seed
      → Stored cfg key seed (write_seed c write cfg.storage_path (seed', raw) files).1
  unfolding write_seed
  write-Stored sys complete cfg key seed' seed raw files d e = (
    raw,
    ground (
      arith,
      lookup-insert cfg.storage_path cfg.storage_path raw files,
      str_eq_refl cfg.storage_path,
    ),
    ground arith,
  )
  write-Stored sys (partial none) cfg key seed' seed raw files d e = cc
  write-Stored sys (partial (some part)) cfg key seed' seed raw files d e = cc

  new_seed-decrypts :
      (sys : System) (cfg : PersistentCustodyConfig) (key seed raw : Bytes)
      → SeedLaws c
      → new_seed c sys cfg key ≡ ok (seed, raw)
      → decrypt_persistent_custody_seed c raw cfg key ≡ ok seed
  unfolding new_seed
  new_seed-decrypts sys cfg key seed raw laws e = elim (Option-cases sys.seed) [
    | inl missing ↦ absurd (ground arith)
    | inr (drawn, d) ↦
        Result-cases (encrypt_persistent_custody_seed c sys drawn cfg key)
          (λ r f. let decrypts = decrypt-encrypt sys drawn cfg key r laws f in ground arith)
          (λ x f. absurd (ground arith))
  ]

  created-Stored :
      (sys : System) (cfg : PersistentCustodyConfig) (key seed : Bytes) (files : Dict Bytes)
      (made : Result Error (Bytes × Bytes))
      → SeedLaws c
      → new_seed c sys cfg key ≡ made
      → (after made (write_seed c sys.write cfg.storage_path) files).0 ≡ ok seed
      → Stored cfg key seed (after made (write_seed c sys.write cfg.storage_path) files).1
  created-Stored sys cfg key seed files (ok (seed', raw)) laws m e =
      write-Stored sys sys.write cfg key seed' seed raw files
        (new_seed-decrypts sys cfg key seed' raw laws m) e
  created-Stored sys cfg key seed files (err x) laws m e = cc

  loaded-Stored :
      (sys : System) (cfg : PersistentCustodyConfig) (key seed : Bytes) (files : Dict Bytes)
      → SeedLaws c
      → (load_or_create_persistent_custody_seed c sys cfg key files).0 ≡ ok seed
      → Stored cfg key seed (load_or_create_persistent_custody_seed c sys cfg key files).1
  unfolding load_or_create_persistent_custody_seed
  loaded-Stored sys cfg key seed files laws e = elim (Bool-cases sys.read_fails) [
    | inl bad ↦ absurd (ground arith)
    | inr good ↦ elim (Option-cases (lookup cfg.storage_path files)) [
      | inl fresh ↦
          rw (good, fresh)
            (created-Stored sys cfg key seed files _ laws refl (rw (good, fresh) at e))
      | inr (raw, there) ↦ rw (good, there) (raw, there, rw (good, there) at e)
    ]
  ]

  Stored-loads :
      (sys : System) (cfg : PersistentCustodyConfig) (key seed : Bytes) (files : Dict Bytes)
      → sys.read_fails ≡ false
      → Stored cfg key seed files
      → load_or_create_persistent_custody_seed c sys cfg key files ≡ (ok seed, files)
  unfolding load_or_create_persistent_custody_seed
  Stored-loads sys cfg key seed files good (raw, there, decrypts) = rw (good, there, decrypts) refl

  registered_ok :
      (cfg : PersistentCustodyConfig) (p : Process) (r : Result Error Bytes × Dict Bytes)
      → (register_seed c cfg p r).0 ≡ ok tt
      → (seed : Bytes) × (r.0 ≡ ok seed)
        × (register_seed c cfg p r ≡ register_seed c cfg p (ok seed, r.1))
  unfolding register_seed
  registered_ok cfg p (ok seed, files) e = (seed, refl, refl)
  registered_ok cfg p (err x, files) e = cc

  derive-register_seed :
      (cfg : PersistentCustodyConfig) (p p' : Process) (seed : Bytes) (files files' : Dict Bytes)
      (label : Str)
      → derive_persistent_custody_key c cfg.custody_ref label
          (register_seed c cfg p (ok seed, files)).1.persistent
        ≡ derive_persistent_custody_key c cfg.custody_ref label
            (register_seed c cfg p' (ok seed, files')).1.persistent
  unfolding register_seed derive_persistent_custody_key
  derive-register_seed cfg p p' seed files files' label =
      let r = persistent_record c cfg seed in
      rw
        (
          lookup-insert cfg.custody_ref cfg.custody_ref r p.persistent,
          lookup-insert cfg.custody_ref cfg.custody_ref r p'.persistent,
          str_eq_refl cfg.custody_ref,
        )
        refl

  files-register_seed :
      (cfg : PersistentCustodyConfig) (p : Process) (seed : Bytes) (files : Dict Bytes)
      → (register_seed c cfg p (ok seed, files)).1.files ≡ files
  unfolding register_seed
  files-register_seed cfg p seed files = refl

  register_seed_ok :
      (cfg : PersistentCustodyConfig) (p : Process) (seed : Bytes) (files : Dict Bytes)
      → (register_seed c cfg p (ok seed, files)).0 ≡ ok tt
  unfolding register_seed
  register_seed_ok cfg p seed files = refl

  second_init :
      (sys : System) (resolver : Resolver) (cfg : PersistentCustodyConfig) (p : Process)
      (secret seed : Bytes)
      → resolve_signal_host_secret c resolver cfg.host_secret_ref ≡ ok secret
      → load_or_create_persistent_custody_seed c sys cfg (c.sha256 secret) p.files
        ≡ (ok seed, p.files)
      → init_persistent_custody c sys resolver cfg p ≡ register_seed c cfg p (ok seed, p.files)
  unfolding init_persistent_custody
  second_init sys resolver cfg p secret seed f e = rw (f, e) refl

  -- What a successful `Init` has gone through.
  init_ok :
      (sys : System) (resolver : Resolver) (cfg : PersistentCustodyConfig) (p : Process)
      (found : Result Error Bytes)
      → resolve_signal_host_secret c resolver cfg.host_secret_ref ≡ found
      → (init_persistent_custody c sys resolver cfg p).0 ≡ ok tt
      → (secret : Bytes) × (seed : Bytes) × (found ≡ ok secret)
        × ((load_or_create_persistent_custody_seed c sys cfg (c.sha256 secret) p.files).0 ≡ ok seed)
        × ((init_persistent_custody c sys resolver cfg p).1
            ≡ (register_seed c cfg p (
              ok seed,
              (load_or_create_persistent_custody_seed c sys cfg (c.sha256 secret) p.files).1,
            )).1)
  unfolding init_persistent_custody
  init_ok sys resolver cfg p (err x) f e = absurd (ground arith)
  init_ok sys resolver cfg p (ok secret) f e =
      let loaded : Result Error Bytes × Dict Bytes =
        load_or_create_persistent_custody_seed c sys cfg (c.sha256 secret) p.files in
      let (seed, got, same) = registered_ok cfg p loaded (rw f at e) in
      (secret, seed, refl, got, rw f (ap (λ r. r.1) same))

  -- After an `Init` that succeeded, another one with the same configuration and secrets, in whatever
  -- process finds the file as it was left and can read it, succeeds too, derives the same key for
  -- each label, and leaves the files alone.
  pub init_persistent_custody-restart :
      (sys later : System) (resolver : Resolver) (cfg : PersistentCustodyConfig) (p again : Process)
      (label : Str)
      → SeedLaws c
      → (init_persistent_custody c sys resolver cfg p).0 ≡ ok tt
      → later.read_fails ≡ false
      → lookup cfg.storage_path again.files
        ≡ lookup cfg.storage_path (init_persistent_custody c sys resolver cfg p).1.files
      → ((init_persistent_custody c later resolver cfg again).0 ≡ ok tt)
        × (derive_persistent_custody_key c cfg.custody_ref label
              (init_persistent_custody c later resolver cfg again).1.persistent
            ≡ derive_persistent_custody_key c cfg.custody_ref label
                (init_persistent_custody c sys resolver cfg p).1.persistent)
        × ((init_persistent_custody c later resolver cfg again).1.files ≡ again.files)
  init_persistent_custody-restart sys later resolver cfg p again label laws e good same =
      let (secret, seed, found, loaded, left) = init_ok sys resolver cfg p _ refl e in
      let (raw, there, decrypts) =
        loaded-Stored sys cfg (c.sha256 secret) seed p.files laws loaded in
      let kept : lookup cfg.storage_path again.files ≡ some raw =
        same
        ∙ (ap (λ q. lookup cfg.storage_path q.files) left
            ∙ (ap (lookup cfg.storage_path) (files-register_seed cfg p seed _) ∙ there)) in
      let second =
        second_init later resolver cfg again secret seed found
          (Stored-loads later cfg (c.sha256 secret) seed again.files good (raw, kept, decrypts)) in
      rw (second, left)
        (
          register_seed_ok cfg again seed again.files,
          derive-register_seed cfg again p seed _ _ label,
          files-register_seed cfg again seed again.files,
        )

  -- If the first write of the seed stops early and what it left in the file is not JSON, the custody
  -- is lost: every later `Init` with the same configuration and secrets that can read the file fails
  -- to decode it and changes nothing.
  pub init_persistent_custody-stuck :
      (sys later : System) (resolver : Resolver) (cfg : PersistentCustodyConfig) (p again : Process)
      (secret seed raw part : Bytes)
      → resolve_signal_host_secret c resolver cfg.host_secret_ref ≡ ok secret
      → sys.read_fails ≡ false
      → lookup cfg.storage_path p.files ≡ none
      → new_seed c sys cfg (c.sha256 secret) ≡ ok (seed, raw)
      → sys.write ≡ partial (some part)
      → c.unmarshal part ≡ none
      → later.read_fails ≡ false
      → again.files ≡ (init_persistent_custody c sys resolver cfg p).1.files
      → init_persistent_custody c later resolver cfg again ≡ (err decode_storage, again)
  unfolding init_persistent_custody load_or_create_persistent_custody_seed register_seed
      decrypt_persistent_custody_seed write_seed
  init_persistent_custody-stuck sys later resolver cfg p again secret seed raw part f r₁ fresh drawn
        w bad r₂ left =
      let files : again.files ≡ insert cfg.storage_path part p.files =
        left ∙ rw (f, r₁, fresh, drawn, w) refl in
      let there : lookup cfg.storage_path again.files ≡ some part =
        rw
          (
            files,
            lookup-insert cfg.storage_path cfg.storage_path part p.files,
            str_eq_refl cfg.storage_path,
          )
          refl in
      rw (f, r₂, there, bad) refl
