-- ===== src/Custody/Sealed/ReadWrite.antt =====
-- A bundle that was written reads back, with its metadata and its material.
use workflow_plugin_signal.Base.{
  subst, ◌≡◌, refl, sym, false, not, ◌||◌, some, arith, Str, str_eq, str_eq_iff, str_eq_refl, Dict,
  lookup, Result, ok, err, Option-cases, Result-cases, inl, inr, if◌then◌else◌,
}
use workflow_plugin_signal.Custody.Sealed.{
  Bytes, Material, Config, Metadata, SealedBundle, Error, Crypto, CryptoLaws, System, Vault, aad,
  aead, encrypt_material, decrypt_material, read_bundle, bundle_file, write_bundle, resolve, commit,
  settle,
}
use workflow_plugin_signal.Custody.Sealed.Files.{NotTemp, lookup-write_file}

module _ (c : Crypto) where
  abbrev sealed : Config → Metadata → Material → Bytes → Bytes → SealedBundle
  sealed cfg meta material key nonce = record {
    metadata = meta;
    nonce = c.base64_encode nonce;
    ciphertext = c.base64_encode (c.seal key nonce (c.marshal_material material) (aad meta));
  }

  -- What the bytes of a bundle are made of.
  bundle_file-ok :
      (sys : System) (cfg : Config) (meta : Metadata) (material : Material) (path : Str)
      (raw : Bytes)
      → bundle_file c sys cfg meta material ≡ ok (path, raw)
      → (key : Bytes) × (nonce : Bytes) × (aead c cfg ≡ ok key)
        × (c.marshal_bundle (sealed cfg meta material key nonce) ≡ some raw)
        × (path ≡ c.path_for cfg.storage_dir meta.ref_id)
  unfolding bundle_file encrypt_material aead
  bundle_file-ok sys cfg meta material path raw e =
      elim (Option-cases (resolve cfg.resolve_secret cfg.kek_ref)) [
        | inl missing ↦ absurd (ground arith)
        | inr (secret, found) ↦ elim (Option-cases sys.nonce) [
          | inl missing ↦ absurd (ground arith)
          | inr (nonce, drawn) ↦ (c.sha256 secret, nonce, rw found, ground arith, ground arith)
        ]
      ]

  -- What a successful write has done: the path of the bundle holds its bytes, and every other path of
  -- a bundle what it held.
  pub record Written (sys : System) (cfg : Config) (meta : Metadata) (material : Material)
      (before later : Dict Bytes) : Type 0 where
    pub path : Str
    pub raw : Bytes
    pub file : bundle_file c sys cfg meta material ≡ ok (path, raw)
    pub at : path ≡ c.path_for cfg.storage_dir meta.ref_id
    pub held :
        (dir ref : Str)
        → lookup (c.path_for dir ref) later ≡ (
            if str_eq path (c.path_for dir ref)
            then some raw
            else lookup (c.path_for dir ref) before)

  pub bundle_apart :
      (sys : System) (cfg : Config) (meta : Metadata) (material : Material) (path : Str)
      (raw : Bytes) (dir ref : Str)
      → CryptoLaws c
      → bundle_file c sys cfg meta material ≡ ok (path, raw)
      → NotTemp c path (c.path_for dir ref)
  bundle_apart sys cfg meta material path raw dir ref laws e suffix =
      rw (bundle_file-ok sys cfg meta material path raw e).4
        (laws.temp-apart cfg.storage_dir meta.ref_id suffix dir ref)

  pub write_bundle-Written :
      (sys : System) (cfg : Config) (meta : Metadata) (material : Material) (files : Dict Bytes)
      → CryptoLaws c
      → (write_bundle c sys cfg meta material files).0 ≡ ok tt
      → Written sys cfg meta material files (write_bundle c sys cfg meta material files).1
  unfolding write_bundle
  write_bundle-Written sys cfg meta material files laws e =
      Result-cases (bundle_file c sys cfg meta material)
        (λ (path, raw) f. record {
          path = path;
          raw = raw;
          file = f;
          at = (bundle_file-ok sys cfg meta material path raw f).4;
          held = λ dir ref. rw f (
              lookup-write_file c sys.temp sys path (c.path_for dir ref) raw files
                (bundle_apart sys cfg meta material path raw dir ref laws f) (rw f at e));
        })
        (λ x f. absurd (ground arith))

  decrypt_sealed :
      (cfg : Config) (meta : Metadata) (material : Material) (key nonce : Bytes)
      → CryptoLaws c
      → aead c cfg ≡ ok key
      → decrypt_material c cfg (sealed cfg meta material key nonce) ≡ ok material
  unfolding decrypt_material
  decrypt_sealed cfg meta material key nonce laws e =
      rw (e, laws.decode-encode, laws.decode-encode, laws.unseal-seal, laws.material-round_trip)

  kek_matches : (a b x y : Str) → a ≡ x → b ≡ y → (not (str_eq a x) || not (str_eq b y)) ≡ false
  kek_matches a b x y e f = ground (arith, str_eq_iff a x, str_eq_iff b y)

  read_sealed :
      (cfg : Config) (meta : Metadata) (material : Material) (key nonce raw : Bytes)
      (files : Dict Bytes)
      → CryptoLaws c
      → aead c cfg ≡ ok key
      → c.marshal_bundle (sealed cfg meta material key nonce) ≡ some raw
      → meta.kek_ref ≡ cfg.kek_ref
      → meta.kek_version ≡ cfg.kek_version
      → lookup (c.path_for cfg.storage_dir meta.ref_id) files ≡ some raw
      → read_bundle c (record { cfg = cfg; files = files }) meta.ref_id
        ≡ ok (sealed cfg meta material key nonce, material)
  unfolding read_bundle
  read_sealed cfg meta material key nonce raw files laws opened marshalled kr kv stored = rw (
    stored,
    laws.bundle-round_trip (sealed cfg meta material key nonce) raw marshalled,
    kek_matches meta.kek_ref meta.kek_version cfg.kek_ref cfg.kek_version kr kv,
    decrypt_sealed cfg meta material key nonce laws opened,
  )

  read_bundle-Written :
      (sys : System) (cfg : Config) (meta : Metadata) (material : Material)
      (before later : Dict Bytes)
      → CryptoLaws c
      → Written sys cfg meta material before later
      → meta.kek_ref ≡ cfg.kek_ref
      → meta.kek_version ≡ cfg.kek_version
      → (bundle : SealedBundle) × (bundle.metadata ≡ meta)
        × (read_bundle c (record { cfg = cfg; files = later }) meta.ref_id ≡ ok (bundle, material))
  read_bundle-Written sys cfg meta material before later laws w kr kv =
      let (key, nonce, opened, marshalled, at) =
        bundle_file-ok sys cfg meta material w.path w.raw w.file in
      (
        sealed cfg meta material key nonce,
        refl,
        read_sealed cfg meta material key nonce w.raw later laws opened marshalled kr kv
            (rw (at, str_eq_refl) at (w.held cfg.storage_dir meta.ref_id)),
      )

  -- `read_bundle` of a reference gives this metadata and this material.
  pub record Holds (v : Vault) (ref_id : Str) (meta : Metadata) (material : Material) : Type 0 where
    pub bundle : SealedBundle
    pub metadata : bundle.metadata ≡ meta
    pub read : read_bundle c v ref_id ≡ ok (bundle, material)

  settle-Holds :
      (sys : System) (v : Vault) (cfg : Config) (meta : Metadata) (material : Material)
      (written : Result Error Unit × Dict Bytes) {m : Metadata}
      → CryptoLaws c
      → meta.kek_ref ≡ cfg.kek_ref
      → meta.kek_version ≡ cfg.kek_version
      → (written.0 ≡ ok tt → Written sys cfg meta material v.files written.1)
      → (settle c v cfg meta written).0 ≡ ok m
      → (m ≡ meta)
        × ((settle c v cfg meta written).1.cfg ≡ cfg)
        × Holds (settle c v cfg meta written).1 meta.ref_id meta material
  settle-Holds sys v cfg meta material (err x, files) laws kr kv w h = cc
  settle-Holds sys v cfg meta material (ok tt, files) laws kr kv w h =
      let (bundle, same, read) =
        read_bundle-Written sys cfg meta material v.files files laws (w refl) kr kv in
      (cc, refl, record { bundle = bundle; metadata = same; read = read })

  -- A commit that succeeds leaves what it was given, readable.
  commit-Holds :
      (sys : System) (v : Vault) (cfg : Config) (meta : Metadata) (material : Material)
      {m : Metadata}
      → CryptoLaws c
      → meta.kek_ref ≡ cfg.kek_ref
      → meta.kek_version ≡ cfg.kek_version
      → (commit c sys v (ok (cfg, meta, material))).0 ≡ ok m
      → (m ≡ meta)
        × ((commit c sys v (ok (cfg, meta, material))).1.cfg ≡ cfg)
        × Holds (commit c sys v (ok (cfg, meta, material))).1 meta.ref_id meta material
  unfolding commit
  commit-Holds sys v cfg meta material laws kr kv e =
      settle-Holds sys v cfg meta material _ laws kr kv
        (write_bundle-Written sys cfg meta material v.files laws) e

  -- An operation that succeeded had a plan.
  pub commit-planned :
      (sys : System) (v : Vault) (plan : Result Error (Config × Metadata × Material)) {m : Metadata}
      → (commit c sys v plan).0 ≡ ok m
      → (p : Config × Metadata × Material) × (plan ≡ ok p)
  unfolding commit
  commit-planned sys v (err x) h = cc
  commit-planned sys v (ok p) h = (p, refl)

  commit-reads :
      (sys : System) (v : Vault) (cfg : Config) (meta : Metadata) (material : Material)
      (ref_id : Str) {m : Metadata}
      → CryptoLaws c
      → meta.kek_ref ≡ cfg.kek_ref
      → meta.kek_version ≡ cfg.kek_version
      → meta.ref_id ≡ ref_id
      → (commit c sys v (ok (cfg, meta, material))).0 ≡ ok m
      → (m ≡ meta)
        × ((commit c sys v (ok (cfg, meta, material))).1.cfg ≡ cfg)
        × Holds (commit c sys v (ok (cfg, meta, material))).1 ref_id m material
  commit-reads sys v cfg meta material ref_id laws kr kv named e =
      let (same, at, held) = commit-Holds sys v cfg meta material laws kr kv e in
      (same, at, rw (same, ← named) held)

  -- What an operation with this plan returns, and what it leaves.
  pub planned-Holds :
      (sys : System) (v : Vault) (plan : Result Error (Config × Metadata × Material)) (cfg : Config)
      (meta : Metadata) (material : Material) (ref_id : Str) {m : Metadata}
      → CryptoLaws c
      → plan ≡ ok (cfg, meta, material)
      → meta.kek_ref ≡ cfg.kek_ref
      → meta.kek_version ≡ cfg.kek_version
      → meta.ref_id ≡ ref_id
      → (commit c sys v plan).0 ≡ ok m
      → (m ≡ meta)
        × ((commit c sys v plan).1.cfg ≡ cfg)
        × Holds (commit c sys v plan).1 ref_id m material
  planned-Holds sys v plan cfg meta material ref_id {m} laws p kr kv named e =
      subst
        (λ x.
          (commit c sys v x).0 ≡ ok m
          → (m ≡ meta)
            × ((commit c sys v x).1.cfg ≡ cfg)
            × Holds (commit c sys v x).1 ref_id m material)
        (sym p) (commit-reads sys v cfg meta material ref_id laws kr kv named) e

  -- A bundle is read only under the key that it was sealed under.
  pub read_bundle-kek :
      (v : Vault) (ref_id : Str) (bundle : SealedBundle) (material : Material)
      → read_bundle c v ref_id ≡ ok (bundle, material)
      → (bundle.metadata.kek_ref ≡ v.cfg.kek_ref)
        × (bundle.metadata.kek_version ≡ v.cfg.kek_version)
  unfolding read_bundle
  read_bundle-kek v ref_id bundle material e =
      elim (Option-cases (lookup (c.path_for v.cfg.storage_dir ref_id) v.files)) [
        | inl missing ↦ absurd (ground arith)
        | inr (raw, found) ↦ elim (Option-cases (c.unmarshal_bundle raw)) [
          | inl bad ↦ absurd (ground arith)
          | inr (b, parsed) ↦
              let same : b ≡ bundle = ground arith in
              ground (
                arith,
                str_eq_iff b.metadata.kek_ref v.cfg.kek_ref,
                str_eq_iff b.metadata.kek_version v.cfg.kek_version,
              )
        ]
      ]

  pub Holds-kek :
      (v : Vault) (ref_id : Str) (meta : Metadata) (material : Material)
      → Holds v ref_id meta material
      → (meta.kek_ref ≡ v.cfg.kek_ref) × (meta.kek_version ≡ v.cfg.kek_version)
  Holds-kek v ref_id meta material h =
      rw (← h.metadata) (read_bundle-kek v ref_id h.bundle material h.read)
