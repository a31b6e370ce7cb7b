-- ===== src/Custody/Sealed/Rotation.antt =====
-- Rotating the key-encryption key of a custody reference.
use workflow_plugin_signal.Base.{
  subst, ◌≡◌, ◌≢◌, refl, sym, ◌∙◌, Str, [], some, inl, inr, arith, str_eq_iff, Option-cases, Result,
  ok, err, is_empty-false, Dict, lookup,
}
use workflow_plugin_signal.Custody.Sealed.{
  Bytes, Material, Config, Metadata, SealedBundle, RotateRequest, Error, stale_kek_version,
  rotate_conflict, Crypto, CryptoLaws, System, Vault, read_bundle, commit, settle, plan_rotate,
  rotate, state_revoked,
}
use workflow_plugin_signal.Custody.Sealed.ReadWrite.{
  Holds, planned-Holds, commit-planned, Holds-kek, read_bundle-kek, Written, write_bundle-Written,
}

module _ (c : Crypto) where
  rotated :
      (sys : System) (req : RotateRequest) (v : Vault) (meta : Metadata) (material : Material)
      (cfg' : Config) (meta' : Metadata) (material' : Material)
      → Holds c v req.ref_id meta material
      → plan_rotate c sys req v ≡ ok (cfg', meta', material')
      → (meta'.kek_ref ≡ cfg'.kek_ref)
        × (meta'.kek_version ≡ cfg'.kek_version)
        × (cfg'.kek_version ≡ req.new_kek_version)
        × (cfg'.storage_dir ≡ v.cfg.storage_dir)
        × (meta'.ref_id ≡ meta.ref_id)
        × (meta'.state ≡ meta.state)
        × (meta'.created_at ≡ meta.created_at)
        × (material' ≡ material)
        × (meta.kek_version ≡ req.expected_kek_version)
  unfolding plan_rotate
  rotated sys req v meta material cfg' meta' material' h e =
      let m = h.bundle.metadata in ground (arith, str_eq_iff m.kek_version req.expected_kek_version)

  -- A rotation that succeeds was asked for the version that was current; afterwards the store and
  -- the bundle are under the new version, and the state, the time of creation and the material are
  -- what they were.
  pub rotate-Holds :
      (sys : System) (req : RotateRequest) (v : Vault) (meta : Metadata) (material : Material)
      {m : Metadata}
      → CryptoLaws c
      → Holds c v req.ref_id meta material
      → meta.ref_id ≡ req.ref_id
      → (rotate c sys req v).0 ≡ ok m
      → (v.cfg.kek_version ≡ req.expected_kek_version)
        × ((rotate c sys req v).1.cfg.kek_version ≡ req.new_kek_version)
        × (m.kek_version ≡ req.new_kek_version)
        × (m.state ≡ meta.state)
        × (m.created_at ≡ meta.created_at)
        × Holds c (rotate c sys req v).1 req.ref_id m material
  unfolding rotate
  rotate-Holds sys req v meta material {m} laws h own e =
      let ((cfg', meta', material'), plan) = commit-planned c sys v (plan_rotate c sys req v) e in
      let (kr, kv, new, _, named, state, created, same_material, current) =
        rotated sys req v meta material cfg' meta' material' h plan in
      let (same, at, held) =
        planned-Holds c sys v _ cfg' meta' material' req.ref_id laws plan kr kv (named ∙ own) e in
      (
        sym (Holds-kek c v req.ref_id meta material h).1 ∙ current,
        rw at new,
        rw same (kv ∙ new),
        rw same state,
        rw same created,
        subst (Holds c (rotate c sys req v).1 req.ref_id m) same_material held,
      )

  -- A bundle under another version than the store's is stale.
  read_stale :
      (v : Vault) (ref_id : Str) (raw : Bytes) (bundle : SealedBundle)
      → lookup (c.path_for v.cfg.storage_dir ref_id) v.files ≡ some raw
      → c.unmarshal_bundle raw ≡ some bundle
      → bundle.metadata.kek_version ≢ v.cfg.kek_version
      → read_bundle c v ref_id ≡ err stale_kek_version
  unfolding read_bundle
  read_stale v ref_id raw bundle found parsed other =
      rw (found, parsed) (ground (arith, str_eq_iff bundle.metadata.kek_version v.cfg.kek_version))

  -- The file that a reference was read from.
  Holds-file :
      (v : Vault) (ref_id : Str) (meta : Metadata) (material : Material)
      (h : Holds c v ref_id meta material)
      → (raw : Bytes) × (lookup (c.path_for v.cfg.storage_dir ref_id) v.files ≡ some raw)
        × (c.unmarshal_bundle raw ≡ some h.bundle)
  unfolding read_bundle
  Holds-file v ref_id meta material h =
      elim (Option-cases (lookup (c.path_for v.cfg.storage_dir ref_id) v.files)) [
        | inl missing ↦ absurd (ground (arith, h.read))
        | inr (raw, found) ↦ elim (Option-cases (c.unmarshal_bundle raw)) [
          | inl bad ↦ absurd (ground (arith, h.read))
          | inr (b, parsed) ↦ (raw, found, ground (arith, h.read))
        ]
      ]

  settle-files :
      (sys : System) (v : Vault) (cfg : Config) (meta : Metadata) (material : Material)
      (written : Result Error Unit × Dict Bytes) (dir ref : Str) {m : Metadata}
      → (written.0 ≡ ok tt → Written c sys cfg meta material v.files written.1)
      → (settle c v cfg meta written).0 ≡ ok m
      → c.path_for cfg.storage_dir meta.ref_id ≢ c.path_for dir ref
      → lookup (c.path_for dir ref) (settle c v cfg meta written).1.files
        ≡ lookup (c.path_for dir ref) v.files
  settle-files sys v cfg meta material (err x, files) dir ref w h other = cc
  settle-files sys v cfg meta material (ok tt, files) dir ref w h other =
      let done = w refl in
      done.held dir ref ∙ ground (arith, done.at, str_eq_iff done.path (c.path_for dir ref))

  commit-files :
      (sys : System) (v : Vault) (plan : Result Error (Config × Metadata × Material)) (cfg : Config)
      (meta : Metadata) (material : Material) (dir ref : Str) {m : Metadata}
      → CryptoLaws c
      → plan ≡ ok (cfg, meta, material)
      → (commit c sys v plan).0 ≡ ok m
      → c.path_for cfg.storage_dir meta.ref_id ≢ c.path_for dir ref
      → lookup (c.path_for dir ref) (commit c sys v plan).1.files
        ≡ lookup (c.path_for dir ref) v.files
  unfolding commit
  commit-files sys v plan cfg meta material dir ref {m} laws p e other =
      subst
        (λ x.
          (commit c sys v x).0 ≡ ok m
          → lookup (c.path_for dir ref) (commit c sys v x).1.files
            ≡ lookup (c.path_for dir ref) v.files)
        (sym p)
        (λ h.
          settle-files sys v cfg meta material _ dir ref
            (write_bundle-Written c sys cfg meta material v.files laws) h other)
        e

  -- Rotating one reference of a store to a new version makes any other stored reference of that
  -- store, under another path, unreadable: it is stale.
  pub rotate-strands_others :
      (sys : System) (req : RotateRequest) (v : Vault) (meta : Metadata) (material : Material)
      (other : Str) (meta₂ : Metadata) (material₂ : Material) {m : Metadata}
      → CryptoLaws c
      → Holds c v req.ref_id meta material
      → meta.ref_id ≡ req.ref_id
      → Holds c v other meta₂ material₂
      → c.path_for v.cfg.storage_dir req.ref_id ≢ c.path_for v.cfg.storage_dir other
      → req.new_kek_version ≢ v.cfg.kek_version
      → (rotate c sys req v).0 ≡ ok m
      → read_bundle c (rotate c sys req v).1 other ≡ err stale_kek_version
  unfolding rotate
  rotate-strands_others sys req v meta material other meta₂ material₂ {m} laws h own g apart new e =
      let ((cfg', meta', material'), plan) = commit-planned c sys v (plan_rotate c sys req v) e in
      let (kr, kv, fresh, dir, named, _, _, _, _) =
        rotated sys req v meta material cfg' meta' material' h plan in
      let (_, at, _) =
        planned-Holds c sys v (plan_rotate c sys req v) cfg' meta' material' req.ref_id laws plan kr
          kv (named ∙ own) e in
      let (raw, found, parsed) = Holds-file v other meta₂ material₂ g in
      let kept =
        commit-files sys v (plan_rotate c sys req v) cfg' meta' material' v.cfg.storage_dir other
          laws plan e (rw (dir, named, own) apart) in
      read_stale (commit c sys v (plan_rotate c sys req v)).1 other raw g.bundle
        (rw (at, dir) (kept ∙ found)) parsed
        (rw (at, fresh, (read_bundle-kek c v other g.bundle material₂ g.read).1) (λ x. new (sym x)))

  -- A rotation of a stored reference that is not revoked, which expects another version than the
  -- current one, is refused and changes nothing.
  rotate-conflict :
      (sys : System) (req : RotateRequest) (v : Vault) (meta : Metadata) (material : Material)
      → Holds c v req.ref_id meta material
      → meta.state ≢ state_revoked
      → req.ref_id ≢ []
      → req.expected_kek_version ≢ []
      → req.new_kek_version ≢ []
      → req.expected_kek_version ≢ v.cfg.kek_version
      → rotate c sys req v ≡ (err rotate_conflict, v)
  unfolding rotate plan_rotate commit
  rotate-conflict sys req v meta material h active a b n other =
      let current = (Holds-kek c v req.ref_id meta material h).1 in
      rw (is_empty-false a, is_empty-false b, is_empty-false n, h.read, h.metadata)
        (ground (
          arith,
          str_eq_iff meta.state state_revoked,
          str_eq_iff meta.kek_version req.expected_kek_version,
        ))
