-- ===== src/Custody/Sealed/Lifecycle.antt =====
-- Creating, restoring and revoking a custody reference.
use workflow_plugin_signal.Base.{
  subst, Bool, ◌≡◌, ◌≢◌, refl, ◌∙◌, Str, [], arith, str_eq, Result, ok, err, is_empty-false,
}
use workflow_plugin_signal.Custody.Sealed.{
  Time, Material, Config, Metadata, CreateRequest, RotateRequest, Error, revoked_ref, Crypto,
  CryptoLaws, System, Vault, commit, plan_create, create, restore, inspect, read_bundle,
  plan_rotate, rotate, plan_revoke, revoke, state_active, state_revoked,
}
use workflow_plugin_signal.Custody.Sealed.ReadWrite.{
  Holds, planned-Holds, commit-planned, Holds-kek,
}
use workflow_plugin_signal.Custody.Sealed.Kept.{IsKept, IsFresh, commit-IsKept}

-- The operations that write.
pub data Operation : Type 0 where
  creating : CreateRequest → Operation
  rotating : RotateRequest → Operation
  revoking : Str → Time → Operation

module _ (c : Crypto) where
  unfoldable pub perform_sealed : System → Operation → Vault → Result Error Metadata × Vault
  perform_sealed sys (creating req) v = create c sys req v
  perform_sealed sys (rotating req) v = rotate c sys req v
  perform_sealed sys (revoking ref_id now) v = revoke c sys ref_id now v

  restore_active :
      (v : Vault) (ref_id : Str) (meta : Metadata) (material : Material)
      → ref_id ≢ []
      → Holds c v ref_id meta material
      → meta.state ≡ state_active
      → restore c ref_id v ≡ ok meta
  unfolding restore str_eq
  restore_active v ref_id meta material ne h active =
      rw (is_empty-false ne, h.read, h.metadata, active) refl

  restore_revoked :
      (v : Vault) (ref_id : Str) (meta : Metadata) (material : Material)
      → ref_id ≢ []
      → Holds c v ref_id meta material
      → meta.state ≡ state_revoked
      → restore c ref_id v ≡ err revoked_ref
  unfolding restore str_eq
  restore_revoked v ref_id meta material ne h revoked =
      rw (is_empty-false ne, h.read, h.metadata, revoked) refl

  inspect_held :
      (v : Vault) (ref_id : Str) (meta : Metadata) (material : Material)
      → ref_id ≢ []
      → Holds c v ref_id meta material
      → inspect c ref_id v ≡ ok meta
  unfolding inspect
  inspect_held v ref_id meta material ne h = rw (is_empty-false ne, h.read, h.metadata) refl

  created :
      (sys : System) (req : CreateRequest) (v : Vault) (cfg : Config) (meta : Metadata)
      (material : Material)
      → plan_create c sys req v ≡ ok (cfg, meta, material)
      → (req.ref_id ≢ [])
        × (cfg ≡ v.cfg)
        × (meta.ref_id ≡ req.ref_id)
        × (meta.state ≡ state_active)
        × (meta.kek_ref ≡ cfg.kek_ref)
        × (meta.kek_version ≡ cfg.kek_version)
        × (material ≡ req.material)
  unfolding plan_create
  created sys req v cfg meta material e = ground arith

  -- A reference that was created restores, in the active state, with the metadata that was
  -- returned and the material that was given, whatever the vault held under it before.
  pub restore-create :
      (sys : System) (req : CreateRequest) (v : Vault) {m : Metadata}
      → CryptoLaws c
      → (create c sys req v).0 ≡ ok m
      → (restore c req.ref_id (create c sys req v).1 ≡ ok m)
        × (m.state ≡ state_active)
        × Holds c (create c sys req v).1 req.ref_id m req.material
  unfolding create
  restore-create sys req v {m} laws e =
      let ((cfg, meta, material), plan) = commit-planned c sys v (plan_create c sys req v) e in
      let (ne, _, named, active, kr, kv, given) = created sys req v cfg meta material plan in
      let (same, _, held) =
        planned-Holds c sys v _ cfg meta material req.ref_id laws plan kr kv named e in
      let active' : m.state ≡ state_active = rw same active in
      let held' = subst (Holds c (create c sys req v).1 req.ref_id m) given held in
      (restore_active _ req.ref_id m req.material ne held' active', active', held')

  revoked :
      (sys : System) (ref_id : Str) (now : Time) (v : Vault) (meta : Metadata) (material : Material)
      (cfg' : Config) (meta' : Metadata) (material' : Material)
      → Holds c v ref_id meta material
      → plan_revoke c sys ref_id now v ≡ ok (cfg', meta', material')
      → (ref_id ≢ [])
        × (cfg' ≡ v.cfg)
        × (meta'.ref_id ≡ meta.ref_id)
        × (meta'.state ≡ state_revoked)
        × (meta'.kek_ref ≡ meta.kek_ref)
        × (meta'.kek_version ≡ meta.kek_version)
        × (material' ≡ material)
  unfolding plan_revoke
  revoked sys ref_id now v meta material cfg' meta' material' h e = ground arith

  rotate_revoked :
      (sys : System) (req : RotateRequest) (v : Vault) (ref_id : Str) (meta : Metadata)
      (material : Material)
      → ref_id ≢ []
      → Holds c v ref_id meta material
      → meta.state ≡ state_revoked
      → req.ref_id ≡ ref_id
      → req.expected_kek_version ≢ []
      → req.new_kek_version ≢ []
      → rotate c sys req v ≡ (err revoked_ref, v)
  unfolding rotate plan_rotate commit str_eq
  rotate_revoked sys req v ref_id meta material ne h revoked' named x y =
      rw
        (named, is_empty-false ne, is_empty-false x, is_empty-false y, h.read, h.metadata, revoked')
        refl

  -- After a revocation of a stored reference that succeeded, the metadata is revoked, restoring
  -- the reference is refused, a rotation of it that names both versions is refused and changes
  -- nothing, and inspecting it still shows its metadata.
  pub restore-revoke :
      (sys : System) (ref_id : Str) (now : Time) (v : Vault) (meta : Metadata) (material : Material)
      (later : System) (req : RotateRequest) {m : Metadata}
      → CryptoLaws c
      → Holds c v ref_id meta material
      → meta.ref_id ≡ ref_id
      → (revoke c sys ref_id now v).0 ≡ ok m
      → req.ref_id ≡ ref_id
      → req.expected_kek_version ≢ []
      → req.new_kek_version ≢ []
      → (m.state ≡ state_revoked)
        × (restore c ref_id (revoke c sys ref_id now v).1 ≡ err revoked_ref)
        × (inspect c ref_id (revoke c sys ref_id now v).1 ≡ ok m)
        × (rotate c later req (revoke c sys ref_id now v).1
            ≡ (err revoked_ref, (revoke c sys ref_id now v).1))
  unfolding revoke
  restore-revoke sys ref_id now v meta material later req {m} laws h own e named' x y =
      let ((cfg', meta', material'), plan) =
        commit-planned c sys v (plan_revoke c sys ref_id now v) e in
      let (ne, at, named, gone, kr, kv, _) =
        revoked sys ref_id now v meta material cfg' meta' material' h plan in
      let (r, w) = Holds-kek c v ref_id meta material h in
      let (same, _, held) =
        planned-Holds c sys v _ cfg' meta' material' ref_id laws plan (rw at (kr ∙ r))
          (rw at (kv ∙ w)) (named ∙ own) e in
      let gone' : m.state ≡ state_revoked = rw same gone in
      (
        gone',
        restore_revoked _ ref_id m material' ne held gone',
        inspect_held _ ref_id m material' ne held,
        rotate_revoked later req _ ref_id m material' ne held gone' named' x y,
      )

  performed-IsKept :
      (sys : System) (op : Operation) (v : Vault) (e : Error)
      → CryptoLaws c
      → IsFresh c sys v
      → (perform_sealed sys op v).0 ≡ err e
      → IsKept c sys.remove_fails v (perform_sealed sys op v).1
  unfolding perform_sealed create rotate revoke
  performed-IsKept sys (creating req) v e laws fresh h =
      commit-IsKept c sys v (plan_create c sys req v) laws fresh h
  performed-IsKept sys (rotating req) v e laws fresh h =
      commit-IsKept c sys v (plan_rotate c sys req v) laws fresh h
  performed-IsKept sys (revoking ref_id now) v e laws fresh h =
      commit-IsKept c sys v (plan_revoke c sys ref_id now v) laws fresh h

  kept-reads :
      (fails : Bool) (v v' : Vault) (ref : Str)
      → IsKept c fails v v'
      → (restore c ref v' ≡ restore c ref v) × (inspect c ref v' ≡ inspect c ref v)
  unfolding restore inspect read_bundle
  kept-reads fails v v' ref k = rw (k.cfg, k.bundles v.cfg.storage_dir ref) (refl, refl)

  -- Where the name of the temporary file is not taken, an operation that fails, for whatever reason
  -- and however much of that file it wrote, leaves the configuration and the file of every bundle as
  -- they were, so that every reference restores and inspects as before; and it leaves no other file
  -- behind either, unless the temporary file could not be removed.
  pub failure_keeps_bundles :
      (sys : System) (op : Operation) (v : Vault) (e : Error)
      → CryptoLaws c
      → IsFresh c sys v
      → (perform_sealed sys op v).0 ≡ err e
      → IsKept c sys.remove_fails v (perform_sealed sys op v).1
        × ((ref : Str)
            → (restore c ref (perform_sealed sys op v).1 ≡ restore c ref v)
              × (inspect c ref (perform_sealed sys op v).1 ≡ inspect c ref v))
  failure_keeps_bundles sys op v e laws fresh h =
      let k = performed-IsKept sys op v e laws fresh h in
      (k, λ ref. kept-reads sys.remove_fails v (perform_sealed sys op v).1 ref k)
