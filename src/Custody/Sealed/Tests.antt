-- ===== src/Custody/Sealed/Tests.antt =====
-- Runs of the sealed store (internal/custody/sealed_store.go).
use workflow_plugin_signal.Base.{
  pos, ◌≡◌, refl, false, some, [], ◌∷◌, Str, lit, lookup, insert, remove, ◌≢◌, str_eq, str_eq_iff,
  ok, err, arith,
}
use workflow_plugin_signal.Custody.Sealed.{
  plan_create, plan_rotate, plan_revoke, commit, write_bundle, encrypt_material, decrypt_material,
  aead, non_zero_time, Time, Material, Metadata, SealedBundle, System, Vault, Config, CreateRequest,
  RotateRequest, revoked_ref, stale_kek_version, write_failed, whole, stopped, bundle_file,
  write_file, replace_file, clean_up, create, rotate, revoke, restore, inspect, read_bundle,
  state_active, state_revoked, zero_time,
}
use workflow_plugin_signal.Custody.Sealed.ReadWrite.{Holds}
use workflow_plugin_signal.Custody.Sealed.Kept.{IsKept, IsFresh}
use workflow_plugin_signal.Custody.Sealed.Lifecycle.{
  creating, perform_sealed, restore-create, restore-revoke, failure_keeps_bundles,
}
use workflow_plugin_signal.Custody.Sealed.Rotation.{rotate-Holds, rotate-strands_others}
use workflow_plugin_signal.Refs.{custody_audit_ref}
use workflow_plugin_signal.Custody.Steps.{
  Stores, CustodyRestoreInput, CustodyOutput, custody_metadata, lookup_signal_custody_store,
  validate_custody_restore_hints, execute_custody_restore,
}
use workflow_plugin_signal.Custody.Steps.Hints.{IsRestored, execute_custody_restore-IsRestored}
use workflow_plugin_signal.Custody.Framing.{frame, frames, cons_first, unframe, at, first}
use workflow_plugin_signal.Custody.Sealed.Codec.{
  pairs_text, text_pairs, int_text, text_int, bundle_text, text_bundle, clear, clear_laws,
}

abbrev noon : Time
noon = record { seconds = pos 1700000000; nanos = 0 }

abbrev settings : Config
settings = record {
  backend_id = lit "local";
  storage_dir = lit "/var";
  kek_ref = lit "kek";
  kek_version = lit "v1";
  schema_version = 1;
  resolve_secret = some (λ ref. some (lit "key"));
}

abbrev calm : System
calm = record {
  now = noon;
  nonce = some (lit "once");
  mkdir_fails = false;
  temp = some (lit "1");
  write = whole;
  rename_fails = false;
  remove_fails = false;
}

abbrev keys : Material
keys = (lit "identity", lit "abc") ∷ []

abbrev first_request : CreateRequest
first_request = record {
  ref_id = lit "r1";
  account_ref = lit "a1";
  device_ref = [];
  material = keys;
  now = noon;
}

abbrev second_request : CreateRequest
second_request = record first_request { ref_id = lit "r2" }

abbrev rotation : RotateRequest
rotation = record {
  ref_id = lit "r1";
  expected_kek_version = lit "v1";
  new_kek_ref = [];
  new_kek_version = lit "v2";
  now = noon;
}

abbrev active : Str → Metadata
active ref = record {
  backend_id = lit "local";
  ref_id = ref;
  schema_version = 1;
  kek_ref = lit "kek";
  kek_version = lit "v1";
  created_at = noon;
  rotated_at = noon;
  revoked_at = zero_time;
  state = state_active;
  account_ref = lit "a1";
  device_ref = [];
}

abbrev nothing : Vault
nothing = record { cfg = settings; files = [] }

abbrev one : Vault
one = (create clear calm first_request nothing).1

abbrev two : Vault
two = (create clear calm second_request one).1

first_created : (create clear calm first_request nothing).0 ≡ ok (active (lit "r1"))
unfolding create plan_create commit write_bundle bundle_file write_file replace_file clean_up
    encrypt_material aead non_zero_time
first_created = refl

second_created : (create clear calm second_request one).0 ≡ ok (active (lit "r2"))
unfolding create plan_create commit write_bundle bundle_file write_file replace_file clean_up
    encrypt_material aead non_zero_time
second_created = refl

restore-create_example :
    (restore clear (lit "r1") one ≡ ok (active (lit "r1")))
    × (state_active ≡ state_active)
    × Holds clear one (lit "r1") (active (lit "r1")) keys
restore-create_example = restore-create clear calm first_request nothing clear_laws first_created

one-Holds : Holds clear one (lit "r1") (active (lit "r1")) keys
one-Holds = (restore-create clear calm first_request nothing clear_laws first_created).2

abbrev stored : Str → SealedBundle
stored ref = record {
  metadata = active ref;
  nonce = lit "once";
  ciphertext = frames (pairs_text keys);
}

two-Holds : Holds clear two (lit "r1") (active (lit "r1")) keys
unfolding create plan_create commit write_bundle bundle_file write_file replace_file clean_up
    encrypt_material aead non_zero_time read_bundle decrypt_material lookup insert remove frames
    frame unframe cons_first pairs_text text_pairs bundle_text text_bundle at first int_text
    text_int str_eq
two-Holds = record { bundle = stored (lit "r1"); metadata = refl; read = refl }

second-Holds : Holds clear two (lit "r2") (active (lit "r2")) keys
second-Holds = (restore-create clear calm second_request one clear_laws second_created).2

abbrev revoked : Metadata
revoked = record (active (lit "r1")) { state = state_revoked; revoked_at = noon }

first_revoked : (revoke clear calm (lit "r1") noon one).0 ≡ ok revoked
unfolding create plan_create commit write_bundle bundle_file write_file replace_file clean_up
    encrypt_material aead non_zero_time read_bundle decrypt_material lookup insert remove frames
    frame unframe cons_first pairs_text text_pairs bundle_text text_bundle at first int_text
    text_int revoke plan_revoke str_eq
first_revoked = refl

restore-revoke_example :
    (state_revoked ≡ state_revoked)
    × (restore clear (lit "r1") (revoke clear calm (lit "r1") noon one).1 ≡ err revoked_ref)
    × (inspect clear (lit "r1") (revoke clear calm (lit "r1") noon one).1 ≡ ok revoked)
    × (rotate clear calm rotation (revoke clear calm (lit "r1") noon one).1
        ≡ (err revoked_ref, (revoke clear calm (lit "r1") noon one).1))
restore-revoke_example =
    restore-revoke clear calm (lit "r1") noon one (active (lit "r1")) keys calm rotation clear_laws
      one-Holds refl first_revoked refl (λ e. cc) (λ e. cc)

abbrev rotated : Metadata
rotated = record (active (lit "r1")) { kek_version = lit "v2" }

first_rotated : (rotate clear calm rotation two).0 ≡ ok rotated
unfolding create plan_create commit write_bundle bundle_file write_file replace_file clean_up
    encrypt_material aead non_zero_time read_bundle decrypt_material lookup insert remove frames
    frame unframe cons_first pairs_text text_pairs bundle_text text_bundle at first int_text
    text_int rotate plan_rotate str_eq
first_rotated = refl

rotate-Holds_example :
    (lit "v1" ≡ lit "v1")
    × ((rotate clear calm rotation two).1.cfg.kek_version ≡ lit "v2")
    × (lit "v2" ≡ lit "v2")
    × (state_active ≡ state_active)
    × (noon ≡ noon)
    × Holds clear (rotate clear calm rotation two).1 (lit "r1") rotated keys
unfolding create plan_create commit write_bundle bundle_file write_file replace_file clean_up
    encrypt_material aead
rotate-Holds_example =
    rotate-Holds clear calm rotation two (active (lit "r1")) keys clear_laws two-Holds refl
      first_rotated

differ : (a b : Str) → str_eq a b ≡ false → a ≢ b
differ a b e = λ same. ground (arith, str_eq_iff a b)

apart : clear.path_for (lit "/var") (lit "r1") ≢ clear.path_for (lit "/var") (lit "r2")
apart = differ (98 ∷ lit "/var/r1") (98 ∷ lit "/var/r2") (unfold str_eq in refl)

rotate-strands_others_example :
    read_bundle clear (rotate clear calm rotation two).1 (lit "r2") ≡ err stale_kek_version
unfolding create plan_create commit write_bundle bundle_file write_file replace_file clean_up
    encrypt_material aead
rotate-strands_others_example =
    rotate-strands_others clear calm rotation two (active (lit "r1")) keys (lit "r2")
      (active (lit "r2")) keys clear_laws two-Holds refl second-Holds apart
      (differ (lit "v2") (lit "v1") (unfold str_eq in refl)) first_rotated

-- A disk that is full after two bytes.
abbrev full : System
full = record calm { write = stopped (1 ∷ 2 ∷ []) }

broken : (perform_sealed clear full (creating second_request) one).0 ≡ err write_failed
unfolding perform_sealed create plan_create commit write_bundle bundle_file write_file replace_file
    clean_up encrypt_material aead non_zero_time
broken = refl

one-IsFresh : IsFresh clear full one
unfolding create plan_create commit write_bundle bundle_file write_file replace_file clean_up
    encrypt_material aead non_zero_time lookup insert remove str_eq
one-IsFresh path suffix e = refl

failure_keeps_bundles_example :
    IsKept clear false one (perform_sealed clear full (creating second_request) one).1
    × ((ref : Str)
        → (restore clear ref (perform_sealed clear full (creating second_request) one).1
            ≡ restore clear ref one)
          × (inspect clear ref (perform_sealed clear full (creating second_request) one).1
              ≡ inspect clear ref one))
failure_keeps_bundles_example =
    failure_keeps_bundles clear full (creating second_request) one write_failed clear_laws
      one-IsFresh broken

abbrev stores : Stores
stores = (lit "main", one) ∷ []

abbrev hinted : CustodyRestoreInput
hinted = record {
  custody_ref = lit "r1";
  sealed_bundle_ref = [];
  kek_ref = lit "kek";
  kek_version = lit "v1";
}

abbrev output : CustodyOutput
output = record {
  custody_ref = lit "r1";
  metadata = custody_metadata (active (lit "r1"));
  audit_ref = custody_audit_ref (lit "r1");
  old_ref_state = [];
}

restored_ok : execute_custody_restore clear (lit "main") hinted stores ≡ ok output
unfolding execute_custody_restore lookup_signal_custody_store validate_custody_restore_hints restore
    create plan_create commit write_bundle bundle_file write_file replace_file clean_up
    encrypt_material aead non_zero_time read_bundle decrypt_material lookup insert remove frames
    frame unframe cons_first pairs_text text_pairs bundle_text text_bundle at first int_text
    text_int str_eq
restored_ok = refl

execute_custody_restore-IsRestored_example : IsRestored clear (lit "main") hinted stores output
execute_custody_restore-IsRestored_example =
    execute_custody_restore-IsRestored clear (lit "main") hinted stores output restored_ok
