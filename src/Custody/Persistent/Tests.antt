-- ===== src/Custody/Persistent/Tests.antt =====
-- Runs of the persistent custody module (internal/custody.go), with cryptography that hides nothing
-- and a file that holds the bytes of the envelope's texts.
use workflow_plugin_signal.Base.{
  ℕ, ◌≡◌, refl, sym, ap, ◌∙◌, true, false, Option, none, some, List, [], ◌∷◌, ◌++◌, Str, lit,
  str_eq, lookup, ok, err,
}
use workflow_plugin_signal.Text.{has_prefix, to_lower, trim_space}
use workflow_plugin_signal.Envelope.{complete, partial}
use workflow_plugin_signal.Accounts.Ownership.{IsValid}
use workflow_plugin_signal.Custody.Framing.{
  frames, unframe, unframe-frames, at, first, some-injective,
}
use workflow_plugin_signal.Custody.Modules.{
  PersistentCustodyConfig, local_file, check_backend, new_persistent_custody_module,
}
use workflow_plugin_signal.Refs.{production_policy_mode}
use workflow_plugin_signal.Custody.Persistent.{
  PersistentCustodyEnvelope, SeedCrypto, SeedLaws, System, Process, decode_storage,
  persistent_custody_aead, encrypt_persistent_custody_seed, sealed_envelope, new_seed, write_seed,
  load_or_create_persistent_custody_seed, register_seed, resolve_signal_host_secret,
  init_persistent_custody, derive_persistent_custody_key,
}
use workflow_plugin_signal.Custody.Persistent.Restart.{
  init_persistent_custody-restart, init_persistent_custody-stuck,
}
use workflow_plugin_signal.Custody.Persistent.Registered.{init_persistent_custody-IsValid}

unfoldable envelope_text : PersistentCustodyEnvelope → List Str
envelope_text e =
    (e.version ∷ [])
    ∷ e.custody_ref
    ∷ e.account_ref
    ∷ e.backend
    ∷ e.key_handle
    ∷ e.host_secret_ref
    ∷ e.nonce
    ∷ e.ciphertext
    ∷ []

unfoldable text_envelope : List Str → PersistentCustodyEnvelope
text_envelope ss = record {
  version = first (at 0 ss);
  custody_ref = at 1 ss;
  account_ref = at 2 ss;
  backend = at 3 ss;
  key_handle = at 4 ss;
  host_secret_ref = at 5 ss;
  nonce = at 6 ss;
  ciphertext = at 7 ss;
}

-- A file starts with a mark.
unfoldable parse : List ℕ → Option PersistentCustodyEnvelope
parse [] = none
parse (mark ∷ raw) = some (text_envelope (unframe raw))

abbrev key_text : List ℕ
key_text = lit "0123456789abcdef"

abbrev clear : SeedCrypto
clear = record {
  sha256 = λ b. key_text;
  hmac_sha256 = λ seed label. seed ++ label;
  seal = λ key nonce plain aad. plain;
  unseal = λ key nonce sealed aad. some sealed;
  base64_encode = λ b. b;
  base64_decode = λ s. some s;
  marshal = λ e. some (1 ∷ frames (envelope_text e));
  unmarshal = parse;
}

text_envelope-envelope_text : (e : PersistentCustodyEnvelope) → text_envelope (envelope_text e) ≡ e
unfolding text_envelope envelope_text at first
text_envelope-envelope_text e = refl

clear_laws : SeedLaws clear
unfolding parse
clear_laws = record {
  unseal-seal = λ key nonce plain aad. refl;
  base64-round_trip = λ b. refl;
  unmarshal-marshal = λ e raw f.
      ap parse (sym (some-injective (1 ∷ frames (envelope_text e)) raw f))
      ∙ ap some
          (ap text_envelope (unframe-frames (envelope_text e)) ∙ text_envelope-envelope_text e);
}

abbrev calm : System
calm = record {
  read_fails = false;
  seed = some (lit "seed");
  nonce = some (lit "once");
  mkdir_fails = false;
  write = complete;
}

abbrev config : PersistentCustodyConfig
config = record {
  custody_ref = lit "c1";
  account_ref = lit "a1";
  backend = local_file;
  storage_path = lit "/var/seed";
  key_handle = lit "hsm";
  host_secret_ref = lit "test://signal/1";
  allow_test_backend = false;
  allow_local_file_custody = true;
  policy_mode = [];
}

abbrev nothing : Process
nothing = record {
  persistent = [];
  registry = record { custodies = []; accounts = [] };
  files = [];
}

nothing-IsValid : IsValid nothing.registry
unfolding lookup
nothing-IsValid = record { custodies = λ k c f. cc; accounts = λ k a f. cc }

secret_found : resolve_signal_host_secret clear none config.host_secret_ref ≡ ok key_text
unfolding resolve_signal_host_secret has_prefix
secret_found = refl

first_ok : (init_persistent_custody clear calm none config nothing).0 ≡ ok tt
unfolding init_persistent_custody resolve_signal_host_secret has_prefix
    load_or_create_persistent_custody_seed new_seed encrypt_persistent_custody_seed
    persistent_custody_aead register_seed write_seed lookup
first_ok = refl

abbrev left : Process
left = (init_persistent_custody clear calm none config nothing).1

abbrev restarted : Process
restarted = record nothing { files = left.files }

init_persistent_custody-restart_example :
    ((init_persistent_custody clear calm none config restarted).0 ≡ ok tt)
    × (derive_persistent_custody_key clear
          (lit "c1")
          (lit "mac")
          (init_persistent_custody clear calm none config restarted).1.persistent
        ≡ derive_persistent_custody_key clear (lit "c1") (lit "mac") left.persistent)
    × ((init_persistent_custody clear calm none config restarted).1.files ≡ restarted.files)
init_persistent_custody-restart_example =
    init_persistent_custody-restart clear calm calm none config nothing restarted (lit "mac")
      clear_laws first_ok refl refl

abbrev torn : System
torn = record calm { write = partial (some []) }

abbrev seed_file : List ℕ
seed_file =
    1 ∷ frames (envelope_text (sealed_envelope clear (lit "seed") config key_text (lit "once")))

seed_drawn : new_seed clear torn config key_text ≡ ok (lit "seed", seed_file)
unfolding new_seed encrypt_persistent_custody_seed persistent_custody_aead
seed_drawn = refl

no_file : lookup config.storage_path nothing.files ≡ none
unfolding lookup
no_file = refl

not_json : parse [] ≡ none
unfolding parse
not_json = refl

abbrev torn_restart : Process
torn_restart = record nothing {
  files = (init_persistent_custody clear torn none config nothing).1.files;
}

init_persistent_custody-stuck_example :
    init_persistent_custody clear calm none config torn_restart ≡ (err decode_storage, torn_restart)
init_persistent_custody-stuck_example =
    init_persistent_custody-stuck clear torn calm none config nothing torn_restart key_text
      (lit "seed") seed_file [] secret_found refl no_file seed_drawn refl not_json refl refl

accepted : new_persistent_custody_module config ≡ ok config
unfolding new_persistent_custody_module check_backend production_policy_mode str_eq to_lower
    trim_space
accepted = refl

init_persistent_custody-IsValid_example :
    IsValid (init_persistent_custody clear calm none config nothing).1.registry
init_persistent_custody-IsValid_example =
    init_persistent_custody-IsValid clear calm none config config nothing accepted nothing-IsValid
