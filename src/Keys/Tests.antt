-- ===== src/Keys/Tests.antt =====
-- Key steps at concrete inputs, with a library that encrypts nothing.
use workflow_plugin_signal.Base.{
  ◌≡◌, refl, subst, inr, false, Option, none, some, [], ◌∷◌, Str, lit, length, is_empty, ok,
}
use workflow_plugin_signal.Text.{first_non_empty}
use workflow_plugin_signal.Session.{Bytes, first_non_zero}
use workflow_plugin_signal.Keys.{
  Link, KeyLibrary, AccountKeysInput, AccountKeysOutput, UsernameLinkCreateInput,
  UsernameLinkCreateOutput, UsernameLinkDecryptInput, first_bytes, sized, service_id_from_aci,
  resolve_pin_salt, resolve_pool, backup_id_of, pin_keys, given_entropy,
  execute_signal_account_keys, execute_signal_username_link_create,
  execute_signal_username_link_decrypt,
}
use workflow_plugin_signal.Keys.Links.{
  LinkLaws, IsFrom, execute_signal_username_link_decrypt-create,
}
use workflow_plugin_signal.Keys.Bounds.{SizeLaws, IsSized, execute_signal_account_keys-IsSized}

abbrev rest : Bytes → Option Link
rest [] = none
rest (c ∷ encrypted) = some (record { entropy = 7 ∷ []; encrypted_username = encrypted })

abbrev opened : Bytes → Option Str
opened [] = none
opened (c ∷ username) = some username

abbrev bytes_16 : Bytes
bytes_16 = 1 ∷ 2 ∷ 3 ∷ 4 ∷ 5 ∷ 6 ∷ 7 ∷ 8 ∷ 1 ∷ 2 ∷ 3 ∷ 4 ∷ 5 ∷ 6 ∷ 7 ∷ 8 ∷ []

abbrev bytes_32 : Bytes
bytes_32 =
    1 ∷ 2 ∷ 3 ∷ 4 ∷ 5 ∷ 6 ∷ 7 ∷ 8 ∷ 1 ∷ 2 ∷ 3 ∷ 4 ∷ 5 ∷ 6 ∷ 7 ∷ 8 ∷ 1 ∷ 2 ∷ 3 ∷ 4 ∷ 5 ∷ 6 ∷ 7 ∷ 8
    ∷ 1 ∷ 2 ∷ 3 ∷ 4 ∷ 5 ∷ 6 ∷ 7 ∷ 8 ∷ []

abbrev toy : KeyLibrary
toy = record {
  PublicKey = Bytes;
  Fingerprint = Bytes;
  Pool = Str;
  BackupKey = Bytes;
  uuid_len = 16;
  link_entropy_size = 1;
  hex_decode = λ text. some text;
  hex_encode = λ raw. raw;
  deserialize_key = λ raw. some raw;
  new_fingerprint = λ version iterations local local_key remote remote_key. some local_key;
  serialize = λ fp. some fp;
  display_string = λ fp. fp;
  generate_pool = λ draw. some draw;
  parse_pool = λ text. some text;
  pool_text = λ pool. pool;
  derive_backup_key = λ pool. pool;
  derive_svr_key = λ pool. pool;
  backup_key_bytes = λ key. key;
  derive_backup_id = λ key aci. bytes_16;
  make_pin_salt = λ username group_id. bytes_32;
  create_pin_hash = λ pin salt. record { access_key = pin; encryption_key = salt };
  create_link = λ draw username entropy.
      some (record { entropy = 7 ∷ []; encrypted_username = 9 ∷ username });
  link_buffer = λ link. 0 ∷ link.encrypted_username;
  parse_link_buffer = rest;
  decrypt_username = λ entropy encrypted. opened encrypted;
}

some_link : (a b : Link) → ◌≡◌ {A = Option Link} (some a) (some b) → a ≡ b
some_link a b e = cc

toy_links : LinkLaws toy
toy_links = record {
  parsed = λ draw username entropy link e.
      subst (λ x. rest (0 ∷ x.encrypted_username) ≡ some x) (some_link _ link e) refl;
  decrypted = λ draw username entropy link e.
      subst (λ x. opened x.encrypted_username ≡ some username) (some_link _ link e) refl;
  size =
      λ draw username entropy link e. subst (λ x. length x.entropy ≡ 1) (some_link _ link e) refl;
  full = λ draw username entropy link e.
      subst
        (λ x.
          (is_empty x.encrypted_username ≡ false)
          × (is_empty (0 ∷ x.encrypted_username) ≡ false)
          × (is_empty x.entropy ≡ false))
        (some_link _ link e) (refl, refl, refl);
}

toy_sizes : SizeLaws toy
toy_sizes = record { salt = λ username group_id. refl; backup_id = λ key aci. refl }

abbrev no_config : UsernameLinkCreateInput
no_config = record { username = []; entropy = [] }

abbrev of_bob : UsernameLinkCreateInput
of_bob = record { username = lit "bob.1"; entropy = [] }

abbrev bob_link : UsernameLinkCreateOutput
bob_link = record {
  entropy = 7 ∷ [];
  encrypted_username = 9 ∷ lit "bob.1";
  link_buffer = 0 ∷ 9 ∷ lit "bob.1";
}

bob_created : execute_signal_username_link_create toy [] no_config of_bob ≡ ok bob_link
unfolding execute_signal_username_link_create given_entropy first_bytes first_non_empty
bob_created = refl

abbrev by_buffer : UsernameLinkDecryptInput
by_buffer = record { entropy = []; encrypted_username = []; link_buffer = 0 ∷ 9 ∷ lit "bob.1" }

buffer-IsFrom : IsFrom bob_link [] by_buffer
unfolding first_bytes
buffer-IsFrom = record {
  entropy = inr (refl, refl);
  encrypted = inr (refl, refl);
  buffer = inr refl;
}

execute_signal_username_link_decrypt-create_example :
    execute_signal_username_link_decrypt toy [] by_buffer
    ≡ ok (first_non_empty (lit "bob.1" ∷ [] ∷ []))
execute_signal_username_link_decrypt-create_example =
    execute_signal_username_link_decrypt-create toy toy_links [] no_config of_bob bob_link []
      by_buffer bob_created buffer-IsFrom

abbrev keys_config : AccountKeysInput
keys_config = record {
  entropy_pool = [];
  aci = [];
  pin = [];
  pin_salt = [];
  pin_salt_username = [];
  pin_salt_group_id = 0;
}

abbrev keys_input : AccountKeysInput
keys_input = record keys_config {
  entropy_pool = lit "pool";
  pin = lit "1234";
  pin_salt = bytes_32;
  aci = bytes_16;
}

abbrev keys_output : AccountKeysOutput
keys_output = record {
  entropy_pool = lit "pool";
  svr_key = lit "pool";
  backup_key = lit "pool";
  backup_id = bytes_16;
  pin_salt = bytes_32;
  pin_access_key = lit "1234";
  pin_encryption_key = bytes_32;
}

keys_derived : execute_signal_account_keys toy [] keys_config keys_input ≡ ok keys_output
unfolding execute_signal_account_keys resolve_pool backup_id_of service_id_from_aci sized pin_keys
    resolve_pin_salt first_bytes first_non_empty first_non_zero
keys_derived = refl

execute_signal_account_keys-IsSized_example : IsSized toy keys_config keys_input keys_output
execute_signal_account_keys-IsSized_example =
    execute_signal_account_keys-IsSized toy toy_sizes [] keys_config keys_input keys_output
      keys_derived
