-- ===== src/Custody/Sealed/Codec.antt =====
-- A concrete `Crypto` for the tests of the sealed store (internal/custody/sealed_store.go), and its
-- laws: cryptography that hides nothing, and bundles and material as one list of texts.
use workflow_plugin_signal.Base.{
  ℤ, zero, suc, pos, negsuc, ◌≡◌, refl, sym, ap, ◌∙◌, some, List, [], ◌∷◌, ◌++◌, Str, lit, arith,
}
use workflow_plugin_signal.Custody.Framing.{
  frames, unframe, unframe-frames, at, first, some-injective,
}
use workflow_plugin_signal.Custody.Sealed.{Material, SealedBundle, Crypto, CryptoLaws}

unfoldable pub pairs_text : Material → List Str
pairs_text [] = []
pairs_text ((k, v) ∷ m) = k ∷ v ∷ pairs_text m

unfoldable pub text_pairs : List Str → Material
text_pairs [] = []
text_pairs (k ∷ []) = []
text_pairs (k ∷ v ∷ ss) = (k, v) ∷ text_pairs ss

text_pairs-pairs_text : (m : Material) → text_pairs (pairs_text m) ≡ m
unfolding pairs_text text_pairs
text_pairs-pairs_text [] = refl
text_pairs-pairs_text ((k, v) ∷ m) = ap (λ t. (k, v) ∷ t) (text_pairs-pairs_text m)

unfoldable pub int_text : ℤ → Str
int_text (pos n) = 0 ∷ n ∷ []
int_text (negsuc n) = 1 ∷ n ∷ []

unfoldable pub text_int : Str → ℤ
text_int (zero ∷ n ∷ _) = pos n
text_int (suc _ ∷ n ∷ _) = negsuc n
text_int _ = pos 0

text_int-int_text : (z : ℤ) → text_int (int_text z) ≡ z
unfolding text_int int_text
text_int-int_text (pos n) = refl
text_int-int_text (negsuc n) = refl

unfoldable pub bundle_text : SealedBundle → List Str
bundle_text b =
    b.metadata.backend_id
    ∷ b.metadata.ref_id
    ∷ (b.metadata.schema_version ∷ [])
    ∷ b.metadata.kek_ref
    ∷ b.metadata.kek_version
    ∷ int_text b.metadata.created_at.seconds
    ∷ (b.metadata.created_at.nanos ∷ [])
    ∷ int_text b.metadata.rotated_at.seconds
    ∷ (b.metadata.rotated_at.nanos ∷ [])
    ∷ int_text b.metadata.revoked_at.seconds
    ∷ (b.metadata.revoked_at.nanos ∷ [])
    ∷ b.metadata.state
    ∷ b.metadata.account_ref
    ∷ b.metadata.device_ref
    ∷ b.nonce
    ∷ b.ciphertext
    ∷ []

unfoldable pub text_bundle : List Str → SealedBundle
text_bundle ss = record {
  metadata = record {
    backend_id = at 0 ss;
    ref_id = at 1 ss;
    schema_version = first (at 2 ss);
    kek_ref = at 3 ss;
    kek_version = at 4 ss;
    created_at = record { seconds = text_int (at 5 ss); nanos = first (at 6 ss) };
    rotated_at = record { seconds = text_int (at 7 ss); nanos = first (at 8 ss) };
    revoked_at = record { seconds = text_int (at 9 ss); nanos = first (at 10 ss) };
    state = at 11 ss;
    account_ref = at 12 ss;
    device_ref = at 13 ss;
  };
  nonce = at 14 ss;
  ciphertext = at 15 ss;
}

text_bundle-bundle_text : (b : SealedBundle) → text_bundle (bundle_text b) ≡ b
unfolding text_bundle bundle_text at first
text_bundle-bundle_text b =
    rw
      (
        text_int-int_text b.metadata.created_at.seconds,
        text_int-int_text b.metadata.rotated_at.seconds,
        text_int-int_text b.metadata.revoked_at.seconds,
      )
      refl

-- Nothing is hidden: a seal is the text itself.
abbrev pub clear : Crypto
clear = record {
  path_for = λ dir ref. 98 ∷ (dir ++ (lit "/" ++ ref));
  temp_for = λ path suffix. 46 ∷ (path ++ suffix);
  sha256 = λ b. b;
  seal = λ key nonce plain aad. plain;
  unseal = λ key nonce sealed aad. some sealed;
  base64_encode = λ b. b;
  base64_decode = λ s. some s;
  marshal_material = λ m. frames (pairs_text m);
  unmarshal_material = λ raw. some (text_pairs (unframe raw));
  marshal_bundle = λ b. some (frames (bundle_text b));
  unmarshal_bundle = λ raw. some (text_bundle (unframe raw));
}

first_apart : {s t : Str} → 46 ∷ s ≡ 98 ∷ t → ⊥
first_apart e = ground arith

pub clear_laws : CryptoLaws clear
clear_laws = record {
  temp-apart = λ dir ref suffix dir' ref' e. first_apart e;
  unseal-seal = λ key nonce plain aad. refl;
  decode-encode = λ b. refl;
  material-round_trip =
      λ m. ap some (ap text_pairs (unframe-frames (pairs_text m)) ∙ text_pairs-pairs_text m);
  bundle-round_trip = λ b raw e. ap some (
      ap (λ t. text_bundle (unframe t)) (sym (some-injective (frames (bundle_text b)) raw e))
      ∙ (ap text_bundle (unframe-frames (bundle_text b)) ∙ text_bundle-bundle_text b));
}
