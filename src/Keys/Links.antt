-- ===== src/Keys/Links.antt =====
-- A username link that is created gives its username back (internal/steps.go).
use workflow_plugin_signal.Base.{
  ◌≡◌, refl, sym, subst, ap, ◌∙◌, ◌⊎◌, inl, inr, true, false, ◌==◌, Option, some, [], ◌∷◌,
  if◌then◌else◌, arith, Str, is_empty, length, ok, Bool-cases, Option-cases, Result-cases,
}
use workflow_plugin_signal.Text.{first_non_empty}
use workflow_plugin_signal.Session.{Bytes}
use workflow_plugin_signal.Keys.{
  Link, KeyLibrary, UsernameLinkCreateInput, UsernameLinkCreateOutput, UsernameLinkDecryptInput,
  first_bytes, sized, username_entropy, given_entropy, link_parts,
  execute_signal_username_link_create, execute_signal_username_link_decrypt,
}

-- A link that the library makes: its buffer reads as the link, its ciphertext decrypts to the
-- username, and its entropy has the library's size.
pub record LinkLaws (l : KeyLibrary) : Type 0 where
  pub parsed :
      (draw : Bytes) (username : Str) (entropy : Option Bytes) (link : Link)
      → l.create_link draw username entropy ≡ some link
      → l.parse_link_buffer (l.link_buffer link) ≡ some link
  pub decrypted :
      (draw : Bytes) (username : Str) (entropy : Option Bytes) (link : Link)
      → l.create_link draw username entropy ≡ some link
      → l.decrypt_username link.entropy link.encrypted_username ≡ some username
  pub size :
      (draw : Bytes) (username : Str) (entropy : Option Bytes) (link : Link)
      → l.create_link draw username entropy ≡ some link
      → length link.entropy ≡ l.link_entropy_size
  pub full :
      (draw : Bytes) (username : Str) (entropy : Option Bytes) (link : Link)
      → l.create_link draw username entropy ≡ some link
      → (is_empty link.encrypted_username ≡ false)
        × (is_empty (l.link_buffer link) ≡ false)
        × (is_empty link.entropy ≡ false)

-- A request whose parts are those of the link: what it leaves out is in the buffer.
pub record IsFrom (out : UsernameLinkCreateOutput) (config_entropy : Bytes)
    (input : UsernameLinkDecryptInput) : Type 0 where
  pub entropy :
      (first_bytes (input.entropy ∷ config_entropy ∷ []) ≡ out.entropy)
      ⊎ ((first_bytes (input.entropy ∷ config_entropy ∷ []) ≡ [])
          × (input.link_buffer ≡ out.link_buffer))
  pub encrypted :
      (input.encrypted_username ≡ out.encrypted_username)
      ⊎ ((input.encrypted_username ≡ []) × (input.link_buffer ≡ out.link_buffer))
  pub buffer : (input.link_buffer ≡ []) ⊎ (input.link_buffer ≡ out.link_buffer)

module _ (l : KeyLibrary) (laws : LinkLaws l) where
  -- The output of a link of the library for a username.
  pub record IsCreated (username : Str) (out : UsernameLinkCreateOutput) : Type 0 where
    pub parsed :
        l.parse_link_buffer out.link_buffer
        ≡ some (record { entropy = out.entropy; encrypted_username = out.encrypted_username })
    pub decrypted : l.decrypt_username out.entropy out.encrypted_username ≡ some username
    pub size : length out.entropy ≡ l.link_entropy_size
    pub encrypted_full : is_empty out.encrypted_username ≡ false
    pub buffer_full : is_empty out.link_buffer ≡ false
    pub entropy_full : is_empty out.entropy ≡ false

  abbrev output_of : Link → UsernameLinkCreateOutput
  output_of link = record {
    entropy = link.entropy;
    encrypted_username = link.encrypted_username;
    link_buffer = l.link_buffer link;
  }

  link-IsCreated :
      (draw : Bytes) (username : Str) (entropy : Option Bytes) (link : Link)
      → l.create_link draw username entropy ≡ some link
      → IsCreated username (output_of link)
  link-IsCreated draw username entropy link e =
      let (encrypted, buffer, full) = laws.full draw username entropy link e in
      record {
        parsed = laws.parsed draw username entropy link e;
        decrypted = laws.decrypted draw username entropy link e;
        size = laws.size draw username entropy link e;
        encrypted_full = encrypted;
        buffer_full = buffer;
        entropy_full = full;
      }

  output-IsCreated :
      (draw : Bytes) (config input : UsernameLinkCreateInput) (out : UsernameLinkCreateOutput)
      → execute_signal_username_link_create l draw config input ≡ ok out
      → IsCreated (first_non_empty (input.username ∷ config.username ∷ [])) out
  unfolding execute_signal_username_link_create
  output-IsCreated draw config input out e =
      let username = first_non_empty (input.username ∷ config.username ∷ []) in
      Result-cases (given_entropy l (first_bytes (input.entropy ∷ config.entropy ∷ [])))
        (λ entropy given. elim (Option-cases (l.create_link draw username entropy)) [
          | inl failed ↦ absurd (ground arith)
          | inr (link, made) ↦
              let same : output_of link ≡ out = ground arith in
              subst (IsCreated username) same (link-IsCreated draw username entropy link made)
        ])
        (λ x bad. absurd (ground arith))

  picked : (a v : Bytes) (P : Type 0) → (a ≡ v) ⊎ ((a ≡ []) × P) → (if is_empty a then v else a) ≡ v
  picked a v P (inl same) =
      rw same
        (elim (Bool-cases (is_empty v)) [ inl empty ↦ rw empty refl | inr full ↦ rw full refl ])
  picked a v P (inr (none_given, q)) = rw none_given refl

  -- A part that is left out stands in a buffer that is not.
  given_part :
      (a v : Bytes) (b buffer : Bytes)
      → is_empty buffer ≡ false
      → b ≡ []
      → (a ≡ v) ⊎ ((a ≡ []) × (b ≡ buffer))
      → a ≡ v
  given_part a v b buffer full bare (inl same) = same
  given_part a v b buffer full bare (inr (none_given, held)) =
      let empty : is_empty buffer ≡ true = ap is_empty (sym held ∙ bare) in absurd (ground arith)

  parts_of :
      (username : Str) (out : UsernameLinkCreateOutput) (config_entropy : Bytes)
      (input : UsernameLinkDecryptInput)
      → IsCreated username out
      → IsFrom out config_entropy input
      → link_parts l config_entropy input ≡ ok (out.entropy, out.encrypted_username)
  unfolding link_parts
  parts_of username out config_entropy input c f = elim f.buffer [
    | inl bare ↦
        let entropy = given_part _ out.entropy _ out.link_buffer c.buffer_full bare f.entropy in
        let encrypted =
          given_part _ out.encrypted_username _ out.link_buffer c.buffer_full bare f.encrypted in
        rw (bare, entropy, encrypted) refl
    | inr held ↦
        rw
          (
            held,
            c.buffer_full,
            c.parsed,
            picked _ out.entropy _ f.entropy,
            picked _ out.encrypted_username _ f.encrypted,
          )
          refl
  ]

  -- A username link that was created is decrypted to the username it was created for, whether its
  -- parts are given by themselves, in its buffer, or in both.
  pub execute_signal_username_link_decrypt-create :
      (draw : Bytes) (config input : UsernameLinkCreateInput) (out : UsernameLinkCreateOutput)
      (config_entropy : Bytes) (request : UsernameLinkDecryptInput)
      → execute_signal_username_link_create l draw config input ≡ ok out
      → IsFrom out config_entropy request
      → execute_signal_username_link_decrypt l config_entropy request
        ≡ ok (first_non_empty (input.username ∷ config.username ∷ []))
  unfolding execute_signal_username_link_decrypt username_entropy sized
  execute_signal_username_link_decrypt-create draw config input out config_entropy request e f =
      let c = output-IsCreated draw config input out e in
      let fits : (length out.entropy == l.link_entropy_size) ≡ true = ground (arith, c.size) in
      rw (parts_of _ out config_entropy request c f, fits, c.encrypted_full, c.decrypted) refl
