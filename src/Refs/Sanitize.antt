-- ===== src/Refs/Sanitize.antt =====
-- What `sanitizeEnvelopeRefPart` guarantees (internal/envelope_store.go).
use workflow_plugin_signal.Base.{
  ℕ, ◌≡◌, Bool, true, false, not, none, ◌&&◌, [], ◌∷◌, arith, ◌==◌, Str,
}
use workflow_plugin_signal.Text.{has_prefix, match_front, trim, replacement}
use workflow_plugin_signal.Text.Laws.{
  All, All-replace, replace_fixed, trim_left_fixed, trim_right_fixed,
}
use workflow_plugin_signal.Refs.{sanitize_pairs, sanitize_envelope_ref_part}

-- neither a slash nor NUL
abbrev pub clean_char : ℕ → Bool
clean_char c = not (c == b'/') && not (c == 0)

abbrev pub IsClean : Str → Type 0
IsClean = All clean_char

sanitize_pairs-Cleans :
    (c : ℕ) (s : Str) → All clean_char (replacement (match_front sanitize_pairs (c ∷ s)) c).1
unfolding match_front has_prefix
sanitize_pairs-Cleans c s = ground arith

-- Whatever the input, the sanitized part holds no slash and no NUL.
pub sanitize-IsClean : (value : Str) → IsClean (sanitize_envelope_ref_part value)
unfolding sanitize_envelope_ref_part
sanitize-IsClean value =
    All-replace clean_char sanitize_pairs 0 (trim b'/' value) sanitize_pairs-Cleans

sanitize_no_match : (c : ℕ) (s : Str) → IsClean (c ∷ s) → match_front sanitize_pairs (c ∷ s) ≡ none
unfolding match_front has_prefix
sanitize_no_match c [] h = ground arith
sanitize_no_match c (d ∷ s) h = ground arith

not_slash : (c : ℕ) → clean_char c ≡ true → (c == b'/') ≡ false
not_slash c h = ground arith

trim_clean : (s : Str) → IsClean s → trim b'/' s ≡ s
unfolding trim
trim_clean s h =
    rw (trim_left_fixed clean_char (λ c. c == b'/') s not_slash h)
      (trim_right_fixed clean_char (λ c. c == b'/') s not_slash h)

sanitize_clean : (s : Str) → IsClean s → sanitize_envelope_ref_part s ≡ s
unfolding sanitize_envelope_ref_part
sanitize_clean s h =
    rw (trim_clean s h) (replace_fixed clean_char sanitize_pairs s sanitize_no_match h)

-- Sanitizing is idempotent.
sanitize_idem :
    (value : Str)
    → sanitize_envelope_ref_part (sanitize_envelope_ref_part value)
      ≡ sanitize_envelope_ref_part value
sanitize_idem value = sanitize_clean _ (sanitize-IsClean value)
