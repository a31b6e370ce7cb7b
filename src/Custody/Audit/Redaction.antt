-- ===== src/Custody/Audit/Redaction.antt =====
-- What the audit log shows of a field.
use mathlib.Core.List.{Memᴰ}
use mathlib.Core.List.Memᴰ.{head, tail}
use workflow_plugin_signal.Base.{
  ◌≡◌, refl, sym, ap, ◌∙◌, true, none, some, List, [], ◌∷◌, ◌++◌, arith, if◌then◌else◌, Str, lit,
  str_eq, str_eq_iff, Dict, lookup, Bool-cases, ◌⊎◌, inl, inr,
}
use workflow_plugin_signal.Text.{to_lower, contains, has_prefix}
use workflow_plugin_signal.Custody.Audit.{sensitive_parts, any_part, sensitive_field, redact_fields}

-- A key that names a secret: in lower case it holds one of four words.
pub record IsSecret (key : Str) : Type 0 where
  pub word : Str
  pub secret : Memᴰ word (lit "private_key" ∷ lit "secret" ∷ lit "token" ∷ lit "credential" ∷ [])
  pub before : Str
  pub after : Str
  pub holds : to_lower key ≡ before ++ (word ++ after)

has_prefix-append : (p s : Str) → has_prefix (p ++ s) p ≡ true
unfolding has_prefix
has_prefix-append [] s = refl
has_prefix-append (c ∷ p) s = let rest = has_prefix-append p s in ground arith

has_prefix-split : (s p : Str) → has_prefix s p ≡ true → (t : Str) × (s ≡ p ++ t)
unfolding has_prefix
has_prefix-split s [] e = (s, refl)
has_prefix-split [] (c ∷ p) e = cc
has_prefix-split (d ∷ s) (c ∷ p) e =
    let (t, rest) = has_prefix-split s p (ground arith) in
    let same : d ≡ c = ground arith in (t, rw (same, rest) refl)

contains-append : (before word after : Str) → contains (before ++ (word ++ after)) word ≡ true
unfolding contains
contains-append [] [] [] = refl
contains-append [] [] (c ∷ after) = ground (arith, has_prefix-append [] (c ∷ after))
contains-append [] (c ∷ word) after = ground (arith, has_prefix-append (c ∷ word) after)
contains-append (c ∷ before) word after =
    let rest = contains-append before word after in ground arith

contains-split :
    (s word : Str)
    → contains s word ≡ true
    → (before : Str) × (after : Str) × (s ≡ before ++ (word ++ after))
unfolding contains
contains-split [] [] e = ([], [], refl)
contains-split [] (c ∷ word) e = cc
contains-split (d ∷ s) word e = elim (Bool-cases (has_prefix (d ∷ s) word)) [
  | inl here ↦ let (t, split) = has_prefix-split (d ∷ s) word here in ([], t, split)
  | inr other ↦
      let (before, after, split) = contains-split s word (ground arith) in
      (d ∷ before, after, ap (λ x. d ∷ x) split)
]

any_part-mem :
    (s word : Str) (parts : List Str)
    → Memᴰ word parts
    → contains s word ≡ true
    → any_part s parts ≡ true
unfolding any_part
any_part-mem s word [] i e = elim i [ ]
any_part-mem s word (p ∷ parts) (head same) e =
    let here : contains s p ≡ true = ap (λ x. contains s x) (sym same) ∙ e in ground arith
any_part-mem s word (p ∷ parts) (tail i) e =
    let rest = any_part-mem s word parts i e in ground arith

mem-any_part :
    (s : Str) (parts : List Str)
    → any_part s parts ≡ true
    → (word : Str) × Memᴰ word parts × (contains s word ≡ true)
unfolding any_part
mem-any_part s [] e = cc
mem-any_part s (p ∷ parts) e = elim (Bool-cases (contains s p)) [
  | inl here ↦ (p, head refl, here)
  | inr other ↦ let (word, i, found) = mem-any_part s parts (ground arith) in (word, tail i, found)
]

sensitive-IsSecret : (key : Str) → sensitive_field key ≡ true → IsSecret key
unfolding sensitive_field
sensitive-IsSecret key e =
    let (word, i, found) = mem-any_part (to_lower key) sensitive_parts e in
    let (before, after, split) = contains-split (to_lower key) word found in
    record { word = word; secret = i; before = before; after = after; holds = split }

IsSecret-sensitive : (key : Str) → IsSecret key → sensitive_field key ≡ true
unfolding sensitive_field
IsSecret-sensitive key h =
    any_part-mem (to_lower key) h.word sensitive_parts h.secret
      (ap (λ s. contains s h.word) h.holds ∙ contains-append h.before h.word h.after)

lookup_redacted :
    (fields : Dict Str) (key : Str)
    → ((lookup key fields ≡ none) × (lookup key (redact_fields fields) ≡ none))
      ⊎ ((value : Str) × (lookup key fields ≡ some value)
          × (lookup key (redact_fields fields)
              ≡ some (if sensitive_field key then lit "[redacted]" else value)))
unfolding lookup redact_fields
lookup_redacted [] key = inl (refl, refl)
lookup_redacted ((k, value) ∷ fields) key = elim (Bool-cases (str_eq k key)) [
  | inl here ↦ rw (here, (str_eq_iff k key).0 here) (inr (value, refl, refl))
  | inr other ↦ rw other (lookup_redacted fields key)
]

-- The redacted fields have exactly the keys of the fields. A key that in lower case holds
-- "private_key", "secret", "token" or "credential" shows the mark, whatever its value, and every
-- other key shows its value.
pub lookup-redact_fields :
    (fields : Dict Str) (key : Str)
    → ((lookup key fields ≡ none) × (lookup key (redact_fields fields) ≡ none))
      ⊎ ((value : Str) × (lookup key fields ≡ some value)
          × ((IsSecret key × (lookup key (redact_fields fields) ≡ some (lit "[redacted]")))
              ⊎ ((¬ IsSecret key) × (lookup key (redact_fields fields) ≡ some value))))
lookup-redact_fields fields key = elim (lookup_redacted fields key) [
  | inl absent ↦ inl absent
  | inr (value, found, shown) ↦ elim (Bool-cases (sensitive_field key)) [
    | inl yes_secret ↦
        inr (value, found, inl (sensitive-IsSecret key yes_secret, rw yes_secret at shown))
    | inr plain ↦
        inr (value, found, inr (λ h. cc (IsSecret-sensitive key h, plain), rw plain at shown))
  ]
]

-- So a secret does not show: two logs whose fields differ only under sensitive keys are equal.
redact_fields-hides :
    (key v v' : Str) (fields : Dict Str)
    → sensitive_field key ≡ true
    → redact_fields ((key, v) ∷ fields) ≡ redact_fields ((key, v') ∷ fields)
unfolding redact_fields
redact_fields-hides key v v' fields s = rw s
