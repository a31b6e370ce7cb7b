-- ===== src/Envelope/Retention/Scan.antt =====
-- The inner loop of `enforceRetentionLocked` (internal/envelope_store.go) finds an oldest entry.
use workflow_plugin_signal.Base.{
  ℤ, ◌<◌, ◌≤ℤ◌, ◌≡◌, ◌≢◌, refl, ◌||◌, [], ◌∷◌, foldl, ltb_ℤ, Str, is_empty, Dict, length, lookup,
  Distinct, str_eq, str_eq_iff, some, none, arith, inl, inr, Bool-cases,
}
use workflow_plugin_signal.Envelope.{EnvelopeRecord}
use workflow_plugin_signal.Envelope.Retention.{age_stamp, oldest_step, find_oldest}

abbrev FoundIn : Str × ℤ → Dict EnvelopeRecord → Type 0
FoundIn e l = (j : Str) × (s : EnvelopeRecord) × (e ≡ (j, age_stamp s)) × (lookup j l ≡ some s)

keep_tail :
    {e : Str × ℤ} (k : Str) (r : EnvelopeRecord) (l : Dict EnvelopeRecord)
    → lookup k l ≡ none
    → FoundIn e l
    → FoundIn e ((k, r) ∷ l)
unfolding lookup
keep_tail k r l h (j, s, e, f) = (j, s, e, ground (arith, str_eq_iff k j))

skip_second :
    {e : Str × ℤ} (k : Str) (r : EnvelopeRecord) (k' : Str) (r' : EnvelopeRecord)
    (l : Dict EnvelopeRecord)
    → lookup k' l ≡ none
    → lookup k ((k', r') ∷ l) ≡ none
    → FoundIn e ((k, r) ∷ l)
    → FoundIn e ((k, r) ∷ (k', r') ∷ l)
unfolding lookup
skip_second k r k' r' l h g (j, s, e, f) =
    (j, s, e, ground (arith, str_eq_iff k j, str_eq_iff k' j))

-- The scan ends at an entry of the map.
oldest_found :
    (k : Str) (r : EnvelopeRecord) (l : Dict EnvelopeRecord)
    → Distinct ((k, r) ∷ l)
    → (j : Str) × (s : EnvelopeRecord) × (foldl oldest_step (k, age_stamp r) l ≡ (j, age_stamp s))
      × (lookup j ((k, r) ∷ l) ≡ some s)
unfolding lookup oldest_step
oldest_found k r [] d = (k, r, refl, ground (arith, str_eq_iff k k))
oldest_found k r ((k', r') ∷ l) d =
    elim (Bool-cases (is_empty k || ltb_ℤ (age_stamp r') (age_stamp r))) [
      | inl newer ↦ rw newer (keep_tail k r ((k', r') ∷ l) d.0 (oldest_found k' r' l d.1))
      | inr older ↦
          rw older (skip_second k r k' r' l d.1.0 d.0 (oldest_found k r l (ground arith, d.1.1)))
    ]

pub find_oldest_found :
    (l : Dict EnvelopeRecord)
    → Distinct l
    → 0 < length l
    → (j : Str) × (s : EnvelopeRecord) × (find_oldest l ≡ (j, age_stamp s)) × (lookup j l ≡ some s)
unfolding find_oldest oldest_step
find_oldest_found [] d h = elim h [ ]
find_oldest_found ((k, r) ∷ l) d h = oldest_found k r l d

step_least :
    (e : Str × ℤ) (k : Str) (r : EnvelopeRecord)
    → e.0 ≢ []
    → k ≢ []
    → ((oldest_step e (k, r)).0 ≢ [])
      × ((oldest_step e (k, r)).1 ≤ℤ e.1)
      × ((oldest_step e (k, r)).1 ≤ℤ age_stamp r)
unfolding oldest_step
step_least (k', t) k r ne h = ground arith

head_nonempty :
    (k : Str) (r : EnvelopeRecord) (l : Dict EnvelopeRecord)
    → lookup [] ((k, r) ∷ l) ≡ none
    → (k ≢ []) × (lookup [] l ≡ none)
unfolding lookup str_eq
head_nonempty [] r l h = cc
head_nonempty (c ∷ k) r l h = (cc, h)

scan_le :
    (e : Str × ℤ) (l : Dict EnvelopeRecord)
    → e.0 ≢ []
    → lookup [] l ≡ none
    → (foldl oldest_step e l).1 ≤ℤ e.1
scan_le e [] ne h = omega arith
scan_le e ((k, r) ∷ l) ne h =
    let (nonempty, rest) = head_nonempty k r l h in
    let (ne', le, _) = step_least e k r ne nonempty in
    omega (arith, scan_le (oldest_step e (k, r)) l ne' rest)

-- Every entry is at least as new as what the scan ends at, if no key is empty.
scan_least :
    (e : Str × ℤ) (l : Dict EnvelopeRecord) (j : Str) (s : EnvelopeRecord)
    → e.0 ≢ []
    → lookup [] l ≡ none
    → lookup j l ≡ some s
    → (foldl oldest_step e l).1 ≤ℤ age_stamp s
unfolding lookup
scan_least e [] j s ne h f = cc
scan_least e ((k, r) ∷ l) j s ne h f =
    let (nonempty, rest) = head_nonempty k r l h in
    let (ne', _, le) = step_least e k r ne nonempty in
    elim (Bool-cases (str_eq k j)) [
      | inl here ↦
          let same : r ≡ s = ground arith in
          rw (← same) (omega (arith, scan_le (oldest_step e (k, r)) l ne' rest))
      | inr there ↦ scan_least (oldest_step e (k, r)) l j s ne' rest (ground arith)
    ]

pub find_oldest_least :
    (l : Dict EnvelopeRecord) (j : Str) (s : EnvelopeRecord)
    → lookup [] l ≡ none
    → lookup j l ≡ some s
    → (find_oldest l).1 ≤ℤ age_stamp s
unfolding find_oldest
find_oldest_least [] j s h f = unfold lookup in cc
find_oldest_least ((k, r) ∷ l) j s h f =
    let (nonempty, rest) = head_nonempty k r l h in
    elim (Bool-cases (str_eq k j)) [
      | inl here ↦
          let same : r ≡ s = unfold lookup in ground arith in
          rw (← same) (scan_le (k, age_stamp r) l nonempty rest)
      | inr there ↦ scan_least (k, age_stamp r) l j s nonempty rest (unfold lookup in ground arith)
    ]

pub nonempty_of_lookup :
    (k : Str) (r : EnvelopeRecord) (l : Dict EnvelopeRecord) → lookup k l ≡ some r → 0 < length l
unfolding lookup
nonempty_of_lookup k r [] f = cc
nonempty_of_lookup k r (e ∷ l) f = omega arith

pub some_entry :
    (q : Dict EnvelopeRecord)
    → 0 < length q
    → (k : Str) × (r : EnvelopeRecord) × (lookup k q ≡ some r)
unfolding lookup
some_entry [] h = elim h [ ]
some_entry ((k, r) ∷ q) h = (k, r, ground (arith, str_eq_iff k k))
