-- ===== src/Text/Laws.antt =====
-- Laws of the text functions, for the reference builders.
use workflow_plugin_signal.Base.{
  ℕ, zero, suc, ◌≡◌, refl, Bool, true, false, List, [], ◌∷◌, ◌++◌, arith, Str, none,
}
use workflow_plugin_signal.Text.{
  trim_left, trim_right, trim, replace_from, match_front, replacement,
}

-- every code point passes the test
abbrev pub All : (ℕ → Bool) → Str → Type 0
All p [] = Unit
All p (c ∷ s) = (p c ≡ true) × All p s

module _ (p : ℕ → Bool) where
  pub All-append : (s t : Str) → All p s → All p t → All p (s ++ t)
  All-append [] t a b = b
  All-append (c ∷ s) t a b = (a.0, All-append s t a.1 b)

  pub All-trim_left : (cut : ℕ → Bool) (s : Str) → All p s → All p (trim_left cut s)
  unfolding trim_left
  All-trim_left cut [] a = tt
  All-trim_left cut (c ∷ s) a = ground (arith, All-trim_left cut s a.1)

  pub All-trim_right : (cut : ℕ → Bool) (s : Str) → All p s → All p (trim_right cut s)
  unfolding trim_right
  All-trim_right cut [] a = tt
  All-trim_right cut (c ∷ s) a = ground (arith, All-trim_right cut s a.1)

  pub All-trim : (ch : ℕ) (s : Str) → All p s → All p (trim ch s)
  unfolding trim
  All-trim ch s a = All-trim_right _ (trim_left _ s) (All-trim_left _ s a)

-- What a replacer writes at each position passes the test.
abbrev pub Cleans : (ℕ → Bool) → List (Str × Str) → Type 0
Cleans p pairs = (c : ℕ) (s : Str) → All p (replacement (match_front pairs (c ∷ s)) c).1

pub All-replace :
    (p : ℕ → Bool) (pairs : List (Str × Str)) (skip : ℕ) (s : Str)
    → Cleans p pairs
    → All p (replace_from pairs skip s)
unfolding replace_from
All-replace p pairs skip [] h = tt
All-replace p pairs (suc skip) (c ∷ s) h = All-replace p pairs skip s h
All-replace p pairs zero (c ∷ s) h =
    All-append p _ (replace_from pairs (replacement (match_front pairs (c ∷ s)) c).0 s) (h c s)
      (All-replace p pairs _ s h)

-- A replacer leaves text alone in which nothing matches.
pub replace_fixed :
    (p : ℕ → Bool) (pairs : List (Str × Str)) (s : Str)
    → ((c : ℕ) (t : Str) → All p (c ∷ t) → match_front pairs (c ∷ t) ≡ none)
    → All p s
    → replace_from pairs 0 s ≡ s
unfolding replace_from
replace_fixed p pairs [] h a = refl
replace_fixed p pairs (c ∷ s) h a = rw (h c s a, replace_fixed p pairs s h a.1)

-- Trimming text that does not hold the character leaves it alone.
pub trim_left_fixed :
    (p cut : ℕ → Bool) (s : Str)
    → ((c : ℕ) → p c ≡ true → cut c ≡ false)
    → All p s
    → trim_left cut s ≡ s
unfolding trim_left
trim_left_fixed p cut [] h a = refl
trim_left_fixed p cut (c ∷ s) h a = rw (h c a.0)

pub trim_right_fixed :
    (p cut : ℕ → Bool) (s : Str)
    → ((c : ℕ) → p c ≡ true → cut c ≡ false)
    → All p s
    → trim_right cut s ≡ s
unfolding trim_right
trim_right_fixed p cut [] h a = refl
trim_right_fixed p cut (c ∷ s) h a = ground (arith, h c a.0, trim_right_fixed p cut s h a.1)
