-- ===== src/Text.antt =====
-- The functions of Go's `strings` package that the program calls, over lists of code points, and
-- `firstNonEmpty` of internal/steps.go.
-- `ToLower` and `TrimSpace` follow Unicode as far as the program can tell: the only code points
-- whose lower case is an ASCII letter are A-Z, the Kelvin sign and the dotted capital I, and the
-- program compares lowered text with ASCII only.
pub mod Laws
use workflow_plugin_signal.Base.{
  ℕ, zero, suc, ◌+◌, ◌-◌, ◌≡◌, Bool, true, false, ◌&&◌, ◌||◌, Option, none, some, List, [], ◌∷◌,
  ◌++◌, map, ltb, leb, ◌==◌, if◌then◌else◌, Str, is_empty, length,
}

-- strings.HasPrefix(s, prefix)
unfoldable pub has_prefix : Str → Str → Bool
has_prefix s [] = true
has_prefix [] (p ∷ ps) = false
has_prefix (c ∷ s) (p ∷ ps) = c == p && has_prefix s ps

-- strings.Contains(s, part)
unfoldable pub contains : Str → Str → Bool
contains [] part = is_empty part
contains (c ∷ s) part = has_prefix (c ∷ s) part || contains s part

unfoldable pub drop : ℕ → Str → Str
drop zero s = s
drop (suc n) [] = []
drop (suc n) (c ∷ s) = drop n s

-- strings.TrimPrefix(s, prefix)
unfoldable pub trim_prefix : Str → Str → Str
trim_prefix s p = if has_prefix s p then drop (length p) s else s

-- A cut set is a test on code points. The result of the call on the rest is read only where the
-- first code point is cut.
unfoldable pub trim_left : (ℕ → Bool) → Str → Str
trim_left cut [] = []
trim_left cut (c ∷ s) = let rest = trim_left cut s in if cut c then rest else c ∷ s

unfoldable pub trim_right : (ℕ → Bool) → Str → Str
trim_right cut [] = []
trim_right cut (c ∷ s) =
    let rest = trim_right cut s in if is_empty rest && cut c then [] else c ∷ rest

-- strings.Trim(s, cutset) for a cut set of one character
unfoldable pub trim : ℕ → Str → Str
unfolding trim_left trim_right
trim ch s = trim_right (λ c. c == ch) (trim_left (λ c. c == ch) s)

-- unicode.IsSpace
unfoldable pub is_space : ℕ → Bool
is_space c =
    (leb 9 c && leb c 13)
    || c == 32
    || c == 0x85
    || c == 0xa0
    || c == 0x1680
    || (leb 0x2000 c && leb c 0x200a)
    || c == 0x2028
    || c == 0x2029
    || c == 0x202f
    || c == 0x205f
    || c == 0x3000

-- strings.TrimSpace
unfoldable pub trim_space : Str → Str
unfolding trim_left trim_right is_space
trim_space s = trim_right is_space (trim_left is_space s)

unfoldable pub lower_char : ℕ → ℕ
lower_char c =
    if leb b'A' c && leb c b'Z'
    then c + 32
    else if c == 0x212a
    then b'k'
    else if c == 0x130
    then b'i'
    else c

-- strings.ToLower
unfoldable pub to_lower : Str → Str
unfolding lower_char
to_lower = map lower_char

-- The first old text, in the order of the arguments, that stands at the front of `s`.
unfoldable pub match_front : List (Str × Str) → Str → Option (Str × Str)
match_front [] s = none
match_front ((old, new) ∷ pairs) s =
    if has_prefix s old then some (old, new) else match_front pairs s

-- What a replacer does at one position: the code points that it skips after this one, and what it
-- writes.
abbrev pub replacement : Option (Str × Str) → ℕ → ℕ × Str
replacement none c = (0, c ∷ [])
replacement (some (old, new)) c = (length old - 1, new)

-- strings.NewReplacer(old1, new1, ...).Replace(s) for old texts that are not empty: from left to
-- right, without overlaps. The number counts the code points of a match that are still to skip.
unfoldable pub replace_from : List (Str × Str) → ℕ → Str → Str
unfolding match_front has_prefix
replace_from pairs skip [] = []
replace_from pairs (suc skip) (c ∷ s) = replace_from pairs skip s
replace_from pairs zero (c ∷ s) =
    let r : ℕ × Str = replacement (match_front pairs (c ∷ s)) c in r.1 ++ replace_from pairs r.0 s

abbrev pub replace : List (Str × Str) → Str → Str
replace pairs s = replace_from pairs 0 s

-- strings.ReplaceAll(s, old, new)
abbrev pub replace_all : Str → Str → Str → Str
replace_all old new s = replace ((old, new) ∷ []) s

-- firstNonEmpty(values...)
unfoldable pub first_non_empty : List Str → Str
first_non_empty [] = []
first_non_empty ([] ∷ values) = first_non_empty values
first_non_empty ((c ∷ s) ∷ values) = c ∷ s
