-- ===== src/Custody/Framing.antt =====
-- Texts in one list of numbers, for the tests of the custody stores (internal/custody).
use workflow_plugin_signal.Base.{ℕ, zero, suc, ◌≡◌, refl, ap, ◌∙◌, some, List, [], ◌∷◌, Str}

-- A text ends with 0, and its bytes are shifted by one.
unfoldable pub frame : Str → List ℕ → List ℕ
frame [] rest = 0 ∷ rest
frame (b ∷ s) rest = suc b ∷ frame s rest

unfoldable pub frames : List Str → List ℕ
unfolding frame
frames [] = []
frames (s ∷ ss) = frame s (frames ss)

unfoldable pub cons_first : ℕ → List Str → List Str
cons_first b [] = []
cons_first b (s ∷ ss) = (b ∷ s) ∷ ss

unfoldable pub unframe : List ℕ → List Str
unfolding cons_first
unframe [] = []
unframe (zero ∷ raw) = [] ∷ unframe raw
unframe (suc b ∷ raw) = cons_first b (unframe raw)

unframe-frame : (s : Str) (raw : List ℕ) → unframe (frame s raw) ≡ s ∷ unframe raw
unfolding unframe frame cons_first
unframe-frame [] raw = refl
unframe-frame (b ∷ s) raw = rw (unframe-frame s raw) refl

pub unframe-frames : (ss : List Str) → unframe (frames ss) ≡ ss
unfolding frames unframe
unframe-frames [] = refl
unframe-frames (s ∷ ss) = unframe-frame s (frames ss) ∙ ap (λ t. s ∷ t) (unframe-frames ss)

unfoldable pub at : ℕ → List Str → Str
at n [] = []
at zero (s ∷ ss) = s
at (suc n) (s ∷ ss) = at n ss

unfoldable pub first : Str → ℕ
first [] = 0
first (n ∷ _) = n

pub some-injective : {A : Type 0} (x y : A) → some x ≡ some y → x ≡ y
some-injective x y e = cc
